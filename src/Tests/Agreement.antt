-- ===== src/Tests/Agreement.antt =====
-- Both engines on the dataset of a few records.
use Prim.Axiom.{lem}
use test_permission.Base.{
  Bool, true, false, String, List, [], ◌∷◌, ◌≡◌, ◌↔◌, ◌⊎◌, inl, inr, refl, arith, Memᴰ,
  if◌then◌else◌, ◌==◌, ◌&&◌, ◌||◌, Bool-cases, eq_iff, none,
}
use test_permission.Base.Members.{mem-cons, not-mem-nil}
use test_permission.Base.Fallible.{Fallible, ok}
use test_permission.Domain.{Result, allow}
use test_permission.Cedar
use test_permission.Cedar.{Engine}
use test_permission.Spicedb
use test_permission.Spicedb.{Client, Normals, Permissionship, CheckRequest}
use test_permission.Seed.Types.{Fact}
use test_permission.Seed.Relationships.{Relationship}
use test_permission.Seed.SpicedbWriter.Phases.{rels_given}
use test_permission.Postgres.{load_for_check}
use test_permission.Postgres.Queries
use test_permission.Policies.{Permit, Forbid, FollowsPolicies}
use test_permission.Schema.{HasPermission}
use test_permission.Seed.Rows.{Cell, Row, row_of, cols_of}
use test_permission.Seed.PostgresWriter.Phases.{rows_of}
use test_permission.Database.{Database, Row1, Has, cell, SelectsPersonaRoles, SelectsRoleGrants}
use test_permission.Equivalence.Rbac.{endpoint, rbac_request}
use test_permission.Equivalence.Rbac.Sides.{HoldsRole, GrantsMatch}
use test_permission.Equivalence.Rbac.Agreement.{FollowsSchema, rbac_engines_agree}
use test_permission.Tests.Samples.{integers, grant, assignment}
use test_permission.Tests.Selecting.{struct_of}

abbrev dataset : List Fact
dataset = Fact.persona_role assignment ∷ Fact.role_grant grant ∷ []

abbrev small_tables : Database
small_tables table = rows_of table dataset

abbrev small_rels : List Relationship
small_rels = rels_given struct_of dataset

abbrev assigned_row : Row
assigned_row = Cell.text "p1" ∷ Cell.text "r1" ∷ Cell.text "o1" ∷ []

abbrev granted_row : Row
granted_row = Cell.text "r1" ∷ Cell.text "endpoint" ∷ Cell.text "e1" ∷ Cell.text "execute" ∷ []

abbrev pub is_yes : {P : Type 0} → Dec P → Bool
is_yes (yes p) = true
is_yes (no n) = false

is_yes_iff : {P : Type 0} (d : Dec P) → (is_yes d ≡ true) ↔ P
is_yes_iff (yes p) = (λ _. p, λ _. refl)
is_yes_iff (no n) = (λ h. cc, λ p. absurd (n p))

abbrev pub answer_of : {P : Type 0} → Dec P → Fallible Permissionship
answer_of (yes p) = ok Permissionship.has_permission
answer_of (no n) = ok Permissionship.no_permission

answer_of_cases :
    {P : Type 0} (d : Dec ∥ P ∥₁)
    → ((answer_of d ≡ ok Permissionship.has_permission) × ∥ P ∥₁)
      ⊎ ((answer_of d ≡ ok Permissionship.no_permission) × (¬ P))
answer_of_cases (yes p) = inl (refl, p)
answer_of_cases (no n) = inr (refl, λ h. n ∣ h ∣₁)

-- An engine and a server that decide, by the excluded middle, what they have to decide.
abbrev pub policy_engine : Engine
policy_engine = record {
  PolicySet = Unit {0};
  parse = λ _. ok tt;
  authorize = λ _ store r. is_yes (lem (∥ Permit store r × (¬ (Forbid store r)) ∥₁) squash₁);
}

pub policy_engine-FollowsPolicies : FollowsPolicies policy_engine tt
policy_engine-FollowsPolicies store r =
    is_yes_iff (lem (∥ Permit store r × (¬ (Forbid store r)) ∥₁) squash₁)

abbrev pub PermissionsOf : List Relationship → CheckRequest (Normals integers.T) → Type 0
PermissionsOf rels r = HasPermission rels [] r.subject_id r.object_type r.object_id r.permission

abbrev pub schema_client : List Relationship → Client integers.T
schema_client rels = record {
  Struct = Normals integers.T;
  new_struct = ok;
  check_permission = λ r. answer_of (lem (∥ PermissionsOf rels r ∥₁) squash₁);
}

-- Ids that such a server accepts.
abbrev pub accepts_sample : String → Bool
accepts_sample id = id == "p1" || id == "e1" || id == "d1"

pub schema_client-FollowsSchema :
    (rels : List Relationship) → FollowsSchema integers (schema_client rels) accepts_sample rels
schema_client-FollowsSchema rels r _ _ _ _ _ =
    answer_of_cases (lem (∥ PermissionsOf rels r ∥₁) squash₁)

-- The statements of the loader, on these tables.
abbrev pub queries : Queries.Queries
queries = record {
  persona_roles = λ persona. ok (if "p1" == persona then "r1" ∷ [] else []);
  role_grants = λ type id action.
      ok (if "endpoint" == type && "e1" == id && "execute" == action then "r1" ∷ [] else []);
  unit_memberships = λ _. ok [];
  document_folder = λ _. ok none;
  folder_chain = λ _. ok [];
  org_chain = λ _. ok [];
  persona_attrs = λ _. ok none;
  abac_document = λ _. ok none;
  pbac_assignments = λ _. ok [];
  purchase_order = λ _. ok none;
  pbac_policy = λ _. ok none;
  acl_entries = λ id. ok (if "d1" == id then ("p1", "edit") ∷ [] else []);
}

pub mem_single {ℓ} : {A : Type ℓ} {a x : A} → Memᴰ a (x ∷ []) → a ≡ x
mem_single m = elim (mem-cons m) [ inl e ↦ e | inr rest ↦ absurd (not-mem-nil rest) ]

queries-SelectsPersonaRoles : SelectsPersonaRoles queries small_tables
unfolding row_of rows_of cols_of cell
queries-SelectsPersonaRoles persona = (_, refl, λ role. (to role, from role))
  where
    to :
        (role : String)
        → Memᴰ role (if "p1" == persona then "r1" ∷ [] else [])
        → Row1 small_tables "persona_roles" "persona_id"
            (Cell.text persona)
            (λ row. Has "persona_roles" "role_id" row (Cell.text role))
    to role m = elim (Bool-cases ("p1" == persona)) [
      | inl same ↦
          let e = mem_single (rw same at m) in
          (
            assigned_row,
            Memᴰ.head refl,
            ground (arith, same, eq_iff "p1" persona),
            ground (arith, e),
          )
      | inr other ↦ absurd (not-mem-nil (rw other at m))
    ]

    from :
        (role : String)
        → Row1 small_tables "persona_roles" "persona_id"
            (Cell.text persona)
            (λ row. Has "persona_roles" "role_id" row (Cell.text role))
        → Memᴰ role (if "p1" == persona then "r1" ∷ [] else [])
    from role (row, m, a, b) =
        let e : row ≡ assigned_row = mem_single m in
        let same : ("p1" == persona) ≡ true = ground (arith, e, a, eq_iff "p1" persona) in
        rw same (Memᴰ.head (ground (arith, e, b)))

queries-SelectsRoleGrants : SelectsRoleGrants queries small_tables
unfolding row_of rows_of cols_of cell
queries-SelectsRoleGrants type id action = (_, refl, λ role. (to role, from role))
  where
    wanted : Bool
    wanted = "endpoint" == type && "e1" == id && "execute" == action

    to :
        (role : String)
        → Memᴰ role
            (if "endpoint" == type && "e1" == id && "execute" == action then "r1" ∷ [] else [])
        → Row1 small_tables "role_grants" "resource_type" (Cell.text type) (λ row.
          Has "role_grants" "resource_id" row (Cell.text id)
          × Has "role_grants" "action" row (Cell.text action)
          × Has "role_grants" "role_id" row (Cell.text role))
    to role m = elim (Bool-cases ("endpoint" == type && "e1" == id && "execute" == action)) [
      | inl same ↦
          let e = mem_single (rw same at m) in
          (
            granted_row,
            Memᴰ.head refl,
            ground (arith, same, eq_iff "endpoint" type),
            (
              ground (arith, same, eq_iff "e1" id),
              ground (arith, same, eq_iff "execute" action),
              ground (arith, e),
            ),
          )
      | inr other ↦ absurd (not-mem-nil (rw other at m))
    ]

    from :
        (role : String)
        → Row1 small_tables "role_grants" "resource_type" (Cell.text type) (λ row.
          Has "role_grants" "resource_id" row (Cell.text id)
          × Has "role_grants" "action" row (Cell.text action)
          × Has "role_grants" "role_id" row (Cell.text role))
        → Memᴰ role
            (if "endpoint" == type && "e1" == id && "execute" == action then "r1" ∷ [] else [])
    from role (row, m, a, (b, c, d)) =
        let e : row ≡ granted_row = mem_single m in
        let same : ("endpoint" == type && "e1" == id && "execute" == action) ≡ true =
          ground
            (arith, e, a, b, c, eq_iff "endpoint" type, eq_iff "e1" id, eq_iff "execute" action) in
        rw same (Memᴰ.head (ground (arith, e, d)))

dataset-GrantsMatch : GrantsMatch dataset endpoint
dataset-GrantsMatch g m type = elim (mem-cons m) [
  | inl e ↦ absurd (cc e)
  | inr rest ↦ let e = mem_single rest in ground (arith, e)
]

rbac_engines_agree_example :
    (c s : Result) × (Cedar.check policy_engine tt
        (load_for_check queries)
        (rbac_request endpoint "p1" "e1")
      ≡ ok c)
    × (Spicedb.check integers
          (schema_client small_rels)
          "minimize_latency"
          (rbac_request endpoint "p1" "e1")
        ≡ ok s)
    × (c.decision ≡ s.decision)
    × ((c.decision ≡ allow) ↔ ∥ HoldsRole dataset endpoint "p1" "e1" ∥₁)
rbac_engines_agree_example =
    rbac_engines_agree policy_engine tt queries small_tables integers (schema_client small_rels)
      accepts_sample "minimize_latency" struct_of small_rels dataset endpoint "p1" "e1"
      policy_engine-FollowsPolicies (schema_client-FollowsSchema small_rels) refl refl
      (λ table row. (λ m. m, λ m. m)) queries-SelectsPersonaRoles queries-SelectsRoleGrants
      (λ r. (λ m. m, λ m. m)) dataset-GrantsMatch
