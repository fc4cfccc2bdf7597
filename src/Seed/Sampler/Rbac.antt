-- ===== src/Seed/Sampler/Rbac.antt =====
-- internal/seed/sampler.go `RoleGrant`, `PersonaRole` and `flushRBACPersona`.
use test_permission.Base.{
  Bool, true, false, ℕ, zero, suc, String, none, some, List, [], ◌∷◌, ◌++◌, ◌==◌, length, any,
  lookup, insert,
}
use test_permission.Seed.Types.{RoleGrant, PersonaRole, RegistryResource}
use test_permission.Seed.Program.{Program, done, ◌>>=◌, choose}
use test_permission.Seed.Generator.{Generator}
use test_permission.Seed.Sampler.{Tuple, Sampler, slice_of, need, add, skips}

unfoldable pub role_grant : RoleGrant → Sampler → Sampler
unfolding lookup insert
role_grant g s = record s {
  grants_by_role =
      insert g.role_id (slice_of g.role_id s.grants_by_role ++ (g ∷ [])) s.grants_by_role;
}

abbrev pub kind_to_type : List (String × String)
kind_to_type = ("endpoint", "Endpoint") ∷ ("page", "Page") ∷ ("component", "Component") ∷ []

unfoldable pub type_of_kind : String → String
unfolding lookup
type_of_kind kind = elim (lookup kind kind_to_type) [ none ↦ "" | some type ↦ type ]

abbrev pub rbac_tuple : String → String → String → String → String → Tuple
rbac_tuple principal action kind resource expected = record {
  model = "rbac";
  principal = principal;
  action = action;
  resource_type = type_of_kind kind;
  resource = resource;
  context = [];
  expected = expected;
}

-- Whether some role of the persona is granted the resource.
unfoldable pub is_granted : Sampler → String → Bool
unfolding lookup
is_granted s id =
    any (λ r. any (λ g. RoleGrant.resource_id g == id) (slice_of r s.grants_by_role)) s.roles_of_cur

-- The loop of at most 200 tries.
unfoldable pub try_resources : Sampler → ℕ → Program Sampler
try_resources s zero = done s
try_resources s (suc tries) = do
  res ← choose (Generator.resources s.gen)
  elim (is_granted s (RegistryResource.id res)) [
    | true ↦ try_resources s tries
    | false ↦ done (
        add
          (rbac_tuple s.cur_persona (RegistryResource.action res) (RegistryResource.kind res)
            (RegistryResource.id res) "deny")
          s)
  ]

unfoldable pub sample_persona : Sampler → Program Sampler
unfolding lookup
sample_persona s = do
  role ← choose s.roles_of_cur
  elim (slice_of role s.grants_by_role) [
    | [] ↦ done s
    | first ∷ others ↦ do
      gr ← choose (first ∷ others)
      try_resources
          (add
            (rbac_tuple s.cur_persona (RoleGrant.action gr) (RoleGrant.resource_type gr)
              (RoleGrant.resource_id gr) "allow")
            s)
          200
  ]

unfoldable pub flush_rbac_persona : Sampler → Program Sampler
flush_rbac_persona s = elim (s.cur_persona == "") [
  | true ↦ done s
  | false ↦ elim s.roles_of_cur [
    | [] ↦ done s
    | _ ∷ _ ↦ elim (need s "rbac") [
      | false ↦ done s
      | true ↦ do
        skipped ← skips s (length (Generator.personas s.gen))
        elim skipped [ true ↦ done s | false ↦ sample_persona s ]
    ]
  ]
]

abbrev start_persona : String → Sampler → Sampler
start_persona id s = record s { cur_persona = id; roles_of_cur = [] }

abbrev push_role : String → Sampler → Sampler
push_role id s = record s { roles_of_cur = s.roles_of_cur ++ (id ∷ []) }

unfoldable pub persona_role : PersonaRole → Sampler → Program Sampler
persona_role pr s = elim (pr.persona_id == s.cur_persona) [
  | true ↦ done (push_role pr.role_id s)
  | false ↦ do
    flushed ← flush_rbac_persona s
    done (push_role pr.role_id (start_persona pr.persona_id flushed))
]
