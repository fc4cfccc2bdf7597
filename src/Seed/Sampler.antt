-- ===== src/Seed/Sampler.antt =====
-- internal/seed/sampler.go: the sink that derives checks with their expected decisions from the
-- canonical stream. Its own random source is drawn from by `Program`, whose sink is not called.
pub mod Rbac
pub mod Rebac
pub mod Abac
pub mod Pbac
pub mod Acl
pub mod Handlers
pub mod Loaded
use test_permission.Base.{
  Bool, true, false, ℕ, zero, suc, ◌+◌, ◌/◌, String, Option, none, some, List, [], ◌∷◌, ◌++◌, ◌==◌,
  not, length, ltb, nat_eq, lookup, insert,
}
use test_permission.Base.Fallible.{fault}
use test_permission.Domain.{Attributes}
use test_permission.Seed.Types.{Persona, RoleGrant, AclDoc, AclEntry}
use test_permission.Seed.Program.{Program, done, fail, ◌>>=◌, int_n, at, exhausted}
use test_permission.Seed.Generator.{Generator}

pub record Tuple : Type 0 where
  pub model : String
  pub principal : String
  pub action : String
  pub resource_type : String
  pub resource : String
  pub context : Attributes
  pub expected : String

-- The generator, the number of tuples for each model, and the state across records.
pub record Sampler : Type 0 where
  pub gen : Generator
  pub per : ℕ
  pub tuples : List (String × List Tuple)
  pub grants_by_role : List (String × List RoleGrant)
  pub roles_of_cur : List String
  pub cur_persona : String
  pub folder_org : List (String × ℕ)
  pub docs_seen : ℕ
  pub acl_cur : AclDoc
  pub acl_entries : List AclEntry
  pub pos_seen : ℕ
  pub assign_by_pol : List (String × List String)

abbrev pub new_sampler : Generator → ℕ → Sampler
new_sampler gen per = record {
  gen = gen;
  per = per;
  tuples = [];
  grants_by_role = [];
  roles_of_cur = [];
  cur_persona = "";
  folder_org = [];
  docs_seen = 0;
  acl_cur = record { id = ""; org_id = "" };
  acl_entries = [];
  pos_seen = 0;
  assign_by_pol = [];
}

-- A key that is missing from a map of slices, or of numbers, reads as the empty one, or as zero.
abbrev pub slice_of : {A : Type 0} → String → List (String × List A) → List A
slice_of key entries = elim (lookup key entries) [ none ↦ [] | some xs ↦ xs ]

abbrev pub number_of : String → List (String × ℕ) → ℕ
number_of key entries = elim (lookup key entries) [ none ↦ 0 | some n ↦ n ]

unfoldable pub need : Sampler → String → Bool
unfolding lookup
need s model = ltb (length (slice_of model s.tuples)) s.per

unfoldable pub add : Tuple → Sampler → Sampler
unfolding lookup insert
add t s = record s { tuples = insert t.model (slice_of t.model s.tuples ++ (t ∷ [])) s.tuples }

-- `s.rng.IntN(n/(s.per/2)+1) != 0`, which panics where the target is below 2.
unfoldable pub skips : Sampler → ℕ → Program Bool
skips s n = elim (nat_eq (s.per / 2) 0) [
  | true ↦ fail (fault "integer divide by zero")
  | false ↦ do x ← int_n (n / (s.per / 2) + 1); done (not (nat_eq x 0))
]

-- The loop that picks a persona of another root.
unfoldable pub random_persona_other_root : Sampler → ℕ → ℕ → Program String
random_persona_other_root s root zero = fail exhausted
random_persona_other_root s root (suc fuel) = do
  pi ← int_n (length (Generator.personas s.gen))
  oi ← at (Generator.persona_org s.gen) pi
  root_of ← at (Generator.root_of s.gen) oi
  elim (nat_eq root_of root) [
    | true ↦ random_persona_other_root s root fuel
    | false ↦ at (Generator.personas s.gen) pi >>= λ p. done (Persona.id p)
  ]
