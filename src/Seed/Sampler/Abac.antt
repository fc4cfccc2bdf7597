-- ===== src/Seed/Sampler/Abac.antt =====
-- internal/seed/sampler.go `AbacDoc`.
pub mod Laws
use test_permission.Base.{
  Bool, true, false, ℕ, zero, suc, ◌/◌, String, List, [], ◌∷◌, ◌==◌, ◌&&◌, ◌||◌, not, length, ltb,
  lookup, if◌then◌else◌, keep,
}
use test_permission.Base.Int.{ℤ, pos, leb_ℤ, eq_ℤ}
use test_permission.Domain.{Value, Attributes}
use test_permission.Seed.Types.{Scale, Persona, Division, AbacDoc}
use test_permission.Seed.Program.{Program, done, ◌>>=◌, int_n, at}
use test_permission.Seed.Generator.{Generator}
use test_permission.Seed.Sampler.{Tuple, Sampler, slice_of, need, add, skips}

unfoldable find_division : Generator → String → List ℕ → Program String
find_division gen id [] = done ""
find_division gen id (di ∷ dis) = do
  div ← at gen.divisions di
  elim (Division.id div == id) [ true ↦ done (Division.key div) | false ↦ find_division gen id dis ]

unfoldable pub persona_division_key : Generator → ℕ → Program String
unfolding find_division
persona_division_key gen pi = do
  p ← at gen.personas pi
  oi ← at gen.persona_org pi
  divs ← at gen.divs_by_org oi
  find_division gen (Persona.division_id p) divs

unfoldable pub count_expected : Sampler → String → String → ℕ
unfolding lookup keep
count_expected s model expected =
    length (keep (λ t. Tuple.expected t == expected) (slice_of model s.tuples))

-- Whether the persona's own attributes give it the document.
abbrev pub attributes_match : Persona → String → AbacDoc → Bool
attributes_match p division d =
    leb_ℤ d.classification p.clearance
    && division == d.division_key
    && (p.region == d.region || eq_ℤ p.clearance (pos 4))

abbrev pub expected_of : Persona → String → AbacDoc → String
expected_of p division d =
    if attributes_match p division d && not (d.status == "archived") then "allow" else "deny"

abbrev pub abac_tuple : Persona → String → AbacDoc → Tuple
abac_tuple p division d = record {
  model = "abac";
  principal = p.id;
  action = "doc.read";
  resource_type = "AbacDocument";
  resource = d.id;
  context =
      ("clearance", Value.int64 p.clearance)
      ∷ ("principal_division", Value.string division)
      ∷ ("principal_region", Value.string p.region)
      ∷ [];
  expected = expected_of p division d;
}

-- The loop of at most 400 tries; a decision that has had its half is tried again.
unfoldable pub try_personas : AbacDoc → Sampler → ℕ → Program Sampler
try_personas d s zero = done s
try_personas d s (suc tries) = do
  pi ← int_n (length (Generator.personas s.gen))
  p ← at (Generator.personas s.gen) pi
  division ← persona_division_key s.gen pi
  elim (ltb (s.per / 2) (count_expected s "abac" (expected_of p division d))) [
    | true ↦ try_personas d s tries
    | false ↦ done (add (abac_tuple p division d) s)
  ]

unfoldable pub abac_doc : AbacDoc → Sampler → Program Sampler
abac_doc d s = elim (need s "abac") [
  | false ↦ done s
  | true ↦ do
    skipped ← skips s (Scale.abac_docs (Generator.scale s.gen))
    elim skipped [ true ↦ done s | false ↦ try_personas d s 400 ]
]
