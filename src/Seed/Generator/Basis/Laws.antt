-- ===== src/Seed/Generator/Basis/Laws.antt =====
-- What `StreamBasis` emits.
use test_permission.Base.{◌≡◌, refl, List, Memᴰ}
use test_permission.Seed.Types.{Fact}
use test_permission.Seed.Program.{
  Call, begin_phase, accept, end_phase, Program, emit, for_each, ◌>>=◌,
}
use test_permission.Seed.Program.Laws.{Done, Emits, Emits-bind, Emits-for_each}
use test_permission.Seed.Program.Picks.{All-of_mem}
use test_permission.Seed.Generator.{Generator}
use test_permission.Seed.Generator.Basis.{stream_basis}

abbrev pub BasisFact : Generator → Fact → Type 0
BasisFact g f = elim f [
  | Fact.org o ↦ Memᴰ o g.orgs
  | Fact.division d ↦ Memᴰ d g.divisions
  | Fact.role ro ↦ Memᴰ ro g.roles
  | Fact.account a ↦ Memᴰ a g.accounts
  | Fact.persona p ↦ Memᴰ p g.personas
  | Fact.resource res ↦ Memᴰ res g.resources
  | _ ↦ ⊥
]

abbrev pub BasisCall : Generator → Call → Type 0
BasisCall g (begin_phase name total) = name ≡ "basis"
BasisCall g (accept f) = BasisFact g f
BasisCall g (end_phase name) = name ≡ "basis"

module _ (P : Call → Type 0) {A : Type 0} (to_fact : A → Fact) (rest : Program (Unit {0})) where
  -- A loop that emits each element of a list, before the rest.
  Emits-each_then :
      (xs : List A)
      → ((x : A) → Memᴰ x xs → P (accept (to_fact x)))
      → Emits P Done rest
      → Emits P Done (for_each (λ x. emit (to_fact x)) xs >>= λ _. rest)
  unfolding Emits
  Emits-each_then xs each h =
      Emits-bind P Done Done (for_each (λ x. emit (to_fact x)) xs) (λ _. rest)
        (Emits-for_each P {W = λ x. Memᴰ x xs} (λ x. emit (to_fact x)) (λ x m. (each x m, tt)) xs
          (All-of_mem xs (λ x m. m)))
        (λ _ _. h)

pub stream_basis-Emits : (g : Generator) → Emits (BasisCall g) Done (stream_basis g)
unfolding stream_basis Emits
stream_basis-Emits g = (
  refl,
  Emits-each_then _ Fact.org _ g.orgs (λ x m. m)
      (Emits-each_then _ Fact.division _ g.divisions (λ x m. m)
        (Emits-each_then _ Fact.role _ g.roles (λ x m. m)
          (Emits-each_then _ Fact.account _ g.accounts (λ x m. m)
            (Emits-each_then _ Fact.persona _ g.personas (λ x m. m)
              (Emits-each_then _ Fact.resource _ g.resources (λ x m. m) (refl, tt)))))),
)
