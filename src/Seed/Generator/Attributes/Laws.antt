-- ===== src/Seed/Generator/Attributes/Laws.antt =====
-- What `StreamABAC` emits, whatever is drawn.
use test_permission.Base.{
  Bool, true, false, ℕ, ◌+◌, ◌≤◌, ◌≡◌, ◌⊎◌, inl, inr, refl, String, Memᴰ, nat_eq, leb, arith,
  if◌then◌else◌,
}
use test_permission.Base.Int.{pos}
use test_permission.Seed.Types.{Scale, Org, AbacDoc, Fact}
use test_permission.Seed.Program.{Call, begin_phase, accept, end_phase, for_range}
use test_permission.Seed.Program.Laws.{Done, Emits, Emits-bind, Emits-for_range}
use test_permission.Seed.Program.Picks.{Emits-get_then, Emits-pick_then, mem-get_elem?}
use test_permission.Seed.Generator.{Generator, default_divisions}
use test_permission.Seed.Generator.Built.{IsBuilt}
use test_permission.Seed.Generator.Attributes.{make_abac_doc, stream_abac}

-- A document of an organization, in its region, with a classification from 1 to 4.
pub record IsAbacDoc (g : Generator) (d : AbacDoc) : Type 0 where
  pub o : Org
  pub listed : Memᴰ o g.orgs
  pub of_org : d.org_id ≡ o.id
  pub of_region : d.region ≡ o.region
  pub of_division : Memᴰ d.division_key default_divisions
  pub level : ℕ
  pub classified : d.classification ≡ pos level
  pub level_between : (1 ≤ level) × (level ≤ 4)
  pub known_status : (d.status ≡ "archived") ⊎ (d.status ≡ "draft") ⊎ (d.status ≡ "active")

abbrev pub AbacFact : Generator → Fact → Type 0
AbacFact g f = elim f [ Fact.abac_doc d ↦ IsAbacDoc g d | _ ↦ ⊥ ]

abbrev pub AbacCall : Generator → Call → Type 0
AbacCall g (begin_phase name total) = name ≡ "abac"
AbacCall g (accept f) = AbacFact g f
AbacCall g (end_phase name) = name ≡ "abac"

one_of_three :
    (a b : Bool) {s : String}
    → s ≡ (if a then "archived" else if b then "draft" else "active")
    → (s ≡ "archived") ⊎ (s ≡ "draft") ⊎ (s ≡ "active")
one_of_three true b e = inl e
one_of_three false true e = inr (inl e)
one_of_three false false e = inr (inr e)

module _ (padded : ℕ → ℕ → String) (g : Generator) (built : IsBuilt g) where
  make_abac_doc-Emits : (i : ℕ) → Emits (AbacCall g) Done (make_abac_doc padded g i)
  unfolding Emits make_abac_doc
  make_abac_doc-Emits i = (
    (omega (arith, built.populated.some_roots, built.populated.enough_orgs, built.org_count)),
    λ oi b. (
      (omega arith),
      λ x _. Emits-get_then (AbacCall g) Done g.orgs oi _ b (λ o found.
          Emits-pick_then (AbacCall g) Done default_divisions _ (omega arith) (λ division listed. (
            (omega arith),
            λ level low. (
              record {
                o = o;
                listed = mem-get_elem? g.orgs oi found;
                of_org = refl;
                of_region = refl;
                of_division = listed;
                level = 1 + level;
                classified = refl;
                level_between = (omega arith, omega (arith, low));
                known_status = one_of_three (nat_eq x 0) (leb x 2) refl;
              },
              tt,
            ),
          ))),
    ),
  )

  pub stream_abac-Emits : Emits (AbacCall g) Done (stream_abac padded g)
  unfolding stream_abac Emits
  stream_abac-Emits = (
    refl,
    Emits-bind (AbacCall g) Done Done (for_range (make_abac_doc padded g) (Scale.abac_docs g.scale))
        _
        (Emits-for_range _ (make_abac_doc padded g) (Scale.abac_docs g.scale)
          (λ i _. make_abac_doc-Emits i))
        (λ _ _. (refl, tt)),
  )
