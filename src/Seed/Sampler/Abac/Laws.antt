-- ===== src/Seed/Sampler/Abac/Laws.antt =====
-- `AbacDoc` of the sampler adds checks whose expected decisions are right.
use test_permission.Base.{
  Bool, true, false, ℕ, zero, suc, ◌/◌, ◌<◌, ◌≤◌, ◌≡◌, ◌≢◌, ◌⊎◌, ◌↔◌, inl, inr, refl, sym, subst,
  ◌∙◌, ap, Bool-cases, String, some, List, [], ◌∷◌, ◌==◌, ◌&&◌, ◌||◌, not, length, get_elem?, All,
  eq_iff, arith, ltb, if◌then◌else◌,
}
use mathlib.Core.Option.{some-injective}
use test_permission.Base.Int.{pos, leb_ℤ, eq_ℤ, eq_ℤ_iff}
use test_permission.Domain.{Value}
use test_permission.Seed.Types.{Scale, Persona, Division, AbacDoc}
use test_permission.Seed.Program.{Call, done, ◌>>=◌}
use test_permission.Seed.Program.Laws.{Emits, Emits-bind, Emits-elim, Emits-map}
use test_permission.Seed.Program.Picks.{Emits-get_then}
use test_permission.Seed.Program.Running.{Random, InRange, stream}
use test_permission.Seed.Program.Running.Soundness.{Ends, Emits-stream}
use test_permission.Seed.Generator.{Generator}
use test_permission.Seed.Generator.Built.{IsBuilt}
use test_permission.Seed.Generator.Basis.Building.{NoCall}
use test_permission.Seed.Sampler.{Tuple, Sampler, need, skips}
use test_permission.Seed.Sampler.Pbac.Laws.{Adds}
use test_permission.Seed.Sampler.Pbac.Sampling.{skips-Emits}
use test_permission.Seed.Sampler.Abac.{
  find_division, persona_division_key, count_expected, expected_of, attributes_match, try_personas,
  abac_doc,
}

-- The text is the key of the first listed division with that id, and empty when none has it.
abbrev pub IsKey : Generator → String → List ℕ → String → Type 0
IsKey gen id [] key = key ≡ ""
IsKey gen id (i ∷ is) key =
    (div : Division) × (get_elem? gen.divisions i ≡ some div)
    × (((div.id ≡ id) × (key ≡ div.key)) ⊎ ((div.id ≢ id) × IsKey gen id is key))

-- The key of a persona's division among those of its organization.
pub record HasKey (gen : Generator) (pi : ℕ) (p : Persona) (key : String) : Type 0 where
  pub home : ℕ
  pub divs : List ℕ
  pub home_at : get_elem? gen.persona_org pi ≡ some home
  pub divs_at : get_elem? gen.divs_by_org home ≡ some divs
  pub is_key : IsKey gen p.division_id divs key

-- A check of the document, with the attributes of a persona in its context.
pub record IsJudged (gen : Generator) (d : AbacDoc) (t : Tuple) : Type 0 where
  pub pi : ℕ
  pub p : Persona
  pub division : String
  pub persona_at : get_elem? gen.personas pi ≡ some p
  pub of_division : HasKey gen pi p division
  pub is_tuple : t ≡ record {
    model = "abac";
    principal = p.id;
    action = "doc.read";
    resource_type = "AbacDocument";
    resource = d.id;
    context =
        ("clearance", Value.int64 p.clearance)
        ∷ ("principal_division", Value.string division)
        ∷ ("principal_region", Value.string p.region)
        ∷ [];
    expected = t.expected;
  }
  pub decided : (t.expected ≡ "allow") ⊎ (t.expected ≡ "deny")
  pub judged : (t.expected ≡ "allow") ↔ (
      (leb_ℤ d.classification p.clearance ≡ true)
      × (division ≡ d.division_key)
      × ((p.region ≡ d.region) ⊎ (p.clearance ≡ pos 4))
      × (d.status ≢ "archived"))

allow_or_deny :
    (b : Bool)
    → (◌≡◌ {A = String} (if b then "allow" else "deny") "allow")
      ⊎ (◌≡◌ {A = String} (if b then "allow" else "deny") "deny")
allow_or_deny true = inl refl
allow_or_deny false = inr refl

not_allowed : {A : Type 0} → ◌≡◌ {A = String} "deny" "allow" → A
not_allowed e = absurd (ground (arith, e, eq_iff "deny" "allow"))

true-ne-false : ◌≢◌ {A = Bool} true false
true-ne-false e = cc

judged_iff :
    (a b c e f : Bool)
    → (◌≡◌ {A = String} (if (a && b && (c || e)) && not f then "allow" else "deny") "allow")
      ↔ ((a ≡ true) × (b ≡ true) × ((c ≡ true) ⊎ (e ≡ true)) × (f ≡ false))
judged_iff false b c e f = (λ h. not_allowed h, λ (x, _, _, _). absurd (cc x))
judged_iff true false c e f = (λ h. not_allowed h, λ (_, x, _, _). absurd (cc x))
judged_iff true true true e true = (λ h. not_allowed h, λ (_, _, _, x). absurd (cc x))
judged_iff true true true e false = (λ _. (refl, refl, inl refl, refl), λ _. refl)
judged_iff true true false true true = (λ h. not_allowed h, λ (_, _, _, x). absurd (cc x))
judged_iff true true false true false = (λ _. (refl, refl, inr refl, refl), λ _. refl)
judged_iff true true false false f =
    (λ h. not_allowed h, λ (_, _, x, _). elim x [ inl y ↦ absurd (cc y) | inr y ↦ absurd (cc y) ])

expected-allow_iff :
    (p : Persona) (division : String) (d : AbacDoc)
    → (expected_of p division d ≡ "allow") ↔ (
        (leb_ℤ d.classification p.clearance ≡ true)
        × (division ≡ d.division_key)
        × ((p.region ≡ d.region) ⊎ (p.clearance ≡ pos 4))
        × (d.status ≢ "archived"))
expected-allow_iff p division d =
    let near : Bool = p.region == d.region in
    let (to, from) =
      judged_iff (leb_ℤ d.classification p.clearance) (division == d.division_key) near
        (eq_ℤ p.clearance (pos 4)) (d.status == "archived") in
    (
      λ e.
          let (cleared, same, reach, live) = to e in
          (
            cleared,
            (eq_iff division d.division_key).0 same,
            elim reach [
              | inl r ↦ inl ((eq_iff p.region d.region).0 r)
              | inr r ↦ inr ((eq_ℤ_iff p.clearance (pos 4)).0 r)
            ],
            λ archived.
                absurd (true-ne-false (sym ((eq_iff d.status "archived").1 archived) ∙ live)),
          ),
      λ (cleared, same, reach, live). from (
        cleared,
        (eq_iff division d.division_key).1 same,
        elim reach [
          | inl r ↦ inl ((eq_iff p.region d.region).1 r)
          | inr r ↦ inr ((eq_ℤ_iff p.clearance (pos 4)).1 r)
        ],
        elim (Bool-cases (d.status == "archived")) [
          | inl e ↦ absurd (live ((eq_iff d.status "archived").0 e))
          | inr e ↦ e
        ],
      ),
    )

module _ (P : Call → Type 0) where
  find_division-Emits :
      (gen : Generator) (id : String) (divs : List ℕ)
      → All (λ i. i < length gen.divisions) divs
      → Emits P (IsKey gen id divs) (find_division gen id divs)
  unfolding Emits find_division
  find_division-Emits gen id [] small = refl
  find_division-Emits gen id (di ∷ dis) (b, small) =
      Emits-get_then P _ gen.divisions di _ b (λ div found.
        Emits-elim P _ (Division.id div == id) _ _
          (λ e. (div, found, inl ((eq_iff div.id id).0 e, refl)))
          (λ other.
            Emits-map P (IsKey gen id dis) _ _ (find_division-Emits gen id dis small) (λ key rest.
              (div, found, inr (λ e. ground (arith, other, e, eq_iff div.id id), rest)))))

  module _ (gen : Generator) (built : IsBuilt gen) where
    persona_division_key-Emits :
        (pi : ℕ) (p : Persona)
        → get_elem? gen.personas pi ≡ some p
        → pi < length gen.personas
        → Emits P (HasKey gen pi p) (persona_division_key gen pi)
    unfolding Emits persona_division_key
    persona_division_key-Emits pi p persona_at b = Emits-get_then P _ gen.personas pi _ b (λ q q_at.
        Emits-get_then P _ gen.persona_org pi _
          (omega (arith, b, built.home_count, built.persona_count))
          (λ oi home_at.
            Emits-get_then P _ gen.divs_by_org oi _
              (omega (arith, built.homes pi oi home_at, built.division_buckets.sized))
              (λ divs divs_at.
                Emits-map P (IsKey gen q.division_id divs) _ _
                  (find_division-Emits gen (Persona.division_id q) divs
                    (built.division_buckets.labelled oi divs divs_at))
                  (λ key is_key. record {
                    home = oi;
                    divs = divs;
                    home_at = home_at;
                    divs_at = divs_at;
                    is_key =
                        subst (λ r. IsKey gen r divs key)
                          (ap Persona.division_id (some-injective q p (sym q_at ∙ persona_at)))
                          is_key;
                  }))))

  try_personas-Emits :
      (d : AbacDoc) (s : Sampler) (tries : ℕ)
      → IsBuilt s.gen
      → Emits P (Adds (IsJudged s.gen d) s) (try_personas d s tries)
  unfolding Emits try_personas
  try_personas-Emits d s zero built = Adds.same
  try_personas-Emits d s (suc tries) built = (
    omega (arith, built.populated.some_personas, built.persona_count),
    λ pi b. Emits-get_then P _ (Generator.personas s.gen) pi _ b (λ p persona_at.
        Emits-bind P (HasKey s.gen pi p) _ (persona_division_key s.gen pi) _
          (persona_division_key-Emits s.gen built pi p persona_at b)
          (λ division has_key.
            Emits-elim P _ (ltb (s.per / 2) (count_expected s "abac" (expected_of p division d))) _
              _ (λ _. try_personas-Emits d s tries built)
              (λ _. Adds.more Adds.same (record {
                pi = pi;
                p = p;
                division = division;
                persona_at = persona_at;
                of_division = has_key;
                is_tuple = refl;
                decided =
                    allow_or_deny (attributes_match p division d && not (d.status == "archived"));
                judged = expected-allow_iff p division d;
              })))),
  )

  abac_doc-Emits :
      (d : AbacDoc) (s : Sampler)
      → IsBuilt s.gen
      → 2 ≤ s.per
      → Emits P (Adds (IsJudged s.gen d) s) (abac_doc d s)
  unfolding Emits abac_doc
  abac_doc-Emits d s built enough =
      elim (need s "abac")
        as (λ b. Emits P (Adds (IsJudged s.gen d) s) (elim b [
          | false ↦ done s
          | true ↦ do
            skipped ← skips s (Scale.abac_docs (Generator.scale s.gen))
            elim skipped [ true ↦ done s | false ↦ try_personas d s 400 ]
        ])) [
          | false ↦ Adds.same
          | true ↦
              Emits-bind P (λ _. Unit) _ (skips s (Scale.abac_docs (Generator.scale s.gen))) _
                (skips-Emits P s (Scale.abac_docs (Generator.scale s.gen)) enough)
                (λ skipped _.
                  Emits-elim P _ skipped (done s) (try_personas d s 400) (λ _. Adds.same)
                    (λ _. try_personas-Emits d s 400 built))
        ]

-- For a generator that BuildBasis has filled and a target of two tuples or more, the sampler never panics on an attribute document and calls no sink: what it adds are checks of the document for a persona of the generator, with the persona's own clearance, its own region and the key of its division in the context (of the first division of its organization's list with its division's id, empty when the list has none), and it expects one to be allowed, and otherwise to be denied, exactly when the clearance reaches the document's classification, the division is the document's, the region is the document's or the clearance is 4, and the document is not archived.
pub abac_doc-IsJudged :
    (R : Random) (d : AbacDoc) (s : Sampler) (state : R.State)
    → InRange R
    → IsBuilt s.gen
    → 2 ≤ s.per
    → All NoCall (stream R (abac_doc d s) state).0
      × Ends (Adds (IsJudged s.gen d) s) (stream R (abac_doc d s) state).1
abac_doc-IsJudged R d s state in_range built enough =
    Emits-stream R in_range NoCall _ (abac_doc d s) state (abac_doc-Emits NoCall d s built enough)
