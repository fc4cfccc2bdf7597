-- ===== src/Seed/Sampler/Pbac/Sampling.antt =====
-- `PurchaseOrder` of the sampler adds checks whose expected decisions are right.
use test_permission.Base.{
  true, false, ℕ, zero, suc, ◌+◌, ◌/◌, ◌%◌, ◌<◌, ◌≤◌, ◌≡◌, inl, inr, refl, sym, subst, ◌∙◌, String,
  some, none, List, All, [], ◌∷◌, length, Memᴰ, arith, nat_eq, lookup, Bool-cases,
}
use test_permission.Base.Int.{ℤ, pos, leb_ℤ, ltb_ℤ, ◌+ℤ◌, ◌-ℤ◌}
use test_permission.Seed.Types.{Scale, PurchaseOrder}
use test_permission.Seed.Program.{Call, done, ◌>>=◌}
use test_permission.Seed.Program.Laws.{Emits, Emits-bind, Emits-elim, Emits-map}
use test_permission.Seed.Program.Picks.{Emits-get_then, Emits-pick_then}
use test_permission.Seed.Generator.{Generator}
use test_permission.Seed.Program.Running.{Random, InRange, stream}
use test_permission.Seed.Program.Running.Soundness.{Ends, Emits-stream}
use test_permission.Seed.Generator.Built.{IsBuilt}
use test_permission.Seed.Generator.Basis.Building.{NoCall}
use test_permission.Seed.Generator.Orders.Laws.{IsOrder}
use test_permission.Seed.Sampler.{
  Tuple, Sampler, slice_of, number_of, add, need, skips, random_persona_other_root,
}
use test_permission.Seed.Sampler.Pbac.{
  po_tuple, region_outside, add_denied, add_allowed, sample_order, purchase_order,
}
use test_permission.Seed.Sampler.Pbac.Laws.{
  IsWindow, inside_window, above_window, below_window, HasHomes, IsStranger, Denies, Truthful, Adds,
  random_persona_other_root-Emits, region_outside-Emits,
}

Adds-trans : {Q : Tuple → Type 0} {a b c : Sampler} → Adds Q a b → Adds Q b c → Adds Q a c
Adds-trans h Adds.same = h
Adds-trans h (Adds.more k q) = Adds.more (Adds-trans h k) q

pub skips-Emits :
    (P : Call → Type 0) (s : Sampler) (n : ℕ) → 2 ≤ s.per → Emits P (λ _. Unit {0}) (skips s n)
unfolding Emits skips
skips-Emits P s n enough =
    Emits-elim P (λ _. Unit) (nat_eq (s.per / 2) 0) _ _ (λ e. absurd (ground (arith, e, enough)))
      (λ _. (omega arith, λ x _. tt))

module _ (P : Call → Type 0) (fuel : ℕ) (po : PurchaseOrder) (window : IsWindow po)
    (assignees : List String) (assignee region : String) (x : ℕ) (small : x < 1_000_000) where
  abbrev in_amount : ℤ
  in_amount = po.policy_max_amount -ℤ pos (x + 1)

  in_window :
      (leb_ℤ po.policy_min_amount in_amount ≡ true) × (leb_ℤ in_amount po.policy_max_amount ≡ true)
  in_window =
      rw (window.min_is, window.max_is)
        (inside_window window.floor window.ceiling x window.low window.high small)

  add_denied-Emits :
      (s : Sampler) (n : ℕ)
      → HasHomes s.gen
      → number_of po.org_id (Generator.org_idx s.gen) < length (Generator.root_of s.gen)
      → Emits P
          (Adds (Truthful po s.gen assignees) s)
          (add_denied fuel po assignee region in_amount n s)
  unfolding Emits add_denied
  add_denied-Emits s zero housed known = Adds.more Adds.same (
      Truthful.denied (
        Denies.above (
          subst (λ m. ltb_ℤ m (m +ℤ pos 1_000_000) ≡ true) (sym window.max_is)
            (above_window window.ceiling))))
  add_denied-Emits s (suc zero) housed known =
      Emits-bind P (λ r. ¬ (Memᴰ r po.policy_regions)) _ (region_outside po.policy_regions fuel) _
        (region_outside-Emits P po.policy_regions fuel)
        (λ r out. Adds.more Adds.same (Truthful.denied (Denies.outside out)))
  add_denied-Emits s (suc (suc zero)) housed known =
      Emits-get_then P _ (Generator.root_of s.gen) _ _ known (λ root root_at.
        Emits-bind P (IsStranger s.gen root) _ (random_persona_other_root s root fuel) _
          (random_persona_other_root-Emits P s housed root fuel)
          (λ other is_stranger.
            Adds.more Adds.same (Truthful.denied (Denies.stranger root root_at is_stranger))))
  add_denied-Emits s (suc (suc (suc zero))) housed known = elim (Bool-cases po.policy_active) [
    | inl e ↦ simp e Adds.same
    | inr e ↦ simp e (Adds.more Adds.same (Truthful.denied (Denies.inactive e)))
  ]
  add_denied-Emits s (suc (suc (suc (suc zero)))) housed known = Adds.more Adds.same (
      Truthful.denied (
        Denies.below (
          subst (λ m. ltb_ℤ (m -ℤ pos 1) m ≡ true) (sym window.min_is)
            (below_window window.floor))))
  add_denied-Emits s (suc (suc (suc (suc (suc n))))) housed known = Adds.same

  add_allowed-Adds :
      (s : Sampler)
      → Memᴰ assignee assignees
      → Memᴰ region po.policy_regions
      → Adds (Truthful po s.gen assignees) s (add_allowed fuel po assignee region in_amount s)
  add_allowed-Adds s held listed =
      let (over, under) = in_window in
      elim (Bool-cases po.policy_active) [
        | inl e ↦ simp e (Adds.more Adds.same (Truthful.allowed (e, held, over, under, listed)))
        | inr e ↦ simp e Adds.same
      ]

  -- Adding the allowed check leaves the generator as it was.
  add_then_denied-Emits :
      (s : Sampler) (n : ℕ)
      → HasHomes s.gen
      → number_of po.org_id (Generator.org_idx s.gen) < length (Generator.root_of s.gen)
      → Emits P
          (Adds (Truthful po s.gen assignees) (add_allowed fuel po assignee region in_amount s))
          (add_denied fuel po assignee region in_amount n
            (add_allowed fuel po assignee region in_amount s))
  unfolding add
  add_then_denied-Emits s n housed known = elim (Bool-cases po.policy_active) [
    | inl e ↦
        simp e
          (add_denied-Emits (add (po_tuple po assignee in_amount region "allow") s) n housed known)
    | inr e ↦ simp e (add_denied-Emits s n housed known)
  ]

  order-Emits :
      (s : Sampler) (n : ℕ)
      → HasHomes s.gen
      → number_of po.org_id (Generator.org_idx s.gen) < length (Generator.root_of s.gen)
      → Memᴰ assignee assignees
      → Memᴰ region po.policy_regions
      → Emits P (Adds (Truthful po s.gen assignees) s) (
          add_denied fuel po assignee region in_amount n
            (add_allowed fuel po assignee region in_amount s))
  order-Emits s n housed known held listed =
      Emits-map P
        (Adds (Truthful po s.gen assignees) (add_allowed fuel po assignee region in_amount s))
        (Adds (Truthful po s.gen assignees) s)
        (add_denied fuel po assignee region in_amount n
          (add_allowed fuel po assignee region in_amount s))
        (add_then_denied-Emits s n housed known)
        (λ next added. Adds-trans (add_allowed-Adds s held listed) added)

module _ (P : Call → Type 0) (fuel : ℕ) (po : PurchaseOrder) (window : IsWindow po)
    (some_region : 0 < length po.policy_regions) (s : Sampler) (enough : 2 ≤ s.per)
    (housed : HasHomes s.gen)
    (known : number_of po.org_id (Generator.org_idx s.gen) < length (Generator.root_of s.gen)) where
  sample_order-Emits :
      (assignees : List String) (seen : Sampler)
      → HasHomes seen.gen
      → number_of po.org_id (Generator.org_idx seen.gen) < length (Generator.root_of seen.gen)
      → Emits P (Adds (Truthful po seen.gen assignees) seen) (sample_order fuel po assignees seen)
  unfolding Emits sample_order
  sample_order-Emits [] seen homes in_roots = Adds.same
  sample_order-Emits (first ∷ others) seen homes in_roots =
      Emits-pick_then P _ (first ∷ others) _ (omega arith) (λ assignee held. (
        omega arith,
        λ x small. Emits-pick_then P _ po.policy_regions _ some_region (λ region listed.
            order-Emits P fuel po window (first ∷ others) assignee region x small seen
              (seen.pos_seen % 5) homes in_roots held listed),
      ))

  purchase_order-Emits :
      Emits P
        (Adds
          (Truthful po s.gen (slice_of po.policy_id s.assign_by_pol))
          (record s { pos_seen = suc s.pos_seen }))
        (purchase_order fuel po s)
  unfolding Emits purchase_order
  purchase_order-Emits =
      let seen : Sampler = record s { pos_seen = suc s.pos_seen } in
      let assignees : List String = slice_of po.policy_id s.assign_by_pol in
      let Sampled : Sampler → Type 0 = Adds (Truthful po s.gen assignees) seen in
      elim (need seen "pbac")
        as (λ b. Emits P Sampled (elim b [
          | false ↦ done seen
          | true ↦ do
            skipped ← skips seen (Scale.purchase_orders (Generator.scale seen.gen))
            elim skipped [ true ↦ done seen | false ↦ sample_order fuel po assignees seen ]
        ])) [
          | false ↦ Adds.same
          | true ↦
              Emits-bind P (λ _. Unit) Sampled
                (skips seen (Scale.purchase_orders (Generator.scale seen.gen))) _
                (skips-Emits P seen (Scale.purchase_orders (Generator.scale seen.gen)) enough)
                (λ skipped _.
                  Emits-elim P Sampled skipped (done seen) (sample_order fuel po assignees seen)
                    (λ _. Adds.same) (λ _. sample_order-Emits assignees seen housed known))
        ]

-- What `BuildBasis` gives a sampler.
HasHomes-of_IsBuilt : (g : Generator) → IsBuilt g → HasHomes g
HasHomes-of_IsBuilt g built = record {
  some_personas = omega (arith, built.populated.some_personas, built.persona_count);
  homes = omega (arith, built.home_count, built.persona_count);
  homes_in = λ i oi e. omega (arith, built.homes i oi e, built.root_count);
}

known_org : (g : Generator) → IsBuilt g → (id : String) → number_of id g.org_idx < length g.root_of
known_org g built id =
    elim (lookup id g.org_idx)
        as (λ o. lookup id g.org_idx ≡ o → elim o [ none ↦ 0 | some n ↦ n ] < length g.root_of) [
          | none ↦ λ e.
              omega
                (arith, built.populated.some_roots, built.populated.enough_orgs, built.root_count)
          | some i ↦ λ e. omega (arith, built.indexed id i e, built.root_count)
        ]
      refl

IsWindow-of_IsOrder : (g : Generator) (po : PurchaseOrder) → IsOrder g po → IsWindow po
IsWindow-of_IsOrder g po order = record {
  floor = order.policy.floor;
  ceiling = order.policy.ceiling;
  min_is = order.same_min ∙ order.policy.min_is;
  max_is = order.same_max ∙ order.policy.max_is;
  low = order.policy.floor_between.1;
  high = order.policy.ceiling_between.0;
}

-- For a generator that BuildBasis has filled, an order that StreamPBAC emits and a target of two tuples or more, the sampler never panics on the order and calls no sink: unless a loop runs out of its fuel, it adds only checks on the order whose expected decision the order's own values give. An allowed one is of an active policy, for a persona kept as one that the policy is assigned to, with an amount between the policy's two and a region of the policy; a denied one has an amount above the ceiling or below the floor, a region that is not of the policy, a policy that is not active, or a persona whose organization is in another tree than the order's organization.
pub purchase_order-Truthful :
    (R : Random) (fuel : ℕ) (po : PurchaseOrder) (s : Sampler) (state : R.State)
    → InRange R
    → IsBuilt s.gen
    → IsOrder s.gen po
    → 2 ≤ s.per
    → All NoCall (stream R (purchase_order fuel po s) state).0
      × Ends
          (Adds
            (Truthful po s.gen (slice_of po.policy_id s.assign_by_pol))
            (record s { pos_seen = suc s.pos_seen }))
          (stream R (purchase_order fuel po s) state).1
purchase_order-Truthful R fuel po s state in_range built order enough =
    Emits-stream R in_range NoCall _ (purchase_order fuel po s) state (
      purchase_order-Emits NoCall fuel po (IsWindow-of_IsOrder s.gen po order)
        (subst (λ rs. 0 < length rs) (sym order.same_regions)
          (omega (arith, order.policy.region_count.0)))
        s enough (HasHomes-of_IsBuilt s.gen built) (known_org s.gen built po.org_id))
