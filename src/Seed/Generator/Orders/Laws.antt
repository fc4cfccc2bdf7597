-- ===== src/Seed/Generator/Orders/Laws.antt =====
-- What `StreamPBAC` emits, whatever is drawn.
use Prim.Native.String.{◌++◌ as str_append}
use test_permission.Base.{
  ℕ, suc, ◌+◌, ◌*◌, ◌<◌, ◌≤◌, ◌≡◌, refl, String, some, List, [], ◌∷◌, length, length-append,
  get_elem?, All, All-append, Memᴰ, arith,
}
use test_permission.Base.Int.{pos}
use test_permission.Seed.Types.{
  Scale, Org, Persona, PbacPolicy, PbacAssignment, PurchaseOrder, Fact,
}
use test_permission.Seed.Program.{Call, begin_phase, accept, end_phase, int_n}
use test_permission.Seed.Program.Laws.{
  Done, Emits, Emits-bind, Emits-map, Emits-int_n, Emits-fold_range, Emits-draw_distinct,
}
use test_permission.Seed.Program.Picks.{Emits-pick_then, Emits-get_then, mem-get_elem?, All-mem}
use test_permission.Seed.Generator.{Generator, regions, default_divisions}
use test_permission.Seed.Generator.Built.{IsBuilt}
use test_permission.Seed.Generator.Orders.{
  add_region, draw_regions, policy_of, make_policy, make_policies, assign_policy, make_order,
}

-- A policy of a root organization: from 1 to 3 regions of the list, and amounts from the floor,
-- 1 to 5 million, to the ceiling, 10 to 499 million.
pub record IsPolicy (g : Generator) (p : PbacPolicy) : Type 0 where
  pub o : Org
  pub root : ℕ
  pub root_at : get_elem? g.orgs root ≡ some o
  pub is_root : root < Scale.roots g.scale
  pub of_org : p.org_id ≡ o.id
  pub region_count : (1 ≤ length p.regions) × (length p.regions ≤ 3)
  pub known_regions : All (λ r. Memᴰ r regions) p.regions
  pub floor : ℕ
  pub ceiling : ℕ
  pub min_is : p.min_amount ≡ pos floor
  pub max_is : p.max_amount ≡ pos ceiling
  pub floor_between : (1_000_000 ≤ floor) × (floor ≤ 5_000_000)
  pub ceiling_between : (10_000_000 ≤ ceiling) × (ceiling < 500_000_000)

-- The id of one of the policies, which are numbered from 0 on, as many for each root.
abbrev pub IsNumbered : (ℕ → ℕ → String) → Generator → String → Type 0
IsNumbered padded g id =
    (n : ℕ) × (n < Scale.roots g.scale * Scale.policies_per_root g.scale)
    × (id ≡ str_append "pol-" (padded 6 n))

-- An order has the organization, the division, the amounts and the regions of some policy, and is of
-- one of those regions.
pub record IsOrder (g : Generator) (po : PurchaseOrder) : Type 0 where
  pub p : PbacPolicy
  pub policy : IsPolicy g p
  pub of_org : po.org_id ≡ p.org_id
  pub of_division : po.division_key ≡ p.division_key
  pub in_region : Memᴰ po.region po.policy_regions
  pub same_min : po.policy_min_amount ≡ p.min_amount
  pub same_max : po.policy_max_amount ≡ p.max_amount
  pub same_regions : po.policy_regions ≡ p.regions

pub record IsPolicyHolder (g : Generator) (pa : PbacAssignment) : Type 0 where
  pub holder : Persona
  pub listed : Memᴰ holder g.personas
  pub of_persona : pa.persona_id ≡ holder.id

abbrev pub PbacFact : (ℕ → ℕ → String) → Generator → Fact → Type 0
PbacFact padded g f = elim f [
  | Fact.pbac_policy p ↦ IsPolicy g p × IsNumbered padded g p.id
  | Fact.pbac_assignment pa ↦ IsPolicyHolder g pa × IsNumbered padded g pa.policy_id
  | Fact.purchase_order po ↦ IsOrder g po × IsNumbered padded g po.policy_id
  | _ ↦ ⊥
]

abbrev pub PbacCall : (ℕ → ℕ → String) → Generator → Call → Type 0
PbacCall padded g (begin_phase name total) = name ≡ "pbac"
PbacCall padded g (accept f) = PbacFact padded g f
PbacCall padded g (end_phase name) = name ≡ "pbac"

-- As many regions as were drawn, all of the list.
abbrev Drawn : ℕ → List String → Type 0
Drawn n regs = (length regs ≡ n) × All (λ r. Memᴰ r regions) regs

module _ (P : Call → Type 0) where
  draw_regions-Emits : (fuel nr : ℕ) → Emits P (Drawn nr) (draw_regions fuel nr)
  unfolding Emits draw_regions add_region
  draw_regions-Emits fuel nr =
      Emits-map P _ (Drawn nr) (draw_regions fuel nr)
        (Emits-draw_distinct P {W = λ ri. ri < length regions}
          {I = λ seen regs. Drawn (length seen) regs} (int_n (length regions)) add_region nr
          (Emits-int_n P (length regions) (omega arith))
          (λ ri seen regs b new (sized, known).
            Emits-get_then P (Drawn (suc (length seen))) regions ri _ b (λ region found. (
              omega (arith, sized, length-append regs (region ∷ [])),
              All-append _ regs (region ∷ []) known (mem-get_elem? regions ri found, tt),
            )))
          fuel [] [] (omega arith) (refl, tt))
        (λ regs (seen, count, drawn). (omega (arith, count, drawn.0), drawn.1))

-- The policies made so far.
abbrev pub IsMade : (ℕ → ℕ → String) → Generator → PbacPolicy → Type 0
IsMade padded g p = IsPolicy g p × IsNumbered padded g p.id

abbrev pub Made : (ℕ → ℕ → String) → Generator → ℕ → List PbacPolicy → Type 0
Made padded g n policies = (length policies ≡ n) × All (IsMade padded g) policies

module _ (padded : ℕ → ℕ → String) (fuel : ℕ) (g : Generator) (built : IsBuilt g) where
  make_policy-Emits :
      (root k n : ℕ) (policies : List PbacPolicy)
      → root < Scale.roots g.scale
      → n < Scale.roots g.scale * Scale.policies_per_root g.scale
      → Made padded g n policies
      → Emits
          (PbacCall padded g)
          (Made padded g (suc n))
          (make_policy padded fuel g root k policies)
  unfolding Emits make_policy
  make_policy-Emits root k n policies inside few_yet (count, all_made) = (
    (omega arith),
    λ more few.
        Emits-bind (PbacCall padded g) (Drawn (1 + more)) (Made padded g (suc n))
          (draw_regions fuel (1 + more)) _ (draw_regions-Emits (PbacCall padded g) fuel (1 + more))
          (λ regs (sized, known).
            Emits-get_then (PbacCall padded g) (Made padded g (suc n)) g.orgs root _
              (omega (arith, inside, built.populated.enough_orgs, built.org_count))
              (λ o root_at.
                Emits-pick_then (PbacCall padded g) (Made padded g (suc n)) default_divisions _
                  (omega arith)
                  (λ division _. (
                    (omega arith),
                    λ floor low. (
                      (omega arith),
                      λ ceiling high. (
                        (omega arith),
                        λ tenth _.
                            let made : IsMade padded g (
                                policy_of padded (length policies) k o regs division floor ceiling
                                  tenth) =
                              (
                                record {
                                  o = o;
                                  root = root;
                                  root_at = root_at;
                                  is_root = inside;
                                  of_org = refl;
                                  region_count = (omega (arith, sized), omega (arith, sized, few));
                                  known_regions = known;
                                  floor = (1 + floor) * 1_000_000;
                                  ceiling = (10 + ceiling) * 1_000_000;
                                  min_is = refl;
                                  max_is = refl;
                                  floor_between = (omega arith, omega (arith, low));
                                  ceiling_between = (omega arith, omega (arith, high));
                                },
                                (length policies, omega (arith, few_yet, count), refl),
                              ) in
                            (
                              made,
                              (
                                omega (arith, count, length-append policies (_ ∷ [])),
                                All-append _ policies (_ ∷ []) all_made (made, tt),
                              ),
                            ),
                      ),
                    ),
                  )))),
  )

  pub make_policies-Emits :
      (root n : ℕ) (policies : List PbacPolicy)
      → root < Scale.roots g.scale
      → n + Scale.policies_per_root g.scale ≤ Scale.roots g.scale * Scale.policies_per_root g.scale
      → Made padded g n policies
      → Emits
          (PbacCall padded g)
          (Made padded g (n + Scale.policies_per_root g.scale))
          (make_policies padded fuel g root policies)
  unfolding make_policies
  make_policies-Emits root n policies inside room made =
      Emits-map (PbacCall padded g) (Made padded g ((0 + Scale.policies_per_root g.scale) + n)) _ _
        (Emits-fold_range (PbacCall padded g) {I = λ k. Made padded g (k + n)}
          (make_policy padded fuel g root) 0 (Scale.policies_per_root g.scale)
          (λ k acc _ small h.
            Emits-map (PbacCall padded g) (Made padded g (suc (k + n))) (Made padded g (suc k + n))
              _ (make_policy-Emits root k (k + n) acc inside (omega (arith, room, small)) h)
              (λ next (count, all_made). (omega (arith, count), all_made)))
          policies (omega (arith, made.0), made.1))
        (λ next (count, all_made). (omega (arith, count), all_made))

  pub make_order-Emits :
      (policies : List PbacPolicy)
      → 0 < length policies
      → All (IsMade padded g) policies
      → (i : ℕ) → Emits (PbacCall padded g) Done (make_order padded policies i)
  unfolding Emits make_order
  make_order-Emits policies b all_made i =
      Emits-pick_then (PbacCall padded g) Done policies _ b (λ p listed.
        let (policy, numbered) = All-mem (IsMade padded g) policies all_made listed in
        Emits-pick_then (PbacCall padded g) Done p.regions _ (omega (arith, policy.region_count.0))
          (λ region inside. (
            (
              record {
                p = p;
                policy = policy;
                of_org = refl;
                of_division = refl;
                in_region = inside;
                same_min = refl;
                same_max = refl;
                same_regions = refl;
              },
              numbered,
            ),
            tt,
          )))

  pub assign_policy-Emits :
      (policies : List PbacPolicy) (pi base k : ℕ)
      → pi < length g.personas
      → base + k < length policies
      → All (IsMade padded g) policies
      → Emits (PbacCall padded g) Done (assign_policy g policies pi base k)
  unfolding Emits assign_policy
  assign_policy-Emits policies pi base k b inside all_made =
      Emits-get_then (PbacCall padded g) Done g.personas pi _ b (λ holder found.
        Emits-get_then (PbacCall padded g) Done policies (base + k) _ inside (λ p at_index. (
          (
            record {
              holder = holder;
              listed = mem-get_elem? g.personas pi found;
              of_persona = refl;
            },
            (All-mem (IsMade padded g) policies all_made
                (mem-get_elem? policies (base + k) at_index)).1,
          ),
          tt,
        )))
