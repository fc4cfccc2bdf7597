-- ===== src/Seed/Generator/Orders/Streaming.antt =====
-- `StreamPBAC` as a whole: the policies of every root, then what refers to them.
use test_permission.Base.{ℕ, ◌+◌, ◌*◌, ◌<◌, ◌≤◌, ◌≡◌, refl, String, List, [], length, All, arith}
use test_permission.Seed.Types.{Scale, PbacPolicy}
use test_permission.Seed.Program.{int_n, for_range, fold_range}
use test_permission.Seed.Program.Laws.{
  Done, Emits, Emits-bind, Emits-map, Emits-int_n, Emits-for_range, Emits-fold_range,
  Emits-draw_each,
}
use test_permission.Seed.Program.Picks.{Emits-get_then}
use test_permission.Seed.Generator.{Generator}
use test_permission.Seed.Generator.Built.{IsBuilt}
use test_permission.Seed.Generator.Orders.Laws.{
  IsMade, PbacCall, Made, make_policies-Emits, assign_policy-Emits, make_order-Emits,
}
use test_permission.Seed.Generator.Orders.{
  make_policies, assign_policy, assign_policies, make_order, stream_pbac,
}

-- The policies of a root are `policies_per_root` in a row.
own_policy : (root k per n : ℕ) → root < n → k < per → root * per + k < n * per
own_policy root k per n inside b = grind (arith, inside, b)

own_block : (root per n : ℕ) → root < n → root * per + per ≤ n * per
own_block root per n inside = grind (arith, inside)

module _ (padded : ℕ → ℕ → String) (fuel : ℕ) (g : Generator) (built : IsBuilt g) where
  assign_policies-Emits :
      (policies : List PbacPolicy) (pi : ℕ)
      → pi < length g.personas
      → length policies ≡ Scale.roots g.scale * Scale.policies_per_root g.scale
      → All (IsMade padded g) policies
      → Emits (PbacCall padded g) Done (assign_policies padded fuel g policies pi)
  unfolding Emits assign_policies
  assign_policies-Emits policies pi b count all_made =
      Emits-get_then (PbacCall padded g) Done g.persona_org pi _
        (omega (arith, b, built.home_count, built.persona_count))
        (λ oi org_at.
          Emits-get_then (PbacCall padded g) Done g.root_ordinal oi _
            (omega (arith, built.homes pi oi org_at, built.ordinal_count))
            (λ root root_at. (
              omega arith,
              λ x _. (
                omega arith,
                λ y _.
                    Emits-draw_each (PbacCall padded g) (λ k. k < Scale.policies_per_root g.scale)
                      (int_n (Scale.policies_per_root g.scale))
                      (assign_policy g policies pi (root * Scale.policies_per_root g.scale)) _ fuel
                      (Emits-int_n (PbacCall padded g) (Scale.policies_per_root g.scale)
                        built.populated.some_policies)
                      (λ k inside.
                        let own =
                          own_policy root k (Scale.policies_per_root g.scale) (Scale.roots g.scale)
                            (built.ordinals oi root root_at) inside in
                        assign_policy-Emits padded fuel g built policies pi _ k b
                          (omega (arith, own, count)) all_made),
              ),
            )))

  all_policies-Emits :
      Emits
        (PbacCall padded g)
        (Made padded g (Scale.roots g.scale * Scale.policies_per_root g.scale))
        (fold_range (make_policies padded fuel g) 0 (Scale.roots g.scale) [])
  all_policies-Emits =
      Emits-map (PbacCall padded g)
        (Made padded g ((0 + Scale.roots g.scale) * Scale.policies_per_root g.scale)) _ _
        (Emits-fold_range (PbacCall padded g)
          {I = λ r. Made padded g (r * Scale.policies_per_root g.scale)}
          (make_policies padded fuel g) 0 (Scale.roots g.scale)
          (λ root acc _ inside h.
            Emits-map (PbacCall padded g) _ _ _
              (make_policies-Emits padded fuel g built root (root * Scale.policies_per_root g.scale)
                acc (omega (arith, inside))
                (own_block root (Scale.policies_per_root g.scale) (Scale.roots g.scale)
                  (omega (arith, inside)))
                h)
              (λ next (count, all_made). (omega (arith, count), all_made)))
          [] (omega arith, tt))
        (λ next (count, all_made). (omega (arith, count), all_made))

  pub stream_pbac-Emits : Emits (PbacCall padded g) Done (stream_pbac padded fuel g)
  unfolding stream_pbac Emits
  stream_pbac-Emits = (
    refl,
    Emits-bind (PbacCall padded g)
        (Made padded g (Scale.roots g.scale * Scale.policies_per_root g.scale)) Done
        (fold_range (make_policies padded fuel g) 0 (Scale.roots g.scale) []) _ all_policies-Emits
        (λ policies (count, all_made).
          Emits-bind (PbacCall padded g) Done Done
            (for_range (assign_policies padded fuel g policies) (length g.personas)) _
            (Emits-for_range (PbacCall padded g) (assign_policies padded fuel g policies)
              (length g.personas) (λ pi b. assign_policies-Emits policies pi b count all_made))
            (λ _ _.
              Emits-bind (PbacCall padded g) Done Done
                (for_range (make_order padded policies) (Scale.purchase_orders g.scale)) _
                (Emits-for_range (PbacCall padded g) (make_order padded policies)
                  (Scale.purchase_orders g.scale)
                  (λ i _.
                    make_order-Emits padded fuel g built policies
                      (omega (
                        arith,
                        count,
                        own_policy 0 0 (Scale.policies_per_root g.scale) (Scale.roots g.scale)
                            built.populated.some_roots built.populated.some_policies,
                      ))
                      all_made i))
                (λ _ _. (refl, tt)))),
  )
