-- ===== src/Seed/Sampler/Pbac.antt =====
-- internal/seed/sampler.go `PbacAssignment` and `PurchaseOrder`.
pub mod Laws
pub mod Sampling
use test_permission.Base.{
  Bool, true, false, ℕ, zero, suc, ◌+◌, ◌%◌, String, List, [], ◌∷◌, ◌++◌, ◌==◌, length, ltb, nat_eq,
  lookup, insert, if◌then◌else◌, contains,
}
use test_permission.Base.Int.{ℤ, pos, ◌+ℤ◌, ◌-ℤ◌}
use test_permission.Domain.{Value}
use test_permission.Seed.Types.{Scale, PbacAssignment, PurchaseOrder}
use test_permission.Seed.Program.{Program, done, fail, ◌>>=◌, int_n, at, choose, exhausted}
use test_permission.Seed.Generator.{Generator, regions}
use test_permission.Seed.Sampler.{
  Tuple, Sampler, slice_of, number_of, need, add, skips, random_persona_other_root,
}

unfoldable pub pbac_assignment : PbacAssignment → Sampler → Sampler
unfolding lookup insert
pbac_assignment a s =
    let lst = slice_of a.policy_id s.assign_by_pol in
    if ltb (length lst) 4
    then record s {
      assign_by_pol = insert a.policy_id (lst ++ (a.persona_id ∷ [])) s.assign_by_pol;
    }
    else s

-- The loop that picks a region that is not listed.
unfoldable pub region_outside : List String → ℕ → Program String
unfolding contains
region_outside listed zero = fail exhausted
region_outside listed (suc fuel) = do
  r ← choose regions
  elim (contains listed r) [ true ↦ region_outside listed fuel | false ↦ done r ]

abbrev pub po_tuple : PurchaseOrder → String → ℤ → String → String → Tuple
po_tuple po principal amount region expected = record {
  model = "pbac";
  principal = principal;
  action = "po.approve";
  resource_type = "PurchaseOrder";
  resource = po.id;
  context = ("amount", Value.int64 amount) ∷ ("region", Value.string region) ∷ [];
  expected = expected;
}

module _ (fuel : ℕ) (po : PurchaseOrder) (assignee region : String) (in_amount : ℤ) where
  -- The five denied variants, in turn.
  unfoldable pub add_denied : ℕ → Sampler → Program Sampler
  add_denied zero s =
      done (add (po_tuple po assignee (po.policy_max_amount +ℤ pos 1_000_000) region "deny") s)
  add_denied (suc zero) s = do
    outside ← region_outside po.policy_regions fuel
    done (add (po_tuple po assignee in_amount outside "deny") s)
  add_denied (suc (suc zero)) s = do
    root ← at (Generator.root_of s.gen) (number_of po.org_id (Generator.org_idx s.gen))
    other ← random_persona_other_root s root fuel
    done (add (po_tuple po other in_amount region "deny") s)
  add_denied (suc (suc (suc zero))) s =
      if po.policy_active
      then done s
      else done (add (po_tuple po assignee in_amount region "deny") s)
  add_denied (suc (suc (suc (suc zero)))) s =
      done (add (po_tuple po assignee (po.policy_min_amount -ℤ pos 1) region "deny") s)
  add_denied (suc (suc (suc (suc (suc n))))) s = done s

  abbrev pub add_allowed : Sampler → Sampler
  add_allowed s =
      if po.policy_active then add (po_tuple po assignee in_amount region "allow") s else s

-- With the personas that are kept for the order's policy.
unfoldable pub sample_order : ℕ → PurchaseOrder → List String → Sampler → Program Sampler
sample_order fuel po [] s = done s
sample_order fuel po (first ∷ others) s = do
  assignee ← choose (first ∷ others)
  x ← int_n 1_000_000
  let in_amount : ℤ = po.policy_max_amount -ℤ pos (x + 1)
  region ← choose po.policy_regions
  add_denied fuel po assignee region in_amount (s.pos_seen % 5)
      (add_allowed fuel po assignee region in_amount s)

unfoldable pub purchase_order : ℕ → PurchaseOrder → Sampler → Program Sampler
purchase_order fuel po s =
    let seen : Sampler = record s { pos_seen = suc s.pos_seen } in
    elim (need seen "pbac") [
      | false ↦ done seen
      | true ↦ do
        skipped ← skips seen (Scale.purchase_orders (Generator.scale seen.gen))
        elim skipped [
          | true ↦ done seen
          | false ↦ sample_order fuel po (slice_of po.policy_id seen.assign_by_pol) seen
        ]
    ]
