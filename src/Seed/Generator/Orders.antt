-- ===== src/Seed/Generator/Orders.antt =====
-- internal/seed/generator.go `StreamPBAC`: the policies of every root, the policies that every persona
-- is assigned, and the purchase orders.
pub mod Laws
pub mod Streaming
use test_permission.Base.{
  ℕ, zero, suc, ◌+◌, ◌*◌, ◌/◌, String, List, [], ◌∷◌, ◌++◌, not, length, ltb, nat_eq, if◌then◌else◌,
}
use test_permission.Base.Int.{pos}
use test_permission.Seed.Types.{
  Scale, Org, Persona, PbacPolicy, PbacAssignment, PurchaseOrder, Fact,
}
use test_permission.Seed.Program.{
  Program, done, ◌>>=◌, ◌>>◌, int_n, at, choose, emit, fold_range, for_range, draw_distinct,
}
use test_permission.Seed.Generator.{Generator, default_divisions, regions, id_of}
use test_permission.Seed.Generator.Basis.{begin, end}

unfoldable pub add_region : ℕ → List String → Program (List String)
add_region ri regs = do region ← at regions ri; done (regs ++ (region ∷ []))

-- `len(regs)` and `len(seen)` stay equal.
unfoldable pub draw_regions : ℕ → ℕ → Program (List String)
draw_regions fuel nr = draw_distinct (int_n (length regions)) add_region nr fuel [] []

module _ (g : Generator) where
  unfoldable pub assign_policy : List PbacPolicy → ℕ → ℕ → ℕ → Program (Unit {0})
  assign_policy policies pi base k = do
    p ← at g.personas pi
    policy ← at policies (base + k)
    emit (
        Fact.pbac_assignment
          (record { persona_id = Persona.id p; policy_id = PbacPolicy.id policy }))

module _ (padded : ℕ → ℕ → String) where
  -- The policy that the drawn numbers make.
  abbrev pub policy_of : ℕ → ℕ → Org → List String → String → ℕ → ℕ → ℕ → PbacPolicy
  policy_of n k root_org regs division floor ceiling tenth = record {
    id = id_of padded "pol-" 6 n;
    org_id = root_org.id;
    name = id_of padded "approval-policy-" 2 k;
    division_key = division;
    min_amount = pos ((1 + floor) * 1_000_000);
    max_amount = pos ((10 + ceiling) * 1_000_000);
    regions = regs;
    active = not (nat_eq tenth 0);
  }

  unfoldable pub make_order : List PbacPolicy → ℕ → Program (Unit {0})
  make_order policies i = do
    p ← choose policies
    region ← choose (PbacPolicy.regions p)
    emit (
        Fact.purchase_order (record {
          id = id_of padded "po-" 6 i;
          org_id = PbacPolicy.org_id p;
          policy_id = PbacPolicy.id p;
          division_key = PbacPolicy.division_key p;
          region = region;
          policy_active = PbacPolicy.active p;
          policy_min_amount = PbacPolicy.min_amount p;
          policy_max_amount = PbacPolicy.max_amount p;
          policy_regions = PbacPolicy.regions p;
        }))

module _ (padded : ℕ → ℕ → String) (fuel : ℕ) (g : Generator) where
  unfoldable pub make_policy : ℕ → ℕ → List PbacPolicy → Program (List PbacPolicy)
  make_policy root k policies = do
    more ← int_n 3
    regs ← draw_regions fuel (1 + more)
    root_org ← at g.orgs root
    division ← choose default_divisions
    floor ← int_n 5
    ceiling ← int_n 490
    tenth ← int_n 10
    let p : PbacPolicy =
        policy_of padded (length policies) k root_org regs division floor ceiling tenth
    emit (Fact.pbac_policy p)
    done (policies ++ (p ∷ []))

  unfoldable pub make_policies : ℕ → List PbacPolicy → Program (List PbacPolicy)
  make_policies root policies =
      fold_range (make_policy root) 0 (Scale.policies_per_root g.scale) policies

  unfoldable pub assign_policies : List PbacPolicy → ℕ → Program (Unit {0})
  assign_policies policies pi = do
    oi ← at g.persona_org pi
    root ← at g.root_ordinal oi
    x ← int_n 100
    y ← int_n 100
    let n : ℕ = if ltb x 55 then 2 else 1
    draw_distinct (int_n (Scale.policies_per_root g.scale))
        (λ k _. assign_policy g policies pi (root * Scale.policies_per_root g.scale) k)
        (if ltb y 33 then suc n else n) fuel [] tt

  abbrev pub n_policies : ℕ
  n_policies = Scale.roots g.scale * Scale.policies_per_root g.scale

  unfoldable pub stream_pbac : Program (Unit {0})
  stream_pbac = do
    begin "pbac" (n_policies + length g.personas * 3 / 2 + Scale.purchase_orders g.scale)
    policies ← fold_range make_policies 0 (Scale.roots g.scale) []
    for_range (assign_policies policies) (length g.personas)
    for_range (make_order padded policies) (Scale.purchase_orders g.scale)
    end "pbac"
