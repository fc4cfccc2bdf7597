-- ===== src/Tests/Sampled.antt =====
-- A purchase order of the small dataset, sampled.
use test_permission.Base.{◌<◌, ◌≡◌, refl, [], ◌∷◌, length, All, Memᴰ, get_elem?, arith, true, some}
use test_permission.Base.Int.{pos}
use test_permission.Seed.Types.{Org, AbacDoc, PbacPolicy, PurchaseOrder}
use test_permission.Seed.Program.Running.{stream}
use test_permission.Seed.Program.Running.Soundness.{Ends}
use test_permission.Seed.Generator.Basis.Building.{NoCall}
use test_permission.Seed.Generator.Registry.Laws.{get_elem?-of_lt}
use test_permission.Seed.Generator.Orders.Laws.{IsPolicy, IsOrder}
use test_permission.Seed.Sampler.{Sampler, new_sampler, slice_of}
use test_permission.Seed.Sampler.Pbac.{purchase_order}
use test_permission.Seed.Sampler.Pbac.Laws.{Truthful, Adds}
use test_permission.Seed.Sampler.Pbac.Sampling.{purchase_order-Truthful}
use test_permission.Seed.Sampler.Abac.{abac_doc}
use test_permission.Seed.Sampler.Abac.Laws.{IsJudged, abac_doc-IsJudged}
use test_permission.Tests.Generating.{counter, counter-InRange}
use test_permission.Tests.Phases.{filled, filled-IsBuilt}

filled-some_orgs : 0 < length filled.orgs
filled-some_orgs = omega (
  arith, filled-IsBuilt.populated.some_roots, filled-IsBuilt.populated.enough_orgs,
  filled-IsBuilt.org_count,
)

abbrev root_found : (o : Org) × (get_elem? filled.orgs 0 ≡ some o)
root_found = get_elem?-of_lt filled.orgs 0 filled-some_orgs

abbrev local_policy : PbacPolicy
local_policy = record {
  id = "pol-000000";
  org_id = Org.id root_found.0;
  name = "approval-policy-00";
  division_key = "finance";
  min_amount = pos 1_000_000;
  max_amount = pos 10_000_000;
  regions = "jakarta" ∷ [];
  active = true;
}

local_policy-IsPolicy : IsPolicy filled local_policy
local_policy-IsPolicy = record {
  o = root_found.0;
  root = 0;
  root_at = root_found.1;
  is_root = filled-IsBuilt.populated.some_roots;
  of_org = refl;
  region_count = (omega arith, omega arith);
  known_regions = (Memᴰ.head refl, tt);
  floor = 1_000_000;
  ceiling = 10_000_000;
  min_is = refl;
  max_is = refl;
  floor_between = (omega arith, omega arith);
  ceiling_between = (omega arith, omega arith);
}

abbrev local_order : PurchaseOrder
local_order = record {
  id = "po-000000";
  org_id = Org.id root_found.0;
  policy_id = "pol-000000";
  division_key = "finance";
  region = "jakarta";
  policy_active = true;
  policy_min_amount = pos 1_000_000;
  policy_max_amount = pos 10_000_000;
  policy_regions = "jakarta" ∷ [];
}

local_order-IsOrder : IsOrder filled local_order
local_order-IsOrder = record {
  p = local_policy;
  policy = local_policy-IsPolicy;
  of_org = refl;
  of_division = refl;
  in_region = Memᴰ.head refl;
  same_min = refl;
  same_max = refl;
  same_regions = refl;
}

abbrev regional_doc : AbacDoc
regional_doc = record {
  id = "adoc-0000000";
  org_id = Org.id root_found.0;
  division_key = "finance";
  classification = pos 2;
  status = "active";
  region = "jakarta";
}

-- One persona is kept for the policy.
abbrev sampler : Sampler
sampler = record (new_sampler filled 4) { assign_by_pol = ("pol-000000", "psn-000000" ∷ []) ∷ [] }

purchase_order-Truthful_example :
    All NoCall (stream counter (purchase_order 3 local_order sampler) 0).0
    × Ends
        (Adds
          (Truthful local_order filled (slice_of "pol-000000" sampler.assign_by_pol))
          (record sampler { pos_seen = 1 }))
        (stream counter (purchase_order 3 local_order sampler) 0).1
purchase_order-Truthful_example =
    purchase_order-Truthful counter 3 local_order sampler 0 counter-InRange filled-IsBuilt
      local_order-IsOrder (omega arith)

abac_doc-IsJudged_example :
    All NoCall (stream counter (abac_doc regional_doc sampler) 0).0
    × Ends
        (Adds (IsJudged filled regional_doc) sampler)
        (stream counter (abac_doc regional_doc sampler) 0).1
abac_doc-IsJudged_example =
    abac_doc-IsJudged counter regional_doc sampler 0 counter-InRange filled-IsBuilt (omega arith)
