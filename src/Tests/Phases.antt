-- ===== src/Tests/Phases.antt =====
-- The phases of the small dataset.
use test_permission.Base.{
  ℕ, zero, suc, ◌<◌, ◌≤◌, ◌≡◌, refl, Option, none, some, List, [], ◌∷◌, All, Memᴰ, get_elem?, arith,
  true,
}
use test_permission.Base.Fallible.{Fallible, ok, err, is_ok}
use test_permission.Catalog.{counts}
use test_permission.Seed.Types.{Fact, Role, RegistryResource}
use test_permission.Seed.Checkpoints.{all_phases}
use test_permission.Seed.Program.Running.{stream}
use test_permission.Seed.Program.Running.Soundness.{Ends}
use test_permission.Seed.Program.Laws.{Done}
use test_permission.Seed.Program.Running.Progress.{drawn, fresh}
use test_permission.Seed.Generator.{Generator}
use test_permission.Seed.Generator.Built.{IsBuilt}
use test_permission.Seed.Generator.Registry.{flatten_catalog, org_ancestors}
use test_permission.Seed.Generator.Registry.Laws.{Climbs, org_ancestors-Climbs}
use test_permission.Seed.Generator.Registry.Counting.{tally, flatten_catalog-counts}
use test_permission.Seed.Generator.Basis.Building.{build_basis-IsBuilt}
use test_permission.Seed.Generator.Grants.Progress.{AllGranted, grant_resources-AllGranted}
use test_permission.Seed.Generator.Running.{stream_of, rng}
use test_permission.Seed.Generator.Running.Facts.{Consistent, dataset_of}
use test_permission.Seed.Generator.Running.Laws.{
  phase-Ends, dataset-Consistent, dataset-GrantsMatch,
}
use test_permission.Seed.Program.{done}
use test_permission.Equivalence.Rbac.{endpoint}
use test_permission.Equivalence.Rbac.Sides.{GrantsMatch}
use test_permission.Tests.Generating.{
  counter, counter-InRange, ticks, tiny, tiny_scale, tiny_catalog, tiny-IsPopulated,
  tiny-some_resources, build_tiny, tiny_is_built,
}

abbrev pub generator_of : Fallible (Generator × ℕ) → Generator
generator_of (ok (g, rest)) = g
generator_of (err e) = tiny

abbrev pub filled : Generator
filled = generator_of (stream counter build_tiny 0).1

IsBuilt-if_ok :
    (r : Fallible (Generator × ℕ)) → is_ok r ≡ true → Ends IsBuilt r → IsBuilt (generator_of r)
IsBuilt-if_ok (ok (g, rest)) e h = h
IsBuilt-if_ok (err failure) e h = absurd (cc e)

pub filled-IsBuilt : IsBuilt filled
filled-IsBuilt =
    IsBuilt-if_ok (stream counter build_tiny 0).1 tiny_is_built
      (build_basis-IsBuilt ticks 3 tiny tiny-IsPopulated tiny-some_resources counter counter-InRange
        0).1

abbrev tiny_facts : List Fact
tiny_facts = dataset_of ticks 9 counter filled all_phases

phase-Ends_example :
    Ends Done (stream counter (stream_of ticks 9 filled "rebac") (rng counter filled "rebac")).1
phase-Ends_example =
    phase-Ends ticks 9 counter counter-InRange filled filled-IsBuilt "rebac"
      (Memᴰ.tail (Memᴰ.tail (Memᴰ.head refl)))

dataset-GrantsMatch_example : GrantsMatch tiny_facts endpoint
dataset-GrantsMatch_example =
    dataset-GrantsMatch ticks 9 counter counter-InRange filled filled-IsBuilt endpoint

abbrev two_orgs : List (Option ℕ)
two_orgs = none ∷ some 0 ∷ []

two_orgs_earlier : (c p : ℕ) → get_elem? two_orgs c ≡ some (some p) → p < c
two_orgs_earlier zero p e = absurd (cc e)
two_orgs_earlier (suc zero) p e = ground (arith, e)
two_orgs_earlier (suc (suc c)) p e = absurd (cc e)

org_ancestors-Climbs_example :
    (chain : List ℕ) × (org_ancestors two_orgs 2 1 ≡ done chain) × Climbs two_orgs 1 chain
org_ancestors-Climbs_example = org_ancestors-Climbs two_orgs two_orgs_earlier 1 (omega arith)

flatten_catalog-counts_example :
    (
      tally "endpoint" (flatten_catalog tiny_catalog),
      tally "page" (flatten_catalog tiny_catalog),
      tally "component" (flatten_catalog tiny_catalog),
    )
    ≡ counts tiny_catalog
flatten_catalog-counts_example = flatten_catalog-counts tiny_catalog

abbrev clerk : Role
clerk = record { id = "r1"; org_id = "o1"; key = "staff"; name = "staff"; is_default = true }

abbrev listed : RegistryResource
listed = record {
  id = "ep/sales/list";
  kind = "endpoint";
  action = "execute";
  service_key = "sales";
  method = "GET";
  path = "/orders";
  route = "";
  page_id = "";
}

abbrev shown : RegistryResource
shown = record {
  id = "pg/sales/orders";
  kind = "page";
  action = "view";
  service_key = "sales";
  method = "";
  path = "";
  route = "/orders";
  page_id = "";
}

-- The grants of a role need no more than a registry.
abbrev stocked : Generator
stocked = record {
  seed = 7;
  scale = tiny_scale;
  cat = tiny_catalog;
  orgs = [];
  org_idx = [];
  root_of = [];
  parent_of = [];
  divisions = [];
  divs_by_org = [];
  roles = clerk ∷ [];
  roles_by_root = [];
  root_ordinal = [];
  accounts = [];
  personas = [];
  persona_org = [];
  personas_by_org = [];
  nodes_by_root = [];
  resources = listed ∷ shown ∷ [];
}

enough_draws : 2 ≤ fresh [] (drawn counter 2 2 0)
unfolding fresh drawn
enough_draws = omega arith

grant_resources-AllGranted_example : AllGranted counter counter-InRange 2 stocked clerk 2 0
grant_resources-AllGranted_example =
    grant_resources-AllGranted counter counter-InRange 2 stocked clerk 0 (omega arith) enough_draws

dataset-Consistent_example : All (Consistent ticks filled) tiny_facts
dataset-Consistent_example =
    dataset-Consistent ticks 9 counter counter-InRange filled filled-IsBuilt
