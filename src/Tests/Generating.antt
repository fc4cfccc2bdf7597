-- ===== src/Tests/Generating.antt =====
-- A dataset of one root and one subsidiary, generated from a counter.
use Prim.Native.String.{◌++◌ as str_append}
use test_permission.Base.{
  true, ℕ, zero, suc, ◌+◌, ◌%◌, ◌<◌, ◌≡◌, refl, String, [], ◌∷◌, length, All, arith,
}
use test_permission.Base.Fallible.{is_ok}
use test_permission.Catalog.{Catalog}
use test_permission.Seed.Types.{Scale}
use test_permission.Seed.Program.{Program, at, choose, fold_each, fold_range}
use test_permission.Seed.Program.Running.{Random, InRange, stream}
use test_permission.Seed.Program.Running.Soundness.{Ends}
use test_permission.Seed.Generator.{Generator, new_generator, modify, empties, indexed_from}
use test_permission.Seed.Generator.Built.{IsBuilt, IsPopulated}
use test_permission.Seed.Generator.Forest.{build_orgs, plant_root, plant_node, pick_parent}
use test_permission.Seed.Generator.Tables.{
  add_divisions, custom_division, divide, build_divisions, add_roles, custom_role, staff,
  build_roles, add_account, build_accounts, add_persona, build_personas,
}
use test_permission.Seed.Generator.Registry.{
  flatten_catalog, add_services, add_endpoints, add_pages, add_components,
}
use test_permission.Seed.Generator.Basis.{build_basis}
use test_permission.Seed.Generator.Basis.Building.{NoCall, build_basis-IsBuilt}

abbrev pub counter : Random
counter = record { State = ℕ; new = λ seed tag. seed + tag; int_n = λ n s. (s % n, suc s) }

pub counter-InRange : InRange counter
counter-InRange n s b = omega (arith, b)

-- Ticks in place of digits.
abbrev pub ticks : ℕ → ℕ → String
ticks width zero = ""
ticks width (suc n) = str_append "i" (ticks width n)

abbrev pub tiny_scale : Scale
tiny_scale = record {
  roots = 1;
  org_nodes = 2;
  max_depth = 2;
  div_custom_max = 0;
  role_custom_max = 0;
  accounts = 1;
  personas = 1;
  grants_per_role = 2;
  folders_per_org = 1;
  docs_per_folder = 1;
  manager_edges = 1;
  abac_docs = 1;
  policies_per_root = 3;
  purchase_orders = 1;
  acl_docs = 1;
  acl_entries_min = 1;
  acl_entries_max = 1;
  tuples_per_model = 1;
}

abbrev pub tiny_catalog : Catalog
tiny_catalog = record {
  services =
      record {
        key = "sales";
        name = "Sales";
        endpoints = record { key = "list"; method = "GET"; path = "/orders" } ∷ [];
        pages =
            record { key = "orders"; route = "/orders"; components = "table" ∷ "export" ∷ [] } ∷ [];
      }
      ∷ [];
}

abbrev pub tiny : Generator
tiny = new_generator 7 tiny_scale tiny_catalog

pub tiny-IsPopulated : IsPopulated tiny_scale
tiny-IsPopulated = record {
  some_roots = omega arith;
  enough_orgs = omega arith;
  room = omega arith;
  some_accounts = omega arith;
  some_personas = omega arith;
  some_policies = omega arith;
  entries = omega arith;
}

pub tiny-some_resources : 0 < length (flatten_catalog tiny_catalog)
unfolding flatten_catalog add_services add_endpoints add_pages add_components
tiny-some_resources = omega arith

abbrev pub build_tiny : Program Generator
build_tiny = build_basis ticks 3 tiny

build_basis-IsBuilt_example :
    All NoCall (stream counter build_tiny 0).0 × Ends IsBuilt (stream counter build_tiny 0).1
build_basis-IsBuilt_example =
    build_basis-IsBuilt ticks 3 tiny tiny-IsPopulated tiny-some_resources counter counter-InRange 0

-- The run of it ends well.
pub tiny_is_built : is_ok (stream counter build_tiny 0).1 ≡ true
unfolding stream build_basis build_orgs plant_root plant_node pick_parent build_divisions divide
    add_divisions custom_division build_roles staff add_roles custom_role build_accounts add_account
    build_personas add_persona at choose fold_range fold_each modify empties indexed_from
tiny_is_built = refl
