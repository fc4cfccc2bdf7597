-- ===== src/Seed/Generator/Registry.antt =====
-- internal/seed/generator.go `flattenCatalog` and `OrgAncestors`.
pub mod Laws
pub mod Counting
use test_permission.Base.{ℕ, zero, suc, String, Option, none, some, List, [], ◌∷◌, ◌++◌}
use Prim.Native.String.{◌++◌ as str_append}
use test_permission.Catalog.{Endpoint, Page, Service, Catalog}
use test_permission.Seed.Types.{RegistryResource}
use test_permission.Seed.Program.{Program, done, fail, ◌>>=◌, at, exhausted}

-- `"<prefix>/%s/%s"`
abbrev pub slashed : String → String → String
slashed a b = str_append a (str_append "/" b)

abbrev pub endpoint_resource : Service → Endpoint → RegistryResource
endpoint_resource svc ep = record {
  id = slashed "ep" (slashed svc.key ep.key);
  kind = "endpoint";
  action = "execute";
  service_key = svc.key;
  method = ep.method;
  path = ep.path;
  route = "";
  page_id = "";
}

abbrev pub page_id_of : Service → Page → String
page_id_of svc pg = slashed "pg" (slashed svc.key pg.key)

abbrev pub page_resource : Service → Page → RegistryResource
page_resource svc pg = record {
  id = page_id_of svc pg;
  kind = "page";
  action = "view";
  service_key = svc.key;
  method = "";
  path = "";
  route = pg.route;
  page_id = "";
}

abbrev pub component_resource : Service → Page → String → RegistryResource
component_resource svc pg cmp = record {
  id = slashed "cmp" (slashed svc.key (slashed pg.key cmp));
  kind = "component";
  action = "render";
  service_key = svc.key;
  method = "";
  path = "";
  route = "";
  page_id = page_id_of svc pg;
}

-- The three nested loops, from the innermost.
unfoldable pub add_components : Service → Page → List String → List RegistryResource
add_components svc pg [] = []
add_components svc pg (cmp ∷ cmps) = component_resource svc pg cmp ∷ add_components svc pg cmps

unfoldable pub add_pages : Service → List Page → List RegistryResource
add_pages svc [] = []
add_pages svc (pg ∷ pgs) =
    page_resource svc pg ∷ (add_components svc pg pg.components ++ add_pages svc pgs)

unfoldable pub add_endpoints : Service → List Endpoint → List RegistryResource
add_endpoints svc [] = []
add_endpoints svc (ep ∷ eps) = endpoint_resource svc ep ∷ add_endpoints svc eps

unfoldable pub add_services : List Service → List RegistryResource
add_services [] = []
add_services (svc ∷ svcs) =
    add_endpoints svc svc.endpoints ++ (add_pages svc svc.pages ++ add_services svcs)

unfoldable pub flatten_catalog : Catalog → List RegistryResource
flatten_catalog c = add_services c.services

-- The chain from an organization up to its root. -1, past a root, is `none`.
unfoldable pub org_ancestors : List (Option ℕ) → ℕ → ℕ → Program (List ℕ)
org_ancestors parent_of zero i = fail exhausted
org_ancestors parent_of (suc fuel) i = do
  up ← at parent_of i
  elim up [
    | none ↦ done (i ∷ [])
    | some p ↦ org_ancestors parent_of fuel p >>= λ chain. done (i ∷ chain)
  ]
