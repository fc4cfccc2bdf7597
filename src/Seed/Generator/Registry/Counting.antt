-- ===== src/Seed/Generator/Registry/Counting.antt =====
-- `flattenCatalog` against `Counts` of internal/catalog/catalog.go.
use test_permission.Base.{
  ℕ, ◌+◌, ◌≡◌, refl, String, List, [], ◌∷◌, ◌++◌, ◌==◌, length, if◌then◌else◌, arith,
}
use test_permission.Catalog.{Endpoint, Page, Service, Catalog, counts, sum_over}
use test_permission.Seed.Types.{RegistryResource}
use test_permission.Seed.Generator.Registry.{
  flatten_catalog, add_services, add_endpoints, add_pages, add_components,
}

-- How many resources of a kind there are.
unfoldable pub tally : String → List RegistryResource → ℕ
tally kind [] = 0
tally kind (res ∷ rest) = (if res.kind == kind then 1 else 0) + tally kind rest

tally-append :
    (kind : String) (xs ys : List RegistryResource)
    → tally kind (xs ++ ys) ≡ tally kind xs + tally kind ys
unfolding tally
tally-append kind [] ys = omega arith
tally-append kind (x ∷ xs) ys = omega (arith, tally-append kind xs ys)

tally-components :
    (svc : Service) (pg : Page) (cs : List String)
    → (tally "endpoint" (add_components svc pg cs) ≡ 0)
      × (tally "page" (add_components svc pg cs) ≡ 0)
      × (tally "component" (add_components svc pg cs) ≡ length cs)
unfolding tally add_components
tally-components svc pg [] = (refl, refl, refl)
tally-components svc pg (c ∷ cs) =
    let (a, b, d) = tally-components svc pg cs in
    (omega (arith, a), omega (arith, b), omega (arith, d))

tally-endpoints :
    (svc : Service) (eps : List Endpoint)
    → (tally "endpoint" (add_endpoints svc eps) ≡ length eps)
      × (tally "page" (add_endpoints svc eps) ≡ 0)
      × (tally "component" (add_endpoints svc eps) ≡ 0)
unfolding tally add_endpoints
tally-endpoints svc [] = (refl, refl, refl)
tally-endpoints svc (ep ∷ eps) =
    let (a, b, d) = tally-endpoints svc eps in
    (omega (arith, a), omega (arith, b), omega (arith, d))

tally-pages :
    (svc : Service) (pgs : List Page)
    → (tally "endpoint" (add_pages svc pgs) ≡ 0)
      × (tally "page" (add_pages svc pgs) ≡ length pgs)
      × (tally "component" (add_pages svc pgs) ≡ sum_over (λ p. length (Page.components p)) pgs)
unfolding tally add_pages sum_over
tally-pages svc [] = (refl, refl, refl)
tally-pages svc (pg ∷ pgs) =
    let (a, b, d) = tally-components svc pg pg.components in
    let (e, f, h) = tally-pages svc pgs in
    let joined : (kind : String)
        → tally kind (add_components svc pg pg.components ++ add_pages svc pgs)
          ≡ tally kind (add_components svc pg pg.components) + tally kind (add_pages svc pgs) =
      λ kind. tally-append kind (add_components svc pg pg.components) (add_pages svc pgs) in
    (
      omega (arith, a, e, joined "endpoint"),
      omega (arith, b, f, joined "page"),
      omega (arith, d, h, joined "component"),
    )

tally-services :
    (svcs : List Service)
    → (tally "endpoint" (add_services svcs) ≡ sum_over (λ s. length (Service.endpoints s)) svcs)
      × (tally "page" (add_services svcs) ≡ sum_over (λ s. length (Service.pages s)) svcs)
      × (tally "component" (add_services svcs)
          ≡ sum_over (λ s. sum_over (λ p. length (Page.components p)) (Service.pages s)) svcs)
unfolding tally add_services sum_over
tally-services [] = (refl, refl, refl)
tally-services (svc ∷ svcs) =
    let (a, b, d) = tally-endpoints svc svc.endpoints in
    let (e, f, h) = tally-pages svc svc.pages in
    let (i, j, k) = tally-services svcs in
    let joined : (kind : String)
        → tally kind
            (add_endpoints svc svc.endpoints ++ (add_pages svc svc.pages ++ add_services svcs))
          ≡ tally kind (add_endpoints svc svc.endpoints)
            + (tally kind (add_pages svc svc.pages) + tally kind (add_services svcs)) =
      λ kind. omega (
        arith,
        tally-append kind (add_endpoints svc svc.endpoints)
            (add_pages svc svc.pages ++ add_services svcs),
        tally-append kind (add_pages svc svc.pages) (add_services svcs),
      ) in
    (
      omega (arith, a, e, i, joined "endpoint"),
      omega (arith, b, f, j, joined "page"),
      omega (arith, d, h, k, joined "component"),
    )

-- The registry that is flattened from a catalog has as many resources of kind "endpoint", "page" and "component" as the catalog's Counts says it has endpoints, pages and components.
pub flatten_catalog-counts :
    (c : Catalog)
    → (
      tally "endpoint" (flatten_catalog c),
      tally "page" (flatten_catalog c),
      tally "component" (flatten_catalog c),
    )
      ≡ counts c
unfolding flatten_catalog counts
flatten_catalog-counts c = let (a, b, d) = tally-services c.services in rw (a, b, d)
