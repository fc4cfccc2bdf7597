-- ===== src/Seed/Generator/Registry/Laws.antt =====
-- The walk from an organization up to its root ends there, and the registry has one resource for each
-- endpoint, page and component of the catalog.
use test_permission.Base.{
  ℕ, zero, suc, ◌<◌, ◌≡◌, refl, String, Option, none, some, List, [], ◌∷◌, ◌++◌, length, get_elem?,
  All, All-append, arith,
}
use test_permission.Catalog.{Endpoint, Page, Service, Catalog}
use test_permission.Seed.Program.{done, at}
use test_permission.Seed.Generator.Built.{Registered, HasKind}
use test_permission.Seed.Generator.Registry.{
  org_ancestors, flatten_catalog, add_services, add_endpoints, add_pages, add_components,
}

-- The chain from an organization to the root above it, each entry the parent of the one before.
pub data Climbs (parent_of : List (Option ℕ)) : ℕ → List ℕ → Type 0 where
  at_root : {i : ℕ} → get_elem? parent_of i ≡ some none → Climbs parent_of i (i ∷ [])
  up :
      {i p : ℕ} {chain : List ℕ}
      → get_elem? parent_of i ≡ some (some p)
      → Climbs parent_of p chain
      → Climbs parent_of i (i ∷ chain)

pub get_elem?-of_lt :
    {A : Type 0} (xs : List A) (i : ℕ) → i < length xs → (x : A) × (get_elem? xs i ≡ some x)
get_elem?-of_lt [] i b = absurd (omega (arith, b))
get_elem?-of_lt (x ∷ xs) zero b = (x, refl)
get_elem?-of_lt (x ∷ xs) (suc i) b = get_elem?-of_lt xs i (omega (arith, b))

pub lt-of_get_elem? :
    {A : Type 0} (xs : List A) (i : ℕ) {x : A} → get_elem? xs i ≡ some x → i < length xs
lt-of_get_elem? [] i e = cc
lt-of_get_elem? (y ∷ ys) zero e = omega arith
lt-of_get_elem? (y ∷ ys) (suc i) e = omega (arith, lt-of_get_elem? ys i e)

pub at-of_get_elem? :
    {A : Type 0} (xs : List A) (i : ℕ) {x : A} → get_elem? xs i ≡ some x → at xs i ≡ done x
unfolding at
at-of_get_elem? [] i e = cc
at-of_get_elem? (y ∷ ys) zero e = cc e
at-of_get_elem? (y ∷ ys) (suc i) e = at-of_get_elem? ys i e

module _ (parent_of : List (Option ℕ))
    (earlier : (c p : ℕ) → get_elem? parent_of c ≡ some (some p) → p < c) where
  org_ancestors_within :
      (fuel i : ℕ)
      → i < fuel
      → i < length parent_of
      → (chain : List ℕ) × (org_ancestors parent_of fuel i ≡ done chain) × Climbs parent_of i chain
  unfolding org_ancestors
  org_ancestors_within zero i b inside = absurd (omega (arith, b))
  org_ancestors_within (suc fuel) i b inside =
      let (up_to, e) = get_elem?-of_lt parent_of i inside in
      let read = at-of_get_elem? parent_of i e in
      elim up_to
          as (λ o.
            get_elem? parent_of i ≡ some o
            → at parent_of i ≡ done o
            → (chain : List ℕ) × (org_ancestors parent_of (suc fuel) i ≡ done chain)
              × Climbs parent_of i chain) [
                | none ↦ λ e read. (i ∷ [], rw read, Climbs.at_root e)
                | some p ↦ λ e read.
                    let below = earlier i p e in
                    let (chain, same, climbs) =
                      org_ancestors_within fuel p (omega (arith, b, below))
                        (omega (arith, below, inside)) in
                    (i ∷ chain, rw (read, same), Climbs.up e climbs)
              ]
        e read

  -- Where every organization stands after its parent, the walk from an organization up to its root ends within as many steps as there are organizations up to it: it gives the chain that begins with the organization, goes on with the parent of each entry and ends with one that has no parent.
  pub org_ancestors-Climbs :
      (i : ℕ)
      → i < length parent_of
      → (chain : List ℕ) × (org_ancestors parent_of (suc i) i ≡ done chain)
        × Climbs parent_of i chain
  org_ancestors-Climbs i inside = org_ancestors_within (suc i) i (omega arith) inside

-- Every resource of the registry has the action of its kind.
add_components-HasKind :
    (svc : Service) (pg : Page) (cs : List String) → All HasKind (add_components svc pg cs)
unfolding add_components
add_components-HasKind svc pg [] = tt
add_components-HasKind svc pg (c ∷ cs) = (Registered.rendered, add_components-HasKind svc pg cs)

add_pages-HasKind : (svc : Service) (pgs : List Page) → All HasKind (add_pages svc pgs)
unfolding add_pages
add_pages-HasKind svc [] = tt
add_pages-HasKind svc (pg ∷ pgs) = (
  Registered.viewed,
  All-append HasKind (add_components svc pg pg.components) (add_pages svc pgs)
      (add_components-HasKind svc pg pg.components) (add_pages-HasKind svc pgs),
)

add_endpoints-HasKind : (svc : Service) (eps : List Endpoint) → All HasKind (add_endpoints svc eps)
unfolding add_endpoints
add_endpoints-HasKind svc [] = tt
add_endpoints-HasKind svc (ep ∷ eps) = (Registered.executed, add_endpoints-HasKind svc eps)

add_services-HasKind : (svcs : List Service) → All HasKind (add_services svcs)
unfolding add_services
add_services-HasKind [] = tt
add_services-HasKind (svc ∷ svcs) =
    All-append HasKind (add_endpoints svc svc.endpoints)
      (add_pages svc svc.pages ++ add_services svcs) (add_endpoints-HasKind svc svc.endpoints)
      (All-append HasKind (add_pages svc svc.pages) (add_services svcs)
        (add_pages-HasKind svc svc.pages) (add_services-HasKind svcs))

pub flatten_catalog-HasKind : (c : Catalog) → All HasKind (flatten_catalog c)
unfolding flatten_catalog
flatten_catalog-HasKind c = add_services-HasKind c.services
