-- ===== src/Catalog.antt =====
-- internal/catalog/catalog.go: the registry of the applications' endpoints, pages and components.
-- Reading the file and encoding/json are parameters.
use test_permission.Base.{ℕ, ◌+◌, String, List, [], ◌∷◌, length}
use test_permission.Base.Fallible.{Fallible, ok, err, fault, wrapping, ◌>>=◌}

pub record Endpoint : Type 0 where
  pub key : String
  pub method : String
  pub path : String

pub record Page : Type 0 where
  pub key : String
  pub route : String
  pub components : List String

pub record Service : Type 0 where
  pub key : String
  pub name : String
  pub endpoints : List Endpoint
  pub pages : List Page

pub record Catalog : Type 0 where
  pub services : List Service

unfoldable has_services : Catalog → Fallible Catalog
has_services c = elim c.services [ [] ↦ err (fault "catalog has no services") | _ ∷ _ ↦ ok c ]

unfoldable load :
    (String → Fallible String) → (String → Fallible Catalog) → String → Fallible Catalog
unfolding has_services
load read_file unmarshal path = do
  text ← wrapping "read catalog" (read_file path)
  c ← wrapping "parse catalog" (unmarshal text)
  has_services c

unfoldable pub sum_over : {A : Type 0} → (A → ℕ) → List A → ℕ
sum_over f [] = 0
sum_over f (x ∷ xs) = f x + sum_over f xs

-- The endpoints, pages and components.
unfoldable pub counts : Catalog → ℕ × ℕ × ℕ
counts c = (
  sum_over (λ s. length (Service.endpoints s)) c.services,
  sum_over (λ s. length (Service.pages s)) c.services,
  sum_over (λ s. sum_over (λ p. length (Page.components p)) (Service.pages s)) c.services,
)
