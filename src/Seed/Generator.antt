-- ===== src/Seed/Generator.antt =====
-- internal/seed/generator.go: the generator's state, its word lists and its random streams.
-- `padded width n` stands for the decimal text of `n` that fmt's `%0<width>d` prints.
pub mod Slices
pub mod Indexed
pub mod Forest
pub mod Tables
pub mod Registry
pub mod Basis
pub mod Built
pub mod Grants
pub mod Sharing
pub mod Folders
pub mod Attributes
pub mod Orders
pub mod Running
use Prim.Native.String.{◌++◌ as str_append}
use test_permission.Base.{ℕ, zero, suc, String, Option, none, some, List, [], ◌∷◌, ◌++◌, lookup}
use test_permission.Seed.Types.{Scale, Org, Division, Role, Account, Persona, RegistryResource}
use test_permission.Catalog.{Catalog}

-- The stream of each phase: a map from its name to the tag that its random source is made with.
abbrev pub phase_tags : List (String × ℕ)
phase_tags =
    ("basis", 45221)
    ∷ ("rbac", 19372)
    ∷ ("rebac", 20154)
    ∷ ("abac", 43948)
    ∷ ("pbac", 39852)
    ∷ ("acl", 2753)
    ∷ []

-- A key that is missing from a map of Go reads as zero.
unfoldable pub phase_tag : String → ℕ
unfolding lookup
phase_tag phase = elim (lookup phase phase_tags) [ none ↦ 0 | some tag ↦ tag ]

abbrev pub default_divisions : List String
default_divisions = "finance" ∷ "procurement" ∷ "hr" ∷ "sales" ∷ "operations" ∷ []

abbrev pub custom_divisions : List String
custom_divisions =
    "halal-compliance" ∷ "export-desk" ∷ "r-and-d" ∷ "legal" ∷ "it-security" ∷ "csr"
    ∷ "quality-assurance" ∷ "fleet" ∷ []

abbrev pub default_roles : List String
default_roles = "owner" ∷ "admin" ∷ "manager" ∷ "staff" ∷ "auditor" ∷ []

abbrev pub custom_roles : List String
custom_roles =
    "tax-specialist" ∷ "warehouse-lead" ∷ "payroll-officer" ∷ "account-executive"
    ∷ "compliance-officer" ∷ "branch-head" ∷ "procurement-officer" ∷ "hr-partner" ∷ []

abbrev pub regions : List String
regions =
    "jakarta" ∷ "surabaya" ∷ "bandung" ∷ "medan" ∷ "makassar" ∷ "semarang" ∷ "denpasar"
    ∷ "balikpapan" ∷ []

abbrev pub employment_types : List String
employment_types = "full-time" ∷ "contract" ∷ "intern" ∷ "outsourced" ∷ []

abbrev pub org_words : List String
org_words =
    "Samudra" ∷ "Nusantara" ∷ "Garuda" ∷ "Merapi" ∷ "Sriwijaya" ∷ "Borneo" ∷ "Celebes" ∷ "Andalas"
    ∷ "Krakatau" ∷ "Mahakam" ∷ "Batavia" ∷ "Rinjani" ∷ "Toba" ∷ "Flores" ∷ "Komodo" ∷ "Halmahera"
    ∷ []

abbrev pub org_suffixes : List String
org_suffixes =
    "Group" ∷ "Sejahtera" ∷ "Makmur" ∷ "Abadi" ∷ "Perkasa" ∷ "Digital" ∷ "Logistik" ∷ "Industri"
    ∷ "Retail" ∷ "Energi" ∷ []

abbrev pub branch_kinds : List String
branch_kinds = "Cabang" ∷ "Distribusi" ∷ "Pabrik" ∷ "Regional" ∷ "Unit" ∷ []

abbrev pub first_names : List String
first_names =
    "Budi" ∷ "Siti" ∷ "Agus" ∷ "Dewi" ∷ "Rizky" ∷ "Putri" ∷ "Andi" ∷ "Ratna" ∷ "Joko" ∷ "Maya"
    ∷ "Hendra" ∷ "Lestari" ∷ "Bayu" ∷ "Intan" ∷ "Fajar" ∷ "Sari" ∷ []

abbrev pub last_names : List String
last_names =
    "Santoso" ∷ "Wijaya" ∷ "Pratama" ∷ "Utami" ∷ "Saputra" ∷ "Handayani" ∷ "Kurniawan" ∷ "Rahayu"
    ∷ "Hidayat" ∷ "Anggraini" ∷ "Nugroho" ∷ "Puspita" ∷ "Setiawan" ∷ "Melati" ∷ "Gunawan"
    ∷ "Safitri" ∷ []

-- The parent of a root is -1 in the code, and `none` here.
pub record Generator : Type 0 where
  pub seed : ℕ
  pub scale : Scale
  pub cat : Catalog
  pub orgs : List Org
  pub org_idx : List (String × ℕ)
  pub root_of : List ℕ
  pub parent_of : List (Option ℕ)
  pub divisions : List Division
  pub divs_by_org : List (List ℕ)
  pub roles : List Role
  pub roles_by_root : List (List ℕ)
  pub root_ordinal : List ℕ
  pub accounts : List Account
  pub personas : List Persona
  pub persona_org : List ℕ
  pub personas_by_org : List (List ℕ)
  pub nodes_by_root : List (List ℕ)
  pub resources : List RegistryResource

abbrev pub new_generator : ℕ → Scale → Catalog → Generator
new_generator seed scale cat = record {
  seed = seed;
  scale = scale;
  cat = cat;
  orgs = [];
  org_idx = [];
  root_of = [];
  parent_of = [];
  divisions = [];
  divs_by_org = [];
  roles = [];
  roles_by_root = [];
  root_ordinal = [];
  accounts = [];
  personas = [];
  persona_org = [];
  personas_by_org = [];
  nodes_by_root = [];
  resources = [];
}

-- `slice[i] = f(slice[i])`, `make([][]int, n)`, and the pairs that `range` goes through.
module _ {A : Type 0} where
  unfoldable pub modify : ℕ → (A → A) → List A → List A
  modify i f [] = []
  modify zero f (x ∷ xs) = f x ∷ xs
  modify (suc i) f (x ∷ xs) = x ∷ modify i f xs

  unfoldable pub empties : ℕ → List (List A)
  empties zero = []
  empties (suc n) = [] ∷ empties n

  unfoldable pub indexed_from : ℕ → List A → List (ℕ × A)
  indexed_from i [] = []
  indexed_from i (x ∷ xs) = (i, x) ∷ indexed_from (suc i) xs

abbrev pub push_at : ℕ → ℕ → List (List ℕ) → List (List ℕ)
push_at i n lists = modify i (λ ns. ns ++ (n ∷ [])) lists

-- The texts of the format strings, `"<prefix>%0<width>d"` and `"%s %s"`.
module _ (padded : ℕ → ℕ → String) where
  abbrev pub id_of : String → ℕ → ℕ → String
  id_of prefix width n = str_append prefix (padded width n)

abbrev pub spaced : String → String → String
spaced a b = str_append a (str_append " " b)
