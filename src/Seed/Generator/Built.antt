-- ===== src/Seed/Generator/Built.antt =====
-- internal/seed/generator.go: what holds of a generator that `BuildBasis` has filled.
use test_permission.Base.{
  ℕ, suc, ◌≤◌, ◌<◌, ◌≡◌, String, some, List, length, lookup, none, get_elem?, All, Memᴰ,
}
use test_permission.Seed.Types.{Scale, Org, RegistryResource}
use test_permission.Seed.Generator.{Generator}

-- A list of `n` buckets of indexes, of which the first `filled` have one at least. What is said of an
-- index depends on its bucket.
pub record IsBuckets (filled n : ℕ) (L : ℕ → ℕ → Type 0) (lists : List (List ℕ)) : Type 0 where
  pub sized : length lists ≡ n
  pub some_in : (r : ℕ) (ns : List ℕ) → r < filled → get_elem? lists r ≡ some ns → 0 < length ns
  pub labelled : (r : ℕ) (ns : List ℕ) → get_elem? lists r ≡ some ns → All (L r) ns

-- The three kinds of registry resource, each with its action.
pub data Registered : String → String → Type 0 where
  executed : Registered "endpoint" "execute"
  viewed : Registered "page" "view"
  rendered : Registered "component" "render"

abbrev pub HasKind : RegistryResource → Type 0
HasKind res = Registered res.kind res.action

-- A subsidiary stands after its parent, one level below it and in the same tree.
pub record IsChild (orgs : List Org) (ordinals : List ℕ) (c p : ℕ) : Type 0 where
  pub child : Org
  pub parent : Org
  pub child_at : get_elem? orgs c ≡ some child
  pub parent_at : get_elem? orgs p ≡ some parent
  pub earlier : p < c
  pub below : child.depth ≡ suc parent.depth
  pub of_parent : child.parent_id ≡ parent.id
  pub same_root : child.root_id ≡ parent.root_id
  pub tree : ℕ
  pub child_tree : get_elem? ordinals c ≡ some tree
  pub parent_tree : get_elem? ordinals p ≡ some tree

-- An index is in the bucket.
abbrev pub IsListed : List (List ℕ) → ℕ → ℕ → Type 0
IsListed lists i r = (ns : List ℕ) × (get_elem? lists r ≡ some ns) × Memᴰ i ns

-- Scales for which every choice that the generator makes has something to choose from.
pub record IsPopulated (s : Scale) : Type 0 where
  pub some_roots : 0 < s.roots
  pub enough_orgs : s.roots ≤ s.org_nodes
  pub room : 2 ≤ s.max_depth
  pub some_accounts : 0 < s.accounts
  pub some_personas : 0 < s.personas
  pub some_policies : 0 < s.policies_per_root
  pub entries : s.acl_entries_min ≤ s.acl_entries_max

pub record IsBuilt (g : Generator) : Type 0 where
  pub populated : IsPopulated g.scale
  pub org_count : length g.orgs ≡ Scale.org_nodes g.scale
  pub root_count : length g.root_of ≡ Scale.org_nodes g.scale
  pub indexed : (id : String) (i : ℕ) → lookup id g.org_idx ≡ some i → i < Scale.org_nodes g.scale
  pub division_buckets :
      IsBuckets
        (Scale.org_nodes g.scale)
        (Scale.org_nodes g.scale)
        (λ _ i. i < length g.divisions)
        g.divs_by_org
  pub parent_count : length g.parent_of ≡ Scale.org_nodes g.scale
  pub ordinal_count : length g.root_ordinal ≡ Scale.org_nodes g.scale
  pub shallow : All (λ o. Org.depth o < Scale.max_depth g.scale) g.orgs
  pub children :
      (c p : ℕ) → get_elem? g.parent_of c ≡ some (some p) → IsChild g.orgs g.root_ordinal c p
  pub ordinals : (i r : ℕ) → get_elem? g.root_ordinal i ≡ some r → r < Scale.roots g.scale
  pub subsidiaries :
      (c : ℕ)
      → Scale.roots g.scale ≤ c
      → c < Scale.org_nodes g.scale
      → (p : ℕ) × (get_elem? g.parent_of c ≡ some (some p))
  pub tops : (c : ℕ) → c < Scale.roots g.scale → get_elem? g.parent_of c ≡ some none
  pub trees : g.root_of ≡ g.root_ordinal
  pub listed : (i r : ℕ) → get_elem? g.root_ordinal i ≡ some r → IsListed g.nodes_by_root i r
  pub nodes :
      IsBuckets
        (Scale.roots g.scale)
        (Scale.roots g.scale)
        (λ r i. get_elem? g.root_ordinal i ≡ some r)
        g.nodes_by_root
  pub role_buckets :
      IsBuckets
        (Scale.roots g.scale)
        (Scale.roots g.scale)
        (λ r i. i < length g.roles)
        g.roles_by_root
  pub persona_count : length g.personas ≡ Scale.personas g.scale
  pub home_count : length g.persona_org ≡ Scale.personas g.scale
  pub homes : (i oi : ℕ) → get_elem? g.persona_org i ≡ some oi → oi < Scale.org_nodes g.scale
  pub kinds : All HasKind g.resources
  pub some_resources : 0 < length g.resources
