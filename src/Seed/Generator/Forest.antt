-- ===== src/Seed/Generator/Forest.antt =====
-- internal/seed/generator.go `BuildBasis`, the organizations: the roots, then the subsidiaries,
-- each below a random node of its root that has depth room.
pub mod Laws
pub mod Growing
use test_permission.Base.{
  true, false, ℕ, zero, suc, ◌-◌, String, Option, none, some, List, [], ◌∷◌, ◌++◌, ltb,
}
use test_permission.Seed.Types.{Scale, Org}
use test_permission.Seed.Program.{
  Program, done, fail, ◌>>=◌, int_n, at, choose, fold_range, exhausted,
}
use test_permission.Seed.Generator.{
  org_words, org_suffixes, regions, branch_kinds, modify, empties, push_at, id_of, spaced,
}

-- `g.Orgs`, `g.RootOf`, `g.ParentOf`, `g.RootOrdinal` and `nodesByRoot` while they are built.
pub record Forest : Type 0 where
  pub orgs : List Org
  pub root_of : List ℕ
  pub parent_of : List (Option ℕ)
  pub root_ordinal : List ℕ
  pub nodes_by_root : List (List ℕ)

abbrev pub no_orgs : Scale → Forest
no_orgs s = record {
  orgs = [];
  root_of = [];
  parent_of = [];
  root_ordinal = [];
  nodes_by_root = empties s.roots;
}

-- The loop that picks a parent among the nodes of a root.
unfoldable pub pick_parent : Scale → Forest → ℕ → ℕ → Program ℕ
pick_parent s f root zero = fail exhausted
pick_parent s f root (suc fuel) = do
  cands ← at (Forest.nodes_by_root f) root
  i ← choose cands
  candidate ← at (Forest.orgs f) i
  elim (ltb (Org.depth candidate) (s.max_depth - 1)) [
    | true ↦ done i
    | false ↦ pick_parent s f root fuel
  ]

module _ (padded : ℕ → ℕ → String) where
  abbrev pub root_org : ℕ → String → String → String → Org
  root_org i word suffix region = record {
    id = id_of padded "org-" 5 i;
    parent_id = "";
    root_id = id_of padded "org-" 5 i;
    name = spaced (spaced "PT" (spaced word suffix)) (padded 4 i);
    depth = 0;
    region = region;
  }

  abbrev pub add_root : ℕ → Org → Forest → Forest
  add_root i o f = record {
    orgs = f.orgs ++ (o ∷ []);
    root_of = f.root_of ++ (i ∷ []);
    parent_of = f.parent_of ++ (none ∷ []);
    root_ordinal = f.root_ordinal ++ (i ∷ []);
    nodes_by_root = modify i (λ _. i ∷ []) f.nodes_by_root;
  }

  unfoldable pub plant_root : ℕ → Forest → Program Forest
  plant_root i f = do
    word ← choose org_words
    suffix ← choose org_suffixes
    region ← choose regions
    done (add_root i (root_org i word suffix region) f)

  abbrev pub subsidiary : ℕ → Org → String → String → Org
  subsidiary i parent kind region = record {
    id = id_of padded "org-" 5 i;
    parent_id = parent.id;
    root_id = parent.root_id;
    name = spaced (spaced parent.name kind) (padded 4 i);
    depth = suc parent.depth;
    region = region;
  }

  abbrev pub add_node : ℕ → ℕ → ℕ → ℕ → Org → Forest → Forest
  add_node i parent root_of_parent ordinal o f = record {
    orgs = f.orgs ++ (o ∷ []);
    root_of = f.root_of ++ (root_of_parent ∷ []);
    parent_of = f.parent_of ++ (some parent ∷ []);
    root_ordinal = f.root_ordinal ++ (ordinal ∷ []);
    nodes_by_root = push_at ordinal i f.nodes_by_root;
  }

  module _ (s : Scale) (fuel : ℕ) where
    unfoldable pub plant_node : ℕ → Forest → Program Forest
    plant_node i f = do
      ordinal ← int_n s.roots
      p ← pick_parent s f ordinal fuel
      parent ← at (Forest.orgs f) p
      kind ← choose branch_kinds
      region ← choose regions
      root ← at (Forest.root_of f) p
      done (add_node i p root ordinal (subsidiary i parent kind region) f)

    unfoldable pub build_orgs : Program Forest
    build_orgs = do
      f ← fold_range plant_root 0 s.roots (no_orgs s)
      fold_range plant_node s.roots (s.org_nodes - s.roots) f
