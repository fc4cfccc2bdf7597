-- ===== src/Seed/Generator/Forest/Laws.antt =====
-- The organizations form trees, however they are drawn.
use test_permission.Base.{
  ℕ, suc, ◌<◌, ◌≤◌, ◌≡◌, refl, ap, Memᴰ, ◌⊎◌, inl, inr, sym, subst, ◌∙◌, Option, none, some, List,
  [], ◌∷◌, ◌++◌, length, get_elem?, All, All-append, arith,
}
use test_permission.Seed.Types.{Scale, Org}
use test_permission.Seed.Generator.{modify}
use test_permission.Seed.Generator.Slices.{
  get_elem?-append_left, get_elem?-last, get_elem?-snoc, length-snoc, modify-IsBuckets,
  get_elem?-of_modify, get_elem?-some,
}
use test_permission.Seed.Generator.Built.{IsBuckets, IsChild, IsListed}
use test_permission.Seed.Generator.Forest.{Forest}

-- `n` organizations, with one in each of the first `filled` trees.
pub record IsForest (s : Scale) (n filled : ℕ) (f : Forest) : Type 0 where
  pub org_count : length f.orgs ≡ n
  pub root_count : length f.root_of ≡ n
  pub parent_count : length f.parent_of ≡ n
  pub ordinal_count : length f.root_ordinal ≡ n
  pub shallow : All (λ o. Org.depth o < s.max_depth) f.orgs
  pub children :
      (c p : ℕ) → get_elem? f.parent_of c ≡ some (some p) → IsChild f.orgs f.root_ordinal c p
  pub ordinals : (i r : ℕ) → get_elem? f.root_ordinal i ≡ some r → r < filled
  pub subsidiaries :
      (c : ℕ) → s.roots ≤ c → c < n → (p : ℕ) × (get_elem? f.parent_of c ≡ some (some p))
  pub tops : (c : ℕ) → c < s.roots → c < n → get_elem? f.parent_of c ≡ some none
  pub trees : f.root_of ≡ f.root_ordinal
  pub listed : (i r : ℕ) → get_elem? f.root_ordinal i ≡ some r → IsListed f.nodes_by_root i r
  pub nodes : IsBuckets filled s.roots (λ r i. get_elem? f.root_ordinal i ≡ some r) f.nodes_by_root

nat_cases : (c n : ℕ) → c < suc n → (c < n) ⊎ (c ≡ n)
nat_cases c n b = ground (arith, b)

-- A link stays one when the slices grow.
IsChild-append :
    (orgs more : List Org) (ordinals others : List ℕ) (c p : ℕ)
    → IsChild orgs ordinals c p
    → IsChild (orgs ++ more) (ordinals ++ others) c p
IsChild-append orgs more ordinals others c p link = record {
  child = link.child;
  parent = link.parent;
  child_at = get_elem?-append_left orgs more c link.child_at;
  parent_at = get_elem?-append_left orgs more p link.parent_at;
  earlier = link.earlier;
  below = link.below;
  of_parent = link.of_parent;
  same_root = link.same_root;
  tree = link.tree;
  child_tree = get_elem?-append_left ordinals others c link.child_tree;
  parent_tree = get_elem?-append_left ordinals others p link.parent_tree;
}

-- A forest with one organization more, at the end of every slice and in the bucket of its tree.
abbrev pub grow : Org → ℕ → Option ℕ → ℕ → (List ℕ → List ℕ) → Forest → Forest
grow o root up ordinal h f = record {
  orgs = f.orgs ++ (o ∷ []);
  root_of = f.root_of ++ (root ∷ []);
  parent_of = f.parent_of ++ (up ∷ []);
  root_ordinal = f.root_ordinal ++ (ordinal ∷ []);
  nodes_by_root = modify ordinal h f.nodes_by_root;
}

module _ (s : Scale) (n filled filled' : ℕ) (o : Org) (root : ℕ) (up : Option ℕ) (ordinal : ℕ)
    (h : List ℕ → List ℕ) (f : Forest) (forest : IsForest s n filled f)
    (not_deep : Org.depth o < s.max_depth) (is_root : ordinal < s.roots)
    (more : (r : ℕ) → r < filled' → (r < filled) ⊎ (r ≡ ordinal))
    (some_left : (ns : List ℕ) → 0 < length (h ns))
    (all_left : (L : ℕ → Type 0) (ns : List ℕ) → L n → All L ns → All L (h ns))
    (is_filled : ordinal < filled') (wider : filled ≤ filled')
    (linked : s.roots ≤ n → (p : ℕ) × (up ≡ some p)) (unlinked : n < s.roots → up ≡ none)
    (same_tree : root ≡ ordinal) (takes : (ns : List ℕ) → Memᴰ n (h ns))
    (keeps : (ns : List ℕ) (j : ℕ) → ordinal < filled → Memᴰ j ns → Memᴰ j (h ns))
    (link : (p : ℕ)
      → up ≡ some p
      → IsChild (f.orgs ++ (o ∷ [])) (f.root_ordinal ++ (ordinal ∷ [])) n p) where
  grow-subsidiaries :
      (c : ℕ)
      → s.roots ≤ c
      → c < suc n
      → (p : ℕ) × (get_elem? (f.parent_of ++ (up ∷ [])) c ≡ some (some p))
  grow-subsidiaries c later b = elim (nat_cases c n b) [
    | inl old ↦
        let (p, e) = forest.subsidiaries c later old in
        (p, get_elem?-append_left f.parent_of (up ∷ []) c e)
    | inr at_end ↦
        let (p, e) = linked (omega (arith, later, at_end)) in
        (
          p,
          subst (λ m. get_elem? (f.parent_of ++ (up ∷ [])) m ≡ some (some p))
              (omega (arith, at_end, forest.parent_count))
              (get_elem?-last f.parent_of up ∙ ap some e),
        )
  ]

  grow-tops : (c : ℕ) → c < s.roots → c < suc n → get_elem? (f.parent_of ++ (up ∷ [])) c ≡ some none
  grow-tops c top b = elim (nat_cases c n b) [
    | inl old ↦ get_elem?-append_left f.parent_of (up ∷ []) c (forest.tops c top old)
    | inr at_end ↦
        subst (λ m. get_elem? (f.parent_of ++ (up ∷ [])) m ≡ some none)
          (omega (arith, at_end, forest.parent_count))
          (get_elem?-last f.parent_of up ∙ ap some (unlinked (omega (arith, top, at_end))))
  ]

  grow-listed :
      (i r : ℕ)
      → get_elem? (f.root_ordinal ++ (ordinal ∷ [])) i ≡ some r
      → IsListed (modify ordinal h f.nodes_by_root) i r
  grow-listed i r e = elim (get_elem?-snoc f.root_ordinal ordinal i e) [
    | inl old ↦
        let (ns, at_r, m) = forest.listed i r old in
        elim (get_elem?-of_modify ordinal h f.nodes_by_root r at_r) [
          | inl (same, changed) ↦
              (h ns, changed, keeps ns i (omega (arith, same, forest.ordinals i r old)) m)
          | inr (other, left) ↦ (ns, left, m)
        ]
    | inr (at_end, is_new) ↦
        let (ns, at_r) =
          get_elem?-some f.nodes_by_root ordinal (omega (arith, is_root, forest.nodes.sized)) in
        let here : IsListed (modify ordinal h f.nodes_by_root) n ordinal =
          elim (get_elem?-of_modify ordinal h f.nodes_by_root ordinal at_r) [
            | inl (_, changed) ↦ (h ns, changed, takes ns)
            | inr (other, _) ↦ absurd (other refl)
          ] in
        subst (λ m. IsListed (modify ordinal h f.nodes_by_root) m r)
          (sym (at_end ∙ forest.ordinal_count))
          (subst (IsListed (modify ordinal h f.nodes_by_root) n) (ground (arith, is_new)) here)
  ]

  pub grow-IsForest : IsForest s (suc n) filled' (grow o root up ordinal h f)
  grow-IsForest = record {
    org_count = omega (arith, length-snoc f.orgs o, forest.org_count);
    root_count = omega (arith, length-snoc f.root_of root, forest.root_count);
    parent_count = omega (arith, length-snoc f.parent_of up, forest.parent_count);
    ordinal_count = omega (arith, length-snoc f.root_ordinal ordinal, forest.ordinal_count);
    shallow = All-append _ f.orgs (o ∷ []) forest.shallow (not_deep, tt);
    children = λ c p e. elim (get_elem?-snoc f.parent_of up c e) [
      | inl old ↦
          IsChild-append f.orgs (o ∷ []) f.root_ordinal (ordinal ∷ []) c p (forest.children c p old)
      | inr (at_end, is_up) ↦
          subst (λ m. IsChild (f.orgs ++ (o ∷ [])) (f.root_ordinal ++ (ordinal ∷ [])) m p)
            (sym (at_end ∙ forest.parent_count)) (link p (ground (arith, is_up)))
    ];
    ordinals = λ i r e. elim (get_elem?-snoc f.root_ordinal ordinal i e) [
      | inl old ↦ omega (arith, forest.ordinals i r old, wider)
      | inr (at_end, is_new) ↦ subst (λ m. m < filled') (ground (arith, is_new)) is_filled
    ];
    subsidiaries = grow-subsidiaries;
    tops = grow-tops;
    trees = cc (forest.trees, same_tree);
    listed = grow-listed;
    nodes =
        modify-IsBuckets s.roots ordinal filled filled' _ _ h more
          (λ r i e. get_elem?-append_left f.root_ordinal (ordinal ∷ []) i e) some_left
          (λ ns. all_left _ ns (
            subst (λ m. get_elem? (f.root_ordinal ++ (ordinal ∷ [])) m ≡ some ordinal)
              forest.ordinal_count (get_elem?-last f.root_ordinal ordinal)))
          f.nodes_by_root forest.nodes;
  }
