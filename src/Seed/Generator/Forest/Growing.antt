-- ===== src/Seed/Generator/Forest/Growing.antt =====
-- `BuildBasis` grows a forest, one organization at a time.
use test_permission.Base.{
  ℕ, zero, suc, ◌+◌, ◌-◌, ◌<◌, ◌≤◌, ◌≡◌, inl, refl, sym, subst, ◌∙◌, String, Option, none, some, [],
  ◌∷◌, ◌++◌, length, get_elem?, All-append, Memᴰ, ltb, arith,
}
use mathlib.Core.Option.{some-injective}
use test_permission.Base.Members.{mem-append_left, mem-append_right}
use test_permission.Seed.Types.{Scale, Org}
use test_permission.Seed.Program.{Call, fold_range}
use test_permission.Seed.Program.Laws.{Emits, Emits-bind, Emits-elim, Emits-fold_range, ltb_eq_true}
use test_permission.Seed.Program.Picks.{Emits-get_then, Emits-pick_then, All-mem}
use test_permission.Seed.Generator.{regions, org_words, org_suffixes, branch_kinds}
use test_permission.Seed.Generator.Slices.{
  get_elem?-append_left, get_elem?-last, length-snoc, empties-IsBuckets,
}
use test_permission.Seed.Generator.Built.{IsPopulated, IsChild}
use test_permission.Seed.Generator.Registry.Laws.{lt-of_get_elem?}
use test_permission.Seed.Generator.Forest.{
  Forest, no_orgs, pick_parent, root_org, plant_root, subsidiary, plant_node, build_orgs,
}
use test_permission.Seed.Generator.Forest.Laws.{IsForest, grow-IsForest}

-- What a parent is picked for: it is in the tree, and there is room below it.
record HasRoom (s : Scale) (f : Forest) (ordinal p : ℕ) : Type 0 where
  pub in_orgs : p < length f.orgs
  pub room : (parent : Org) → get_elem? f.orgs p ≡ some parent → suc parent.depth < s.max_depth
  pub in_tree : get_elem? f.root_ordinal p ≡ some ordinal

same_some : {A : Type 0} {o : Option A} {a b : A} → o ≡ some a → o ≡ some b → a ≡ b
same_some e h = some-injective _ _ (sym e ∙ h)

module _ (P : Call → Type 0) (padded : ℕ → ℕ → String) (s : Scale) (populated : IsPopulated s)
    (fuel : ℕ) where
  no_orgs-IsForest : IsForest s 0 0 (no_orgs s)
  no_orgs-IsForest = record {
    org_count = refl;
    root_count = refl;
    parent_count = refl;
    ordinal_count = refl;
    shallow = tt;
    children = λ c p e. cc;
    ordinals = λ i r e. cc;
    subsidiaries = λ c _ b. absurd (omega (arith, b));
    tops = λ c _ b. absurd (omega (arith, b));
    trees = refl;
    listed = λ i r e. cc;
    nodes = empties-IsBuckets s.roots _;
  }

  plant_root-Emits :
      (i : ℕ) (f : Forest)
      → i < s.roots
      → IsForest s i i f
      → Emits P (IsForest s (suc i) (suc i)) (plant_root padded i f)
  unfolding Emits plant_root
  plant_root-Emits i f b forest = Emits-pick_then P _ org_words _ (omega arith) (λ word _.
      Emits-pick_then P _ org_suffixes _ (omega arith) (λ suffix _.
        Emits-pick_then P _ regions _ (omega arith) (λ region _.
          grow-IsForest s i i (suc i) (root_org padded i word suffix region) i none i (λ _. i ∷ [])
            f forest (omega (arith, populated.room)) b (λ r inside. ground (arith, inside))
            (λ ns. omega arith) (λ L ns l all. (l, tt)) (omega arith) (omega arith)
            (λ late. absurd (omega (arith, late, b))) (λ _. refl) refl (λ ns. Memᴰ.head refl)
            (λ ns j early _. absurd (omega (arith, early))) (λ p e. cc))))

  pick_parent-Emits :
      (ordinal n : ℕ) (f : Forest) (rounds : ℕ)
      → ordinal < s.roots
      → IsForest s n s.roots f
      → Emits P (HasRoom s f ordinal) (pick_parent s f ordinal rounds)
  unfolding Emits pick_parent
  pick_parent-Emits ordinal n f zero b forest = refl
  pick_parent-Emits ordinal n f (suc rounds) b forest =
      Emits-get_then P _ f.nodes_by_root ordinal _ (omega (arith, b, forest.nodes.sized))
        (λ cands at_ordinal.
          Emits-pick_then P _ cands _ (forest.nodes.some_in ordinal cands b at_ordinal) (λ i listed.
            let in_tree = All-mem _ cands (forest.nodes.labelled ordinal cands at_ordinal) listed in
            Emits-get_then P _ f.orgs i _
              (omega (
                arith,
                lt-of_get_elem? f.root_ordinal i in_tree,
                forest.org_count,
                forest.ordinal_count,
              ))
              (λ candidate found.
                Emits-elim P _ (ltb (Org.depth candidate) (s.max_depth - 1)) _ _
                  (λ free. record {
                    in_orgs = lt-of_get_elem? f.orgs i found;
                    room = λ parent e.
                        subst (λ o. suc (Org.depth o) < s.max_depth) (same_some found e)
                          (omega (arith, ltb_eq_true free));
                    in_tree = in_tree;
                  })
                  (λ _. pick_parent-Emits ordinal n f rounds b forest))))

  -- The new organization is a child of the picked one.
  IsChild-link :
      (i p ordinal : ℕ) (f : Forest) (o parent : Org)
      → IsForest s i s.roots f
      → get_elem? f.orgs p ≡ some parent
      → get_elem? f.root_ordinal p ≡ some ordinal
      → o.depth ≡ suc parent.depth
      → o.parent_id ≡ parent.id
      → o.root_id ≡ parent.root_id
      → IsChild (f.orgs ++ (o ∷ [])) (f.root_ordinal ++ (ordinal ∷ [])) i p
  IsChild-link i p ordinal f o parent forest parent_at in_tree below of_parent same_root = record {
    child = o;
    parent = parent;
    child_at =
        subst (λ m. get_elem? (f.orgs ++ (o ∷ [])) m ≡ some o) forest.org_count
          (get_elem?-last f.orgs o);
    parent_at = get_elem?-append_left f.orgs (o ∷ []) p parent_at;
    earlier = omega (arith, lt-of_get_elem? f.orgs p parent_at, forest.org_count);
    below = below;
    of_parent = of_parent;
    same_root = same_root;
    tree = ordinal;
    child_tree =
        subst (λ m. get_elem? (f.root_ordinal ++ (ordinal ∷ [])) m ≡ some ordinal)
          forest.ordinal_count (get_elem?-last f.root_ordinal ordinal);
    parent_tree = get_elem?-append_left f.root_ordinal (ordinal ∷ []) p in_tree;
  }

  plant_node-Emits :
      (i : ℕ) (f : Forest)
      → s.roots ≤ i
      → IsForest s i s.roots f
      → Emits P (IsForest s (suc i) s.roots) (plant_node padded s fuel i f)
  unfolding Emits plant_node
  plant_node-Emits i f late forest = (
    populated.some_roots,
    λ ordinal b.
        Emits-bind P (HasRoom s f ordinal) _ (pick_parent s f ordinal fuel) _
          (pick_parent-Emits ordinal i f fuel b forest)
          (λ p found. Emits-get_then P _ f.orgs p _ found.in_orgs (λ parent parent_at.
            Emits-pick_then P _ branch_kinds _ (omega arith) (λ kind _.
              Emits-pick_then P _ regions _ (omega arith) (λ region _.
                Emits-get_then P _ f.root_of p _
                  (omega (
                    arith,
                    lt-of_get_elem? f.orgs p parent_at,
                    forest.org_count,
                    forest.root_count,
                  ))
                  (λ root root_at.
                    let o : Org = subsidiary padded i parent kind region in
                    grow-IsForest s i s.roots s.roots o root (some p) ordinal (λ ns. ns ++ (i ∷ []))
                      f forest (found.room parent parent_at) b (λ r inside. inl inside)
                      (λ ns. omega (arith, length-snoc ns i))
                      (λ L ns l all. All-append L ns (i ∷ []) all (l, tt)) b (omega arith)
                      (λ _. (p, refl)) (λ early. absurd (omega (arith, early, late)))
                      (same_some (rw forest.trees at root_at) found.in_tree)
                      (λ ns. mem-append_right ns (Memᴰ.head refl))
                      (λ ns j _ m. mem-append_left (i ∷ []) m)
                      (λ q e.
                        subst
                          (λ m. IsChild (f.orgs ++ (o ∷ [])) (f.root_ordinal ++ (ordinal ∷ [])) i m)
                          (some-injective p q e)
                          (IsChild-link i p ordinal f o parent forest parent_at found.in_tree refl
                            refl refl))))))),
  )

  pub build_orgs-Emits : Emits P (IsForest s s.org_nodes s.roots) (build_orgs padded s fuel)
  unfolding build_orgs
  build_orgs-Emits =
      Emits-bind P (λ f. IsForest s (0 + s.roots) (0 + s.roots) f) _
        (fold_range (plant_root padded) 0 s.roots (no_orgs s)) _
        (Emits-fold_range P {I = λ i. IsForest s i i} (plant_root padded) 0 s.roots
          (λ i f _ b forest. plant_root-Emits i f (omega (arith, b)) forest) (no_orgs s)
          no_orgs-IsForest)
        (λ f forest.
          let planted : IsForest s s.roots s.roots f =
            subst (λ m. IsForest s m m f) (omega arith) forest in
          subst
            (λ m.
              Emits P (IsForest s m s.roots)
                (fold_range (plant_node padded s fuel) s.roots (s.org_nodes - s.roots) f))
            (omega (arith, populated.enough_orgs))
            (Emits-fold_range P {I = λ i. IsForest s i s.roots} (plant_node padded s fuel) s.roots
              (s.org_nodes - s.roots) (λ i acc late _ h. plant_node-Emits i acc late h) f planted))
