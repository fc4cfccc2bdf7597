-- ===== src/Seed/Generator/Folders/Streaming.antt =====
-- `StreamReBAC` as a whole.
use test_permission.Base.{
  ℕ, suc, ◌+◌, ◌*◌, ◌<◌, ◌≡◌, inl, inr, refl, sym, subst, ◌∙◌, String, some, List, length,
  get_elem?, All, arith,
}
use test_permission.Seed.Types.{Scale, Org}
use test_permission.Seed.Program.{fold_each, fold_range, for_range}
use test_permission.Seed.Program.Laws.{
  Done, Emits, Emits-bind, Emits-map, Emits-fold_range, Emits-for_range,
}
use test_permission.Seed.Program.Picks.{Emits-get_then, Emits-pick_then, All-mem, All-map_mem}
use test_permission.Seed.Generator.{Generator, indexed_from}
use test_permission.Seed.Generator.Indexed.{Emits-fold_indexed}
use test_permission.Seed.Generator.Built.{IsBuilt, IsChild}
use test_permission.Seed.Generator.Registry.Laws.{Climbs, org_ancestors-Climbs, lt-of_get_elem?}
use test_permission.Seed.Generator.Folders.{
  nest, share, make_folder, folders_of, make_doc, docs_of, join, make_manager, n_folders,
  stream_rebac,
}
use test_permission.Seed.Generator.Folders.Laws.{
  SameTree, RebacCall, Parent, Partner, nest-Emits, share-Emits,
}

module _ (padded : ℕ → ℕ → String) (g : Generator) (built : IsBuilt g) where
  make_folder-Emits :
      (oi : ℕ) (o : Org) (first k seq : ℕ)
      → get_elem? g.orgs oi ≡ some o
      → first ≡ oi * Scale.folders_per_org g.scale
      → k < Scale.folders_per_org g.scale
      → seq ≡ first + k
      → Emits
          (RebacCall padded g)
          (λ next. next ≡ first + suc k)
          (make_folder padded g (oi, o) first k seq)
  unfolding Emits make_folder
  make_folder-Emits oi o first k seq org_at is_first inside numbered =
      Emits-bind _ (Parent (RebacCall padded g) padded first k) _ (nest padded first k) _
        (nest-Emits (RebacCall padded g) padded first k)
        (λ parent nested.
          Emits-bind _ (Partner padded g built oi) _ (share padded g oi) _
            (share-Emits padded g built oi (lt-of_get_elem? g.orgs oi org_at))
            (λ partner shared. (
              record {
                org = oi;
                o = o;
                number = seq;
                org_at = org_at;
                of_org = refl;
                of_number = refl;
                from_first = omega (arith, numbered, is_first);
                to_last = omega (arith, numbered, is_first, inside);
                nested = elim nested [
                  | inl e ↦ inl e
                  | inr (n, low, high, same) ↦
                      inr (n, omega (arith, low, is_first), omega (arith, high, numbered), same)
                ];
                shared = shared;
              },
              omega (arith, numbered),
            )))

  folders_of-Emits :
      (oi : ℕ) (o : Org) (seq : ℕ)
      → get_elem? g.orgs oi ≡ some o
      → seq ≡ oi * Scale.folders_per_org g.scale
      → Emits
          (RebacCall padded g)
          (λ next. next ≡ suc oi * Scale.folders_per_org g.scale)
          (folders_of padded g (oi, o) seq)
  unfolding folders_of
  folders_of-Emits oi o seq org_at numbered =
      Emits-map _ (λ next. next ≡ seq + (0 + Scale.folders_per_org g.scale)) _
        (folders_of padded g (oi, o) seq)
        (Emits-fold_range _ {I = λ k next. next ≡ seq + k} (make_folder padded g (oi, o) seq) 0
          (Scale.folders_per_org g.scale)
          (λ k acc _ b h. make_folder-Emits oi o seq k acc org_at numbered (omega (arith, b)) h) seq
          (omega arith))
        (λ next h. omega (arith, h, numbered))

  all_folders-Emits :
      Emits
        (RebacCall padded g)
        (λ _. Unit {0})
        (fold_each (folders_of padded g) (indexed_from 0 g.orgs) 0)
  all_folders-Emits =
      Emits-map _ (λ next. next ≡ (0 + length g.orgs) * Scale.folders_per_org g.scale) _ _
        (Emits-fold_indexed _ (λ i next. next ≡ i * Scale.folders_per_org g.scale)
          (λ i o. get_elem? g.orgs i ≡ some o) (folders_of padded g)
          (λ i o acc org_at h. folders_of-Emits i o acc org_at h) g.orgs 0 0
          (λ j o e. subst (λ m. get_elem? g.orgs m ≡ some o) (omega arith) e) (omega arith))
        (λ _ _. tt)

  make_doc-Emits :
      (fi k seq : ℕ)
      → fi < n_folders padded g
      → Emits (RebacCall padded g) (λ _. Unit {0}) (make_doc padded g fi k seq)
  unfolding Emits make_doc
  make_doc-Emits fi k seq inside =
      Emits-pick_then _ (λ _. Unit) g.personas _
        (omega (arith, built.populated.some_personas, built.persona_count))
        (λ owner listed. (
          record {
            folder = fi;
            owner = owner;
            numbered = inside;
            in_folder = refl;
            listed = listed;
            of_owner = refl;
          },
          tt,
        ))

  all_docs-Emits :
      Emits
        (RebacCall padded g)
        (λ _. Unit {0})
        (fold_range (docs_of padded g) 0 (n_folders padded g) 0)
  unfolding docs_of
  all_docs-Emits =
      Emits-fold_range _ {I = λ _ _. Unit} (docs_of padded g) 0 (n_folders padded g)
        (λ fi acc _ b _.
          Emits-fold_range _ {I = λ _ _. Unit} (make_doc padded g fi) 0
            (Scale.docs_per_folder g.scale)
            (λ k seq _ _ _. make_doc-Emits fi k seq (omega (arith, b))) acc tt)
        0 tt

  join-Emits :
      (pi : ℕ) → pi < length g.personas → Emits (RebacCall padded g) Done (join padded g pi)
  unfolding Emits join
  join-Emits pi b = Emits-get_then _ Done g.personas pi _ b (λ p persona_at. (
    record {
      persona = pi;
      p = p;
      persona_at = persona_at;
      of_persona = refl;
      within = inl (refl, refl);
    },
    tt,
  ))

  -- All of a chain of ancestors is in the tree of its first.
  climb_in_tree :
      {i : ℕ} {chain : List ℕ}
      → Climbs g.parent_of i chain
      → (0 < length chain) × All (λ a. SameTree g a i) chain
  climb_in_tree (Climbs.at_root e) = (omega arith, (refl, tt))
  climb_in_tree (Climbs.up {i} {p} e above) =
      let child = built.children i p e in
      let link : SameTree g i p = IsChild.child_tree child ∙ sym (IsChild.parent_tree child) in
      (omega arith, (refl, All-map_mem _ (climb_in_tree above).1 (λ a same. same ∙ sym link)))

  make_manager-Emits : (k : ℕ) → Emits (RebacCall padded g) Done (make_manager padded g k)
  unfolding Emits make_manager
  make_manager-Emits k = (
    omega (arith, built.populated.some_personas, built.persona_count),
    λ pi b.
        Emits-get_then _ Done g.persona_org pi _
          (omega (arith, b, built.home_count, built.persona_count))
          (λ home home_at.
            let in_orgs = built.homes pi home home_at in
            Emits-get_then _ Done g.root_ordinal home _
              (omega (arith, in_orgs, built.ordinal_count))
              (λ root root_at.
                let (chain, same, climbs) =
                  org_ancestors-Climbs g.parent_of (λ c p e. IsChild.earlier (built.children c p e))
                    home (omega (arith, in_orgs, built.parent_count)) in
                let (some_in, in_tree) = climb_in_tree climbs in
                rw same (
                  Emits-pick_then _ Done chain _ some_in (λ target listed.
                    let with_home = All-mem _ chain in_tree listed in
                    Emits-get_then _ Done g.personas pi _ b (λ p persona_at.
                      Emits-get_then _ Done g.orgs target _
                        (omega (
                          arith,
                          lt-of_get_elem? g.root_ordinal target (with_home ∙ root_at),
                          built.org_count,
                          built.ordinal_count,
                        ))
                        (λ o org_at. (
                          record {
                            persona = pi;
                            p = p;
                            persona_at = persona_at;
                            of_persona = refl;
                            within = inr (home, target, o, refl, home_at, org_at, with_home, refl);
                          },
                          tt,
                        ))))))),
  )

  pub stream_rebac-Emits : Emits (RebacCall padded g) Done (stream_rebac padded g)
  unfolding stream_rebac Emits
  stream_rebac-Emits = (
    refl,
    Emits-bind _ (λ _. Unit) Done _ _ all_folders-Emits
        (λ _ _.
          Emits-bind _ (λ _. Unit) Done _ _ all_docs-Emits
            (λ _ _.
              Emits-bind _ Done Done (for_range (join padded g) (length g.personas)) _
                (Emits-for_range _ (join padded g) (length g.personas) join-Emits)
                (λ _ _.
                  Emits-bind _ Done Done
                    (for_range (make_manager padded g) (Scale.manager_edges g.scale)) _
                    (Emits-for_range _ (make_manager padded g) (Scale.manager_edges g.scale)
                      (λ k _. make_manager-Emits k))
                    (λ _ _. (refl, tt))))),
  )
