-- ===== src/Seed/Generator/Folders/Laws.antt =====
-- What `StreamReBAC` emits, whatever is drawn.
use test_permission.Base.{
  false, ℕ, suc, ◌+◌, ◌*◌, ◌<◌, ◌≤◌, ◌≡◌, ◌⊎◌, inl, inr, refl, sym, ◌∙◌, String, some, length,
  get_elem?, Memᴰ, ltb, nat_eq, arith,
}
use test_permission.Seed.Types.{Scale, Org, Persona, Folder, RebacDoc, UnitMembership, Fact}
use test_permission.Seed.Program.{Call, begin_phase, accept, end_phase}
use test_permission.Seed.Program.Laws.{Emits, Emits-elim, ltb_eq_true}
use test_permission.Seed.Program.Picks.{Emits-get_then, Emits-pick_then, All-mem}
use test_permission.Seed.Generator.{Generator}
use test_permission.Seed.Generator.Built.{IsBuilt}
use test_permission.Seed.Generator.Registry.Laws.{lt-of_get_elem?}
use test_permission.Seed.Generator.Folders.{folder_id, nest, share, n_folders}

-- Two organizations in the tree of one root.
abbrev pub SameTree : Generator → ℕ → ℕ → Type 0
SameTree g a b = get_elem? g.root_ordinal a ≡ get_elem? g.root_ordinal b

module _ (padded : ℕ → ℕ → String) (g : Generator) where
  -- A folder of an organization: its parent is an earlier folder of the same organization, and the
  -- organization that it is shared with is another one of the same tree.
  pub record IsFolder (f : Folder) : Type 0 where
    pub org : ℕ
    pub o : Org
    pub number : ℕ
    pub org_at : get_elem? g.orgs org ≡ some o
    pub of_org : f.org_id ≡ o.id
    pub of_number : f.id ≡ folder_id padded number
    pub from_first : org * Scale.folders_per_org g.scale ≤ number
    pub to_last : number < suc org * Scale.folders_per_org g.scale
    pub nested :
        (f.parent_id ≡ "")
        ⊎ ((n : ℕ) × (org * Scale.folders_per_org g.scale ≤ n)
            × (n < number)
            × (f.parent_id ≡ folder_id padded n))
    pub shared :
        (f.shared_org_id ≡ "")
        ⊎ ((other : ℕ) × (s : Org) × (get_elem? g.orgs other ≡ some s)
            × (nat_eq other org ≡ false)
            × SameTree g other org
            × (f.shared_org_id ≡ s.id))

  -- A document in one of the folders, owned by a persona.
  pub record IsDoc (d : RebacDoc) : Type 0 where
    pub folder : ℕ
    pub owner : Persona
    pub numbered : folder < n_folders padded g
    pub in_folder : d.folder_id ≡ folder_id padded folder
    pub listed : Memᴰ owner g.personas
    pub of_owner : d.owner_persona_id ≡ owner.id

  -- A persona is a member of its own organization, and a manager within the tree of its own.
  pub record IsMembership (m : UnitMembership) : Type 0 where
    pub persona : ℕ
    pub p : Persona
    pub persona_at : get_elem? g.personas persona ≡ some p
    pub of_persona : m.persona_id ≡ p.id
    pub within :
        ((m.relation ≡ "member") × (m.org_id ≡ p.org_id))
        ⊎ ((home target : ℕ) × (o : Org) × (m.relation ≡ "manager")
            × (get_elem? g.persona_org persona ≡ some home)
            × (get_elem? g.orgs target ≡ some o)
            × SameTree g target home
            × (m.org_id ≡ o.id))

  abbrev pub RebacFact : Fact → Type 0
  RebacFact f = elim f [
    | Fact.folder f ↦ IsFolder f
    | Fact.rebac_doc d ↦ IsDoc d
    | Fact.membership m ↦ IsMembership m
    | _ ↦ ⊥
  ]

  abbrev pub RebacCall : Call → Type 0
  RebacCall (begin_phase name total) = name ≡ "rebac"
  RebacCall (accept f) = RebacFact f
  RebacCall (end_phase name) = name ≡ "rebac"

module _ (P : Call → Type 0) (padded : ℕ → ℕ → String) where
  -- What a parent of the k-th folder of an organization may be.
  abbrev pub Parent : ℕ → ℕ → String → Type 0
  Parent first k text =
      (text ≡ "") ⊎ ((n : ℕ) × (first ≤ n) × (n < first + k) × (text ≡ folder_id padded n))

  pub nest-Emits : (first k : ℕ) → Emits P (Parent first k) (nest padded first k)
  unfolding Emits nest
  nest-Emits first k =
      Emits-elim P (Parent first k) (ltb 0 k) _ _
        (λ later. (
          omega arith,
          λ coin _.
              Emits-elim P (Parent first k) (nat_eq coin 0) _ _
                (λ _.
                  (ltb_eq_true later, λ j b. inr (first + j, omega arith, omega (arith, b), refl)))
                (λ _. inl refl),
        ))
        (λ _. inl refl)

module _ (padded : ℕ → ℕ → String) (g : Generator) (built : IsBuilt g) where
  -- What the folders of an organization may be shared with.
  abbrev pub Partner : ℕ → String → Type 0
  Partner oi text =
      (text ≡ "")
      ⊎ ((other : ℕ) × (s : Org) × (get_elem? g.orgs other ≡ some s)
          × (nat_eq other oi ≡ false)
          × SameTree g other oi
          × (text ≡ s.id))

  pub share-Emits :
      (oi : ℕ) → oi < length g.orgs → Emits (RebacCall padded g) (Partner oi) (share padded g oi)
  unfolding Emits share
  share-Emits oi b = (
    omega arith,
    λ y _.
        Emits-elim _ (Partner oi) (nat_eq y 0) _ _
          (λ _.
            Emits-get_then _ (Partner oi) g.root_ordinal oi _
              (omega (arith, b, built.org_count, built.ordinal_count))
              (λ root root_at.
                let inside = built.ordinals oi root root_at in
                Emits-get_then _ (Partner oi) g.nodes_by_root root _
                  (omega (arith, inside, built.nodes.sized))
                  (λ cands cands_at.
                    Emits-pick_then _ (Partner oi) cands _
                      (built.nodes.some_in root cands inside cands_at)
                      (λ si listed.
                        let in_tree =
                          All-mem _ cands (built.nodes.labelled root cands cands_at) listed in
                        Emits-elim _ (Partner oi) (nat_eq si oi) _ _ (λ _. inl refl)
                          (λ other.
                            Emits-get_then _ (Partner oi) g.orgs si _
                              (omega (
                                arith,
                                lt-of_get_elem? g.root_ordinal si in_tree,
                                built.org_count,
                                built.ordinal_count,
                              ))
                              (λ s found.
                                inr (si, s, found, other, in_tree ∙ sym root_at, refl)))))))
          (λ _. inl refl),
  )
