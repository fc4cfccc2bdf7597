-- ===== src/Schema/Facts.antt =====
-- The relationships that a stream of records stands for, and the records that they come from.
use test_permission.Base.{
  String, none, some, List, [], ◌∷◌, ◌≡◌, ◌≢◌, refl, sym, ap, ◌∙◌, ◌↔◌, ◌⊎◌, ◌==◌, if◌then◌else◌,
  inl, inr, arith, eq_iff, Bool-cases, Memᴰ,
}
use test_permission.Base.Members.{
  mem-append, mem-append_left, mem-append_right, mem-cons, not-mem-nil,
}
use test_permission.Base.Fallible.{Fallible, ok, err, ◌>>=◌, wrapping}
use test_permission.Seed.Types.{Fact, Folder}
use test_permission.Seed.Relationships.{
  Relationship, rel, CaveatContext, rels_of, org_rels, folder_rels, acl_relation, doc_attrs_context,
  po_limits_context,
}
use test_permission.Seed.SpicedbWriter.Phases.{converted, rels_given}

mem_single {ℓ} : {A : Type ℓ} {a x : A} → Memᴰ a (x ∷ []) → a ≡ x
mem_single m = elim (mem-cons m) [ inl e ↦ e | inr no_more ↦ absurd (not-mem-nil no_more) ]

-- A relationship that is written unless a text is empty.
abbrev unless_empty : String → Relationship → List Relationship
unless_empty s x = if s == "" then [] else x ∷ []

mem-unless_empty :
    (s : String) (x r : Relationship) → Memᴰ r (unless_empty s x) ↔ ((r ≡ x) × (s ≢ ""))
mem-unless_empty s x r = elim (Bool-cases (s == "")) [
  | inl empty ↦
      rw empty (λ m. absurd (not-mem-nil m), λ (e, full). absurd (full ((eq_iff s "").0 empty)))
  | inr full ↦
      rw full (λ m. (mem_single m, λ e. ground (arith, eq_iff s "")), λ (e, _). Memᴰ.head e)
]

-- The one relationship that is written when its caveat context becomes a struct.
mem-caveated :
    (message : String) (m : Fallible CaveatContext) (make : CaveatContext → Relationship)
    (r : Relationship)
    → Memᴰ r (converted (do ctx ← wrapping message m; ok (make ctx ∷ [])))
      ↔ ((ctx : CaveatContext) × (m ≡ ok ctx) × (r ≡ make ctx))
mem-caveated message (ok ctx) make r = (
  λ m. (ctx, refl, mem_single m),
  λ (ctx', e, same). let e' : ctx ≡ ctx' = ground arith in Memᴰ.head (same ∙ ap make (sym e')),
)
mem-caveated message (err x) make r =
    (λ m. absurd (not-mem-nil m), λ (ctx', e, same). absurd (cc e))

module _ (new_struct : CaveatContext → Fallible CaveatContext) where
  pub mem-rels_given :
      (facts : List Fact) (r : Relationship)
      → Memᴰ r (rels_given new_struct facts)
        ↔ ((f : Fact) × Memᴰ f facts × Memᴰ r (converted (rels_of new_struct f)))
  unfolding rels_given
  mem-rels_given [] r = (λ m. absurd (not-mem-nil m), λ (f, m, e). absurd (not-mem-nil m))
  mem-rels_given (f ∷ fs) r = (
    λ m. elim (mem-append (converted (rels_of new_struct f)) (rels_given new_struct fs) m) [
      | inl here ↦ (f, Memᴰ.head refl, here)
      | inr later ↦ let (g, m', e) = (mem-rels_given fs r).0 later in (g, Memᴰ.tail m', e)
    ],
    λ (g, m, e). elim (mem-cons m) [
      | inl same ↦ mem-append_left (rels_given new_struct fs) (rw (← same) e)
      | inr later ↦
          mem-append_right (converted (rels_of new_struct f))
            ((mem-rels_given fs r).1 (g, later, e))
    ],
  )

  -- The relationships of one record, spelled out.
  abbrev pub Writes : Fact → Relationship → Type 0
  Writes (Fact.org o) r =
      (r ≡ rel "org_unit" o.id "parent" "org_unit" o.parent_id "" none) × (o.parent_id ≢ "")
  Writes (Fact.persona_role pr) r =
      r ≡ rel "role" pr.role_id "assignee" "persona" pr.persona_id "" none
  Writes (Fact.role_grant rg) r =
      r ≡ rel rg.resource_type rg.resource_id "allowed_role" "role" rg.role_id "assignee" none
  Writes (Fact.folder f) r =
      (r ≡ rel "folder" f.id "unit" "org_unit" f.org_id "" none)
      ⊎ ((r ≡ rel "folder" f.id "unit" "org_unit" f.shared_org_id "" none) × (f.shared_org_id ≢ ""))
      ⊎ ((r ≡ rel "folder" f.id "parent" "folder" f.parent_id "" none) × (f.parent_id ≢ ""))
  Writes (Fact.rebac_doc d) r = r ≡ rel "rebac_document" d.id "folder" "folder" d.folder_id "" none
  Writes (Fact.membership m) r =
      r ≡ rel "org_unit" m.org_id m.relation "persona" m.persona_id "" none
  Writes (Fact.abac_doc d) r =
      (static : CaveatContext) × (new_struct (doc_attrs_context d) ≡ ok static)
      × (r
          ≡ rel "abac_document" d.id "reader" "persona" "*" ""
              (some (record { name = "doc_attrs"; context = static })))
  Writes (Fact.pbac_assignment a) r =
      r ≡ rel "pbac_policy" a.policy_id "assignee" "persona" a.persona_id "" none
  Writes (Fact.purchase_order po) r =
      (static : CaveatContext) × (new_struct (po_limits_context po) ≡ ok static)
      × (r
          ≡ rel "purchase_order" po.id "governed_by" "pbac_policy" po.policy_id ""
              (some (record { name = "po_limits"; context = static })))
  Writes (Fact.acl_entry e) r =
      r ≡ rel "acl_document" e.resource_id (acl_relation e) "persona" e.persona_id "" none
  Writes _ r = ⊥

  folder-Writes :
      (f : Folder) (r : Relationship) → Memᴰ r (folder_rels f) ↔ Writes (Fact.folder f) r
  unfolding folder_rels
  folder-Writes f r = (to, from)
    where
      shared : Relationship
      shared = rel "folder" f.id "unit" "org_unit" f.shared_org_id "" none

      nested : Relationship
      nested = rel "folder" f.id "parent" "folder" f.parent_id "" none

      to : Memᴰ r (folder_rels f) → Writes (Fact.folder f) r
      to m = elim (mem-cons m) [
        | inl e ↦ inl e
        | inr later ↦
            elim (mem-append (unless_empty f.shared_org_id shared) (unless_empty f.parent_id nested)
              later) [
                | inl s ↦ inr (inl ((mem-unless_empty f.shared_org_id shared r).0 s))
                | inr n ↦ inr (inr ((mem-unless_empty f.parent_id nested r).0 n))
              ]
      ]

      from : Writes (Fact.folder f) r → Memᴰ r (folder_rels f)
      from (inl e) = Memᴰ.head e
      from (inr (inl s)) = Memᴰ.tail (
          mem-append_left (unless_empty f.parent_id nested)
            ((mem-unless_empty f.shared_org_id shared r).1 s))
      from (inr (inr n)) = Memᴰ.tail (
          mem-append_right (unless_empty f.shared_org_id shared)
            ((mem-unless_empty f.parent_id nested r).1 n))

  pub mem-Writes :
      (f : Fact) (r : Relationship) → Memᴰ r (converted (rels_of new_struct f)) ↔ Writes f r
  unfolding rels_of org_rels
  mem-Writes (Fact.org o) r =
      mem-unless_empty o.parent_id (rel "org_unit" o.id "parent" "org_unit" o.parent_id "" none) r
  mem-Writes (Fact.folder f) r = folder-Writes f r
  mem-Writes (Fact.persona_role pr) r = (mem_single, Memᴰ.head)
  mem-Writes (Fact.role_grant pr) r = (mem_single, Memᴰ.head)
  mem-Writes (Fact.rebac_doc pr) r = (mem_single, Memᴰ.head)
  mem-Writes (Fact.membership pr) r = (mem_single, Memᴰ.head)
  mem-Writes (Fact.pbac_assignment pr) r = (mem_single, Memᴰ.head)
  mem-Writes (Fact.acl_entry pr) r = (mem_single, Memᴰ.head)
  mem-Writes (Fact.abac_doc d) r =
      mem-caveated "abac caveat context" (new_struct (doc_attrs_context d)) _ r
  mem-Writes (Fact.purchase_order po) r =
      mem-caveated "pbac caveat context" (new_struct (po_limits_context po)) _ r
  mem-Writes _ r = (λ m. absurd (not-mem-nil m), λ h. absurd h)
