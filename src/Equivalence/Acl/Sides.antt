-- ===== src/Equivalence/Acl/Sides.antt =====
-- What each engine decides for an ACL check: policies/acl.cedar on the prepared store, and
-- `acl_document` of schema/spicedb/schema.zed on the relationships.
use test_permission.Base.{
  String, List, [], ◌≡◌, ◌≢◌, refl, sym, ap, ◌∙◌, ◌↔◌, ◌⊎◌, ◌==◌, inl, inr, arith, eq_iff, Memᴰ,
  Bool-cases, if◌then◌else◌,
}
use test_permission.Base.Fallible.{Fallible}
use test_permission.Domain.{EntityUid}
use test_permission.Cedar.{uid_elems, EntityMap, CedarRequest, cedar_request, find_entity}
use test_permission.Cedar.Laws.{last_entity, converted}
use test_permission.Postgres.{holders}
use test_permission.Policies.{Listed, Permit, Forbid}
use test_permission.Seed.Types.{Fact, AclEntry}
use test_permission.Seed.Relationships.{Relationship, CaveatContext}
use test_permission.Schema.{HasPermission, Related}
use test_permission.Schema.Holders.{Touches, acl_iff}
use test_permission.Database.Selects.{Shared}
use test_permission.Equivalence.Acl.{
  Access, view, edit, permission_name, acl_request, Gives, acl_slice, holders_in_store, Listed-iff,
}

-- Every entry is for one of the two actions.
abbrev pub ActionsKnown : List Fact → Type 0
ActionsKnown facts =
    (e : AclEntry) → Memᴰ (Fact.acl_entry e) facts → (e.action ≡ "view") ⊎ (e.action ≡ "edit")

names_differ : ◌≢◌ {A = String} "view" "edit"
names_differ e = ground (arith, e, eq_iff "view" "edit")

-- An "edit" entry makes no viewer.
edit_not_viewer :
    (action : String)
    → action ≡ "edit"
    → ◌≢◌ {A = String} (if action == "edit" then "editor" else "viewer") "viewer"
edit_not_viewer action is_edit same =
    ground (arith, is_edit, same, eq_iff action "edit", eq_iff "editor" "viewer")

view_not_edit : ◌≢◌ {A = String} "acl.view" "acl.edit"
view_not_edit e = ground (arith, e, eq_iff "acl.view" "acl.edit")

module _ (persona resource : String) (rows : List (String × String)) (store : EntityMap)
    (stored : (u : EntityUid)
      → find_entity u store ≡ converted (last_entity u (acl_slice persona resource rows))) where
  abbrev sent_request : Access → CedarRequest
  sent_request a = cedar_request (acl_request a persona resource) []

  viewers_iff : (a : Access) → Listed store (sent_request a) "viewers" ↔ Memᴰ (persona, "view") rows
  viewers_iff a =
      Listed-iff persona resource rows store stored "viewers" "view" (sent_request a) refl
        (holders_in_store persona resource rows store stored).0

  editors_iff : (a : Access) → Listed store (sent_request a) "editors" ↔ Memᴰ (persona, "edit") rows
  editors_iff a =
      Listed-iff persona resource rows store stored "editors" "edit" (sent_request a) refl
        (holders_in_store persona resource rows store stored).1

  Gives-of_permit :
      (a : Access) → Permit store (sent_request a) → Gives (λ action. Memᴰ (persona, action) rows) a
  Gives-of_permit view (Permit.acl_view scope (inl l)) = inl ((viewers_iff view).0 l)
  Gives-of_permit view (Permit.acl_view scope (inr (_, l))) = inr ((editors_iff view).0 l)
  Gives-of_permit edit (Permit.acl_view (action, _) l) =
      absurd (view_not_edit (sym (ap EntityUid.id action)))
  Gives-of_permit view (Permit.acl_edit (action, _) l) =
      absurd (view_not_edit (ap EntityUid.id action))
  Gives-of_permit edit (Permit.acl_edit scope l) = (editors_iff edit).0 l
  Gives-of_permit a (Permit.execute (_, type) l) = absurd (cc type)
  Gives-of_permit a (Permit.view (_, type) l) = absurd (cc type)
  Gives-of_permit a (Permit.render (_, type) l) = absurd (cc type)
  Gives-of_permit a (Permit.doc_view (_, type) l) = absurd (cc type)
  Gives-of_permit a (Permit.doc_read (_, type) l) = absurd (cc type)
  Gives-of_permit a (Permit.po_approve (_, type) l) = absurd (cc type)

  permit_of_Gives :
      (a : Access) → Gives (λ action. Memᴰ (persona, action) rows) a → Permit store (sent_request a)
  permit_of_Gives view (inl m) = Permit.acl_view (refl, refl) (inl ((viewers_iff view).1 m))
  permit_of_Gives view (inr m) =
      Permit.acl_view (refl, refl)
        (inr (
          inr (
            uid_elems (holders "view" rows),
            (holders_in_store persona resource rows store stored).0,
          ),
          (editors_iff view).1 m,
        ))
  permit_of_Gives edit m = Permit.acl_edit (refl, refl) ((editors_iff edit).1 m)

  pub permit_acl_iff :
      (a : Access)
      → (Permit store (sent_request a) × (¬ (Forbid store (sent_request a))))
        ↔ Gives (λ action. Memᴰ (persona, action) rows) a
  permit_acl_iff a =
      (λ (p, _). Gives-of_permit a p, λ g. (permit_of_Gives a g, λ ((_, type), _). cc type))

module _ (new_struct : CaveatContext → Fallible CaveatContext) (rels : List Relationship)
    (facts : List Fact) (touches : Touches new_struct rels facts) (known : ActionsKnown facts) where
  viewer_iff :
      (persona resource : String)
      → Related rels [] "acl_document" resource "viewer" "persona" persona ""
        ↔ Shared facts resource persona "view"
  viewer_iff persona resource = (
    λ m.
        let (action, s, e) =
          (acl_iff new_struct rels [] facts touches resource "viewer" persona).0 m in
        let same : action ≡ "view" = elim (known s.entry s.listed) [
          | inl v ↦ sym s.of_action ∙ v
          | inr w ↦ absurd (edit_not_viewer action (sym s.of_action ∙ w) e)
        ] in
        rw same at s,
    λ s. (acl_iff new_struct rels [] facts touches resource "viewer" persona).1 ("view", s, refl),
  )

  editor_iff :
      (persona resource : String)
      → Related rels [] "acl_document" resource "editor" "persona" persona ""
        ↔ Shared facts resource persona "edit"
  editor_iff persona resource = (
    λ m.
        let (action, s, e) =
          (acl_iff new_struct rels [] facts touches resource "editor" persona).0 m in
        let same : action ≡ "edit" = elim (Bool-cases (action == "edit")) [
          | inl v ↦ (eq_iff action "edit").0 v
          | inr w ↦ absurd (ground (arith, w, e, eq_iff "viewer" "editor"))
        ] in
        rw same at s,
    λ s. (acl_iff new_struct rels [] facts touches resource "editor" persona).1 ("edit", s, refl),
  )

  pub Gives-of_permission :
      (a : Access) (persona resource : String)
      → HasPermission rels [] persona "acl_document" resource (permission_name a)
      → Gives (Shared facts resource persona) a
  Gives-of_permission view persona resource (HasPermission.view_acl _ _ (inl v)) =
      inl ((viewer_iff persona resource).0 v)
  Gives-of_permission view persona resource (HasPermission.view_acl _ _ (inr w)) =
      inr ((editor_iff persona resource).0 w)
  Gives-of_permission edit persona resource (HasPermission.view_acl _ perm v) =
      absurd (names_differ (sym perm))
  Gives-of_permission view persona resource (HasPermission.edit_acl _ perm v) =
      absurd (names_differ perm)
  Gives-of_permission edit persona resource (HasPermission.edit_acl _ perm w) =
      (editor_iff persona resource).0 w
  Gives-of_permission a persona resource (HasPermission.execute type _ v) = absurd (cc type)
  Gives-of_permission a persona resource (HasPermission.view_page type _ v) = absurd (cc type)
  Gives-of_permission a persona resource (HasPermission.render type _ v) = absurd (cc type)
  Gives-of_permission a persona resource (HasPermission.view_doc type _ v) = absurd (cc type)
  Gives-of_permission a persona resource (HasPermission.read type _ v) = absurd (cc type)
  Gives-of_permission a persona resource (HasPermission.approve type _ v) = absurd (cc type)

  pub permission_of_Gives :
      (a : Access) (persona resource : String)
      → Gives (Shared facts resource persona) a
      → HasPermission rels [] persona "acl_document" resource (permission_name a)
  permission_of_Gives view persona resource (inl s) =
      HasPermission.view_acl refl refl (inl ((viewer_iff persona resource).1 s))
  permission_of_Gives view persona resource (inr s) =
      HasPermission.view_acl refl refl (inr ((editor_iff persona resource).1 s))
  permission_of_Gives edit persona resource s =
      HasPermission.edit_acl refl refl ((editor_iff persona resource).1 s)
