-- ===== src/Schema/Origins.antt =====
-- Which records write a relationship of a given resource type and relation.
use test_permission.Base.{
  Bool, true, false, String, none, ◌≡◌, refl, ap, ◌==◌, ◌&&◌, ◌||◌, inl, inr, arith, eq_refl,
}
use test_permission.Base.Fallible.{Fallible}
use test_permission.Seed.Types.{Fact, PersonaRole, RoleGrant, AclEntry}
use test_permission.Seed.Relationships.{Relationship, rel, CaveatContext, acl_relation}
use test_permission.Schema.Facts.{Writes}

-- A record can write a relationship of the resource type and the relation.
abbrev writes_shape : Fact → String → String → Bool
writes_shape (Fact.org o) t r = "org_unit" == t && "parent" == r
writes_shape (Fact.persona_role pr) t r = "role" == t && "assignee" == r
writes_shape (Fact.role_grant rg) t r = "allowed_role" == r && rg.resource_type == t
writes_shape (Fact.folder f) t r = "folder" == t && ("unit" == r || "parent" == r)
writes_shape (Fact.rebac_doc d) t r = "rebac_document" == t && "folder" == r
writes_shape (Fact.membership m) t r = "org_unit" == t && m.relation == r
writes_shape (Fact.abac_doc d) t r = "abac_document" == t && "reader" == r
writes_shape (Fact.pbac_assignment a) t r = "pbac_policy" == t && "assignee" == r
writes_shape (Fact.purchase_order po) t r = "purchase_order" == t && "governed_by" == r
writes_shape (Fact.acl_entry e) t r = "acl_document" == t && acl_relation e == r
writes_shape _ t r = false

both_eq : {a b c d : String} → c ≡ a → d ≡ b → (a == c && b == d) ≡ true
both_eq {a} {b} p q = rw (p, q, eq_refl a) (eq_refl b)

same_type : {r x : Relationship} → r ≡ x → r.res_type ≡ x.res_type
same_type = ap (λ (x : Relationship). x.res_type)

same_relation : {r x : Relationship} → r ≡ x → r.relation ≡ x.relation
same_relation = ap (λ (x : Relationship). x.relation)

module _ (new_struct : CaveatContext → Fallible CaveatContext) where
  shape_of_Writes :
      (f : Fact) (r : Relationship)
      → Writes new_struct f r
      → writes_shape f r.res_type r.relation ≡ true
  shape_of_Writes (Fact.org o) r (e, _) = both_eq (same_type e) (same_relation e)
  shape_of_Writes (Fact.persona_role o) r e = both_eq (same_type e) (same_relation e)
  shape_of_Writes (Fact.role_grant o) r e = both_eq (same_relation e) (same_type e)
  shape_of_Writes (Fact.folder f) r (inl e) = rw (same_type e, same_relation e) refl
  shape_of_Writes (Fact.folder f) r (inr (inl (e, _))) = rw (same_type e, same_relation e) refl
  shape_of_Writes (Fact.folder f) r (inr (inr (e, _))) = rw (same_type e, same_relation e) refl
  shape_of_Writes (Fact.rebac_doc o) r e = both_eq (same_type e) (same_relation e)
  shape_of_Writes (Fact.membership o) r e = both_eq (same_type e) (same_relation e)
  shape_of_Writes (Fact.abac_doc o) r (_, _, e) = both_eq (same_type e) (same_relation e)
  shape_of_Writes (Fact.pbac_assignment o) r e = both_eq (same_type e) (same_relation e)
  shape_of_Writes (Fact.purchase_order o) r (_, _, e) = both_eq (same_type e) (same_relation e)
  shape_of_Writes (Fact.acl_entry o) r e = both_eq (same_type e) (same_relation e)
  shape_of_Writes _ r h = absurd h

  pub assignee_of_Writes :
      (f : Fact) (role persona : String)
      → Writes new_struct f (rel "role" role "assignee" "persona" persona "" none)
      → (pr : PersonaRole) × (f ≡ Fact.persona_role pr)
        × (pr.role_id ≡ role)
        × (pr.persona_id ≡ persona)
  assignee_of_Writes (Fact.persona_role pr) role persona e = (pr, refl, ground arith, ground arith)
  assignee_of_Writes f role persona h =
      absurd (cc (shape_of_Writes f (rel "role" role "assignee" "persona" persona "" none) h))

  pub allowed_role_of_Writes :
      (f : Fact) (def_type id role : String)
      → Writes new_struct f (rel def_type id "allowed_role" "role" role "assignee" none)
      → (rg : RoleGrant) × (f ≡ Fact.role_grant rg)
        × (rg.resource_type ≡ def_type)
        × (rg.resource_id ≡ id)
        × (rg.role_id ≡ role)
  allowed_role_of_Writes (Fact.role_grant rg) def_type id role e =
      (rg, refl, ground arith, ground arith, ground arith)
  allowed_role_of_Writes (Fact.membership m) def_type id role e =
      absurd (cc (ap (λ (x : Relationship). x.subj_type == "role") e))
  allowed_role_of_Writes (Fact.acl_entry m) def_type id role e =
      absurd (cc (ap (λ (x : Relationship). x.subj_type == "role") e))
  allowed_role_of_Writes f def_type id role h = absurd (
      ground
        (arith, shape_of_Writes f (rel def_type id "allowed_role" "role" role "assignee" none) h))

  pub acl_of_Writes :
      (f : Fact) (id relation persona : String)
      → Writes new_struct f (rel "acl_document" id relation "persona" persona "" none)
      → (e : AclEntry) × (f ≡ Fact.acl_entry e)
        × (e.resource_id ≡ id)
        × (acl_relation e ≡ relation)
        × (e.persona_id ≡ persona)
  acl_of_Writes (Fact.acl_entry e) id relation persona h =
      (e, refl, ground arith, ground arith, ground arith)
  acl_of_Writes (Fact.role_grant e) id relation persona h =
      absurd (cc (ap (λ (x : Relationship). x.subj_type == "role") h))
  acl_of_Writes f id relation persona h = absurd (
      ground
        (arith, shape_of_Writes f (rel "acl_document" id relation "persona" persona "" none) h))
