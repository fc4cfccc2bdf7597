-- ===== src/Spicedb/Tables.antt =====
-- internal/adapter/outbound/spicedb/decider.go: what the decider's two tables hold, written out.
use mathlib.Core.Option.{some-injective}
use test_permission.Base.{
  String, List, [], ◌∷◌, ◌≡◌, ◌⊎◌, ◌↔◌, ◌==◌, refl, sym, subst, some, inl, inr, arith, eq_iff,
  lookup, Bool-cases, Option-cases,
}
use test_permission.Spicedb.{resource_types, permissions, permission_of}

-- A key and its value are one of the entries.
abbrev pub Among : {V : Type 0} → List (String × V) → String → V → Type 0
Among [] key value = ⊥
Among ((k, v) ∷ entries) key value = ((key ≡ k) × (value ≡ v)) ⊎ Among entries key value

Among-of_lookup :
    {V : Type 0} (entries : List (String × V)) (key : String) (value : V)
    → lookup key entries ≡ some value
    → Among entries key value
unfolding lookup
Among-of_lookup [] key value h = absurd (cc h)
Among-of_lookup ((k, v) ∷ entries) key value h = elim (Bool-cases (k == key)) [
  | inl same ↦ inl (sym ((eq_iff k key).0 same), sym (some-injective v value (rw same at h)))
  | inr other ↦ inr (Among-of_lookup entries key value (rw other at h))
]

-- The definition of the schema for a resource type.
abbrev pub HasDefinition : String → String → Type 0
HasDefinition = Among (
    ("Endpoint", "endpoint")
    ∷ ("Page", "page")
    ∷ ("Component", "component")
    ∷ ("RebacDocument", "rebac_document")
    ∷ ("AbacDocument", "abac_document")
    ∷ ("PurchaseOrder", "purchase_order")
    ∷ ("AclDocument", "acl_document")
    ∷ [])

-- The permission of the schema for an action of a model.
abbrev permission_names : List (String × List (String × String))
permission_names =
    ("rbac", ("execute", "execute") ∷ ("view", "view") ∷ ("render", "render") ∷ [])
    ∷ ("rebac", ("doc.view", "view") ∷ [])
    ∷ ("abac", ("doc.read", "read") ∷ [])
    ∷ ("pbac", ("po.approve", "approve") ∷ [])
    ∷ ("acl", ("acl.view", "view") ∷ ("acl.edit", "edit") ∷ [])
    ∷ []

abbrev pub HasPermissionName : String → String → String → Type 0
HasPermissionName model action perm =
    (actions : List (String × String)) × Among permission_names model actions
    × Among actions action perm

definition_known :
    (type def_type : String)
    → HasDefinition type def_type
    → lookup type resource_types ≡ some def_type
unfolding lookup
definition_known type def_type (inl (e, f)) = rw (e, f) refl
definition_known type def_type (inr (inl (e, f))) = rw (e, f) refl
definition_known type def_type (inr (inr (inl (e, f)))) = rw (e, f) refl
definition_known type def_type (inr (inr (inr (inl (e, f))))) = rw (e, f) refl
definition_known type def_type (inr (inr (inr (inr (inl (e, f)))))) = rw (e, f) refl
definition_known type def_type (inr (inr (inr (inr (inr (inl (e, f))))))) = rw (e, f) refl
definition_known type def_type (inr (inr (inr (inr (inr (inr (inl (e, f)))))))) = rw (e, f) refl
definition_known type def_type (inr (inr (inr (inr (inr (inr (inr x))))))) = absurd x

rbac_known :
    (action perm : String)
    → Among (("execute", "execute") ∷ ("view", "view") ∷ ("render", "render") ∷ []) action perm
    → permission_of "rbac" action ≡ some perm
unfolding lookup permission_of
rbac_known action perm (inl (e, f)) = rw (e, f) refl
rbac_known action perm (inr (inl (e, f))) = rw (e, f) refl
rbac_known action perm (inr (inr (inl (e, f)))) = rw (e, f) refl
rbac_known action perm (inr (inr (inr x))) = absurd x

rebac_known :
    (action perm : String)
    → Among (("doc.view", "view") ∷ []) action perm
    → permission_of "rebac" action ≡ some perm
unfolding lookup permission_of
rebac_known action perm (inl (e, f)) = rw (e, f) refl
rebac_known action perm (inr x) = absurd x

abac_known :
    (action perm : String)
    → Among (("doc.read", "read") ∷ []) action perm
    → permission_of "abac" action ≡ some perm
unfolding lookup permission_of
abac_known action perm (inl (e, f)) = rw (e, f) refl
abac_known action perm (inr x) = absurd x

pbac_known :
    (action perm : String)
    → Among (("po.approve", "approve") ∷ []) action perm
    → permission_of "pbac" action ≡ some perm
unfolding lookup permission_of
pbac_known action perm (inl (e, f)) = rw (e, f) refl
pbac_known action perm (inr x) = absurd x

acl_known :
    (action perm : String)
    → Among (("acl.view", "view") ∷ ("acl.edit", "edit") ∷ []) action perm
    → permission_of "acl" action ≡ some perm
unfolding lookup permission_of
acl_known action perm (inl (e, f)) = rw (e, f) refl
acl_known action perm (inr (inl (e, f))) = rw (e, f) refl
acl_known action perm (inr (inr x)) = absurd x

permission_known :
    (model action perm : String)
    → HasPermissionName model action perm
    → permission_of model action ≡ some perm
permission_known model action perm (actions, inl (e, f), h) =
    rw e (rbac_known action perm (subst (λ acts. Among acts action perm) f h))
permission_known model action perm (actions, inr (inl (e, f)), h) =
    rw e (rebac_known action perm (subst (λ acts. Among acts action perm) f h))
permission_known model action perm (actions, inr (inr (inl (e, f))), h) =
    rw e (abac_known action perm (subst (λ acts. Among acts action perm) f h))
permission_known model action perm (actions, inr (inr (inr (inl (e, f)))), h) =
    rw e (pbac_known action perm (subst (λ acts. Among acts action perm) f h))
permission_known model action perm (actions, inr (inr (inr (inr (inl (e, f))))), h) =
    rw e (acl_known action perm (subst (λ acts. Among acts action perm) f h))
permission_known model action perm (actions, inr (inr (inr (inr (inr x)))), h) = absurd x

pub HasDefinition-iff :
    (type def_type : String)
    → (lookup type resource_types ≡ some def_type) ↔ HasDefinition type def_type
HasDefinition-iff type def_type =
    (Among-of_lookup resource_types type def_type, definition_known type def_type)

pub HasPermissionName-iff :
    (model action perm : String)
    → (permission_of model action ≡ some perm) ↔ HasPermissionName model action perm
unfolding permission_of
HasPermissionName-iff model action perm = (
  λ h. elim (Option-cases (lookup model permissions)) [
    | inl missed ↦ absurd (ground (arith, missed, h))
    | inr (actions, found) ↦ (
      actions,
      Among-of_lookup permissions model actions found,
      Among-of_lookup actions action perm (ground (arith, found, h)),
    )
  ],
  permission_known model action perm,
)
