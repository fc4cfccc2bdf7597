-- ===== src/Equivalence/Store.antt =====
-- The entity store of a prepared check, and ancestry in it.
use test_permission.Base.{
  lookup, String, none, some, List, [], ◌∷◌, ◌++◌, ◌≡◌, ◌≢◌, refl, ap, ◌∙◌, ◌↔◌, ◌⊎◌, inl, inr,
  arith, eq_iff, Memᴰ,
}
use test_permission.Base.Members.{mem-cons, not-mem-nil}
use test_permission.Domain.{EntityUid, Entity}
use test_permission.Cedar.{CedarEntity, EntityMap, entity, find_entity, uid_elems}
use test_permission.Cedar.Laws.{last_entity}
use test_permission.Postgres.{uid_of, refs, plain_entities}
use test_permission.Policies.{In, attr, AllEntities}

pub In-cases :
    {store : EntityMap} {u t : EntityUid}
    → In store u t
    → (u ≡ t)
      ⊎ ((e : CedarEntity) × (p : EntityUid) × (find_entity u store ≡ some e)
          × Memᴰ p e.parents
          × In store p t)
In-cases (In.self e) = inl e
In-cases (In.up {p} e found m rest) = inr (e, p, found, m, rest)

pub mem-refs :
    (type : String) (ids : List String) (u : EntityUid)
    → Memᴰ u (refs type ids) ↔ ((id : String) × Memᴰ id ids × (u ≡ uid_of type id))
mem-refs type [] u = (λ m. absurd (not-mem-nil m), λ (id, m, e). absurd (not-mem-nil m))
mem-refs type (x ∷ ids) u = (
  λ m. elim (mem-cons m) [
    | inl e ↦ (x, Memᴰ.head refl, e)
    | inr later ↦ let (id, m', e) = (mem-refs type ids u).0 later in (id, Memᴰ.tail m', e)
  ],
  λ (id, m, e). elim (mem-cons m) [
    | inl same ↦ Memᴰ.head (e ∙ ap (uid_of type) same)
    | inr later ↦ Memᴰ.tail ((mem-refs type ids u).1 (id, later, e))
  ],
)

pub mem-uid_elems :
    (us : List EntityUid) (u : EntityUid) → Memᴰ (entity u) (uid_elems us) ↔ Memᴰ u us
mem-uid_elems [] u = (λ m. absurd (not-mem-nil m), λ m. absurd (not-mem-nil m))
mem-uid_elems (x ∷ us) u = (
  λ m. elim (mem-cons m) [
    | inl e ↦ Memᴰ.head (cc e)
    | inr later ↦ Memᴰ.tail ((mem-uid_elems us u).0 later)
  ],
  λ m. elim (mem-cons m) [
    | inl e ↦ Memᴰ.head (ap entity e)
    | inr later ↦ Memᴰ.tail ((mem-uid_elems us u).1 later)
  ],
)

pub uid_elems-AllEntities : (us : List EntityUid) → AllEntities (uid_elems us)
uid_elems-AllEntities [] = tt
uid_elems-AllEntities (u ∷ us) = uid_elems-AllEntities us

pub last_entity-append :
    (u : EntityUid) (xs ys : List Entity)
    → last_entity u (xs ++ ys)
      ≡ elim (last_entity u ys) [ none ↦ last_entity u xs | some e ↦ some e ]
unfolding last_entity
last_entity-append u [] ys = ground arith
last_entity-append u (x ∷ xs) ys = ground (arith, last_entity-append u xs ys)

-- Entities of one type without parents, looked up under any uid.
pub plain_parents :
    (u : EntityUid) (type : String) (ids : List String) (e : Entity)
    → last_entity u (plain_entities type ids) ≡ some e
    → (e.parents ≡ []) × (e.attributes ≡ [])
unfolding last_entity
plain_parents u type [] e h = absurd (cc)
plain_parents u type (id ∷ ids) e h = ground (arith, plain_parents u type ids e)

pub plain_other_type :
    (u : EntityUid) (type : String) (ids : List String)
    → u.type ≢ type
    → last_entity u (plain_entities type ids) ≡ none
unfolding last_entity
plain_other_type u type [] differ = refl
plain_other_type u type (id ∷ ids) differ =
    ground (arith, plain_other_type u type ids differ, eq_iff type u.type)

-- An entity that is found has the attributes that it was stored with.
pub attr_of_found :
    (store : EntityMap) (u : EntityUid) (e : CedarEntity) (key : String)
    → find_entity u store ≡ some e
    → attr store u key ≡ lookup key e.attributes
unfolding attr
attr_of_found store u e key found = ground (arith, found)
