-- ===== src/Cedar/Laws.antt =====
-- What the Cedar decider hands to the engine.
use test_permission.Base.{
  Bool, true, false, String, Option, none, some, List, [], ◌∷◌, ◌≡◌, refl, ◌↔◌, ◌&&◌, ◌==◌, arith,
  eq_iff, ap, Option-cases, inl, inr, if◌then◌else◌, length,
}
use test_permission.Base.Fallible.{
  Fallible, ok, err, >>=-eq-ok, wrapping, wrapping-eq-ok, is_ok, Fallible-cases,
}
use test_permission.Domain.{
  EntityUid, Value, Attributes, Request, Result, Entity, EntityLoader, allow, deny,
}
use test_permission.Cedar.{
  CedarEntity, EntityMap, CedarRecord, uid_eq, put_entity, find_entity, to_value, to_record,
  to_entity, add_entities, PreparedCheck, CedarRequest, Scalar, CedarValue, scalar, set, text_elems,
  uid_elems, prepare, cedar_request, Engine, evaluate, check,
}

-- A value that is a Boolean, a text, an `int`, an `int64`, a reference, texts or references.
unfoldable pub is_supported : Value → Bool
is_supported (Value.other type) = false
is_supported _ = true

unfoldable pub all_supported : Attributes → Bool
unfolding is_supported
all_supported [] = true
all_supported ((k, v) ∷ m) = is_supported v && all_supported m

unfoldable pub entities_supported : List Entity → Bool
unfolding all_supported
entities_supported [] = true
entities_supported (e ∷ es) = all_supported e.attributes && entities_supported es

is_ok-wrapping {ℓ} :
    {A : Type ℓ} (text : String) (m : Fallible A) → is_ok (wrapping text m) ≡ is_ok m
is_ok-wrapping text (ok a) = refl
is_ok-wrapping text (err e) = refl

is_ok-to_value : (v : Value) → is_ok (to_value v) ≡ is_supported v
unfolding to_value is_supported
is_ok-to_value (Value.other t) = refl
is_ok-to_value _ = refl

is_ok-to_record : (m : Attributes) → is_ok (to_record m) ≡ all_supported m
unfolding to_record all_supported
is_ok-to_record [] = refl
is_ok-to_record ((k, v) ∷ m) = ground (arith, is_ok-to_value v, is_ok-to_record m)

is_ok-to_entity : (e : Entity) → is_ok (to_entity e) ≡ all_supported e.attributes
unfolding to_entity
is_ok-to_entity e = ground (arith, is_ok-to_record e.attributes)

is_ok-add_entities :
    (store : EntityMap) (es : List Entity) → is_ok (add_entities store es) ≡ entities_supported es
unfolding add_entities entities_supported
is_ok-add_entities store [] = refl
is_ok-add_entities store (e ∷ es) = elim (Fallible-cases (to_entity e)) [
  | inl (c, converted) ↦
      ground (arith, is_ok-to_entity e, converted, is_ok-add_entities (put_entity e.uid c store) es)
  | inr (x, refused) ↦ ground (arith, is_ok-to_entity e, refused)
]

-- A check is prepared exactly when every attribute of every loaded entity and every context value is a bool, a string, an int, an int64, an entity uid, a slice of strings or a slice of entity uids.
pub is_ok-prepare :
    (req : Request) (es : List Entity)
    → is_ok (prepare req es) ≡ (entities_supported es && all_supported req.context)
unfolding prepare
is_ok-prepare req es = ground (arith, is_ok-add_entities [] es, is_ok-to_record req.context)

find-put_entity :
    (u v : EntityUid) (e : CedarEntity) (store : EntityMap)
    → find_entity v (put_entity u e store) ≡ (if uid_eq u v then some e else find_entity v store)
unfolding find_entity put_entity uid_eq
find-put_entity u v e [] = refl
find-put_entity u v e ((w, f) ∷ store) = ground (
  arith,
  eq_iff u.type v.type,
  eq_iff u.id v.id,
  eq_iff w.type v.type,
  eq_iff w.id v.id,
  eq_iff w.type u.type,
  eq_iff w.id u.id,
  find-put_entity u v e store,
)

-- The last entity of a slice with a uid.
unfoldable pub last_entity : EntityUid → List Entity → Option Entity
last_entity u [] = none
last_entity u (e ∷ es) = elim (last_entity u es) [
  | none ↦ if e.uid.type == u.type && e.uid.id == u.id then some e else none
  | some later ↦ some later
]

-- An entity as the engine sees it, if there is one and it converts.
abbrev pub converted : Option Entity → Option CedarEntity
converted none = none
converted (some e) = elim (to_entity e) [ ok c ↦ some c | err x ↦ none ]

find-add_entities :
    (u : EntityUid) (store store' : EntityMap) (es : List Entity)
    → add_entities store es ≡ ok store'
    → find_entity u store'
      ≡ elim (last_entity u es) [ none ↦ find_entity u store | some e ↦ converted (some e) ]
unfolding add_entities last_entity uid_eq
find-add_entities u store store' [] h = ground arith
find-add_entities u store store' (e ∷ es) h =
    let (c, e', h') = >>=-eq-ok (to_entity e) _ h in
    ground (
      arith,
      e',
      find-add_entities u (put_entity e.uid c store) store' es h',
      find-put_entity e.uid u c store,
    )

find_nil : (u : EntityUid) → find_entity u [] ≡ none
unfolding find_entity
find_nil u = refl

pub prepare-converted :
    (req : Request) (es : List Entity) (p : PreparedCheck)
    → prepare req es ≡ ok p
    → ((u : EntityUid) → find_entity u p.store ≡ converted (last_entity u es))
      × ((context : CedarRecord) × (to_record req.context ≡ ok context)
          × (p.req ≡ cedar_request req context))
unfolding prepare
prepare-converted req es p h =
    let (store, filled, h') = >>=-eq-ok (add_entities [] es) _ h in
    let (context, read, h'') =
      >>=-eq-ok (wrapping "request context" (to_record req.context)) _ h' in
    (
      λ u. ground (arith, find-add_entities u [] store es filled, find_nil u),
      (context, wrapping-eq-ok "request context" (to_record req.context) read, ground arith),
    )

-- The texts of a set, in order.
abbrev pub AreTexts : List String → List Scalar → Type 0
AreTexts [] [] = Unit
AreTexts (s ∷ ss) (Scalar.text t ∷ xs) = (s ≡ t) × AreTexts ss xs
AreTexts _ _ = ⊥

-- The references of a set, in order.
abbrev pub AreUids : List EntityUid → List Scalar → Type 0
AreUids [] [] = Unit
AreUids (u ∷ us) (Scalar.entity v ∷ xs) = (u ≡ v) × AreUids us xs
AreUids _ _ = ⊥

-- A value, and the engine's value that it stands for.
abbrev pub Converts : Value → CedarValue → Type 0
Converts (Value.bool b) (scalar (Scalar.boolean c)) = b ≡ c
Converts (Value.string s) (scalar (Scalar.text t)) = s ≡ t
Converts (Value.int i) (scalar (Scalar.long n)) = i ≡ n
Converts (Value.int64 i) (scalar (Scalar.long n)) = i ≡ n
Converts (Value.uid u) (scalar (Scalar.entity v)) = u ≡ v
Converts (Value.strings ss) (set xs) = AreTexts ss xs
Converts (Value.uids us) (set xs) = AreUids us xs
Converts _ _ = ⊥

-- The same keys in the same order, each with the value that the other's stands for.
abbrev pub ConvertsAll : Attributes → CedarRecord → Type 0
ConvertsAll [] [] = Unit
ConvertsAll ((k, v) ∷ m) ((j, c) ∷ r) = (k ≡ j) × Converts v c × ConvertsAll m r
ConvertsAll _ _ = ⊥

-- An entity as the engine sees it.
pub record IsEntity (e : Entity) (c : CedarEntity) : Type 0 where
  pub uid : c.uid ≡ e.uid
  pub parents : c.parents ≡ e.parents
  pub attributes : ConvertsAll e.attributes c.attributes

abbrev pub StandsFor : Option Entity → Option CedarEntity → Type 0
StandsFor none none = Unit
StandsFor (some e) (some c) = IsEntity e c
StandsFor _ _ = ⊥

texts_of_elems : (ss : List String) → AreTexts ss (text_elems ss)
texts_of_elems [] = tt
texts_of_elems (s ∷ ss) = (refl, texts_of_elems ss)

uids_of_elems : (us : List EntityUid) → AreUids us (uid_elems us)
uids_of_elems [] = tt
uids_of_elems (u ∷ us) = (refl, uids_of_elems us)

to_value-Converts : (v : Value) (c : CedarValue) → to_value v ≡ ok c → Converts v c
unfolding to_value
to_value-Converts (Value.bool b) c h =
    let e : scalar (Scalar.boolean b) ≡ c = ground arith in rw (← e) refl
to_value-Converts (Value.string s) c h =
    let e : scalar (Scalar.text s) ≡ c = ground arith in rw (← e) refl
to_value-Converts (Value.int i) c h =
    let e : scalar (Scalar.long i) ≡ c = ground arith in rw (← e) refl
to_value-Converts (Value.int64 i) c h =
    let e : scalar (Scalar.long i) ≡ c = ground arith in rw (← e) refl
to_value-Converts (Value.uid u) c h =
    let e : scalar (Scalar.entity u) ≡ c = ground arith in rw (← e) refl
to_value-Converts (Value.strings ss) c h =
    let e : set (text_elems ss) ≡ c = ground arith in rw (← e) (texts_of_elems ss)
to_value-Converts (Value.uids us) c h =
    let e : set (uid_elems us) ≡ c = ground arith in rw (← e) (uids_of_elems us)
to_value-Converts (Value.other type) c h = absurd (ground arith)

pub to_record-ConvertsAll :
    (m : Attributes) (r : CedarRecord) → to_record m ≡ ok r → ConvertsAll m r
unfolding to_record
to_record-ConvertsAll [] r h = let e : [] ≡ r = ground arith in rw (← e) tt
to_record-ConvertsAll ((k, v) ∷ m) r h =
    let (c, e, h') = >>=-eq-ok (wrapping k (to_value v)) _ h in
    let (rest, e', h'') = >>=-eq-ok (to_record m) _ h' in
    let same : ((k, c) ∷ rest) ≡ r = ground arith in
    rw (← same) (
      refl,
      to_value-Converts v c (wrapping-eq-ok k (to_value v) e),
      to_record-ConvertsAll m rest e',
    )

add_entities-convert :
    (store store' : EntityMap) (es : List Entity) (u : EntityUid) (e : Entity)
    → add_entities store es ≡ ok store'
    → last_entity u es ≡ some e
    → (c : CedarEntity) × (to_entity e ≡ ok c)
unfolding add_entities last_entity
add_entities-convert store store' [] u e h found = absurd (cc found)
add_entities-convert store store' (x ∷ es) u e h found =
    let (c, x', h') = >>=-eq-ok (to_entity x) _ h in
    elim (Option-cases (last_entity u es)) [
      | inl missed ↦ let same : x ≡ e = ground (arith, missed, found) in (c, rw (← same) x')
      | inr (later, l) ↦
          let same : later ≡ e = ground (arith, l, found) in
          add_entities-convert (put_entity x.uid c store) store' es u e h' (rw (← same) l)
    ]

to_entity-IsEntity : (e : Entity) (c : CedarEntity) → to_entity e ≡ ok c → IsEntity e c
unfolding to_entity
to_entity-IsEntity e c h =
    let (attrs, read, h') = >>=-eq-ok (wrapping e.uid.id (to_record e.attributes)) _ h in
    let same : ◌≡◌ {A = CedarEntity}
        (record { uid = e.uid; parents = e.parents; attributes = attrs }) c =
      ground arith in
    rw (← same) (record {
      uid = refl;
      parents = refl;
      attributes =
          to_record-ConvertsAll e.attributes attrs
            (wrapping-eq-ok e.uid.id (to_record e.attributes) read);
    })

-- In the store of a prepared check each uid stands for the last loaded entity with that type and id: the same uid, the same parents, and under the same keys the values that its attributes stand for; a uid that no loaded entity has is absent. The request names the principal as a Persona, the action as an Action and the resource under its type, each with the id of the check, and carries the values that the context stands for.
pub find-prepare :
    (req : Request) (es : List Entity) (p : PreparedCheck)
    → prepare req es ≡ ok p
    → ((u : EntityUid) → StandsFor (last_entity u es) (find_entity u p.store))
      × (p.req.principal ≡ record { type = "Persona"; id = req.principal })
      × (p.req.action ≡ record { type = "Action"; id = req.action })
      × (p.req.resource ≡ record { type = req.resource_type; id = req.resource })
      × ConvertsAll req.context p.req.context
unfolding prepare
find-prepare req es p h =
    let (store, filled, h') = >>=-eq-ok (add_entities [] es) _ h in
    let (found, (context, read, same)) = prepare-converted req es p h in
    (
      λ u. elim (Option-cases (last_entity u es)) [
        | inl missed ↦ rw (found u, missed) tt
        | inr (e, last) ↦
            let (c, e') = add_entities-convert [] store es u e filled last in
            let seen : converted (some e) ≡ some c = ground (arith, e') in
            rw (found u, last, seen) (to_entity-IsEntity e c e')
      ],
      ap CedarRequest.principal same,
      ap CedarRequest.action same,
      ap CedarRequest.resource same,
      rw same (to_record-ConvertsAll req.context context read),
    )

module _ (engine : Engine) (policies : engine.PolicySet) (loader : EntityLoader) where
  -- The answer for a slice and its prepared check.
  abbrev pub verdict : List Entity → PreparedCheck → Result
  verdict es p = record {
    decision = if engine.authorize policies p.store p.req then allow else deny;
    entities_loaded = length es;
  }

  -- The decider succeeds with a result exactly when the loader yields a slice that can be prepared; the decision is then the engine's on the prepared check, and the loaded count is the length of the slice.
  pub check-verdict_iff :
      (req : Request) (res : Result)
      → (check engine policies loader req ≡ ok res) ↔ (
          (es : List Entity) × (p : PreparedCheck) × (loader req ≡ ok es)
          × (prepare req es ≡ ok p)
          × (res ≡ verdict es p))
  unfolding check
  check-verdict_iff req res = (to, λ (es, p, loaded, prepared, same). rw (loaded, prepared, same))
    where
      to :
          check engine policies loader req ≡ ok res
          → (es : List Entity) × (p : PreparedCheck) × (loader req ≡ ok es)
            × (prepare req es ≡ ok p)
            × (res ≡ verdict es p)
      to h =
          let (es, loaded, h') = >>=-eq-ok (wrapping "load entities" (loader req)) _ h in
          let (decision, evaluated, h'') = >>=-eq-ok (evaluate engine policies req es) _ h' in
          let (p, prepared, shown) = >>=-eq-ok (prepare req es) _ evaluated in
          (es, p, wrapping-eq-ok "load entities" (loader req) loaded, prepared, ground arith)
