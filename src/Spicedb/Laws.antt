-- ===== src/Spicedb/Laws.antt =====
-- What the SpiceDB decider sends and answers.
use test_permission.Base.{
  true, false, String, Option, some, [], ◌∷◌, ◌≡◌, refl, ◌↔◌, arith, Option-cases, subst, ap, ◌∙◌,
  inl, inr, lookup, none, ◌⊎◌, ◌≢◌, ◌==◌, Bool-cases, eq_iff,
}
use test_permission.Base.Int.{ℤ, pos, leb_ℤ, ltb_ℤ, ◌-ℤ◌}
use test_permission.Base.Float.{Float64, IsExact, exact_bound}
use test_permission.Base.Fallible.{ok, >>=-eq-ok, wrapping, wrapping-eq-ok}
use test_permission.Domain.{Value, Attributes, Request, Result, Decision, allow, deny}
use test_permission.Spicedb.Tables.{
  HasDefinition, HasPermissionName, HasDefinition-iff, HasPermissionName-iff,
}
use test_permission.Spicedb.{
  Normal, Normals, normalize_value, normalize_context, Client, ConsistencyMode, resource_types,
  permission_of, Consistency, consistency, CheckRequest, request_context, permission_request, ask,
  check, decide, Permissionship,
}

abbrev pub InRange : ℤ → Type 0
InRange t = (leb_ℤ t exact_bound ≡ true) × (leb_ℤ (pos 0 -ℤ exact_bound) t ≡ true)

-- Only an int64 beyond 2^53 is refused.
abbrev pub Fits : Value → Type 0
Fits (Value.int64 t) = InRange t
Fits _ = Unit

InRange-of_tests :
    (t : ℤ) → ltb_ℤ exact_bound t ≡ false → ltb_ℤ t (pos 0 -ℤ exact_bound) ≡ false → InRange t
InRange-of_tests t a b = (ground arith, ground arith)

module _ (F : Float64) where
  -- What is sent for a value: an int64 as a double that converts back to it, an int as its double, texts as an array, all else as it is.
  abbrev pub Sends : Value → Normal F.T → Type 0
  Sends (Value.int64 t) (Normal.number x) = F.to_int x ≡ t
  Sends (Value.int t) (Normal.number x) = x ≡ F.of_int t
  Sends (Value.strings ss) (Normal.array ts) = ss ≡ ts
  Sends (Value.int64 t) _ = ⊥
  Sends (Value.int t) _ = ⊥
  Sends (Value.strings ss) _ = ⊥
  Sends v (Normal.same w) = v ≡ w
  Sends _ _ = ⊥

  abbrev pub SendsAll : Attributes → Normals F.T → Type 0
  SendsAll [] [] = Unit
  SendsAll ((k, v) ∷ m) ((j, n) ∷ out) = (k ≡ j) × Sends v n × SendsAll m out
  SendsAll _ _ = ⊥

  abbrev pub FitsAll : Attributes → Type 0
  FitsAll [] = Unit
  FitsAll ((k, v) ∷ m) = Fits v × FitsAll m

  normalize_value_of_Fits :
      (v : Value) → IsExact F → Fits v → (n : Normal F.T) × (normalize_value F v ≡ ok n) × Sends v n
  unfolding normalize_value
  normalize_value_of_Fits (Value.int64 t) exact (hi, lo) =
      (Normal.number (F.of_int t), ground arith, exact.round_trip t hi lo)
  normalize_value_of_Fits (Value.bool b) exact _ = (Normal.same (Value.bool b), refl, refl)
  normalize_value_of_Fits (Value.string b) exact _ = (Normal.same (Value.string b), refl, refl)
  normalize_value_of_Fits (Value.int b) exact _ = (Normal.number (F.of_int b), refl, refl)
  normalize_value_of_Fits (Value.uid b) exact _ = (Normal.same (Value.uid b), refl, refl)
  normalize_value_of_Fits (Value.strings b) exact _ = (Normal.array b, refl, refl)
  normalize_value_of_Fits (Value.uids b) exact _ = (Normal.same (Value.uids b), refl, refl)
  normalize_value_of_Fits (Value.other b) exact _ = (Normal.same (Value.other b), refl, refl)

  Fits-of_normalize_value : (v : Value) (n : Normal F.T) → normalize_value F v ≡ ok n → Fits v
  unfolding normalize_value
  Fits-of_normalize_value (Value.int64 t) n h = InRange-of_tests t (ground arith) (ground arith)
  Fits-of_normalize_value _ n h = tt

  Fits-of_normalize_context :
      (m : Attributes) (out : Normals F.T) → normalize_context F m ≡ ok out → FitsAll m
  unfolding normalize_context
  Fits-of_normalize_context [] out h = tt
  Fits-of_normalize_context ((k, v) ∷ m) out h =
      let (n, e, h') = >>=-eq-ok (normalize_value F v) _ h in
      let (rest, e', _) = >>=-eq-ok (normalize_context F m) _ h' in
      (Fits-of_normalize_value v n e, Fits-of_normalize_context m rest e')

  normalize_context_of_Fits :
      (m : Attributes)
      → IsExact F
      → FitsAll m
      → (out : Normals F.T) × (normalize_context F m ≡ ok out) × SendsAll m out
  unfolding normalize_context
  normalize_context_of_Fits [] exact _ = ([], refl, tt)
  normalize_context_of_Fits ((k, v) ∷ m) exact (here, later) =
      let (n, e, sent) = normalize_value_of_Fits v exact here in
      let (out, e', sents) = normalize_context_of_Fits m exact later in
      ((k, n) ∷ out, rw (e, e'), (refl, sent, sents))

  -- Where doubles hold every integer up to 2^53 exactly: a context whose int64 values all lie within 2^53 of zero is normalized, and every context that is normalized is such a one and yields the same keys in the same order, each int64 as a double that converts back to that very int64.
  pub normalize_context-exact :
      (m : Attributes)
      → IsExact F
      → (FitsAll m → (out : Normals F.T) × (normalize_context F m ≡ ok out))
        × ((out : Normals F.T) → normalize_context F m ≡ ok out → FitsAll m × SendsAll m out)
  normalize_context-exact m exact = (accepted, sent)
    where
      accepted : FitsAll m → (out : Normals F.T) × (normalize_context F m ≡ ok out)
      accepted fits = let (out, e, _) = normalize_context_of_Fits m exact fits in (out, e)

      sent : (out : Normals F.T) → normalize_context F m ≡ ok out → FitsAll m × SendsAll m out
      sent out e =
          let fits = Fits-of_normalize_context m out e in
          let (out', e', sends) = normalize_context_of_Fits m exact fits in
          let same : out' ≡ out = cc (e, e') in (fits, subst (SendsAll m) same sends)

  module _ (client : Client F.T) (mode : ConsistencyMode) where
    open client use {Struct, new_struct, check_permission}

    -- The server's answer that stands for a decision.
    abbrev pub permissionship : Decision → Permissionship
    permissionship allow = Permissionship.has_permission
    permissionship deny = Permissionship.no_permission

    -- The consistency that a mode stands for.
    abbrev pub Consistent : Consistency → Type 0
    Consistent c =
        ((mode ≡ "fully_consistent") × (c ≡ Consistency.full))
        ⊎ ((mode ≢ "fully_consistent") × (c ≡ Consistency.minimizing_latency))

    pub Consistent-consistency : Consistent (consistency mode)
    unfolding consistency
    Consistent-consistency = elim (Bool-cases (mode == "fully_consistent")) [
      | inl same ↦ inl ((eq_iff mode "fully_consistent").0 same, rw same refl)
      | inr other ↦
          inr (λ e. ground (arith, other, e, eq_iff mode "fully_consistent"), rw other refl)
    ]

    consistency-of_Consistent : (c : Consistency) → Consistent c → consistency mode ≡ c
    unfolding consistency
    consistency-of_Consistent c (inl (e, f)) = ground (arith, e, f, eq_iff mode "fully_consistent")
    consistency-of_Consistent c (inr (e, f)) = ground (arith, e, f, eq_iff mode "fully_consistent")

    -- The context that is sent: none for an empty one, else the struct of the normalized values.
    abbrev pub SendsContext : Attributes → Option Struct → Type 0
    SendsContext [] sent = sent ≡ none
    SendsContext (entry ∷ m) sent =
        (norm : Normals F.T) × (s : Struct) × (normalize_context F (entry ∷ m) ≡ ok norm)
        × (new_struct norm ≡ ok s)
        × (sent ≡ some s)

    SendsContext-iff :
        (m : Attributes) (sent : Option Struct)
        → (request_context F client m ≡ ok sent) ↔ SendsContext m sent
    unfolding request_context
    SendsContext-iff [] sent = (λ h. ground arith, λ e. rw e refl)
    SendsContext-iff (entry ∷ m) sent = (
      λ h.
          let (norm, e, h') = >>=-eq-ok (normalize_context F (entry ∷ m)) _ h in
          let (s, e', h'') = >>=-eq-ok (wrapping "build check context" (new_struct norm)) _ h' in
          (norm, s, e, wrapping-eq-ok "build check context" (new_struct norm) e', ground arith),
      λ (norm, s, e, e', same). rw (e, e', same) refl,
    )

    -- A supported check, with the permission that the server is asked for.
    pub record Supported (req : Request) (def_type perm : String) (context : Option Struct)
        : Type 0 where
      pub resource_type : HasDefinition req.resource_type def_type
      pub action : HasPermissionName req.model req.action perm
      pub with_context : SendsContext req.context context

    -- The question about the persona and the object.
    abbrev pub question :
        Consistency → String → String → Request → Option Struct → CheckRequest Struct
    question c def_type perm req context = record {
      consistency = c;
      object_type = def_type;
      object_id = req.resource;
      permission = perm;
      subject_type = "persona";
      subject_id = req.principal;
      context = context;
    }

    decide_sound :
        (resp : Permissionship) (res : Result)
        → decide resp ≡ ok res
        → (resp ≡ permissionship res.decision)
          × (res ≡ record { decision = res.decision; entities_loaded = 0 })
    unfolding decide
    decide_sound Permissionship.has_permission res h = ground arith
    decide_sound Permissionship.no_permission res h = ground arith
    decide_sound _ res h = absurd (cc)

    decide_complete :
        (d : Decision)
        → decide (permissionship d) ≡ ok (record { decision = d; entities_loaded = 0 })
    unfolding decide
    decide_complete allow = refl
    decide_complete deny = refl

    ask_sound :
        (def_type perm : String) (req : Request) (res : Result)
        → ask F client mode def_type perm req ≡ ok res
        → (context : Option Struct) × (request_context F client req.context ≡ ok context)
          × (check_permission (permission_request F client mode def_type perm req context)
              ≡ ok (permissionship res.decision))
          × (res.entities_loaded ≡ 0)
    unfolding ask
    ask_sound def_type perm req res h =
        let (context, c, h') = >>=-eq-ok (request_context F client req.context) _ h in
        let (resp, r, h'') =
          >>=-eq-ok
            (wrapping "check permission"
              (check_permission (permission_request F client mode def_type perm req context)))
            _ h' in
        let asked =
          wrapping-eq-ok "check permission"
            (check_permission (permission_request F client mode def_type perm req context)) r in
        let (same, whole) = decide_sound resp res h'' in
        (context, c, asked ∙ ap ok same, ap Result.entities_loaded whole)

    ask_complete :
        (def_type perm : String) (req : Request) (context : Option Struct) (d : Decision)
        → request_context F client req.context ≡ ok context
        → check_permission (permission_request F client mode def_type perm req context)
          ≡ ok (permissionship d)
        → ask F client mode def_type perm req ≡ ok (record { decision = d; entities_loaded = 0 })
    unfolding ask
    ask_complete def_type perm req context d c e = rw (c, e, decide_complete d)

    -- The decider answers with a result exactly when it knows the resource type, as one of the seven with a definition of the schema, and the action, as one of the eight of the five models with a permission of the schema, the context can be sent (none for an empty one), and the server, asked in the mode's consistency whether the persona of the check has that permission on the resource of the check, answers has_permission for a result of allow, or no_permission for one of deny; the result's loaded count is 0. So a conditional or an unspecified answer gives no result.
    pub check-decision_iff :
        (req : Request) (res : Result)
        → (check F client mode req ≡ ok res) ↔ (
            (c : Consistency) × (def_type : String) × (perm : String) × (context : Option Struct)
            × Consistent c
            × Supported req def_type perm context
            × (check_permission (question c def_type perm req context)
                ≡ ok (permissionship res.decision))
            × (res.entities_loaded ≡ 0))
    unfolding check permission_request
    check-decision_iff req res = (to, from)
      where
        to :
            check F client mode req ≡ ok res
            → (c : Consistency) × (def_type : String) × (perm : String) × (context : Option Struct)
              × Consistent c
              × Supported req def_type perm context
              × (check_permission (question c def_type perm req context)
                  ≡ ok (permissionship res.decision))
              × (res.entities_loaded ≡ 0)
        to h = elim (Option-cases (lookup req.resource_type resource_types)) [
          | inl missed ↦ absurd (ground arith)
          | inr (def_type, t) ↦ elim (Option-cases (permission_of req.model req.action)) [
            | inl missed ↦ absurd (ground arith)
            | inr (perm, p) ↦
                let (context, e, asked, zero) =
                  ask_sound def_type perm req res (ground (arith, t, p, h)) in
                (
                  consistency mode,
                  def_type,
                  perm,
                  context,
                  Consistent-consistency,
                  record {
                    resource_type = (HasDefinition-iff req.resource_type def_type).0 t;
                    action = (HasPermissionName-iff req.model req.action perm).0 p;
                    with_context = (SendsContext-iff req.context context).0 e;
                  },
                  asked,
                  zero,
                )
          ]
        ]

        from :
            ((c : Consistency) × (def_type : String) × (perm : String) × (context : Option Struct)
              × Consistent c
              × Supported req def_type perm context
              × (check_permission (question c def_type perm req context)
                  ≡ ok (permissionship res.decision))
              × (res.entities_loaded ≡ 0))
            → check F client mode req ≡ ok res
        from (c, def_type, perm, context, mode_c, s, e, zero) =
            let e' =
              ask_complete def_type perm req context res.decision
                ((SendsContext-iff req.context context).1 s.with_context)
                (rw (consistency-of_Consistent c mode_c) e) in
            ground (
              arith,
              (HasDefinition-iff req.resource_type def_type).1 s.resource_type,
              (HasPermissionName-iff req.model req.action perm).1 s.action,
              e',
              zero,
            )
