-- ===== src/Bench/Laws.antt =====
-- The equivalence gate passes exactly where every engine gives every expected decision.
use test_permission.Base.{
  false, ◌≤◌, ◌≡◌, refl, subst, inl, inr, String, List, [], ◌∷◌, ◌==◌, All, eq_iff, arith,
  Bool-cases,
}
use test_permission.Base.Fallible.{Fallible, ok, err, >>=-eq-ok}
use test_permission.Base.Float.{Float64}
use test_permission.Domain.{Decider, Request, Result, decision_string}
use test_permission.Seed.Sampler.Loaded.{LoadedTuple, loaded_request}
use test_permission.Bench.{VerifyResult, judge, verify_tuples, verify, is_failure}

judge-cases :
    (expected : String) (answer : Fallible Result) (res : VerifyResult)
    → (res.mismatch ≤ (judge expected answer res).mismatch)
      × (res.errors ≤ (judge expected answer res).errors)
unfolding judge
judge-cases expected (err e) res = (omega arith, omega arith)
judge-cases expected (ok out) res = elim (Bool-cases (decision_string out.decision == expected)) [
  | inl same ↦ rw same (omega arith, omega arith)
  | inr other ↦ rw other (omega arith, omega arith)
]

judge-right :
    (expected : String) (answer : Fallible Result) (res : VerifyResult)
    → (judge expected answer res).mismatch ≡ res.mismatch
    → (judge expected answer res).errors ≡ res.errors
    → (out : Result) × (answer ≡ ok out) × (decision_string out.decision ≡ expected)
unfolding judge
judge-right expected (err e) res same_m same_e = absurd (omega (arith, same_e))
judge-right expected (ok out) res same_m same_e =
    elim (Bool-cases (decision_string out.decision == expected)) [
      | inl same ↦ (out, refl, (eq_iff (decision_string out.decision) expected).0 same)
      | inr other ↦ absurd (omega (arith, rw other at same_m))
    ]

module _ (F : Float64) where
  -- The engine gives the tuple the decision that is expected.
  pub record Agrees (d : Decider) (t : LoadedTuple F.T) : Type 0 where
    pub req : Request
    pub out : Result
    pub asks : loaded_request F t ≡ ok req
    pub answers : d.check req ≡ ok out
    pub expected : decision_string out.decision ≡ t.expected

  module _ (d : Decider) where
    verify_tuples-counts :
        (ts : List (LoadedTuple F.T)) (res r : VerifyResult)
        → verify_tuples F d ts res ≡ ok r
        → (res.mismatch ≤ r.mismatch) × (res.errors ≤ r.errors)
    unfolding verify_tuples
    verify_tuples-counts [] res r e =
        let same : res ≡ r = cc e in
        (
          subst (λ x. res.mismatch ≤ VerifyResult.mismatch x) same (omega arith),
          subst (λ x. res.errors ≤ VerifyResult.errors x) same (omega arith),
        )
    verify_tuples-counts (t ∷ ts) res r e =
        let (req, asks, later) = >>=-eq-ok (loaded_request F t) _ e in
        let (m, n) = judge-cases t.expected (d.check req) res in
        let (p, q) = verify_tuples-counts ts _ r later in (omega (arith, m, p), omega (arith, n, q))

    verify_tuples-Agrees :
        (ts : List (LoadedTuple F.T)) (res r : VerifyResult)
        → verify_tuples F d ts res ≡ ok r
        → r.mismatch ≡ res.mismatch
        → r.errors ≡ res.errors
        → All (Agrees d) ts
    unfolding verify_tuples
    verify_tuples-Agrees [] res r e same_m same_e = tt
    verify_tuples-Agrees (t ∷ ts) res r e same_m same_e =
        let (req, asks, later) = >>=-eq-ok (loaded_request F t) _ e in
        let (m, n) = judge-cases t.expected (d.check req) res in
        let (p, q) = verify_tuples-counts ts _ r later in
        let (out, answers, expected) =
          judge-right t.expected (d.check req) res (omega (arith, m, p, same_m))
            (omega (arith, n, q, same_e)) in
        (
          record { req = req; out = out; asks = asks; answers = answers; expected = expected },
          verify_tuples-Agrees ts _ r later (omega (arith, m, p, same_m))
              (omega (arith, n, q, same_e)),
        )

    verify_tuples-of_Agrees :
        (ts : List (LoadedTuple F.T)) (res : VerifyResult)
        → All (Agrees d) ts
        → verify_tuples F d ts res ≡ ok res
    unfolding verify_tuples judge
    verify_tuples-of_Agrees [] res h = refl
    verify_tuples-of_Agrees (t ∷ ts) res (a, h) =
        rw
          (
            a.asks,
            a.answers,
            (eq_iff (decision_string (Result.decision a.out)) t.expected).1 a.expected,
          )
          (verify_tuples-of_Agrees ts res h)

    -- A result without a mismatch and without an error is that of an engine that agrees.
    pub verify-Agrees :
        (model : String) (ts : List (LoadedTuple F.T)) (r : VerifyResult)
        → verify F d model ts ≡ ok r
        → is_failure F r ≡ false
        → All (Agrees d) ts
    unfolding verify
    verify-Agrees model ts r e clean =
        verify_tuples-Agrees ts _ r e (ground (arith, clean)) (ground (arith, clean))

    pub verify-of_Agrees :
        (model : String) (ts : List (LoadedTuple F.T))
        → All (Agrees d) ts
        → (r : VerifyResult) × (verify F d model ts ≡ ok r) × (is_failure F r ≡ false)
    unfolding verify
    verify-of_Agrees model ts h = (_, verify_tuples-of_Agrees ts _ h, refl)
