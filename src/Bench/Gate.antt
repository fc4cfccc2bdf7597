-- ===== src/Bench/Gate.antt =====
-- The gate over all models and engines.
use test_permission.Base.{
  Bool, false, ◌≡◌, ◌↔◌, refl, subst, inl, inr, String, List, [], ◌∷◌, All, Bool-cases,
}
use test_permission.Base.Fallible.{Fallible, ok, wrapping, >>=-eq-ok, wrapping-eq-ok}
use test_permission.Base.Float.{Float64}
use test_permission.Domain.{Decider}
use test_permission.Seed.Sampler.Loaded.{LoadedTuple}
use test_permission.Bench.{verify, is_failure, gate_engines, gate}
use test_permission.Bench.Laws.{Agrees, verify-Agrees, verify-of_Agrees}

ok-false : {b : Bool} → ◌≡◌ {A = Fallible Bool} (ok b) (ok false) → b ≡ false
ok-false e = cc e

module _ (F : Float64) where
  -- A failure is not forgotten.
  gate_engines-failed :
      (ds : List Decider) (model : String) (ts : List (LoadedTuple F.T)) (failed : Bool)
      → gate_engines F ds model ts failed ≡ ok false
      → failed ≡ false
  unfolding gate_engines
  gate_engines-failed [] model ts failed e = ok-false e
  gate_engines-failed (d ∷ ds) model ts failed e =
      let (r, ran, later) = >>=-eq-ok (verify F d model ts) _ e in
      let kept = gate_engines-failed ds model ts _ later in
      elim (Bool-cases (is_failure F r)) [
        | inl bad ↦ absurd (cc (rw bad at kept))
        | inr good ↦ rw good at kept
      ]

  gate_engines-Agrees :
      (ds : List Decider) (model : String) (ts : List (LoadedTuple F.T)) (failed : Bool)
      → gate_engines F ds model ts failed ≡ ok false
      → All (λ d. All (Agrees F d) ts) ds
  unfolding gate_engines
  gate_engines-Agrees [] model ts failed e = tt
  gate_engines-Agrees (d ∷ ds) model ts failed e =
      let (r, ran, later) = >>=-eq-ok (verify F d model ts) _ e in
      let kept = gate_engines-failed ds model ts _ later in
      elim (Bool-cases (is_failure F r)) [
        | inl bad ↦ absurd (cc (rw bad at kept))
        | inr good ↦
            (verify-Agrees F d model ts r ran good, gate_engines-Agrees ds model ts _ later)
      ]

  gate_engines-of_Agrees :
      (ds : List Decider) (model : String) (ts : List (LoadedTuple F.T))
      → All (λ d. All (Agrees F d) ts) ds
      → gate_engines F ds model ts false ≡ ok false
  unfolding gate_engines
  gate_engines-of_Agrees [] model ts h = refl
  gate_engines-of_Agrees (d ∷ ds) model ts (a, h) =
      let (r, ran, good) = verify-of_Agrees F d model ts a in
      rw (ran, good) (gate_engines-of_Agrees ds model ts h)

  module _ (load : String → Fallible (List (LoadedTuple F.T))) (ds : List Decider) where
    -- The model's tuples are there, and every engine agrees with all of them.
    abbrev pub Passes : String → Type 0
    Passes model =
        (ts : List (LoadedTuple F.T)) × (load model ≡ ok ts) × All (λ d. All (Agrees F d) ts) ds

    gate-failed :
        (models : List String) (failed : Bool)
        → gate F load ds models failed ≡ ok false
        → failed ≡ false
    unfolding gate
    gate-failed [] failed e = ok-false e
    gate-failed (model ∷ models) failed e =
        let (ts, loaded, ran) = >>=-eq-ok (wrapping "load tuples" (load model)) _ e in
        let (next, judged, later) = >>=-eq-ok (gate_engines F ds model ts failed) _ ran in
        gate_engines-failed ds model ts failed (
          subst (λ b. gate_engines F ds model ts failed ≡ ok b) (gate-failed models next later)
            judged)

    gate-Passes :
        (models : List String) (failed : Bool)
        → gate F load ds models failed ≡ ok false
        → All Passes models
    unfolding gate
    gate-Passes [] failed e = tt
    gate-Passes (model ∷ models) failed e =
        let (ts, loaded, ran) = >>=-eq-ok (wrapping "load tuples" (load model)) _ e in
        let (next, judged, later) = >>=-eq-ok (gate_engines F ds model ts failed) _ ran in
        (
          (
            ts,
            wrapping-eq-ok "load tuples" (load model) loaded,
            gate_engines-Agrees ds model ts failed (
                subst (λ b. gate_engines F ds model ts failed ≡ ok b)
                  (gate-failed models next later) judged),
          ),
          gate-Passes models next later,
        )

    gate-of_Passes :
        (models : List String) → All Passes models → gate F load ds models false ≡ ok false
    unfolding gate
    gate-of_Passes [] h = refl
    gate-of_Passes (model ∷ models) ((ts, loaded, agree), h) =
        rw (loaded, gate_engines-of_Agrees ds model ts agree) (gate-of_Passes models h)

    -- The equivalence gate passes exactly when the tuples of every model it is run for can be read, and every engine answers each of them without an error and with the decision that the tuple expects.
    pub gate-Passes_iff :
        (models : List String) → (gate F load ds models false ≡ ok false) ↔ All Passes models
    gate-Passes_iff models = (λ e. gate-Passes models false e, λ h. gate-of_Passes models h)
