-- ===== src/Bench.antt =====
-- internal/bench/bench.go `Verify` and `EvalOnlyFn`, and cmd/authz-bench/main.go `verify`: whether the engines give
-- the expected decisions. Printing is left out.
pub mod Laws
pub mod Gate
pub mod Preloaded
use test_permission.Base.{
  Bool, true, false, ℕ, suc, ◌+◌, String, List, [], ◌∷◌, ◌==◌, ◌||◌, length, ltb, if◌then◌else◌,
}
use test_permission.Base.Fallible.{Fallible, ok, err, ◌>>=◌, wrapping}
use test_permission.Base.Float.{Float64}
use test_permission.Domain.{Decider, Request, Result, Entity, EntityLoader, decision_string}
use test_permission.Cedar.{Engine, PreparedCheck, prepare}
use test_permission.Seed.Sampler.Loaded.{LoadedTuple, loaded_request}

pub record VerifyResult : Type 0 where
  pub model : String
  pub engine : String
  pub total : ℕ
  pub mismatch : ℕ
  pub errors : ℕ

-- One round of the loop, with what the decider answers.
unfoldable pub judge : String → Fallible Result → VerifyResult → VerifyResult
judge expected (err e) res = record res { errors = suc res.errors }
judge expected (ok out) res =
    if decision_string out.decision == expected
    then res
    else record res { mismatch = suc res.mismatch }

module _ (F : Float64) where
  unfoldable pub verify_tuples :
      Decider → List (LoadedTuple F.T) → VerifyResult → Fallible VerifyResult
  verify_tuples d [] res = ok res
  verify_tuples d (t ∷ ts) res = do
    req ← loaded_request F t
    verify_tuples d ts (judge (LoadedTuple.expected t) (d.check req) res)

  unfoldable pub verify : Decider → String → List (LoadedTuple F.T) → Fallible VerifyResult
  verify d model tuples =
      verify_tuples d tuples
        (record { model = model; engine = d.name; total = length tuples; mismatch = 0; errors = 0 })

  -- Whether the gate has failed by the result.
  abbrev pub is_failure : VerifyResult → Bool
  is_failure r = ltb 0 r.mismatch || ltb 0 r.errors

  unfoldable pub gate_engines :
      List Decider → String → List (LoadedTuple F.T) → Bool → Fallible Bool
  gate_engines [] model tuples failed = ok failed
  gate_engines (d ∷ ds) model tuples failed = do
    r ← verify d model tuples
    gate_engines ds model tuples (if is_failure r then true else failed)

  -- The loop over the models; `load` is LoadTuples. The result is whether the gate has failed.
  unfoldable pub gate :
      (String → Fallible (List (LoadedTuple F.T)))
      → List Decider
      → List String
      → Bool
      → Fallible Bool
  gate load ds [] failed = ok failed
  gate load ds (model ∷ models) failed = do
    tuples ← wrapping "load tuples" (load model)
    next ← gate_engines ds model tuples failed
    gate load ds models next

  -- `EvalOnlyFn`: every tuple is loaded and converted once.
  unfoldable pub preload : EntityLoader → List (LoadedTuple F.T) → Fallible (List PreparedCheck)
  preload loader [] = ok []
  preload loader (t ∷ ts) = do
    req ← loaded_request F t
    entities ← wrapping "preload tuple" (loader req)
    p ← wrapping "prepare tuple" (prepare req entities)
    rest ← preload loader ts
    ok (p ∷ rest)
