-- ===== src/Bench/Preloaded.antt =====
-- The cell that only evaluates decides as the whole check does.
use test_permission.Base.{◌≡◌, refl, subst, List, [], ◌∷◌, length}
use test_permission.Base.Fallible.{ok, wrapping, >>=-eq-ok, wrapping-eq-ok}
use test_permission.Base.Float.{Float64}
use test_permission.Domain.{Request, Result, Entity, EntityLoader}
use test_permission.Cedar.{Engine, PreparedCheck, prepare, evaluate_prepared, evaluate, check}
use test_permission.Seed.Sampler.Loaded.{LoadedTuple, loaded_request}
use test_permission.Bench.{preload}

module _ (F : Float64) (engine : Engine) (policies : engine.PolicySet) (loader : EntityLoader) where
  -- The prepared check decides what the check of the tuple answers.
  pub record Decides (t : LoadedTuple F.T) (p : PreparedCheck) : Type 0 where
    pub req : Request
    pub out : Result
    pub asks : loaded_request F t ≡ ok req
    pub answers : check engine policies loader req ≡ ok out
    pub decides : evaluate_prepared engine policies p ≡ out.decision

  -- One prepared check for each tuple, in order.
  abbrev pub DecidesEach : List (LoadedTuple F.T) → List PreparedCheck → Type 0
  DecidesEach [] [] = Unit
  DecidesEach [] (p ∷ ps) = ⊥
  DecidesEach (t ∷ ts) [] = ⊥
  DecidesEach (t ∷ ts) (p ∷ ps) = Decides t p × DecidesEach ts ps

  check-of_prepared :
      (req : Request) (entities : List Entity) (p : PreparedCheck)
      → loader req ≡ ok entities
      → prepare req entities ≡ ok p
      → check engine policies loader req
        ≡ ok (record {
          decision = evaluate_prepared engine policies p;
          entities_loaded = length entities;
        })
  unfolding check evaluate
  check-of_prepared req entities p loaded prepared = rw (loaded, prepared)

  -- When the tuples have been loaded and converted without an error, there is one prepared check for each, in their order, and evaluating it gives the decision that a whole check of the tuple's request gives, with its own loading and converting.
  pub preload-DecidesEach :
      (ts : List (LoadedTuple F.T)) (ps : List PreparedCheck)
      → preload F loader ts ≡ ok ps
      → DecidesEach ts ps
  unfolding preload
  preload-DecidesEach [] [] e = tt
  preload-DecidesEach [] (p ∷ ps) e = absurd (cc e)
  preload-DecidesEach (t ∷ ts) ps e =
      let (req, asks, e1) = >>=-eq-ok (loaded_request F t) _ e in
      let (entities, loaded, e2) = >>=-eq-ok (wrapping "preload tuple" (loader req)) _ e1 in
      let (p, prepared, e3) = >>=-eq-ok (wrapping "prepare tuple" (prepare req entities)) _ e2 in
      let (rest, later, same) = >>=-eq-ok (preload F loader ts) _ e3 in
      let is_list : p ∷ rest ≡ ps = cc same in
      subst (DecidesEach (t ∷ ts)) is_list (
        record {
          req = req;
          out = record {
            decision = evaluate_prepared engine policies p;
            entities_loaded = length entities;
          };
          asks = asks;
          answers =
              check-of_prepared req entities p (wrapping-eq-ok "preload tuple" (loader req) loaded)
                (wrapping-eq-ok "prepare tuple" (prepare req entities) prepared);
          decides = refl;
        },
        preload-DecidesEach ts rest later,
      )
