-- ===== src/Seed/Program/Running/Soundness.antt =====
-- What a run of a generator's program calls and returns, for every sink and number source.
use test_permission.Base.{zero, suc, ◌≡◌, refl, sym, subst, List, [], ◌∷◌, All, Memᴰ, arith}
use test_permission.Base.Fallible.{Fallible, ok, err, ◌>>=◌}
use test_permission.Seed.Types.{Fact, Sink}
use test_permission.Seed.Program.{
  Call, begin_phase, accept, end_phase, Program, done, fail, draw, call, exhausted,
}
use test_permission.Seed.Program.Laws.{Emits}
use test_permission.Seed.Program.Running.{Random, InRange, serve, feed, exec, stream, facts_of}

-- What the sink is left with, once the program has ended.
abbrev pub finish : {A S T : Type 0} → Fallible (A × T) → S → Fallible (A × T × S)
finish (ok (a, rest)) x = ok (a, rest, x)
finish (err e) x = err e

-- The bind that both sides begin with.
after-serve :
    {S T : Type 0} {f : S → Fallible T} (h : S → Fallible S) (k : S → Fallible T)
    (step : Fallible S)
    → ((y : S) → f y ≡ (h y >>= k))
    → (step >>= f) ≡ ((step >>= h) >>= k)
after-serve h k (err e) same = refl
after-serve h k (ok y) same = same y

module _ (R : Random) {A S : Type 0} (sink : Sink S) where
  pub exec-stream :
      (p : Program A) (s : R.State) (x : S)
      → exec R sink p s x ≡ (feed sink (stream R p s).0 x >>= finish (stream R p s).1)
  unfolding exec stream feed
  exec-stream (done a) s x = refl
  exec-stream (fail e) s x = refl
  exec-stream (draw zero k) s x = refl
  exec-stream (draw (suc n) k) s x = exec-stream (k (R.int_n (suc n) s).0) (R.int_n (suc n) s).1 x
  exec-stream (call c p) s x =
      after-serve _ (finish (stream R p s).1) (serve sink c x) (exec-stream p s)

-- How a run that starts well ends.
abbrev pub Ends : {A T : Type 0} → (A → Type 0) → Fallible (A × T) → Type 0
Ends Q (ok (a, rest)) = Q a
Ends Q (err e) = e ≡ exhausted

module _ (R : Random) (in_range : InRange R) (P : Call → Type 0) {A : Type 0} (Q : A → Type 0) where
  pub Emits-stream :
      (p : Program A) (s : R.State) → Emits P Q p → All P (stream R p s).0 × Ends Q (stream R p s).1
  unfolding Emits stream
  Emits-stream (done a) s h = (tt, h)
  Emits-stream (fail e) s h = (tt, h)
  Emits-stream (draw zero k) s (positive, h) = absurd (omega (arith, positive))
  Emits-stream (draw (suc n) k) s (positive, h) =
      Emits-stream (k (R.int_n (suc n) s).0) (R.int_n (suc n) s).1
        (h (R.int_n (suc n) s).0 (in_range (suc n) s positive))
  Emits-stream (call c p) s (x, h) = let (calls, end) = Emits-stream p s h in ((x, calls), end)

-- The records of calls that satisfy a predicate.
pub mem-facts_of :
    (P : Call → Type 0) (cs : List Call) (fact : Fact)
    → All P cs
    → Memᴰ fact (facts_of cs)
    → P (accept fact)
unfolding facts_of
mem-facts_of P [] fact h m = elim m [ ]
mem-facts_of P (begin_phase name total ∷ cs) fact (x, h) m = mem-facts_of P cs fact h m
mem-facts_of P (accept other ∷ cs) fact (x, h) (Memᴰ.head e) = subst (λ f. P (accept f)) (sym e) x
mem-facts_of P (accept other ∷ cs) fact (x, h) (Memᴰ.tail m) = mem-facts_of P cs fact h m
mem-facts_of P (end_phase name ∷ cs) fact (x, h) m = mem-facts_of P cs fact h m
