-- ===== src/Seed/Program/Running.antt =====
-- internal/seed/generator.go: a program of the generator carried out with a number source and a
-- sink. math/rand/v2 is a parameter.
pub mod Soundness
pub mod Progress
use test_permission.Base.{ℕ, zero, suc, ◌<◌, ◌≡◌, refl, String, List, [], ◌∷◌, ◌++◌}
use test_permission.Base.Fallible.{Fallible, ok, err, fault, ◌>>=◌}
use test_permission.Seed.Types.{Fact, Sink}
use test_permission.Seed.Program.{
  Call, begin_phase, accept, end_phase, Program, done, fail, draw, call,
}

-- math/rand/v2: `rand.New(rand.NewPCG(seed, tag))` and `(*Rand).IntN`, which panics on 0.
pub record Random : Type 1 where
  pub State : Type 0
  pub new : ℕ → ℕ → State
  pub int_n : ℕ → State → ℕ × State

-- `IntN(n)` is documented to return a number in [0, n).
abbrev pub InRange : Random → Type 0
InRange R = (n : ℕ) (s : R.State) → 0 < n → (R.int_n n s).0 < n

-- What a sink does with a call, with a list of them, and with a program.
unfoldable pub serve : {S : Type 0} → Sink S → Call → S → Fallible S
serve sink (begin_phase name total) x = sink.begin_phase name total x
serve sink (accept fact) x = sink.accept fact x
serve sink (end_phase name) x = sink.end_phase name x

unfoldable pub feed : {S : Type 0} → Sink S → List Call → S → Fallible S
feed sink [] x = ok x
feed sink (c ∷ cs) x = do y ← serve sink c x; feed sink cs y

module _ (R : Random) {A : Type 0} where
  unfoldable pub exec : {S : Type 0} → Sink S → Program A → R.State → S → Fallible (A × R.State × S)
  exec sink (done a) s x = ok (a, s, x)
  exec sink (fail e) s x = err e
  exec sink (draw zero k) s x = err (fault "invalid argument to IntN")
  exec sink (draw (suc n) k) s x = let (i, rest) = R.int_n (suc n) s in exec sink (k i) rest x
  exec sink (call c p) s x = do y ← serve sink c x; exec sink p s y

  -- The calls that a program makes of a sink that accepts them all, and how it ends.
  unfoldable pub stream : Program A → R.State → List Call × Fallible (A × R.State)
  stream (done a) s = ([], ok (a, s))
  stream (fail e) s = ([], err e)
  stream (draw zero k) s = ([], err (fault "invalid argument to IntN"))
  stream (draw (suc n) k) s = let (i, rest) = R.int_n (suc n) s in stream (k i) rest
  stream (call c p) s = let (cs, end) = stream p s in (c ∷ cs, end)

-- The records among some calls.
unfoldable pub facts_of : List Call → List Fact
facts_of [] = []
facts_of (begin_phase name total ∷ cs) = facts_of cs
facts_of (accept fact ∷ cs) = fact ∷ facts_of cs
facts_of (end_phase name ∷ cs) = facts_of cs
