-- ===== src/Seed/Program.antt =====
-- internal/seed/generator.go: what a generating function does is draw numbers from its
-- math/rand/v2 source and call its sink. A run of one is a value, and `exec` carries it out.
pub mod Laws
pub mod Picks
pub mod Running
use test_permission.Base.{
  true, false, ℕ, zero, suc, String, List, [], ◌∷◌, ltb, nat_eq, length, any,
}
use test_permission.Base.Fallible.{Error, fault}
use test_permission.Seed.Types.{Fact}

-- The calls of a sink.
pub data Call : Type 0 where
  begin_phase : String → ℕ → Call
  accept : Fact → Call
  end_phase : String → Call

-- `fail` is an error of the generating code's own, a panic, or a loop that has run out of its fuel.
pub data Program (A : Type 0) : Type 0 where
  done : A → Program A
  fail : Error → Program A
  draw : ℕ → (ℕ → Program A) → Program A
  call : Call → Program A → Program A

infixl 5 ◌>>=◌ ◌>>◌
abbrev pub ◌>>=◌ : {A B : Type 0} → Program A → (A → Program B) → Program B
done a >>= f = f a
fail e >>= f = fail e
draw n k >>= f = draw n (λ i. k i >>= f)
call c p >>= f = call c (p >>= f)

abbrev pub ◌>>◌ : {B : Type 0} → Program (Unit {0}) → Program B → Program B
p >> q = p >>= λ _. q

-- `r.IntN(n)`, and one call of the sink's record methods.
abbrev pub int_n : ℕ → Program ℕ
int_n n = draw n done

abbrev pub emit : Fact → Program (Unit {0})
emit f = call (accept f) (done tt)

-- `xs[i]`
unfoldable pub at : {A : Type 0} → List A → ℕ → Program A
at [] i = fail (fault "index out of range")
at (x ∷ xs) zero = done x
at (x ∷ xs) (suc i) = at xs i

-- `xs[r.IntN(len(xs))]`
unfoldable pub choose : {A : Type 0} → List A → Program A
choose xs = do i ← int_n (length xs); at xs i

-- `for _, x := range xs`, and `for i := start; i < start+count; i++`, over what the loop updates.
module _ {State : Type 0} where
  unfoldable pub fold_each :
      {A : Type 0} → (A → State → Program State) → List A → State → Program State
  fold_each body [] acc = done acc
  fold_each body (x ∷ xs) acc = body x acc >>= fold_each body xs

  unfoldable pub fold_range : (ℕ → State → Program State) → ℕ → ℕ → State → Program State
  fold_range body start zero acc = done acc
  fold_range body start (suc count) acc = body start acc >>= fold_range body (suc start) count

unfoldable pub for_each : {A : Type 0} → (A → Program (Unit {0})) → List A → Program (Unit {0})
for_each body xs = fold_each (λ x _. body x) xs tt

unfoldable pub for_range : (ℕ → Program (Unit {0})) → ℕ → Program (Unit {0})
for_range body count = fold_range (λ i _. body i) 0 count tt

abbrev pub exhausted : Error
exhausted = fault "the loop has run out of fuel"

-- `for len(seen) < n { i := pick; if _, dup := seen[i]; dup { continue }; seen[i] = …; body }`,
-- the loop by which the generator draws distinct things.
module _ {State : Type 0} (pick : Program ℕ) (body : ℕ → State → Program State) (n : ℕ) where
  unfoldable pub draw_distinct : ℕ → List ℕ → State → Program State
  draw_distinct zero seen acc = elim (ltb (length seen) n) [
    | true ↦ fail exhausted
    | false ↦ done acc
  ]
  draw_distinct (suc fuel) seen acc = elim (ltb (length seen) n) [
    | true ↦ do
      i ← pick
      elim (any (nat_eq i) seen) [
        | true ↦ draw_distinct fuel seen acc
        | false ↦ body i acc >>= draw_distinct fuel (i ∷ seen)
      ]
    | false ↦ done acc
  ]
