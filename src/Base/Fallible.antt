-- ===== src/Base/Fallible.antt =====
-- A Go result with an error, `(T, error)`: the value, or the error with the value unused.
use Prim.Native.String.{String}
use mathlib.Core.Path.{◌≡◌, refl}
use mathlib.Core.Logic.{◌⊎◌, inl, inr}
use mathlib.Core.Bool.{Bool, true, false}
use mathlib.Core.List.{List, [], ◌∷◌}

-- `bad_request` wraps `ErrBadRequest` directly; `wrap` is `fmt.Errorf("…: %w", err)`; `fault` is
-- any other error. The text is the message.
pub data Error : Type 0 where
  bad_request : String → Error
  wrap : String → Error → Error
  fault : String → Error

pub data Fallible {ℓ} (A : Type ℓ) : Type ℓ where
  ok : A → Fallible A
  err : Error → Fallible A

-- The next call, unless this one failed: `if err != nil { return …, err }`.
infixl 5 ◌>>=◌
abbrev pub ◌>>=◌ {ℓ κ} :
    {Value : Type ℓ} {Next : Type κ} → Fallible Value → (Value → Fallible Next) → Fallible Next
err failure >>= next = err failure
ok value >>= next = next value

-- `if err != nil { return …, fmt.Errorf("text: %w", err) }`
abbrev pub wrapping {ℓ} : {A : Type ℓ} → String → Fallible A → Fallible A
wrapping text (ok a) = ok a
wrapping text (err e) = err (wrap text e)

abbrev pub is_ok {ℓ} : {A : Type ℓ} → Fallible A → Bool
is_ok (ok a) = true
is_ok (err e) = false

-- Inversion of a successful bind, for proofs where the parts stay shut.
pub >>=-eq-ok {ℓ κ} :
    {Value : Type ℓ} {Next : Type κ} (m : Fallible Value) (next : Value → Fallible Next)
    {result : Next}
    → (m >>= next) ≡ ok result
    → (value : Value) × (m ≡ ok value) × (next value ≡ ok result)
>>=-eq-ok (err failure) next failed = cc
>>=-eq-ok (ok value) next same = (value, refl, same)

pub wrapping-eq-ok {ℓ} :
    {A : Type ℓ} (text : String) (m : Fallible A) {a : A} → wrapping text m ≡ ok a → m ≡ ok a
wrapping-eq-ok text (ok b) h = h
wrapping-eq-ok text (err e) h = cc

pub Fallible-cases {ℓ} :
    {A : Type ℓ} (m : Fallible A) → ((a : A) × (m ≡ ok a)) ⊎ ((e : Error) × (m ≡ err e))
Fallible-cases (ok a) = inl (a, refl)
Fallible-cases (err e) = inr (e, refl)

-- A step for each element of a list, left to right, up to the first error.
module _ {ℓ κ} {A : Type ℓ} {B : Type κ} (f : A → Fallible B) where
  unfoldable pub traverse : List A → Fallible (List B)
  traverse [] = ok []
  traverse (x ∷ xs) = do y ← f x; ys ← traverse xs; ok (y ∷ ys)
