-- ===== src/Seed/Program/Picks.antt =====
-- Reading an element of a slice, by an index in range or by a drawn one.
use test_permission.Base.{
  ℕ, zero, suc, ◌<◌, ◌≡◌, refl, sym, subst, some, List, [], ◌∷◌, length, get_elem?, All, Memᴰ,
  arith,
}
use test_permission.Seed.Program.{Call, Program, done, fail, draw, call, ◌>>=◌, at, choose, int_n}
use test_permission.Seed.Program.Laws.{Emits, Emits-bind, Emits-int_n}

module _ {A : Type 0} where
  pub mem-get_elem? : (xs : List A) (i : ℕ) {x : A} → get_elem? xs i ≡ some x → Memᴰ x xs
  mem-get_elem? [] i e = cc
  mem-get_elem? (y ∷ ys) zero e = Memᴰ.head (cc e)
  mem-get_elem? (y ∷ ys) (suc i) e = Memᴰ.tail (mem-get_elem? ys i e)

  pub All-mem : (P : A → Type 0) {x : A} (xs : List A) → All P xs → Memᴰ x xs → P x
  All-mem P [] h m = elim m [ ]
  All-mem P (y ∷ ys) (h, hs) (Memᴰ.head e) = subst P (sym e) h
  All-mem P (y ∷ ys) (h, hs) (Memᴰ.tail m) = All-mem P ys hs m

  pub All-of_mem : {P : A → Type 0} (xs : List A) → ((x : A) → Memᴰ x xs → P x) → All P xs
  All-of_mem [] h = tt
  All-of_mem (x ∷ xs) h = (h x (Memᴰ.head refl), All-of_mem xs (λ y m. h y (Memᴰ.tail m)))

  pub All-map_mem : {P Q : A → Type 0} (xs : List A) → All P xs → ((x : A) → P x → Q x) → All Q xs
  All-map_mem [] h f = tt
  All-map_mem (x ∷ xs) (h, hs) f = (f x h, All-map_mem xs hs f)

module _ (P : Call → Type 0) {A : Type 0} (Q : A → Type 0) where
  pub Emits-get :
      (xs : List A) (i : ℕ)
      → i < length xs
      → ((x : A) → get_elem? xs i ≡ some x → Q x)
      → Emits P Q (at xs i)
  unfolding Emits at
  Emits-get [] i b h = absurd (omega (arith, b))
  Emits-get (x ∷ xs) zero b h = h x refl
  Emits-get (x ∷ xs) (suc i) b h = Emits-get xs i (omega (arith, b)) h

  pub Emits-pick :
      (xs : List A) → 0 < length xs → ((x : A) → Memᴰ x xs → Q x) → Emits P Q (choose xs)
  unfolding choose
  Emits-pick xs b h =
      Emits-bind P (λ i. i < length xs) Q (int_n (length xs)) (at xs) (Emits-int_n P (length xs) b)
        (λ i c. Emits-get xs i c (λ x e. h x (mem-get_elem? xs i e)))

-- The same, before the rest of a program.
module _ (P : Call → Type 0) {A B : Type 0} (W : B → Type 0) where
  pub Emits-get_then :
      (xs : List A) (i : ℕ) (f : A → Program B)
      → i < length xs
      → ((x : A) → get_elem? xs i ≡ some x → Emits P W (f x))
      → Emits P W (at xs i >>= f)
  Emits-get_then xs i f b h =
      Emits-bind P (λ x. get_elem? xs i ≡ some x) W (at xs i) f
        (Emits-get P (λ x. get_elem? xs i ≡ some x) xs i b (λ x e. e)) h

  pub Emits-pick_then :
      (xs : List A) (f : A → Program B)
      → 0 < length xs
      → ((x : A) → Memᴰ x xs → Emits P W (f x))
      → Emits P W (choose xs >>= f)
  Emits-pick_then xs f b h =
      Emits-bind P (λ x. Memᴰ x xs) W (choose xs) f (Emits-pick P (λ x. Memᴰ x xs) xs b (λ x m. m))
        h

pub Emits-int_n_then :
    (P : Call → Type 0) {B : Type 0} (W : B → Type 0) (n : ℕ) (f : ℕ → Program B)
    → 0 < n
    → ((i : ℕ) → i < n → Emits P W (f i))
    → Emits P W (int_n n >>= f)
Emits-int_n_then P W n f b h = Emits-bind P (λ i. i < n) W (int_n n) f (Emits-int_n P n b) h

-- What is said of the calls may be weakened.
pub Emits-calls :
    (P P' : Call → Type 0)
    → ((c : Call) → P c → P' c)
    → {A : Type 0} (Q : A → Type 0) (p : Program A) → Emits P Q p
    → Emits P' Q p
unfolding Emits
Emits-calls P P' weaken Q (done a) h = h
Emits-calls P P' weaken Q (fail e) h = h
Emits-calls P P' weaken Q (draw n k) (b, h) = (b, λ i c. Emits-calls P P' weaken Q (k i) (h i c))
Emits-calls P P' weaken Q (call c p) (x, h) = (weaken c x, Emits-calls P P' weaken Q p h)
