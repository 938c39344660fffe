-- ===== src/Base/Lists.antt =====
-- Lists measured by native numbers, under the library's names.
use Prim.Native.Nat.{ℕ, zero, suc, ◌+◌, ◌*◌, min}
use mathlib.Core.Path.{◌≡◌, refl, ap}
use mathlib.Core.Option.{Option, none, some}
use mooncake_kvcache_tiered.Base.Tests.{ltb, if◌then◌else◌, Key, count}
use mathlib.Core.List.{List, [], ◌∷◌, ◌++◌, map}
use native.Mathlib.Omega.{arith}

module _ {ℓ} {A : Type ℓ} where
  abbrev pub length : List A → ℕ
  length [] = 0
  length (x ∷ xs) = suc (length xs)

  -- The last `n` elements.
  unfoldable pub newest : ℕ → List A → List A
  newest n [] = []
  newest n (x ∷ xs) = let rest = newest n xs in if ltb n (length (x ∷ xs)) then rest else x ∷ xs

  abbrev pub take : ℕ → List A → List A
  take zero xs = []
  take (suc n) [] = []
  take (suc n) (x ∷ xs) = x ∷ take n xs

  pub length-take : (n : ℕ) (xs : List A) → length (take n xs) ≡ min n (length xs)
  length-take zero xs = omega arith
  length-take (suc n) [] = omega arith
  length-take (suc n) (x ∷ xs) = omega (arith, length-take n xs)

  abbrev pub drop : ℕ → List A → List A
  drop zero xs = xs
  drop (suc n) [] = []
  drop (suc n) (x ∷ xs) = drop n xs

  abbrev pub get_elem? : List A → ℕ → Option A
  get_elem? [] i = none
  get_elem? (x ∷ xs) zero = some x
  get_elem? (x ∷ xs) (suc i) = get_elem? xs i

  pub length-append : (xs ys : List A) → length (xs ++ ys) ≡ length xs + length ys
  length-append [] ys = omega arith
  length-append (x ∷ xs) ys = omega (arith, length-append xs ys)

module _ {ℓ κ} {A : Type ℓ} {B : Type κ} where
  pub length-map : (xs : List A) (f : A → B) → length (map f xs) ≡ length xs
  length-map [] f = refl
  length-map (x ∷ xs) f = ap suc (length-map xs f)

module _ {K : Type 0} ⦃key : Key K⦄ where
  pub count-append : (j : K) (xs ys : List K) → count j (xs ++ ys) ≡ count j xs + count j ys
  count-append j [] ys = omega arith
  count-append j (x ∷ xs) ys = omega (arith, count-append j xs ys)

abbrev pub total {ℓ} : {A : Type ℓ} → (A → ℕ) → List A → ℕ
total f [] = 0
total f (x ∷ xs) = f x + total f xs

pub total-append {ℓ} :
    {A : Type ℓ} (f : A → ℕ) (xs ys : List A) → total f (xs ++ ys) ≡ total f xs + total f ys
total-append f [] ys = omega arith
total-append f (x ∷ xs) ys = omega (arith, total-append f xs ys)

module _ {ℓ} {A : Type ℓ} where
  pub total-map {κ} :
      {B : Type κ} (g : A → ℕ) (f : B → A) (xs : List B)
      → total g (map f xs) ≡ total (λ x. g (f x)) xs
  total-map g f [] = refl
  total-map g f (x ∷ xs) = omega (arith, total-map g f xs)

  pub total-put :
      (f : A → ℕ) (xs : List A) (x y : A) (ys : List A)
      → total f (xs ++ y ∷ ys) + f x ≡ total f (xs ++ x ∷ ys) + f y
  total-put f xs x y ys = omega (arith, total-append f xs (x ∷ ys), total-append f xs (y ∷ ys))

  pub total-constant :
      (f : A → ℕ) (n : ℕ) (xs : List A) → ((x : A) → f x ≡ n) → total f xs ≡ length xs * n
  total-constant f n [] h = omega arith
  total-constant f n (x ∷ xs) h = grind (arith, h x, total-constant f n xs h)

  abbrev pub All {κ} : (A → Type κ) → List A → Type κ
  All P [] = Unit
  All P (x ∷ xs) = P x × All P xs

  pub All-append {κ} : (P : A → Type κ) (xs ys : List A) → All P xs → All P ys → All P (xs ++ ys)
  All-append P [] ys h g = g
  All-append P (x ∷ xs) ys h g = (h.0, All-append P xs ys h.1 g)

  pub All-at {κ} : (P : A → Type κ) (xs : List A) (x : A) (ys : List A) → All P (xs ++ x ∷ ys) → P x
  All-at P [] x ys h = h.0
  All-at P (z ∷ xs) x ys h = All-at P xs x ys h.1

  pub All-put {κ} :
      (P : A → Type κ) (xs : List A) (x y : A) (ys : List A)
      → (P x → P y)
      → All P (xs ++ x ∷ ys)
      → All P (xs ++ y ∷ ys)
  All-put P [] x y ys f h = (f h.0, h.1)
  All-put P (z ∷ xs) x y ys f h = (h.0, All-put P xs x y ys f h.1)
