-- ===== src/Framework/Order.antt =====
-- python/bench/framework.py: lemmas on sorted samples.
use mooncake_kvcache_tiered.Base.{
  at_index, ok, ℕ, zero, suc, ◌+◌, ◌≤◌, ◌<◌, ◌≡◌, refl, subst, Option, none, some, List, [], ◌∷◌,
  arith, if◌then◌else◌, leb, ltb, length, get_elem?, Bool-cases, inl, inr,
}
use mooncake_kvcache_tiered.Framework.{insert, sorted}

-- How many samples are at most `v`, and how many are below it.
abbrev pub count_le : ℕ → List ℕ → ℕ
count_le v [] = 0
count_le v (x ∷ xs) = (if leb x v then 1 else 0) + count_le v xs

abbrev pub count_lt : ℕ → List ℕ → ℕ
count_lt v [] = 0
count_lt v (x ∷ xs) = (if ltb x v then 1 else 0) + count_lt v xs

abbrev or_zero : Option ℕ → ℕ
or_zero none = 0
or_zero (some v) = v

-- No element is below `x`.
abbrev AllGe : ℕ → List ℕ → Type 0
AllGe x [] = Unit {0}
AllGe x (y ∷ ys) = (x ≤ y) × AllGe x ys

abbrev pub Sorted : List ℕ → Type 0
Sorted [] = Unit {0}
Sorted (x ∷ xs) = AllGe x xs × Sorted xs

count_le-insert : (v x : ℕ) (ys : List ℕ) → count_le v (insert x ys) ≡ count_le v (x ∷ ys)
unfolding insert
count_le-insert v x [] = refl
count_le-insert v x (y ∷ ys) = ground (arith, count_le-insert v x ys)

count_lt-insert : (v x : ℕ) (ys : List ℕ) → count_lt v (insert x ys) ≡ count_lt v (x ∷ ys)
unfolding insert
count_lt-insert v x [] = refl
count_lt-insert v x (y ∷ ys) = ground (arith, count_lt-insert v x ys)

pub count_le-sorted : (v : ℕ) (xs : List ℕ) → count_le v (sorted xs) ≡ count_le v xs
unfolding sorted
count_le-sorted v [] = refl
count_le-sorted v (x ∷ xs) = omega (arith, count_le-insert v x (sorted xs), count_le-sorted v xs)

pub count_lt-sorted : (v : ℕ) (xs : List ℕ) → count_lt v (sorted xs) ≡ count_lt v xs
unfolding sorted
count_lt-sorted v [] = refl
count_lt-sorted v (x ∷ xs) = omega (arith, count_lt-insert v x (sorted xs), count_lt-sorted v xs)

length-insert : (x : ℕ) (ys : List ℕ) → length (insert x ys) ≡ suc (length ys)
unfolding insert
length-insert x [] = refl
length-insert x (y ∷ ys) = ground (arith, length-insert x ys)

pub length-sorted : (xs : List ℕ) → length (sorted xs) ≡ length xs
unfolding sorted
length-sorted [] = refl
length-sorted (x ∷ xs) = omega (arith, length-insert x (sorted xs), length-sorted xs)

AllGe-trans : (x y : ℕ) (ys : List ℕ) → x ≤ y → AllGe y ys → AllGe x ys
AllGe-trans x y [] h g = tt
AllGe-trans x y (z ∷ ys) h g = (omega (arith, g.0), AllGe-trans x y ys h g.1)

AllGe-insert : (z x : ℕ) (ys : List ℕ) → z ≤ x → AllGe z ys → AllGe z (insert x ys)
unfolding insert
AllGe-insert z x [] h g = (h, tt)
AllGe-insert z x (y ∷ ys) h g = elim (Bool-cases (leb x y)) [
  | inl e ↦ rw e (h, (g.0, g.1))
  | inr e ↦ rw e (g.0, AllGe-insert z x ys h g.1)
]

Sorted-insert : (x : ℕ) (ys : List ℕ) → Sorted ys → Sorted (insert x ys)
unfolding insert
Sorted-insert x [] h = (tt, tt)
Sorted-insert x (y ∷ ys) h = elim (Bool-cases (leb x y)) [
  | inl e ↦ rw e ((ground arith, AllGe-trans x y ys (ground arith) h.0), (h.0, h.1))
  | inr e ↦ rw e (AllGe-insert y x ys (ground arith) h.0, Sorted-insert x ys h.1)
]

pub sorted-Sorted : (xs : List ℕ) → Sorted (sorted xs)
unfolding sorted
sorted-Sorted [] = tt
sorted-Sorted (x ∷ xs) = Sorted-insert x (sorted xs) (sorted-Sorted xs)

count_lt-AllGe : (x : ℕ) (ys : List ℕ) → AllGe x ys → count_lt x ys ≡ 0
count_lt-AllGe x [] h = refl
count_lt-AllGe x (y ∷ ys) h = ground (arith, h.0, count_lt-AllGe x ys h.1)

-- In a sorted list at most `i` elements are below the one at place `i`, and more than `i` are not
-- above it.
pub get_elem?-Sorted :
    (xs : List ℕ) (i : ℕ)
    → Sorted xs
    → i < length xs
    → (v : ℕ) × (get_elem? xs i ≡ some v)
      × (count_lt v xs ≤ i)
      × (i < count_le v xs)
      × ((x : ℕ) → AllGe x xs → x ≤ v)
get_elem?-Sorted [] i s h = absurd (omega arith)
get_elem?-Sorted (x ∷ xs) zero s h =
    (x, refl, ground (arith, count_lt-AllGe x xs s.0), ground arith, λ y g. g.0)
get_elem?-Sorted (x ∷ xs) (suc i) s h =
    let (v, e, below, above, least) = get_elem?-Sorted xs i s.1 (omega arith) in
    (v, e, ground arith, ground (arith, least x s.0), λ y g. least y g.1)

pub count_le-count_lt : (v w : ℕ) (xs : List ℕ) → v < w → count_le v xs ≤ count_lt w xs
count_le-count_lt v w [] h = omega arith
count_le-count_lt v w (x ∷ xs) h = ground (arith, count_le-count_lt v w xs h)

AllGe-get_elem? : (x : ℕ) (xs : List ℕ) (i v : ℕ) → AllGe x xs → get_elem? xs i ≡ some v → x ≤ v
AllGe-get_elem? x [] i v h e = absurd cc
AllGe-get_elem? x (y ∷ xs) zero v h e = subst (λ o. x ≤ or_zero o) e h.0
AllGe-get_elem? x (y ∷ xs) (suc i) v h e = AllGe-get_elem? x xs i v h.1 e

-- A sorted list is monotone in the place.
pub get_elem?-mono :
    (xs : List ℕ) (i j v w : ℕ)
    → Sorted xs
    → i ≤ j
    → get_elem? xs i ≡ some v
    → get_elem? xs j ≡ some w
    → v ≤ w
get_elem?-mono [] i j v w s h e f = absurd cc
get_elem?-mono (x ∷ xs) zero zero v w s h e f =
    subst (λ o. v ≤ or_zero o) f (subst (λ o. or_zero o ≤ x) e (omega arith))
get_elem?-mono (x ∷ xs) zero (suc j) v w s h e f =
    subst (λ o. or_zero o ≤ w) e (AllGe-get_elem? x xs j w s.0 f)
get_elem?-mono (x ∷ xs) (suc i) zero v w s h e f = absurd (omega arith)
get_elem?-mono (x ∷ xs) (suc i) (suc j) v w s h e f =
    get_elem?-mono xs i j v w s.1 (omega arith) e f

-- The value at a place of the sorted values.
pub at_index-sorted :
    (xs : List ℕ) (i : ℕ)
    → i < length xs
    → (v : ℕ) × (at_index (sorted xs) i ≡ ok v)
      × (get_elem? (sorted xs) i ≡ some v)
      × (count_lt v xs ≤ i)
      × (i < count_le v xs)
at_index-sorted xs i h =
    let (v, e, below, above, least) =
      get_elem?-Sorted (sorted xs) i (sorted-Sorted xs) (omega (arith, length-sorted xs)) in
    (
      v,
      rw (at_index, e) refl,
      e,
      omega (arith, below, count_lt-sorted v xs),
      omega (arith, above, count_le-sorted v xs),
    )
