-- ===== src/Shootout/Ranking.antt =====
-- python/bench/shootout.py: lemmas on the order of the rows.
use mooncake_kvcache_tiered.Base.{
  ℕ, ◌*◌, ◌≤◌, ◌<◌, ◌≡◌, ◌⊎◌, inl, inr, true, false, List, [], ◌∷◌, map, if◌then◌else◌, ltb, leb,
  ◌==◌, Bool-cases, arith, All,
}
use mathlib.Core.List.{Perm}
use mathlib.Core.List.Perm
use mooncake_kvcache_tiered.Shootout.{Row, place_of, precedes, insert_row, sort_rows}

-- The first row has the higher rate, or the same and not the smaller name.
abbrev pub NotWorse : Row → Row → Type 0
NotWorse a b =
    (b.hit_rate.num * a.hit_rate.den < a.hit_rate.num * b.hit_rate.den)
    ⊎ ((a.hit_rate.num * b.hit_rate.den ≡ b.hit_rate.num * a.hit_rate.den)
        × (place_of b.policy ≤ place_of a.policy))

-- No row is worse than the next one.
abbrev pub IsRanked : List Row → Type 0
IsRanked [] = Unit {0}
IsRanked (a ∷ []) = Unit {0}
IsRanked (a ∷ b ∷ rows) = NotWorse a b × IsRanked (b ∷ rows)

higher :
    (x y p q : ℕ)
    → (if ltb y x then true else if x == y then leb q p else false) ≡ true
    → (y < x) ⊎ ((x ≡ y) × (q ≤ p))
higher x y p q h = ground arith

not_higher :
    (x y p q : ℕ)
    → (if ltb y x then true else if x == y then leb q p else false) ≡ false
    → (x < y) ⊎ ((y ≡ x) × (p ≤ q))
not_higher x y p q h = ground arith

precedes-NotWorse : (a b : Row) → precedes a b ≡ true → NotWorse a b
unfolding precedes
precedes-NotWorse a b h = higher _ _ (place_of a.policy) (place_of b.policy) h

not_precedes-NotWorse : (a b : Row) → precedes a b ≡ false → NotWorse b a
unfolding precedes
not_precedes-NotWorse a b h = not_higher _ _ (place_of a.policy) (place_of b.policy) h

-- A row that is inserted below another.
IsRanked-below :
    (b a : Row) (rows : List Row)
    → NotWorse b a
    → IsRanked (b ∷ rows)
    → IsRanked (b ∷ insert_row a rows)
unfolding insert_row
IsRanked-below b a [] h g = (h, tt)
IsRanked-below b a (c ∷ rows) h g = elim (Bool-cases (precedes a c)) [
  | inl e ↦ rw e (h, (precedes-NotWorse a c e, g.1))
  | inr e ↦ rw e (g.0, IsRanked-below c a rows (not_precedes-NotWorse a c e) g.1)
]

IsRanked-insert_row : (a : Row) (rows : List Row) → IsRanked rows → IsRanked (insert_row a rows)
unfolding insert_row
IsRanked-insert_row a [] h = tt
IsRanked-insert_row a (b ∷ rows) h = elim (Bool-cases (precedes a b)) [
  | inl e ↦ rw e (precedes-NotWorse a b e, h)
  | inr e ↦ rw e (IsRanked-below b a rows (not_precedes-NotWorse a b e) h)
]

pub sort_rows-IsRanked : (rows : List Row) → IsRanked (sort_rows rows)
unfolding sort_rows
sort_rows-IsRanked [] = tt
sort_rows-IsRanked (a ∷ rows) = IsRanked-insert_row a (sort_rows rows) (sort_rows-IsRanked rows)

Perm-insert_row :
    (a : Row) (rows : List Row)
    → Perm (map (λ r. r.policy) (insert_row a rows)) (a.policy ∷ map (λ r. r.policy) rows)
unfolding insert_row
Perm-insert_row a [] = Perm.refl (a.policy ∷ [])
Perm-insert_row a (b ∷ rows) = elim (Bool-cases (precedes a b)) [
  | inl e ↦ rw e (Perm.refl _)
  | inr e ↦ rw e (
      Perm.trans (Perm.cons b.policy (Perm-insert_row a rows))
        (Perm.swap a.policy b.policy (map (λ r. r.policy) rows)))
]

pub Perm-sort_rows :
    (rows : List Row) → Perm (map (λ r. r.policy) (sort_rows rows)) (map (λ r. r.policy) rows)
unfolding sort_rows
Perm-sort_rows [] = Perm.refl []
Perm-sort_rows (a ∷ rows) =
    Perm.trans (Perm-insert_row a (sort_rows rows)) (Perm.cons a.policy (Perm-sort_rows rows))

All-insert_row :
    (P : Row → Type 0) (a : Row) (rows : List Row) → P a → All P rows → All P (insert_row a rows)
unfolding insert_row
All-insert_row P a [] h g = (h, tt)
All-insert_row P a (b ∷ rows) h g = elim (Bool-cases (precedes a b)) [
  | inl e ↦ rw e (h, g)
  | inr e ↦ rw e (g.0, All-insert_row P a rows h g.1)
]

pub All-sort_rows : (P : Row → Type 0) (rows : List Row) → All P rows → All P (sort_rows rows)
unfolding sort_rows
All-sort_rows P [] h = tt
All-sort_rows P (a ∷ rows) h = All-insert_row P a (sort_rows rows) h.0 (All-sort_rows P rows h.1)
