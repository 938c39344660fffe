-- ===== src/Base/Perms.antt =====
-- Permutations and tests on lists.
use mooncake_kvcache_tiered.Base.Lists.{length}
use Prim.Native.Nat.{suc}
use mathlib.Core.Path.{◌≡◌, refl, sym, ap, ◌∙◌}
use mathlib.Core.Bool.{Bool, true, false, ◌&&◌, Bool-set}
use mathlib.Core.List.{List, [], ◌∷◌, Perm, Permᴰ}
use mathlib.Core.Logic.{∥∥₁_elim}
use mathlib.Core.HLevel.{hedberg}
use native.Mathlib.Decide.{ℕ_discrete}

and_swap : (a b c : Bool) → (a && (b && c)) ≡ (b && (a && c))
and_swap true true c = refl
and_swap true false c = refl
and_swap false true c = refl
and_swap false false c = refl

module _ {A : Type 0} where
  abbrev pub all : (A → Bool) → List A → Bool
  all p [] = true
  all p (x ∷ xs) = p x && all p xs

  length-Permᴰ : {xs ys : List A} → Permᴰ xs ys → length xs ≡ length ys
  length-Permᴰ Permᴰ.nil = refl
  length-Permᴰ (Permᴰ.cons e d) = ap suc (length-Permᴰ d)
  length-Permᴰ (Permᴰ.swap e f) = refl
  length-Permᴰ (Permᴰ.trans d e) = length-Permᴰ d ∙ length-Permᴰ e

  pub length-Perm : {xs ys : List A} → Perm xs ys → length xs ≡ length ys
  length-Perm {xs} {ys} p = ∥∥₁_elim p (hedberg ℕ_discrete (length xs) (length ys)) length-Permᴰ

  all-Permᴰ : (p : A → Bool) {xs ys : List A} → Permᴰ xs ys → all p xs ≡ all p ys
  all-Permᴰ p Permᴰ.nil = refl
  all-Permᴰ p (Permᴰ.cons e d) = rw (e, all-Permᴰ p d)
  all-Permᴰ p (Permᴰ.swap {a} {b} {l} e f) = rw (sym e, sym f) (and_swap (p a) (p b) (all p l))
  all-Permᴰ p (Permᴰ.trans d e) = all-Permᴰ p d ∙ all-Permᴰ p e

  pub all-Perm : (p : A → Bool) {xs ys : List A} → Perm xs ys → all p xs ≡ all p ys
  all-Perm p {xs} {ys} e = ∥∥₁_elim e (Bool-set (all p xs) (all p ys)) (all-Permᴰ p)
