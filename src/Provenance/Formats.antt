-- ===== src/Provenance/Formats.antt =====
-- python/bench/provenance.py: the format checks of `MooncakeLock`. In both expressions `$` also stands
-- before a line feed that ends the text. `\d` is the test `decimal`, which Python says of the digits of
-- all scripts.
use mooncake_kvcache_tiered.Base.{
  ℕ, zero, suc, ◌≡◌, ◌⊎◌, inl, inr, ◌↔◌, refl, ap, sym, subst, ◌∙◌, Bool, true, false, ◌&&◌, ◌||◌,
  [], ◌∷◌, ◌++◌, length, ◌==◌, leb, arith, all,
}
use mathlib.Core.List.{append-nil}
use mooncake_kvcache_tiered.Text.{Text}
use mooncake_kvcache_tiered.Provenance.{MooncakeLock}

-- `$`
unfoldable pub at_end : Text → Bool
at_end [] = true
at_end (c ∷ []) = c == 10
at_end (c ∷ d ∷ cs) = false

-- `[0-9a-f]`
unfoldable pub is_hex : ℕ → Bool
is_hex c = (leb 48 c && leb c 57) || (leb 97 c && leb c 102)

-- `[0-9a-f]{n}$`
unfoldable pub match_hash : ℕ → Text → Bool
match_hash zero t = at_end t
match_hash (suc n) [] = false
match_hash (suc n) (c ∷ cs) = is_hex c && match_hash n cs

unfoldable pub has_commit_hash : MooncakeLock → Bool
has_commit_hash lock = match_hash 40 lock.commit

-- A text at its end, but perhaps for a line feed.
abbrev pub IsLine : Text → Text → Type 0
IsLine body t = (t ≡ body) ⊎ (t ≡ body ++ 10 ∷ [])

IsLine-cons : (c : ℕ) (body t : Text) → IsLine body t → IsLine (c ∷ body) (c ∷ t)
IsLine-cons c body t (inl e) = inl (ap (◌∷◌ c) e)
IsLine-cons c body t (inr e) = inr (ap (◌∷◌ c) e)

pub both-true : (a b : Bool) → (a && b) ≡ true → (a ≡ true) × (b ≡ true)
both-true true b h = (refl, h)
both-true false b h = absurd cc

pub at_end-true : (t : Text) → at_end t ≡ true → IsLine [] t
unfolding at_end
at_end-true [] h = inl refl
at_end-true (c ∷ []) h = let e : c ≡ 10 = ground (arith, h) in inr (ap (λ d. d ∷ []) e)
at_end-true (c ∷ d ∷ cs) h = absurd cc

and-true : (a b : Bool) → a ≡ true → b ≡ true → (a && b) ≡ true
and-true a b h g = rw (h, g) refl

match_hash-true :
    (n : ℕ) (t : Text)
    → match_hash n t ≡ true
    → (h : Text) × (length h ≡ n) × (all is_hex h ≡ true) × IsLine h t
unfolding match_hash
match_hash-true zero t m = ([], refl, refl, at_end-true t m)
match_hash-true (suc n) [] m = absurd cc
match_hash-true (suc n) (c ∷ cs) m =
    let (x, y) = both-true (is_hex c) (match_hash n cs) m in
    let (h, e, a, i) = match_hash-true n cs y in
    (c ∷ h, ap suc e, and-true (is_hex c) (all is_hex h) x a, IsLine-cons c h cs i)

match_hash-append :
    (h rest : Text) → all is_hex h ≡ true → match_hash (length h) (h ++ rest) ≡ at_end rest
unfolding match_hash
match_hash-append [] rest a = refl
match_hash-append (c ∷ h) rest a =
    let (x, y) = both-true (is_hex c) (all is_hex h) a in rw x (match_hash-append h rest y)

match_hash-IsLine : (h t : Text) → all is_hex h ≡ true → IsLine h t → match_hash (length h) t ≡ true
unfolding at_end
match_hash-IsLine h t a (inl e) =
    subst (λ u. match_hash (length h) u ≡ true) (append-nil h ∙ sym e) (match_hash-append h [] a)
match_hash-IsLine h t a (inr e) =
    subst (λ u. match_hash (length h) u ≡ true) (sym e) (match_hash-append h (10 ∷ []) a)

-- `has_commit_hash` holds exactly of a commit that is forty digits of `0-9a-f`, with at most a line
-- feed after them.
has_commit_hash_lem :
    (lock : MooncakeLock)
    → (has_commit_hash lock ≡ true)
      ↔ ((h : Text) × (length h ≡ 40) × (all is_hex h ≡ true) × IsLine h lock.commit)
unfolding has_commit_hash
has_commit_hash_lem lock = (
  match_hash-true 40 lock.commit,
  λ (h, e, a, i).
      subst (λ n. match_hash n lock.commit ≡ true) e (match_hash-IsLine h lock.commit a i),
)
