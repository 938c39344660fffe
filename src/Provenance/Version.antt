-- ===== src/Provenance/Version.antt =====
-- python/bench/provenance.py: `has_version`. `decimal` is the test of `\d`, digits of all scripts; that
-- neither a dot nor a line feed is one is stated where it is used. A run of digits gives none back: what
-- has to follow it in the expression is no digit.
use mooncake_kvcache_tiered.Base.{
  ℕ, ◌≡◌, ◌≢◌, ◌⊎◌, inl, inr, ◌↔◌, refl, ap, sym, subst, ◌∙◌, Bool, true, false, ◌||◌, Option, none,
  some, [], ◌∷◌, ◌++◌, if◌then◌else◌, ◌==◌, Bool-cases, none-ne-some, some-injective, arith, all,
}
use mooncake_kvcache_tiered.Text.{Text}
use mooncake_kvcache_tiered.Provenance.{MooncakeLock}
use mooncake_kvcache_tiered.Provenance.Formats.{at_end, IsLine, at_end-true, both-true}

-- `post`, after its dot.
abbrev pub post_name : Text
post_name = 46 ∷ 112 ∷ 111 ∷ 115 ∷ 116 ∷ []

-- What follows a text, if the other starts with it.
unfoldable pub after : Text → Text → Option Text
after [] t = some t
after (c ∷ cs) [] = none
after (c ∷ cs) (d ∷ ds) = let rest = after cs ds in if c == d then rest else none

abbrev pub then_match : Option Text → (Text → Bool) → Bool
then_match none f = false
then_match (some t) f = f t

then_match-true :
    (o : Option Text) (f : Text → Bool)
    → then_match o f ≡ true
    → (t : Text) × (o ≡ some t) × (f t ≡ true)
then_match-true none f h = absurd cc
then_match-true (some t) f h = (t, refl, h)

either-true : (a b : Bool) → (a || b) ≡ true → (a ≡ true) ⊎ (b ≡ true)
either-true true b h = inl refl
either-true false b h = inr h

at_end-line : (t : Text) → IsLine [] t → at_end t ≡ true
unfolding at_end
at_end-line t (inl e) = rw e refl
at_end-line t (inr e) = rw e refl

module _ (decimal : ℕ → Bool) where
  unfoldable pub skip_digits : Text → Text
  skip_digits [] = []
  skip_digits (c ∷ cs) = let rest = skip_digits cs in if decimal c then rest else c ∷ cs

  -- What follows `\d+`.
  unfoldable pub digits : Text → Option Text
  digits [] = none
  digits (c ∷ cs) = if decimal c then some (skip_digits cs) else none

  -- `(\.post\d+)?$`
  unfoldable pub match_post : Text → Bool
  match_post t = at_end t || then_match (after post_name t) (λ u. then_match (digits u) at_end)

  -- The whole expression.
  unfoldable pub match_version : Text → Bool
  match_version t = then_match (digits t) (λ a. then_match (after (46 ∷ []) a) (λ b.
      then_match (digits b)
        (λ c. then_match (after (46 ∷ []) c) (λ d. then_match (digits d) match_post))))

  unfoldable pub has_version : MooncakeLock → Bool
  has_version lock = match_version lock.version

  -- A number of at least one digit.
  abbrev pub IsNumber : Text → Type 0
  IsNumber n = (n ≢ []) × (all decimal n ≡ true)

  -- What may follow the third number.
  abbrev pub IsPost : Text → Type 0
  IsPost t =
      IsLine [] t
      ⊎ ((n : Text) × (rest : Text) × IsNumber n × (t ≡ post_name ++ (n ++ rest)) × IsLine [] rest)

  abbrev pub IsVersion : Text → Type 0
  IsVersion t =
      (a : Text) × (b : Text) × (c : Text) × (rest : Text) × IsNumber a
      × IsNumber b
      × IsNumber c
      × (t ≡ a ++ 46 ∷ (b ++ 46 ∷ (c ++ rest)))
      × IsPost rest

  skip_digits_lem : (t : Text) → (n : Text) × (all decimal n ≡ true) × (t ≡ n ++ skip_digits t)
  unfolding skip_digits
  skip_digits_lem [] = ([], refl, refl)
  skip_digits_lem (c ∷ cs) = elim (Bool-cases (decimal c)) [
    | inl e ↦
        let (n, a, i) = skip_digits_lem cs in
        rw (e, skip_digits) (c ∷ n, rw (e, a) refl, ap (◌∷◌ c) i)
    | inr e ↦ rw (e, skip_digits) ([], refl, refl)
  ]

  digits-some : (t r : Text) → digits t ≡ some r → (n : Text) × IsNumber n × (t ≡ n ++ r)
  unfolding digits
  digits-some [] r h = absurd cc
  digits-some (c ∷ cs) r h = elim (Bool-cases (decimal c)) [
    | inl e ↦
        let (n, a, i) = skip_digits_lem cs in
        let same : skip_digits cs ≡ r = some-injective _ _ (rw e at h) in
        (c ∷ n, (λ g. cc, rw (e, a) refl), ap (◌∷◌ c) (i ∙ ap (λ u. n ++ u) same))
    | inr e ↦ absurd (none-ne-some (rw e at h))
  ]

  after-some : (s t r : Text) → after s t ≡ some r → t ≡ s ++ r
  unfolding after
  after-some [] t r h = some-injective _ _ h
  after-some (c ∷ cs) [] r h = absurd cc
  after-some (c ∷ cs) (d ∷ ds) r h = elim (Bool-cases (c == d)) [
    | inl e ↦
        let same : d ≡ c = ground (arith, e) in
        ap (λ x. x ∷ ds) same ∙ ap (◌∷◌ c) (after-some cs ds r (rw e at h))
    | inr e ↦ absurd (none-ne-some (rw e at h))
  ]

  match_post-true : (t : Text) → match_post t ≡ true → IsPost t
  unfolding match_post
  match_post-true t h = elim (either-true (at_end t) _ h) [
    | inl e ↦ inl (at_end-true t e)
    | inr e ↦
        let (u, i, f) = then_match-true (after post_name t) _ e in
        let (rest, j, g) = then_match-true (digits u) at_end f in
        let (n, number, k) = digits-some u rest j in
        inr (
          n,
          rest,
          (number.0, number.1),
          after-some post_name t u i ∙ ap (λ v. post_name ++ v) k,
          at_end-true rest g,
        )
  ]

  match_version-true : (t : Text) → match_version t ≡ true → IsVersion t
  unfolding match_version
  match_version-true t h =
      let (r, i, h1) = then_match-true (digits t) _ h in
      let (s, j, h2) = then_match-true (after (46 ∷ []) r) _ h1 in
      let (u, k, h3) = then_match-true (digits s) _ h2 in
      let (v, l, h4) = then_match-true (after (46 ∷ []) u) _ h3 in
      let (w, m, h5) = then_match-true (digits v) _ h4 in
      let (a, na, ia) = digits-some t r i in
      let (b, nb, ib) = digits-some s u k in
      let (c, nc, ic) = digits-some v w m in
      (
        a,
        b,
        c,
        w,
        (na.0, na.1),
        (nb.0, nb.1),
        (nc.0, nc.1),
        ia
            ∙ ap (λ x. a ++ x)
                (after-some (46 ∷ []) r s j
                  ∙ ap (λ x. 46 ∷ x)
                      (ib ∙ ap (λ x. b ++ x) (after-some (46 ∷ []) u v l ∙ ap (λ x. 46 ∷ x) ic))),
        match_post-true w h5,
      )

  skip_digits-append :
      (n rest : Text)
      → all decimal n ≡ true
      → skip_digits rest ≡ rest
      → skip_digits (n ++ rest) ≡ rest
  unfolding skip_digits
  skip_digits-append [] rest a h = h
  skip_digits-append (c ∷ n) rest a h =
      let (x, y) = both-true (decimal c) (all decimal n) a in rw x (skip_digits-append n rest y h)

  digits-append :
      (n rest : Text) → IsNumber n → skip_digits rest ≡ rest → digits (n ++ rest) ≡ some rest
  unfolding digits
  digits-append [] rest n h = absurd (n.0 refl)
  digits-append (c ∷ cs) rest n h =
      let (x, y) = both-true (decimal c) (all decimal cs) n.1 in
      rw x (ap some (skip_digits-append cs rest y h))

  module _ (no_dot : decimal 46 ≡ false) (no_break : decimal 10 ≡ false) where
    skip_digits-dot : (t : Text) → skip_digits (46 ∷ t) ≡ 46 ∷ t
    unfolding skip_digits
    skip_digits-dot t = rw no_dot refl

    skip_digits-line : (t : Text) → IsLine [] t → skip_digits t ≡ t
    unfolding skip_digits
    skip_digits-line t (inl e) = rw e refl
    skip_digits-line t (inr e) = rw (e, no_break) refl

    IsPost-match_post : (t : Text) → IsPost t → (match_post t ≡ true) × (skip_digits t ≡ t)
    unfolding match_post after at_end
    IsPost-match_post t (inl i) = (rw (at_end-line t i) refl, skip_digits-line t i)
    IsPost-match_post t (inr (n, rest, number, e, i)) =
        subst (λ u. (match_post u ≡ true) × (skip_digits u ≡ u)) (sym e)
          (
            match_post-append (n ++ rest) rest
                (digits-append n rest (number.0, number.1) (skip_digits-line rest i))
                (at_end-line rest i),
            skip_digits-dot (112 ∷ 111 ∷ 115 ∷ 116 ∷ (n ++ rest)),
          )
      where
        match_post-append :
            (u rest : Text)
            → digits u ≡ some rest
            → at_end rest ≡ true
            → match_post (post_name ++ u) ≡ true
        match_post-append u rest d f = rw (d, f) refl

    IsVersion-match_version : (t : Text) → IsVersion t → match_version t ≡ true
    unfolding match_version after
    IsVersion-match_version t (a, b, c, rest, na, nb, nc, e, i) =
        let (m, s) = IsPost-match_post rest i in
        let third = digits-append c rest (nc.0, nc.1) s in
        let second =
          digits-append b (46 ∷ (c ++ rest)) (nb.0, nb.1) (skip_digits-dot (c ++ rest)) in
        let first =
          digits-append a (46 ∷ (b ++ 46 ∷ (c ++ rest))) (na.0, na.1)
            (skip_digits-dot (b ++ 46 ∷ (c ++ rest))) in
        rw (e, first, second, third, m) refl

    -- If neither a dot nor a line feed is a digit, `has_version` holds exactly of a version that is
    -- three numbers with dots between them, perhaps with `.post` and a number, and with at most a line
    -- feed after them.
    pub has_version_lem : (lock : MooncakeLock) → (has_version lock ≡ true) ↔ IsVersion lock.version
    unfolding has_version
    has_version_lem lock = (match_version-true lock.version, IsVersion-match_version lock.version)
