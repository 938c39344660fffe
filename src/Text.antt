-- ===== src/Text.antt =====
-- Python's text as the list of its code points, for python/bench and scripts.
use mooncake_kvcache_tiered.Base.{
  refl, Option, none, some, ◌+◌, ◌-◌, ◌*◌, Result, ok, raise, value_error, ℕ, Bool, ◌||◌, ◌&&◌,
  List, [], ◌∷◌, Key, if◌then◌else◌, ◌==◌, leb, ℕ_discrete, true, false, ◌++◌,
}

abbrev pub Text : Type 0
Text = List ℕ

unfoldable pub text_dec : Discrete Text
text_dec [] [] = yes refl
text_dec [] (d ∷ ds) = no (λ h. cc)
text_dec (c ∷ cs) [] = no (λ h. cc)
text_dec (c ∷ cs) (d ∷ ds) = elim (ℕ_discrete c d) [
  | no n ↦ no (λ h. n cc)
  | yes e ↦ elim (text_dec cs ds) [ no n ↦ no (λ h. n cc) | yes f ↦ yes cc ]
]

instance abbrev pub text_key : Key Text
text_key = record { dec = text_dec }

-- `str.isspace`, which `strip` and `\s` use.
unfoldable pub is_space : ℕ → Bool
is_space c =
    (leb 9 c && leb c 13)
    || (leb 28 c && leb c 32)
    || c == 133
    || c == 160
    || c == 5760
    || (leb 8192 c && leb c 8202)
    || c == 8232
    || c == 8233
    || c == 8239
    || c == 8287
    || c == 12288

unfoldable pub skip_space : Text → Text
skip_space [] = []
skip_space (c ∷ cs) = if is_space c then skip_space cs else c ∷ cs

-- The text without the white space at its end.
unfoldable pub trim_end : Text → Text
trim_end [] = []
trim_end (c ∷ cs) = elim (trim_end cs) [
  | [] ↦ if is_space c then [] else c ∷ []
  | ◌∷◌ d ds ↦ c ∷ d ∷ ds
]

-- `str.strip`.
abbrev pub strip : Text → Text
strip t = trim_end (skip_space t)

-- `sep.join(ts)`
unfoldable pub join : Text → List Text → Text
join sep [] = []
join sep (t ∷ []) = t
join sep (t ∷ u ∷ ts) = t ++ sep ++ join sep (u ∷ ts)

-- `t.startswith(start)`, and the rest of the text after the start.
unfoldable pub starts_with : Text → Text → Bool
starts_with [] t = true
starts_with (c ∷ cs) [] = false
starts_with (c ∷ cs) (d ∷ ds) = c == d && starts_with cs ds

-- The digits `0` to `9` of a number, with single underscores between them.
unfoldable pub digits : Bool → ℕ → Text → Option ℕ
digits after_digit n [] = if after_digit then some n else none
digits after_digit n (c ∷ cs) =
    let next = digits true (10 * n + (c - 48)) cs in
    let underscore = digits false n cs in
    if leb 48 c && leb c 57 then next else if c == 95 && after_digit then underscore else none

-- After a plus sign, if there is one.
unfoldable pub unsigned : Text → Option ℕ
unsigned [] = none
unsigned (c ∷ cs) = if c == 43 then digits false 0 cs else digits false 0 (c ∷ cs)

-- `int(t)`, of natural numbers.
unfoldable pub int_of : Text → Result ℕ
int_of t = elim (unsigned (strip t)) [ none ↦ raise value_error | some n ↦ ok n ]
