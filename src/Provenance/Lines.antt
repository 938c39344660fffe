-- ===== src/Provenance/Lines.antt =====
-- python/bench/provenance.py: lemmas on `parse_lock_text`, against a printer of lock files.
use mooncake_kvcache_tiered.Base.{
  ℕ, ◌+◌, ◌≤◌, ◌≡◌, ◌≢◌, refl, ap, sym, ◌∙◌, true, false, some, List, [], ◌∷◌, ◌++◌, arith,
  if◌then◌else◌, ◌==◌,
}
use mathlib.Core.List.{append-nil, append_assoc}
use mooncake_kvcache_tiered.Dict.{Dict, set, occurs}
use mooncake_kvcache_tiered.Dict.Laws.{set_absent, occurs-append}
use mooncake_kvcache_tiered.Text.{Text, text_key, is_space, skip_space, trim_end}
use mooncake_kvcache_tiered.Provenance.{
  is_break, is_word, lines_from, split_lines, word, match_value, match_rest, match_key, match_line,
  last_line, is_ignored, parse_lines, parse_lock_text,
}

abbrev pub AllWord : Text → Type 0
AllWord [] = Unit {0}
AllWord (c ∷ cs) = (is_word c ≡ true) × AllWord cs

abbrev pub NoBreak : Text → Type 0
NoBreak [] = Unit {0}
NoBreak (c ∷ cs) = (is_break c ≡ false) × NoBreak cs

-- A word that is not empty, and a value on one line that is not empty and has no white space at its
-- ends.
pub record IsField (k v : Text) : Type 0 where
  pub key_some : k ≢ []
  pub key_word : AllWord k
  pub value_some : v ≢ []
  pub value_line : NoBreak v
  pub value_start : skip_space v ≡ v
  pub value_end : trim_end v ≡ v

word_not_space : (c : ℕ) → is_word c ≡ true → is_space c ≡ false
unfolding is_word is_space
word_not_space c h = ground arith

word_not_break : (c : ℕ) → is_word c ≡ true → is_break c ≡ false
unfolding is_word is_break
word_not_break c h = ground arith

word_not_comment : (c : ℕ) → is_word c ≡ true → (c == 35) ≡ false
unfolding is_word
word_not_comment c h = ground arith

word-append : (k t : Text) → AllWord k → word (k ++ 61 ∷ t) ≡ (k, 61 ∷ t)
unfolding word is_word
word-append [] t h = refl
word-append (c ∷ k) t h = rw (word-append k t h.1, h.0)

skip_space-word : (c : ℕ) (t : Text) → is_word c ≡ true → skip_space (c ∷ t) ≡ c ∷ t
unfolding skip_space
skip_space-word c t h = rw (word_not_space c h)

match_value_clean : (k v : Text) → IsField k v → match_value v ≡ some v
unfolding match_value
match_value_clean k [] f = absurd (f.value_some refl)
match_value_clean k (c ∷ cs) f = rw (f.value_start, match_value, f.value_end)

match_rest-value : (k v : Text) → match_value v ≡ some v → match_rest k (61 ∷ v) ≡ some (k, v)
unfolding match_rest
match_rest-value k v h = rw h

match_line-field : (k v : Text) → IsField k v → match_line (k ++ 61 ∷ v) ≡ some (k, v)
unfolding match_line match_key skip_space is_space
match_line-field [] v f = absurd (f.key_some refl)
match_line-field (c ∷ k) v f =
    ap (λ t. match_key (word t)) (skip_space-word c (k ++ 61 ∷ v) f.key_word.0)
    ∙ ap match_key (word-append (c ∷ k) v f.key_word)
    ∙ match_rest-value (c ∷ k) v (match_value_clean (c ∷ k) v f)

-- A line break ends the line so far.
lines_from-append :
    (line cs rest : Text)
    → NoBreak cs
    → lines_from line false (cs ++ 10 ∷ rest) ≡ (line ++ cs) ∷ lines_from [] false rest
unfolding lines_from is_break
lines_from-append line [] rest h = ap (λ l. l ∷ lines_from [] false rest) (sym (append-nil line))
lines_from-append line (c ∷ cs) rest h =
    rw (h.0, lines_from-append (line ++ c ∷ []) cs rest h.1)
      (ap (λ l. l ∷ lines_from [] false rest) (append_assoc line (c ∷ []) cs))

NoBreak-word : (k : Text) → AllWord k → NoBreak k
NoBreak-word [] h = tt
NoBreak-word (c ∷ k) h = (word_not_break c h.0, NoBreak-word k h.1)

NoBreak-append : (xs ys : Text) → NoBreak xs → NoBreak ys → NoBreak (xs ++ ys)
NoBreak-append [] ys h g = g
NoBreak-append (x ∷ xs) ys h g = (h.0, NoBreak-append xs ys h.1 g)

-- A line that starts with a word is no comment.
is_ignored-word :
    (c : ℕ) (t : Text) → is_word c ≡ true → is_ignored (trim_end (skip_space (c ∷ t))) ≡ false
unfolding is_ignored trim_end
is_ignored-word c t h = rw (skip_space-word c t h) (go (trim_end t))
  where
    go :
        (u : Text)
        → is_ignored (elim u [ [] ↦ if is_space c then [] else c ∷ [] | ◌∷◌ d ds ↦ c ∷ d ∷ ds ])
          ≡ false
    go [] = rw (word_not_space c h, is_ignored) (word_not_comment c h)
    go (d ∷ ds) = word_not_comment c h

-- The fields, one to a line.
abbrev pub print_lock : Dict Text Text → Text
print_lock [] = []
print_lock ((k, v) ∷ d) = (k ++ 61 ∷ v) ++ 10 ∷ print_lock d

abbrev pub AllFields : Dict Text Text → Type 0
AllFields [] = Unit {0}
AllFields ((k, v) ∷ d) = IsField k v × AllFields d

parse_lines-field :
    (k v : Text) (lines : List Text) (result : Dict Text Text)
    → IsField k v
    → parse_lines ((k ++ 61 ∷ v) ∷ lines) result ≡ parse_lines lines (set k v result)
unfolding parse_lines
parse_lines-field [] v lines result f = absurd (f.key_some refl)
parse_lines-field (c ∷ k) v lines result f =
    rw (is_ignored-word c (k ++ 61 ∷ v) f.key_word.0, match_line-field (c ∷ k) v f)

parse_lines-print :
    (d result : Dict Text Text)
    → AllFields d
    → ((j : Text) → occurs j result + occurs j d ≤ 1)
    → parse_lines (lines_from [] false (print_lock d)) result ≡ result ++ d
unfolding parse_lines lines_from last_line occurs
parse_lines-print [] result f h = sym (append-nil result)
parse_lines-print ((k, v) ∷ d) result f h =
    ap (λ lines. parse_lines lines result)
      (lines_from-append [] (k ++ 61 ∷ v) (print_lock d) (
        NoBreak-append k (61 ∷ v) (NoBreak-word k f.0.key_word)
          (unfold is_break in refl, f.0.value_line)))
    ∙ parse_lines-field k v (lines_from [] false (print_lock d)) result f.0
    ∙ ap (parse_lines (lines_from [] false (print_lock d)))
        (set_absent k v result (ground (arith, h k)))
    ∙ parse_lines-print d (result ++ (k, v) ∷ []) f.1
        (λ j. ground (arith, h j, occurs-append j result ((k, v) ∷ [])))
    ∙ append_assoc result ((k, v) ∷ []) d

-- A lock file that is printed from fields, one `key=value` to a line, is parsed as exactly these
-- fields in their order, if no key occurs twice, the keys are words, and the values are on one line,
-- not empty, and without white space at their ends.
pub parse_lock_text-print :
    (d : Dict Text Text)
    → AllFields d
    → ((j : Text) → occurs j d ≤ 1)
    → parse_lock_text (print_lock d) ≡ d
unfolding parse_lock_text split_lines
parse_lock_text-print d f h = parse_lines-print d [] f (λ j. unfold occurs in omega (arith, h j))
