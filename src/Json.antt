-- ===== src/Json.antt =====
-- What `json.loads` returns, and what python/bench/framework.py and scripts/bench_online.py do with it.
-- A number is a natural number. A dictionary has no key twice.
use mooncake_kvcache_tiered.Base.{
  ℕ, zero, suc, Bool, true, false, none, some, List, [], ◌∷◌, map, Result, ok, raise,
  attribute_error, type_error, key_error, index_error, ◌>>=◌, if◌then◌else◌,
}
use mooncake_kvcache_tiered.Dict.{Dict, lookup}
use mooncake_kvcache_tiered.Text.{Text, text_key, int_of}

mutual
  pub data Json : Type 0 where
    null : Json
    boolean : Bool → Json
    number : ℕ → Json
    string : Text → Json
    array : Items → Json
    object : Members → Json

  pub data Items : Type 0 where
    nil : Items
    cons : Json → Items → Items

  pub data Members : Type 0 where
    end : Members
    member : Text → Json → Members → Members

abbrev pub list_of : Items → List Json
list_of nil = []
list_of (cons j js) = j ∷ list_of js

abbrev pub dict_of : Members → Dict Text Json
dict_of end = []
dict_of (member k j ms) = (k, j) ∷ dict_of ms

-- `if j`
unfoldable pub truthy : Json → Bool
truthy null = false
truthy (boolean b) = b
truthy (number zero) = false
truthy (number (suc n)) = true
truthy (string []) = false
truthy (string (c ∷ cs)) = true
truthy (array nil) = false
truthy (array (cons j js)) = true
truthy (object end) = false
truthy (object (member k j ms)) = true

-- `j.get(name, default)`, a method of a dictionary alone.
unfoldable pub get_or : Json → Text → Json → Result Json
get_or (object ms) name default = elim (lookup name (dict_of ms)) [
  | none ↦ ok default
  | some j ↦ ok j
]
get_or j name default = raise attribute_error

-- `j[name]`, with a text as the index.
unfoldable pub field : Json → Text → Result Json
field (object ms) name = elim (lookup name (dict_of ms)) [ none ↦ raise key_error | some j ↦ ok j ]
field j name = raise type_error

-- `j[0]`
unfoldable pub first : Json → Result Json
first (array nil) = raise index_error
first (array (cons j js)) = ok j
first (string []) = raise index_error
first (string (c ∷ cs)) = ok (string (c ∷ []))
first (object ms) = raise key_error
first j = raise type_error

-- `for x in j`
unfoldable pub iterate : Json → Result (List Json)
iterate (array js) = ok (list_of js)
iterate (string t) = ok (map (λ c. string (c ∷ [])) t)
iterate (object ms) = ok (map (λ m. string m.0) (dict_of ms))
iterate j = raise type_error

-- `[f(x) for x in xs]`
unfoldable pub traverse : {A B : Type 0} → (A → Result B) → List A → Result (List B)
traverse f [] = ok []
traverse f (x ∷ xs) = do y ← f x; ys ← traverse f xs; ok (y ∷ ys)

-- `int(j)`
unfoldable pub to_int : Json → Result ℕ
to_int (number n) = ok n
to_int (boolean b) = ok (if b then 1 else 0)
to_int (string t) = int_of t
to_int j = raise type_error
