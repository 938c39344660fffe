-- ===== src/Base/Results.antt =====
-- Python's exceptions as values.
use Prim.Native.Nat.{ℕ}
use mathlib.Core.Option.{none, some}
use mathlib.Core.List.{List}
use mooncake_kvcache_tiered.Base.Lists.{get_elem?}
use mathlib.Core.Path.{◌≡◌, subst}
use mathlib.Core.Logic.{◌≢◌}

pub data Error : Type 0 where
  value_error key_error index_error file_not_found attribute_error type_error : Error
  assertion_error zero_division response_error : Error

pub data Result {ℓ} (A : Type ℓ) : Type ℓ where
  ok : A → Result A
  raise : Error → Result A

-- `xs[i]`
abbrev pub at_index {ℓ} : {A : Type ℓ} → List A → ℕ → Result A
at_index xs i = elim (get_elem? xs i) [ none ↦ raise index_error | some v ↦ ok v ]

infixl 5 ◌>>=◌
abbrev pub ◌>>=◌ {ℓ κ} : {A : Type ℓ} {B : Type κ} → Result A → (A → Result B) → Result B
ok a >>= f = f a
raise e >>= f = raise e

pub ok-ne-raise {ℓ} : {A : Type ℓ} (a : A) (e : Error) → ok a ≢ raise e
ok-ne-raise a e h = cc

pub ok-injective {ℓ} : {A : Type ℓ} (a b : A) → ok a ≡ ok b → a ≡ b
ok-injective a b h = cc

-- What holds of the value, if there is one.
abbrev pub OnOk {ℓ κ} : {A : Type ℓ} → (A → Type κ) → Result A → Type κ
OnOk P (ok a) = P a
OnOk P (raise e) = Unit

pub OnOk-bind {ℓ ℓ' κ κ'} :
    {A : Type ℓ} {B : Type ℓ'} (P : A → Type κ) (Q : B → Type κ') (r : Result A) (f : A → Result B)
    → OnOk P r
    → ((a : A) → P a → OnOk Q (f a))
    → OnOk Q (r >>= f)
OnOk-bind P Q (ok a) f h g = g a h
OnOk-bind P Q (raise e) f h g = tt

pub OnOk-after {ℓ ℓ' κ} :
    {A : Type ℓ} {B : Type ℓ'} (Q : B → Type κ) (r : Result A) (f : A → Result B)
    → ((a : A) → OnOk Q (f a))
    → OnOk Q (r >>= f)
OnOk-after Q (ok a) f g = g a
OnOk-after Q (raise e) f g = tt

pub OnOk-eq {ℓ κ} : {A : Type ℓ} (P : A → Type κ) (r : Result A) (a : A) → OnOk P r → r ≡ ok a → P a
OnOk-eq P r a h e = subst (OnOk P) e h
