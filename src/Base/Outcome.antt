-- ===== src/Base/Outcome.antt =====
-- How a Go call ends when it may panic.
use package.jian_yu_server_lib.Base.Lists.{get_elem?}
use Prim.Native.Nat.{ℕ}
use mathlib.Core.List.{List}
use mathlib.Core.Option.{Option, none, some}

pub data Outcome {ℓ} (A : Type ℓ) : Type ℓ where
  returned : A → Outcome A
  panicked : Outcome A

infixl 5 ◌>>=◌
abbrev pub ◌>>=◌ {ℓ κ} : {A : Type ℓ} {B : Type κ} → Outcome A → (A → Outcome B) → Outcome B
returned a >>= f = f a
panicked >>= f = panicked

abbrev pub or_panic {ℓ} : {A : Type ℓ} → Option A → Outcome A
or_panic none = panicked
or_panic (some a) = returned a

-- `xs[i]`, which panics out of range.
abbrev pub index {ℓ} : {A : Type ℓ} → List A → ℕ → Outcome A
index xs i = or_panic (get_elem? xs i)
