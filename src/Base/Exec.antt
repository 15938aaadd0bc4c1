-- ===== src/Base/Exec.antt =====
-- Calls that may raise, over an explicit state. What was done before a raise stays done, so the
-- state comes back beside the exception too.
use Prim.Native.Nat.{ℕ}
use mathlib.Core.Option.{Option}
use live_streaming_data_pipe.Base.Texts.{Text}

-- The exception classes that the program's handlers tell apart; `other` is any other class.
pub data ExcKind : Type 0 where
  record_error value_error type_error os_error overflow_error key_error : ExcKind
  clickhouse_error connection_error timeout_error : ExcKind
  json_decode_error validation_error runtime_error commit_failed illegal_state other : ExcKind
  system_exit config_exception not_found : ExcKind
  -- `ApiException` of Kubernetes, with its status
  api_exception : Option ℕ → ExcKind

-- `name` is `type(exc).__name__` and `message` is `str(exc)`.
pub record Exc : Type 0 where
  pub kind : ExcKind
  pub name : Text
  pub message : Text

pub data Result {ℓ} (A : Type ℓ) : Type ℓ where
  ok : A → Result A
  err : Exc → Result A

abbrev pub Exec {ℓ κ} : Type ℓ → Type κ → Type (ℓ ⊔ κ)
Exec W A = W → Result A × W

module _ {ℓ κ} {W : Type ℓ} {A : Type κ} where
  abbrev pub pure : A → Exec W A
  pure a w = (ok a, w)

  abbrev pub raise : Exc → Exec W A
  raise e w = (err e, w)

  abbrev pub lift : Result A → Exec W A
  lift r w = (r, w)

module _ {ℓ κ ν} {W : Type ℓ} {A : Type κ} {B : Type ν} where
  abbrev pub continue : Result A → (A → Exec W B) → Exec W B
  continue (ok a) f w = f a w
  continue (err e) f w = (err e, w)

  infixl 5 ◌>>=◌ ◌>>◌
  unfoldable pub ◌>>=◌ : Exec W A → (A → Exec W B) → Exec W B
  ◌>>=◌ m f w = let (r, w') = m w in continue r f w'

  abbrev pub ◌>>◌ : Exec W A → Exec W B → Exec W B
  m >> k = m >>= λ _. k
