-- ===== src/Model/Outcome.antt =====
-- adapter/model/build.go: how building ends. A refusal is the panic of fail, which Parse recovers.
pub mod Holds
use sysml_federation.Base.{ℕ, Bool, Bytes, if◌then◌else◌}
use sysml_federation.Syntax.Position.{error_at}
use sysml_federation.Syntax.Token.{Span, Error}

pub data Outcome {ℓ} (A : Type ℓ) : Type ℓ where
  done : A → Outcome A
  refused : Error → Outcome A
  crash : Outcome A
  out_of_fuel : Outcome A

abbrev pub pure {ℓ} : {A : Type ℓ} → A → Outcome A
pure a = done a

infixl 5 ◌>>=◌ ◌>>◌
abbrev pub ◌>>=◌ {ℓ κ} : {A : Type ℓ} {B : Type κ} → Outcome A → (A → Outcome B) → Outcome B
done a >>= f = f a
refused e >>= f = refused e
crash >>= f = crash
out_of_fuel >>= f = out_of_fuel

abbrev pub ◌>>◌ {κ} : {B : Type κ} → Outcome (Unit {0}) → Outcome B → Outcome B
m >> k = m >>= λ _. k

-- The file under construction, with the verb %q of package fmt.
pub record Source : Type 0 where
  pub file : Bytes
  pub src : Bytes
  pub quote : Bytes → Bytes

-- b.fail
unfoldable pub fail {ℓ} : {A : Type ℓ} → Source → Span → Bytes → Outcome A
fail s at message = refused (error_at s.file s.src at message)

-- if b { b.fail(at, message) }
unfoldable pub refuse_if : Bool → Source → Span → Bytes → Outcome (Unit {0})
unfolding fail
refuse_if b s at message = if b then fail s at message else done tt
