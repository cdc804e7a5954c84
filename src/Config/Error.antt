-- ===== src/Config/Error.antt =====
-- `ConfigError`, and results that may be one.
use fractal_d.Base.{ℕ, ◌≡◌, refl, Option, none, some, Text}

pub record ConfigError : Type 0 where
  pub line : Option ℕ
  pub message : Text

-- `ConfigError::at` and `ConfigError::message`
abbrev pub at : ℕ → Text → ConfigError
at line message = record { line = some line; message = message }

abbrev pub message_only : Text → ConfigError
message_only message = record { line = none; message = message }

pub data Parsed {ℓ} (A : Type ℓ) : Type ℓ where
  ok : A → Parsed A
  err : ConfigError → Parsed A

infixl 5 ◌>>=◌
abbrev pub ◌>>=◌ {κ ℓ} : {B : Type ℓ} {A : Type κ} → Parsed A → (A → Parsed B) → Parsed B
err e >>= next = err e
ok a >>= next = next a

-- A chain that ends well went well so far.
pub bind_ok {κ ℓ} :
    {B : Type ℓ} {A : Type κ} {answer : B} (first : Parsed A) (next : A → Parsed B)
    → (first >>= next) ≡ ok answer
    → (value : A) × (first ≡ ok value) × (next value ≡ ok answer)
bind_ok (err reason) next e = cc
bind_ok (ok value) next e = (value, refl, e)
