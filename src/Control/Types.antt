-- ===== src/Control/Types.antt =====
-- The errors of the protocol, and the numbers in its lines.
use fractal_d.Base.{ℕ, ◌^◌, ◌≡◌, refl, Text}

pub data ProtocolError : Type 0 where
  unknown_request : Text → ProtocolError
  malformed_request : Text → ProtocolError
  malformed_response : Text → ProtocolError

pub data Result {ℓ} (A : Type ℓ) : Type ℓ where
  ok : A → Result A
  err : ProtocolError → Result A

infixl 5 ◌>>=◌
abbrev pub ◌>>=◌ {ℓ κ} : {A : Type ℓ} {B : Type κ} → Result A → (A → Result B) → Result B
ok a >>= f = f a
err e >>= f = err e

abbrev pub u8_limit : ℕ
u8_limit = 2 ^ 8

abbrev pub u32_limit : ℕ
u32_limit = 2 ^ 32

abbrev pub u64_limit : ℕ
u64_limit = 2 ^ 64

-- A chain that ends well has read a value first, and gone on from it.
pub bind_ok {κ ℓ} :
    {B : Type ℓ} {A : Type κ} {answer : B} (first : Result A) (next : A → Result B)
    → (first >>= next) ≡ ok answer
    → (value : A) × (first ≡ ok value) × (next value ≡ ok answer)
bind_ok (err reason) next e = cc
bind_ok (ok value) next e = (value, refl, e)
