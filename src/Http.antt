-- ===== src/Http.antt =====
-- FastAPI's `HTTPException` as a value: a handler returns a result or raises with a status code.
pub mod Action
pub mod Leaves
use Prim.Native.String.{String}
use webhook_relay_service.Prelude.{Bool, Option, Text, [], false, none, some, true, ℕ, ◌∷◌}

pub record HttpException : Type 0 where
  pub status_code : ℕ
  pub detail : String

pub data Result {ℓ} (A : Type ℓ) : Type ℓ where
  ok : A → Result A
  raised : HttpException → Result A

infixl 5 ◌>>=◌ ◌>>◌
abbrev pub ◌>>=◌ {ℓ κ} : {A : Type ℓ} {B : Type κ} → Result A → (A → Result B) → Result B
ok a >>= f = f a
raised e >>= f = raised e

abbrev pub ◌>>◌ {ℓ} : {B : Type ℓ} → Result (Unit {0}) → Result B → Result B
m >> k = m >>= λ _. k

-- `raise HTTPException(status_code, detail)`.
abbrev pub http_error {ℓ} : {A : Type ℓ} → ℕ → String → Result A
http_error code detail = raised (record { status_code = code; detail = detail })

-- `if test: raise HTTPException(status_code, detail)`.
abbrev pub raise_if : Bool → ℕ → String → Result (Unit {0})
raise_if true code detail = http_error code detail
raise_if false code detail = ok tt

-- `if value is None: raise …`, with the value for the rest.
abbrev pub or_raise {ℓ} : {A : Type ℓ} → Option A → ℕ → String → Result A
or_raise none code detail = http_error code detail
or_raise (some a) code detail = ok a

-- The truth of a text that may be missing: neither `None` nor `""`.
abbrev pub filled : Option Text → Bool
filled none = false
filled (some []) = false
filled (some (c ∷ t)) = true
