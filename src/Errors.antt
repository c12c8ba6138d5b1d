-- ===== src/Errors.antt =====
-- Go's `error` values. An error is its format with the arguments, not the rendered text; `wrapf` is
-- `fmt.Errorf("…: %w", …, err)`, and also the text of one error in front of that of another.
pub mod Ensures
use dnssec_keyrotation.Base.{ℕ, String, Bool, true, false, List, [], string_eq, ◌==◌}

pub data Arg : Type 0 where
  str : String → Arg
  num : ℕ → Arg
  flag : Bool → Arg

pub data Error : Type 0 where
  errorf : String → List Arg → Error
  wrapf : String → List Arg → Error → Error

-- `errors.New`
abbrev pub new_error : String → Error
new_error text = errorf text []

abbrev pub wrap : String → Error → Error
wrap context e = wrapf context [] e

pub data Result {ℓ} (Value : Type ℓ) : Type ℓ where
  err : Error → Result Value
  ok : Value → Result Value

module _ {ℓ κ} {Value : Type ℓ} {Next : Type κ} where
  infixl 5 ◌>>=◌
  unfoldable pub ◌>>=◌ : Result Value → (Value → Result Next) → Result Next
  err reason >>= next = err reason
  ok value >>= next = next value

module _ {κ} {Next : Type κ} where
  infixl 5 ◌>>◌
  abbrev pub ◌>>◌ : Result (Unit {0}) → Result Next → Result Next
  check >> rest = check >>= λ done. rest

-- `if c { return fmt.Errorf(…) }`
abbrev pub reject_if : Bool → Error → Result (Unit {0})
reject_if true e = err e
reject_if false e = ok tt

-- `if err != nil { return fmt.Errorf("context: %w", err) }`
abbrev pub wrapping {ℓ} : {A : Type ℓ} → String → Result A → Result A
wrapping context (ok a) = ok a
wrapping context (err e) = err (wrap context e)

abbrev pub is_ok {ℓ} : {A : Type ℓ} → Result A → Bool
is_ok (ok a) = true
is_ok (err e) = false

-- `errors.Is(err, sentinel)` for a sentinel made by `errors.New`
unfoldable pub is_error : String → Error → Bool
is_error sentinel (errorf text args) = text == sentinel
is_error sentinel (wrapf context args e) = is_error sentinel e
