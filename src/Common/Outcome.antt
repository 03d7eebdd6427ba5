-- ===== src/Common/Outcome.antt =====
-- C++ calls that may throw, or whose behaviour is undefined, as values.
use mathlib.Core.Path.{◌≡◌, refl}
use mathlib.Core.Bool.{Bool, true, false}

-- The field that `Mail::validateString` complains of.
pub data Field : Type 0 where
  username_field secret_field display_name_field message_content_field : Field

pub data Error : Type 0 where
  -- `std::runtime_error` of `validateString`
  invalid : Field → Error
  -- `std::bad_variant_access` of `std::get`
  bad_variant_access : Error
  -- a read or write outside an array, or `front` of an empty queue: undefined behaviour
  out_of_bounds : Error
  -- the other `std::runtime_error`s
  failed_to_create_pipe failed_to_write_pipe failed_to_read_pipe failed_to_send failed_to_receive :
      Error
  connection_closed server_not_responding failed_to_write_mail failed_to_listen : Error
  no_such_host connection_failed unknown_fd_type failed_to_open : Error
  failed_to_register failed_to_unregister pipe_not_found : Error
  -- `std::invalid_argument` and `std::out_of_range` of `std::stoi`, and the `exit(1)` of `usage`
  not_a_number number_out_of_range usage_shown : Error

-- What a call gives: its value, or what it throws.
pub data Result {ℓ} (Value : Type ℓ) : Type ℓ where
  throw : Error → Result Value
  ok : Value → Result Value

-- Throws unless the test holds.
abbrev pub guard : (test : Bool) → Error → Result (Unit {0})
guard false problem = throw problem
guard true problem = ok tt

pub guard-eq-ok : (test : Bool) (problem : Error) → guard test problem ≡ ok tt → test ≡ true
guard-eq-ok false problem h = cc
guard-eq-ok true problem h = refl

module _ {ℓ κ} {Value : Type ℓ} {Next : Type κ} where
  infixl 5 ◌>>=◌
  -- One statement, and then those that use its value.
  abbrev pub ◌>>=◌ : Result Value → (Value → Result Next) → Result Next
  throw problem >>= next = throw problem
  ok value >>= next = next value

  pub >>=_ext :
      (r : Result Value) (next next' : Value → Result Next)
      → ((value : Value) → next value ≡ next' value)
      → (r >>= next) ≡ (r >>= next')
  >>=_ext (throw problem) next next' h = refl
  >>=_ext (ok value) next next' h = h value

  pub >>=-eq-ok :
      (r : Result Value) (next : Value → Result Next) {n : Next}
      → (r >>= next) ≡ ok n
      → (value : Value) × (r ≡ ok value) × (next value ≡ ok n)
  >>=-eq-ok (throw problem) next h = cc
  >>=-eq-ok (ok value) next h = (value, refl, h)

-- Statements without a value.
infixl 5 ◌>>◌
abbrev pub ◌>>◌ {ℓ} : {Next : Type ℓ} → Result (Unit {0}) → Result Next → Result Next
step >> next = step >>= λ done. next
