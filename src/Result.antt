-- ===== src/Result.antt =====
-- Python exceptions as values (the classes of pybtp/types.py and the built-in ones that the code
-- can raise), and two ways to run code that raises: `Result`, and `Exec` over a mutable object.
use btptester_core.Prelude.{◌≡◌, refl}

-- BTPError and its subclasses (types.py), then the exceptions of Python and its library:
-- struct.error, socket.timeout, binascii.Error (as `value_error`, its base class) and so on.
pub data Exc : Type 0 where
  btp_error btp_error_invalid_service_id btp_error_invalid_status btp_error_invalid_opcode : Exc
  struct_error key_error index_error type_error value_error attribute_error assertion_error : Exc
  socket_timeout plain_exception run_end timeout_error skip_test : Exc

pub data Result {ℓ} (A : Type ℓ) : Type ℓ where
  ok : A → Result A
  err : Exc → Result A

module _ {ℓ κ} {A : Type ℓ} {B : Type κ} where
  infixl 5 ◌>>=◌
  abbrev pub ◌>>=◌ : Result A → (A → Result B) → Result B
  err e >>= next = err e
  ok x >>= next = next x

  -- Code that has run to its end has run both parts to their ends.
  pub >>=-eq-ok :
      (first : Result A) (next : A → Result B) {y : B}
      → (first >>= next) ≡ ok y
      → (x : A) × (first ≡ ok x) × (next x ≡ ok y)
  >>=-eq-ok (err e) next run = cc
  >>=-eq-ok (ok x) next run = (x, refl, run)

infixl 5 ◌>>◌
abbrev pub ◌>>◌ {ℓ} : {B : Type ℓ} → Result (Unit {0}) → Result B → Result B
err e >> later = err e
ok done >> later = later
