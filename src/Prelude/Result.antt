-- ===== src/Prelude/Result.antt =====
-- `io::Result`: the kinds of `io::Error` that the code tells apart, and `?` as a bind.
use mathlib.Core.Bool.{Bool, false, true}

-- `io::ErrorKind`, as far as the modelled code makes or reads it; `io_failure` is a raw EIO.
pub data ErrorKind : Type 0 where
  invalid_data : ErrorKind
  invalid_input : ErrorKind
  not_found : ErrorKind
  unexpected_eof : ErrorKind
  unsupported : ErrorKind
  would_block : ErrorKind
  other_error : ErrorKind
  io_failure : ErrorKind

pub data Result {ℓ} (T : Type ℓ) : Type ℓ where
  err : ErrorKind → Result T
  ok : T → Result T

module _ {ℓ} {B : Type ℓ} where
  -- `?`: an error returns at once.
  infixl 5 ◌>>=◌
  abbrev pub ◌>>=◌ {κ} : {A : Type κ} → Result A → (A → Result B) → Result B
  err kind >>= rest = err kind
  ok value >>= rest = rest value

  -- The same for a test, which has no value.
  infixl 5 ◌>>◌
  abbrev pub ◌>>◌ : Result (Unit {0}) → Result B → Result B
  err kind >> rest = err kind
  ok done >> rest = rest

-- `if test { return Err(kind) }`.
abbrev pub refuse_if : Bool → ErrorKind → Result (Unit {0})
refuse_if false kind = ok tt
refuse_if true kind = err kind
