-- ===== src/Poll.antt =====
-- What an asynchronous operation of the crate returns: `Poll<io::Result<A>>`. An I/O error is
-- known by its kind; an error that the transport reports carries a number of the transport's own.
use kaiwaehnero.Base.{ℕ}

pub data ErrorKind : Type 0 where
  unexpected_eof invalid_data invalid_input write_zero : ErrorKind
  transport : ℕ → ErrorKind

pub data Result {ℓ} (A : Type ℓ) : Type ℓ where
  ok : A → Result A
  err : ErrorKind → Result A

pub data Poll {ℓ} (A : Type ℓ) : Type ℓ where
  pending : Poll A
  ready : A → Poll A
