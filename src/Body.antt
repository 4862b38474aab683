-- ===== src/Body.antt =====
-- src/body/length.rs: the length of a body, one `u64` with two reserved values.
pub mod Laws
pub mod Stream
pub mod Sender
pub mod Delay
pub mod Demand
pub mod Hint
use kaiwaehnero.Base.{
  ℕ, ◌+◌, ◌-◌, ◌%◌, ◌||◌, Bool, Option, none, some, u64_mod, leb, ◌==◌, if◌then◌else◌,
}

abbrev pub u64_max : ℕ
u64_max = u64_mod - 1

abbrev pub max_len : ℕ
max_len = u64_max - 2

-- The tuple struct `DecodedLength(u64)`.
pub record DecodedLength : Type 0 where
  pub value : ℕ

abbrev pub close_delimited : DecodedLength
close_delimited = record { value = u64_max }

abbrev pub chunked : DecodedLength
chunked = record { value = u64_max - 1 }

abbrev pub zero_length : DecodedLength
zero_length = record { value = 0 }

-- `none` is `Err(Parse::TooLarge)`.
unfoldable pub checked_new : ℕ → Option DecodedLength
checked_new len = if leb len max_len then some (record { value = len }) else none

-- `impl From<Option<u64>>`.
unfoldable pub from_option : Option ℕ → DecodedLength
unfolding checked_new
from_option none = chunked
from_option (some len) = elim (checked_new len) [ none ↦ chunked | some d ↦ d ]

abbrev is_reserved : ℕ → Bool
is_reserved n = (n == u64_max - 1) || (n == u64_max)

unfoldable pub into_opt : DecodedLength → Option ℕ
into_opt d = if is_reserved d.value then none else some d.value

-- `*known -= amt`: in a release build the subtraction wraps.
unfoldable pub sub_if : DecodedLength → ℕ → DecodedLength
sub_if d amt =
    if is_reserved d.value then d else record { value = (d.value + u64_mod - amt) % u64_mod }

unfoldable pub danger_len : DecodedLength → ℕ
danger_len d = d.value

unfoldable pub is_exact : DecodedLength → Bool
is_exact d = leb d.value max_len
