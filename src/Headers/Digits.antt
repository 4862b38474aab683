-- ===== src/Headers/Digits.antt =====
-- `from_digits` of src/headers.rs against the plain reading of a decimal numeral.
use kaiwaehnero.Base.{
  ℕ, ◌+◌, ◌-◌, ◌*◌, ◌≤◌, ◌<◌, ◌≡◌, ◌≢◌, refl, sym, ◌∙◌, ◌&&◌, Option, none, some, [], ◌∷◌, Bytes,
  leb, ltb, if◌then◌else◌, arith, u64_mod,
}
use kaiwaehnero.Headers.{from_digits, digits_loop}

-- The number that a numeral stands for, of any size.
pub numeral : ℕ → Bytes → Option ℕ
numeral acc [] = some acc
numeral acc (b ∷ bs) =
    let rest = numeral (acc * 10 + (b - b'0')) bs in if leb b'0' b && leb b b'9' then rest else none

abbrev pub below_u64 : Option ℕ → Option ℕ
below_u64 none = none
below_u64 (some n) = if ltb n u64_mod then some n else none

-- A number only grows as digits follow: past a `u64` it stays past it.
numeral_large : (acc : ℕ) (bs : Bytes) → u64_mod ≤ acc → below_u64 (numeral acc bs) ≡ none
unfolding numeral
numeral_large acc [] h = ground arith
numeral_large acc (b ∷ bs) h = ground (arith, numeral_large (acc * 10 + (b - b'0')) bs)

digits_loop-numeral :
    (acc : ℕ) (bs : Bytes) → acc < u64_mod → digits_loop acc bs ≡ below_u64 (numeral acc bs)
unfolding numeral digits_loop
digits_loop-numeral acc [] h = ground arith
digits_loop-numeral acc (b ∷ bs) h = ground (
  arith,
  digits_loop-numeral (acc * 10 + (b - b'0')) bs,
  numeral_large (acc * 10 + (b - b'0')) bs,
)

-- The digits of a header value that is not empty are read as the number that they stand for: anything but
-- digits, and a number that does not fit a `u64`, are refused.
pub from_digits-numeral : (bs : Bytes) → bs ≢ [] → from_digits bs ≡ below_u64 (numeral 0 bs)
unfolding from_digits
from_digits-numeral [] h = absurd (h refl)
from_digits-numeral (b ∷ bs) h = digits_loop-numeral 0 (b ∷ bs) (omega arith)

pub from_digits-lt : (bs : Bytes) (n : ℕ) → from_digits bs ≡ some n → n < u64_mod
unfolding from_digits
from_digits-lt [] n h = cc
from_digits-lt (b ∷ bs) n h =
    bounded (numeral 0 (b ∷ bs)) (sym (from_digits-numeral (b ∷ bs) (λ e. cc)) ∙ h)
  where
    bounded : (o : Option ℕ) → below_u64 o ≡ some n → n < u64_mod
    bounded none e = cc
    bounded (some m) e = ground arith
