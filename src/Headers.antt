-- ===== src/Headers.antt =====
-- src/headers.rs: what the crate reads out of header values. `to_str` is `HeaderValue::to_str` of
-- the `http` crate: the value as text, or `none` if it holds more than visible ASCII.
pub mod Digits
pub mod Lengths
pub mod Split
pub mod Numbers
use kaiwaehnero.Base.{
  ℕ, ◌+◌, ◌-◌, ◌*◌, Bool, true, false, ◌&&◌, ◌||◌, Option, none, some, List, [], ◌∷◌, ◌++◌, Bytes,
  leb, ltb, ◌==◌, if◌then◌else◌, is_empty,
}
use mathlib.Core.List.{reverse, map}
use kaiwaehnero.Body.{u64_max}

-- `s.split(',')`: one part more than there are commas.
pub split_at : Bytes → Bytes → List Bytes
split_at part [] = part ∷ []
split_at part (c ∷ s) = if c == b',' then part ∷ split_at [] s else split_at (part ++ c ∷ []) s

unfoldable pub split : Bytes → List Bytes
unfolding split_at
split s = split_at [] s

-- `trim` on ASCII text.
abbrev pub is_space : ℕ → Bool
is_space c = (leb 9 c && leb c 13) || (c == 32)

pub trim_start : Bytes → Bytes
trim_start [] = []
trim_start (c ∷ s) = if is_space c then trim_start s else c ∷ s

unfoldable pub trim : Bytes → Bytes
unfolding trim_start
trim s = reverse (trim_start (reverse (trim_start s)))

abbrev to_lower : ℕ → ℕ
to_lower c = if leb b'A' c && leb c b'Z' then c + 32 else c

abbrev pub bytes_eq : Bytes → Bytes → Bool
bytes_eq [] [] = true
bytes_eq (a ∷ s) (b ∷ t) = (a == b) && bytes_eq s t
bytes_eq _ _ = false

unfoldable pub eq_ignore_ascii_case : Bytes → Bytes → Bool
eq_ignore_ascii_case s t = bytes_eq (map to_lower s) (map to_lower t)

-- The loop of `from_digits`, with both `checked_` operations.
unfoldable pub digits_loop : ℕ → Bytes → Option ℕ
digits_loop result [] = some result
digits_loop result (b ∷ bs) =
    let rest = digits_loop (result * 10 + (b - b'0')) bs in
    if leb b'0' b && leb b b'9'
    then (if ltb u64_max (result * 10)
        then none
        else if ltb u64_max (result * 10 + (b - b'0'))
        then none
        else rest)
    else none

unfoldable pub from_digits : Bytes → Option ℕ
unfolding digits_loop
from_digits [] = none
from_digits (b ∷ bs) = digits_loop 0 (b ∷ bs)

unfoldable pub content_length_parse : Bytes → Option ℕ
content_length_parse value = from_digits value

-- The parts of one line: `none` is the early `return None`.
unfoldable pub parts_loop : Option ℕ → List Bytes → Option (Option ℕ)
parts_loop len [] = some len
parts_loop len (v ∷ vs) = elim (from_digits (trim v)) [
  | none ↦ none
  | some n ↦ elim len [
    | none ↦ parts_loop (some n) vs
    | some m ↦ if m == n then parts_loop (some m) vs else none
  ]
]

abbrev pub keep_alive_text : Bytes
keep_alive_text = b'k' ∷ b'e' ∷ b'e' ∷ b'p' ∷ b'-' ∷ b'a' ∷ b'l' ∷ b'i' ∷ b'v' ∷ b'e' ∷ []

abbrev pub close_text : Bytes
close_text = b'c' ∷ b'l' ∷ b'o' ∷ b's' ∷ b'e' ∷ []

abbrev pub chunked_text : Bytes
chunked_text = b'c' ∷ b'h' ∷ b'u' ∷ b'n' ∷ b'k' ∷ b'e' ∷ b'd' ∷ []

-- `rsplit(',').next()` and `next_back()`: the last of a list.
abbrev pub last : List Bytes → Option Bytes
last [] = none
last (x ∷ []) = some x
last (x ∷ y ∷ xs) = last (y ∷ xs)

module _ (to_str : Bytes → Option Bytes) where
  any_eq : Bytes → List Bytes → Bool
  any_eq needle [] = false
  any_eq needle (v ∷ vs) = eq_ignore_ascii_case (trim v) needle || any_eq needle vs

  unfoldable pub connection_has : Bytes → Bytes → Bool
  unfolding any_eq
  connection_has value needle = elim (to_str value) [
    | none ↦ false
    | some s ↦ any_eq needle (split s)
  ]

  unfoldable pub connection_keep_alive : Bytes → Bool
  connection_keep_alive value = connection_has value keep_alive_text

  unfoldable pub connection_close : Bytes → Bool
  connection_close value = connection_has value close_text

  unfoldable pub values_loop : Option ℕ → List Bytes → Option ℕ
  values_loop len [] = len
  values_loop len (h ∷ hs) = elim (to_str h) [
    | none ↦ none
    | some line ↦ elim (parts_loop len (split line)) [
      | none ↦ none
      | some len' ↦ values_loop len' hs
    ]
  ]

  unfoldable pub content_length_parse_all_values : List Bytes → Option ℕ
  unfolding values_loop
  content_length_parse_all_values values = values_loop none values

  unfoldable pub is_chunked_value : Bytes → Bool
  is_chunked_value value = elim (to_str value) [
    | none ↦ false
    | some s ↦ elim (last (split s)) [
      | none ↦ false
      | some encoding ↦ eq_ignore_ascii_case (trim encoding) chunked_text
    ]
  ]

  unfoldable pub is_chunked : List Bytes → Bool
  is_chunked encodings = elim (last encodings) [ none ↦ false | some line ↦ is_chunked_value line ]
