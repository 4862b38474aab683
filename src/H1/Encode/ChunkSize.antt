-- ===== src/H1/Encode/ChunkSize.antt =====
-- `ChunkSize` of src/proto/h1/encode.rs: the hexadecimal size line of a chunk, written into an
-- array of 18 bytes (`usize` has 8 bytes). `none` is the panic of an `expect` or an `assert!`.
use kaiwaehnero.Base.{
  ℕ, zero, suc, ◌+◌, ◌-◌, ◌/◌, ◌%◌, ◌≤◌, ◌≡◌, refl, ◌∙◌, Option, none, some, [], ◌∷◌, ◌++◌, Bytes,
  ltb, leb, if◌then◌else◌, length, drop, arith,
}

abbrev pub chunk_size_max_bytes : ℕ
chunk_size_max_bytes = 16

-- The bytes written so far stand for the array; `len` is their number.
pub record ChunkSize : Type 0 where
  pub bytes : Bytes
  pub pos : ℕ
  pub len : ℕ

-- `{:X}` of a number below 16 ^ fuel, the digits in front of `acc`.
unfoldable pub hex_digit : ℕ → ℕ
hex_digit d = if ltb d 10 then b'0' + d else d + 55

unfoldable pub hex_digits : ℕ → ℕ → Bytes → Bytes
unfolding hex_digit
hex_digits zero n acc = acc
hex_digits (suc fuel) n acc =
    let rest = hex_digits fuel (n / 16) (hex_digit (n % 16) ∷ acc) in
    if ltb n 16 then hex_digit n ∷ acc else rest

-- `fmt::Write::write_str`.
unfoldable pub write_str : ChunkSize → Bytes → Option ChunkSize
write_str c num =
    if leb (c.len + length num) (chunk_size_max_bytes + 2)
    then some (record c { bytes = c.bytes ++ num; len = c.len + length num })
    else none

abbrev blank : ChunkSize
blank = record { bytes = []; pos = 0; len = 0 }

unfoldable pub new : ℕ → Option ChunkSize
new n = elim (write_str blank (hex_digits 16 n [])) [
  | none ↦ none
  | some c ↦ write_str c (13 ∷ 10 ∷ [])
]

pub remaining : ChunkSize → ℕ
remaining c = c.len - c.pos

abbrev pub chunk : ChunkSize → Bytes
chunk c = drop c.pos c.bytes

pub advance : ChunkSize → ℕ → Option ChunkSize
unfolding remaining
advance c cnt = if leb cnt (remaining c) then some (record c { pos = c.pos + cnt }) else none

length-hex_digits :
    (fuel n k : ℕ) (acc : Bytes) → length acc ≡ k → length (hex_digits fuel n acc) ≤ fuel + k
unfolding hex_digits
length-hex_digits zero n k acc h = omega arith
length-hex_digits (suc fuel) n k acc h =
    ground (arith, length-hex_digits fuel (n / 16) (suc k) (hex_digit (n % 16) ∷ acc))

write_str-fits :
    (c : ChunkSize) (num : Bytes)
    → c.len + length num ≤ 18
    → write_str c num ≡ some (record c { bytes = c.bytes ++ num; len = c.len + length num })
unfolding write_str
write_str-fits c num h = ground arith

-- The array is long enough for every `usize`: the `expect` of `ChunkSize::new` never fails.
pub new_lem :
    (n : ℕ)
    → new n
      ≡ some (record {
        bytes = hex_digits 16 n [] ++ 13 ∷ 10 ∷ [];
        pos = 0;
        len = length (hex_digits 16 n []) + 2;
      })
unfolding new
new_lem n =
    rw
      (
        write_str-fits blank (hex_digits 16 n []) (omega (arith, length-hex_digits 16 n 0 [] refl)),
        new,
      )
      (write_str-fits
          (record { bytes = hex_digits 16 n []; pos = 0; len = 0 + length (hex_digits 16 n []) })
          (13 ∷ 10 ∷ []) (omega (arith, length-hex_digits 16 n 0 [] refl))
        ∙ ground arith)
