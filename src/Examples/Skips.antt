-- ===== src/Examples/Skips.antt =====
-- A client that reads a 100 before a 200, with a parser to which a head is one byte.
use kaiwaehnero.Base.{
  ℕ, ◌≤◌, ◌<◌, ◌≡◌, true, false, Option, none, some, [], ◌∷◌, Bytes, length, arith, ◌==◌,
  if◌then◌else◌,
}
use kaiwaehnero.H1.Role.{Status, complete, partial, Response}
use kaiwaehnero.H1.Role.Responses.{parse}
use kaiwaehnero.H1.Role.Skipping.{Right, parse-Right}

abbrev text : Bytes → Option Bytes
text v = some v

abbrev one_byte : Bytes → Status Response
one_byte [] = partial
one_byte (x ∷ xs) =
    complete 1 (record { code = if x == 1 then 100 else 200; minor = 1; headers = [] })

one_byte-takes :
    (b : Bytes) (len : ℕ) (r : Response)
    → one_byte b ≡ complete len r
    → (0 < len) × (len ≤ length b)
one_byte-takes [] len r e = ground arith
one_byte-takes (x ∷ xs) len r e = ground arith

parse-Right_example :
    Right text
      (λ n. true)
      one_byte
      false
      none
      (1 ∷ 2 ∷ 9 ∷ [])
      (parse text (λ n. true) one_byte false none (1 ∷ 2 ∷ 9 ∷ []))
parse-Right_example =
    parse-Right text (λ n. true) one_byte false none (1 ∷ 2 ∷ 9 ∷ []) one_byte-takes
