-- ===== src/Headers/Numbers.antt =====
-- A number alone in a header value, as src/headers.rs reads it among several.
use kaiwaehnero.Base.{
  ◌-◌, ◌+◌, ◌*◌, subst, append-nil, ℕ, ◌≡◌, ◌≢◌, ==_iff, List, refl, ap, sym, ◌∙◌, true, ◌&&◌,
  Option, none, some, Bytes, [], ◌∷◌, ◌++◌, leb, Bool-cases, inl, inr, arith, append_assoc,
}
use kaiwaehnero.Headers.{
  digits_loop, from_digits, content_length_parse, split_at, split, trim, trim_start, parts_loop,
  values_loop, content_length_parse_all_values,
}
use mathlib.Core.List.{reverse-cons, reverse-reverse, reverse}

abbrev AllDigits : Bytes → Type 0
AllDigits [] = Unit
AllDigits (b ∷ bs) = ((leb b'0' b && leb b b'9') ≡ true) × AllDigits bs

digits_loop-AllDigits : (acc : ℕ) (bs : Bytes) (n : ℕ) → digits_loop acc bs ≡ some n → AllDigits bs
unfolding digits_loop
digits_loop-AllDigits acc [] n h = tt
digits_loop-AllDigits acc (b ∷ bs) n h = elim (Bool-cases (leb b'0' b && leb b b'9')) [
  | inl d ↦ (d, digits_loop-AllDigits (acc * 10 + (b - b'0')) bs n (ground arith))
  | inr d ↦ cc (rw (digits_loop, d) at h)
]

from_digits-AllDigits : (bs : Bytes) (n : ℕ) → from_digits bs ≡ some n → AllDigits bs × (bs ≢ [])
unfolding from_digits
from_digits-AllDigits [] n h = cc
from_digits-AllDigits (b ∷ bs) n h = (digits_loop-AllDigits 0 (b ∷ bs) n h, λ e. cc)

split_at-digits : (part bs : Bytes) → AllDigits bs → split_at part bs ≡ (part ++ bs) ∷ []
unfolding split_at
split_at-digits part [] d = ap (λ l. l ∷ []) (sym (append-nil part))
split_at-digits part (b ∷ bs) d =
    ground (arith, split_at-digits (part ++ b ∷ []) bs d.1, append_assoc part (b ∷ []) bs)

trim_start-digits : (bs : Bytes) → AllDigits bs → trim_start bs ≡ bs
unfolding trim_start
trim_start-digits [] d = refl
trim_start-digits (b ∷ bs) d = ground arith

AllDigits-append : (a b : Bytes) → AllDigits a → AllDigits b → AllDigits (a ++ b)
AllDigits-append [] b p q = q
AllDigits-append (x ∷ a) b p q = (p.0, AllDigits-append a b p.1 q)

AllDigits-reverse : (a : Bytes) → AllDigits a → AllDigits (reverse a)
AllDigits-reverse [] p = tt
AllDigits-reverse (x ∷ a) p =
    subst AllDigits (sym (reverse-cons x a))
      (AllDigits-append (reverse a) (x ∷ []) (AllDigits-reverse a p.1) (p.0, tt))

trim-digits : (bs : Bytes) → AllDigits bs → trim bs ≡ bs
unfolding trim
trim-digits bs d =
    ap (λ l. reverse (trim_start (reverse l))) (trim_start-digits bs d)
    ∙ ap reverse (trim_start-digits (reverse bs) (AllDigits-reverse bs d))
    ∙ reverse-reverse bs

-- A content-length that is one number is the length of the message.
pub content_length_parse_all_values-single :
    (to_str : Bytes → Option Bytes) (v : Bytes) (n : ℕ)
    → to_str v ≡ some v
    → content_length_parse v ≡ some n
    → content_length_parse_all_values to_str (v ∷ []) ≡ some n
unfolding content_length_parse content_length_parse_all_values values_loop parts_loop split
content_length_parse_all_values-single to_str v n t h =
    let (d, e) = from_digits-AllDigits v n h in
    rw
      (
        content_length_parse_all_values,
        values_loop,
        t,
        split_at-digits [] v d,
        parts_loop,
        trim-digits v d,
        h,
      )
      refl

pub content_length_parse_all_values-nil :
    (to_str : Bytes → Option Bytes) → content_length_parse_all_values to_str [] ≡ none
unfolding content_length_parse_all_values values_loop
content_length_parse_all_values-nil to_str = refl

values_loop-first :
    (to_str : Bytes → Option Bytes) (v : Bytes) (vs : List Bytes) (n : ℕ)
    → to_str v ≡ some v
    → content_length_parse v ≡ some n
    → values_loop to_str none (v ∷ vs) ≡ values_loop to_str (some n) vs
unfolding content_length_parse values_loop parts_loop split
values_loop-first to_str v vs n t h =
    let (d, e) = from_digits-AllDigits v n h in
    rw (values_loop, t, split_at-digits [] v d, parts_loop, trim-digits v d, h) refl

values_loop-same :
    (to_str : Bytes → Option Bytes) (v : Bytes) (vs : List Bytes) (n : ℕ)
    → to_str v ≡ some v
    → content_length_parse v ≡ some n
    → values_loop to_str (some n) (v ∷ vs) ≡ values_loop to_str (some n) vs
unfolding content_length_parse values_loop parts_loop split
values_loop-same to_str v vs n t h =
    let (d, e) = from_digits-AllDigits v n h in
    rw (values_loop, t, split_at-digits [] v d, parts_loop, trim-digits v d, h, (==_iff n n).1 refl)
      refl

-- Every value is the number `n`.
abbrev pub AllLengths : ℕ → List Bytes → Type 0
AllLengths n [] = Unit
AllLengths n (v ∷ vs) = (content_length_parse v ≡ some n) × AllLengths n vs

values_loop-AllLengths :
    (to_str : Bytes → Option Bytes) (vs : List Bytes) (n : ℕ)
    → ((v : Bytes) (k : ℕ) → content_length_parse v ≡ some k → to_str v ≡ some v)
    → AllLengths n vs
    → values_loop to_str (some n) vs ≡ some n
unfolding values_loop
values_loop-AllLengths to_str [] n t a = refl
values_loop-AllLengths to_str (v ∷ vs) n t (h, a) =
    values_loop-same to_str v vs n (t v n h) h ∙ values_loop-AllLengths to_str vs n t a

-- Content-lengths that are all one number are the length of the message.
pub content_length_parse_all_values-AllLengths :
    (to_str : Bytes → Option Bytes) (vs : List Bytes) (n : ℕ)
    → ((v : Bytes) (k : ℕ) → content_length_parse v ≡ some k → to_str v ≡ some v)
    → vs ≢ []
    → AllLengths n vs
    → content_length_parse_all_values to_str vs ≡ some n
unfolding content_length_parse_all_values
content_length_parse_all_values-AllLengths to_str [] n t e a = absurd (e refl)
content_length_parse_all_values-AllLengths to_str (v ∷ vs) n t e (h, a) =
    values_loop-first to_str v vs n (t v n h) h ∙ values_loop-AllLengths to_str vs n t a
