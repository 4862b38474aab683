-- ===== src/Headers/Lengths.antt =====
-- All the `content-length` values of a message, as src/headers.rs reads them.
use kaiwaehnero.Base.{
  ℕ, ◌≡◌, ◌≢◌, ap, ◌∙◌, Option, none, some, List, [], ◌∷◌, Bytes, ==_iff, ◌==◌, Option-cases,
  Bool-cases, inl, inr,
}
use kaiwaehnero.Headers.{
  from_digits, trim, split, parts_loop, values_loop, content_length_parse_all_values,
}

-- Every part of a line is the number `n`.
abbrev pub AllParts : ℕ → List Bytes → Type 0
AllParts n [] = Unit
AllParts n (v ∷ vs) = (from_digits (trim v) ≡ some n) × AllParts n vs

abbrev Keeps : ℕ → Option ℕ → Type 0
Keeps n none = Unit
Keeps n (some m) = m ≡ n

parts_loop-AllParts :
    (len : Option ℕ) (vs : List Bytes) (n : ℕ)
    → parts_loop len vs ≡ some (some n)
    → AllParts n vs × Keeps n len
unfolding parts_loop
parts_loop-AllParts none [] n h = cc
parts_loop-AllParts (some m) [] n h = (tt, cc)
parts_loop-AllParts none (v ∷ vs) n h = elim (Option-cases (from_digits (trim v))) [
  | inl e ↦ cc (rw (e, parts_loop) at h)
  | inr (m, e) ↦
      let (a, k) = parts_loop-AllParts (some m) vs n (rw (e, parts_loop) at h) in ((cc, a), tt)
]
parts_loop-AllParts (some k) (v ∷ vs) n h = elim (Option-cases (from_digits (trim v))) [
  | inl e ↦ cc (rw (e, parts_loop) at h)
  | inr (m, e) ↦ elim (Bool-cases (k == m)) [
    | inl same ↦
        let (a, q) = parts_loop-AllParts (some k) vs n (rw (e, same, parts_loop) at h) in
        let km : k ≡ m = (==_iff k m).0 same in ((cc, a), q)
    | inr other ↦ cc (rw (e, other, parts_loop) at h)
  ]
]

parts_loop-some : (m : ℕ) (vs : List Bytes) → parts_loop (some m) vs ≢ some none
unfolding parts_loop
parts_loop-some m [] h = cc
parts_loop-some m (v ∷ vs) h = elim (Option-cases (from_digits (trim v))) [
  | inl e ↦ cc (rw (e, parts_loop) at h)
  | inr (k, e) ↦ elim (Bool-cases (m == k)) [
    | inl same ↦ parts_loop-some m vs (rw (e, same, parts_loop) at h)
    | inr other ↦ cc (rw (e, other, parts_loop) at h)
  ]
]

parts_loop-none :
    (len : Option ℕ) (vs : List Bytes) (n : ℕ)
    → parts_loop len vs ≡ some none
    → AllParts n vs × Keeps n len
unfolding parts_loop
parts_loop-none none [] n h = (tt, tt)
parts_loop-none (some m) vs n h = absurd (parts_loop-some m vs h)
parts_loop-none none (v ∷ vs) n h = elim (Option-cases (from_digits (trim v))) [
  | inl e ↦ cc (rw (e, parts_loop) at h)
  | inr (k, e) ↦ absurd (parts_loop-some k vs (rw (e, parts_loop) at h))
]

module _ (to_str : Bytes → Option Bytes) where
  -- Every line is text, and every part of it is the number `n`.
  abbrev pub AllLines : ℕ → List Bytes → Type 0
  AllLines n [] = Unit
  AllLines n (h ∷ hs) =
      ((line : Bytes) × (to_str h ≡ some line) × AllParts n (split line)) × AllLines n hs

  values_loop-AllLines :
      (len : Option ℕ) (hs : List Bytes) (n : ℕ)
      → values_loop to_str len hs ≡ some n
      → AllLines n hs × Keeps n len
  unfolding values_loop
  values_loop-AllLines none [] n h = cc
  values_loop-AllLines (some m) [] n h = (tt, cc)
  values_loop-AllLines len (v ∷ hs) n h = elim (Option-cases (to_str v)) [
    | inl e ↦ cc (rw (e, values_loop) at h)
    | inr (line, e) ↦ elim (Option-cases (parts_loop len (split line))) [
      | inl f ↦ cc (rw (e, f, values_loop) at h)
      | inr (none, f) ↦
          let (a, q) = values_loop-AllLines none hs n (rw (e, f, values_loop) at h) in
          let (b, k) = parts_loop-none len (split line) n f in (((line, e, b), a), k)
      | inr (some m, f) ↦
          let (a, q) = values_loop-AllLines (some m) hs n (rw (e, f, values_loop) at h) in
          let (b, k) = parts_loop-AllParts len (split line) n (f ∙ ap (λ k. some (some k)) q) in
          (((line, e, b), a), k)
    ]
  ]

  -- A length that is read off several `content-length` lines is the number in every part of every
  -- line: lines that differ, or that are no numbers, are refused.
  pub content_length_parse_all_values-AllLines :
      (hs : List Bytes) (n : ℕ)
      → content_length_parse_all_values to_str hs ≡ some n
      → AllLines n hs × (hs ≢ [])
  unfolding content_length_parse_all_values
  content_length_parse_all_values-AllLines [] n h = cc
  content_length_parse_all_values-AllLines (v ∷ hs) n h =
      ((values_loop-AllLines none (v ∷ hs) n h).0, λ e. cc)
