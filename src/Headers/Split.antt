-- ===== src/Headers/Split.antt =====
-- A value that ends in ", chunked", as src/headers.rs reads it.
use kaiwaehnero.Base.{
  none, false, Bool, ap, sym, ◌≡◌, ◌≢◌, ◌⊎◌, refl, ◌∙◌, true, Option, some, Bytes, List, [], ◌∷◌,
  ◌++◌, ◌==◌, Bool-cases, inl, inr,
}
use kaiwaehnero.Headers.{
  split_at, split, trim, last, eq_ignore_ascii_case, is_chunked_value, chunked_text,
}

pub last-cons : (x : Bytes) (l : List Bytes) → l ≢ [] → last (x ∷ l) ≡ last l
last-cons x [] h = absurd (h refl)
last-cons x (y ∷ l) h = refl

split_at-some : (part s : Bytes) → split_at part s ≢ []
unfolding split_at
split_at-some part [] h = cc
split_at-some part (c ∷ s) h = elim (Bool-cases (c == b',')) [
  | inl e ↦ cc (rw (e, split_at) at h)
  | inr e ↦ split_at-some (part ++ c ∷ []) s (rw (e, split_at) at h)
]

-- What comes after the last comma does not depend on what is before it.
last-split_at : (part s t : Bytes) → last (split_at part (s ++ b',' ∷ t)) ≡ last (split_at [] t)
unfolding split_at
last-split_at part [] t = last-cons part (split_at [] t) (split_at-some [] t)
last-split_at part (c ∷ s) t = elim (Bool-cases (c == b',')) [
  | inl e ↦ rw (e) (
      last-cons part (split_at [] (s ++ b',' ∷ t)) (split_at-some [] (s ++ b',' ∷ t))
      ∙ last-split_at [] s t)
  | inr e ↦ rw (e) (last-split_at (part ++ c ∷ []) s t)
]

abbrev pub and_chunked : Bytes
and_chunked = b',' ∷ 32 ∷ chunked_text

module _ (to_str : Bytes → Option Bytes) where
  pub is_chunked_value-append :
      (v : Bytes)
      → to_str (v ++ and_chunked) ≡ some (v ++ and_chunked)
      → is_chunked_value to_str (v ++ and_chunked) ≡ true
  unfolding is_chunked_value split split_at trim eq_ignore_ascii_case
  is_chunked_value-append v h =
      rw (is_chunked_value, h, split, last-split_at [] v (32 ∷ chunked_text)) refl

  pub is_chunked_value-text :
      to_str chunked_text ≡ some chunked_text → is_chunked_value to_str chunked_text ≡ true
  unfolding is_chunked_value split trim eq_ignore_ascii_case
  is_chunked_value-text h = rw (is_chunked_value, h) refl

-- What the laws of `HeaderValue::to_str` say of visible ASCII: text put after text is text, and so is the
-- beginning of a text.
pub record IsToStr (to_str : Bytes → Option Bytes) : Type 0 where
  pub joined :
      (a b : Bytes) → to_str a ≡ some a → to_str b ≡ some b → to_str (a ++ b) ≡ some (a ++ b)
  pub prefix : (a b : Bytes) → to_str (a ++ b) ≡ some (a ++ b) → to_str a ≡ some a
  pub comma : to_str (b',' ∷ 32 ∷ []) ≡ some (b',' ∷ 32 ∷ [])
  pub chunked : to_str chunked_text ≡ some chunked_text

-- A space before the first part changes that part only, by the space.
last_space :
    (p v : Bytes)
    → (last (split_at (32 ∷ p) v) ≡ last (split_at p v))
      ⊎ ((x : Bytes) × (last (split_at p v) ≡ some x)
          × (last (split_at (32 ∷ p) v) ≡ some (32 ∷ x)))
unfolding split_at
last_space p [] = inr (p, refl, refl)
last_space p (c ∷ v) = elim (Bool-cases (c == b',')) [
  | inl e ↦ inl (
      rw (e) (
        last-cons (32 ∷ p) (split_at [] v) (split_at-some [] v)
        ∙ sym (last-cons p (split_at [] v) (split_at-some [] v))))
  | inr e ↦ rw (e) (last_space (p ++ c ∷ []) v)
]

abbrev judge : Option Bytes → Bool
judge none = false
judge (some part) = eq_ignore_ascii_case (trim part) chunked_text

judge_space : (x : Bytes) → judge (some (32 ∷ x)) ≡ judge (some x)
unfolding trim
judge_space x = refl

is_chunked_value-judge :
    (to_str : Bytes → Option Bytes) (v : Bytes)
    → to_str v ≡ some v
    → is_chunked_value to_str v ≡ judge (last (split v))
unfolding is_chunked_value
is_chunked_value-judge to_str v h = by_last (last (split v)) refl
  where
    by_last :
        (o : Option Bytes) → last (split v) ≡ o → is_chunked_value to_str v ≡ judge (last (split v))
    by_last none e = rw (is_chunked_value, h, e) refl
    by_last (some x) e = rw (is_chunked_value, h, e) refl

judge-last : (v : Bytes) → judge (last (split_at (32 ∷ []) v)) ≡ judge (last (split v))
unfolding split
judge-last v = elim (last_space [] v) [
  | inl e ↦ ap judge e
  | inr (x, e, f) ↦ ap judge f ∙ judge_space x ∙ ap judge (sym e)
]

-- What is before a comma does not tell whether a value is chunked.
pub is_chunked_value-comma :
    (to_str : Bytes → Option Bytes) (w v : Bytes)
    → to_str (w ++ b',' ∷ 32 ∷ v) ≡ some (w ++ b',' ∷ 32 ∷ v)
    → to_str v ≡ some v
    → is_chunked_value to_str (w ++ b',' ∷ 32 ∷ v) ≡ is_chunked_value to_str v
unfolding split split_at
is_chunked_value-comma to_str w v h k =
    is_chunked_value-judge to_str (w ++ b',' ∷ 32 ∷ v) h
    ∙ ap judge (last-split_at [] w (32 ∷ v))
    ∙ judge-last v
    ∙ sym (is_chunked_value-judge to_str v k)
