-- ===== src/Common/Buf.antt =====
-- The trait `Buf` of the `bytes` crate, as far as src/common/buf.rs and src/proto/h1/io.rs call it, with what its
-- documentation promises. `held b` stands for the bytes that are in `b`; no function of the crate reads it.
use kaiwaehnero.Base.{ℕ, ◌≡◌, ◌≤◌, ◌⊎◌, Option, some, List, [], ◌++◌, Bytes, length, drop, concat}

-- `advance` is `none` where it panics. `chunks_vectored b n` are the slices put into `n` places.
pub record Buf (T : Type 0) : Type 0 where
  pub remaining : T → ℕ
  pub chunk : T → Bytes
  pub advance : T → ℕ → Option T
  pub chunks_vectored : T → ℕ → List Bytes

-- A first part that is empty only if all is.
pub record FirstPart (w c : Bytes) : Type 0 where
  pub rest : Bytes
  pub text : w ≡ c ++ rest
  pub some_part : c ≡ [] → w ≡ []

-- Slices that begin `w`, which end before it does only where no place is left.
pub record Slices (w : Bytes) (n : ℕ) (cs : List Bytes) : Type 0 where
  pub rest : Bytes
  pub count : length cs ≤ n
  pub text : w ≡ concat cs ++ rest
  pub whole : (length cs ≡ n) ⊎ (rest ≡ [])

pub record IsBuf {T : Type 0} (m : Buf T) (held : T → Bytes) : Type 0 where
  pub remaining_held : (b : T) → m.remaining b ≡ length (held b)
  pub chunk_held : (b : T) → FirstPart (held b) (m.chunk b)
  pub advance_held :
      (b : T) (n : ℕ)
      → n ≤ length (held b)
      → (b' : T) × (m.advance b n ≡ some b') × (held b' ≡ drop n (held b))
  pub slices : (b : T) (n : ℕ) → Slices (held b) n (m.chunks_vectored b n)
