-- ===== src/Common/BufList.antt =====
-- src/common/buf.rs: a list of buffers as one buffer.
pub mod Held
use kaiwaehnero.Base.{
  ℕ, ◌+◌, ◌-◌, Option, none, some, List, [], ◌∷◌, ◌++◌, Bytes, length, ltb, ◌==◌, if◌then◌else◌,
}
use kaiwaehnero.Common.Buf.{Buf}

pub record BufList (T : Type 0) : Type 0 where
  pub bufs : List T

module _ {T : Type 0} (m : Buf T) where
  unfoldable pub new : BufList T
  new = record { bufs = [] }

  unfoldable pub push : BufList T → T → BufList T
  push l b = record { bufs = l.bufs ++ (b ∷ []) }

  unfoldable pub bufs_cnt : BufList T → ℕ
  bufs_cnt l = length l.bufs

  unfoldable pub sum_remaining : List T → ℕ
  sum_remaining [] = 0
  sum_remaining (b ∷ bs) = m.remaining b + sum_remaining bs

  unfoldable pub remaining : BufList T → ℕ
  unfolding sum_remaining
  remaining l = sum_remaining l.bufs

  -- `while cnt > 0`; `self.bufs[0]` panics where there is no buffer.
  unfoldable pub advance_loop : List T → ℕ → Option (List T)
  advance_loop [] cnt = if cnt == 0 then some [] else none
  advance_loop (b ∷ bs) cnt =
      let rem = m.remaining b in
      let rest = advance_loop bs (cnt - rem) in
      if cnt == 0
      then some (b ∷ bs)
      else if ltb cnt rem
      then elim (m.advance b cnt) [ none ↦ none | some b' ↦ some (b' ∷ bs) ]
      else elim (m.advance b rem) [ none ↦ none | some b' ↦ rest ]

  unfoldable pub with_bufs : Option (List T) → Option (BufList T)
  with_bufs none = none
  with_bufs (some bs) = some (record { bufs = bs })

  unfoldable pub advance : BufList T → ℕ → Option (BufList T)
  unfolding advance_loop with_bufs
  advance l cnt = with_bufs (advance_loop l.bufs cnt)

  -- The places left are `dst[vecs..]`.
  unfoldable pub slices_loop : List T → ℕ → List Bytes
  slices_loop [] n = []
  slices_loop (b ∷ bs) n =
      let cs = m.chunks_vectored b n in
      let rest = slices_loop bs (n - length cs) in if length cs == n then cs else cs ++ rest

  unfoldable pub chunks_vectored : BufList T → ℕ → List Bytes
  unfolding slices_loop
  chunks_vectored l n = if n == 0 then [] else slices_loop l.bufs n
