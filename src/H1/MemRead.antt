-- ===== src/H1/MemRead.antt =====
-- The trait `MemRead` of src/proto/h1/io.rs, behind which a decoder reads: `read_mem(cx, len)`
-- gives at most `len` bytes. `wire r` stands for the bytes that the peer still sends through `r`
-- before it ends the stream; no function of the crate reads it.
use kaiwaehnero.Base.{ℕ, ◌≤◌, ◌≡◌, ◌⊎◌, [], ◌++◌, Bytes, length}
use kaiwaehnero.Poll.{Poll, pending, ready, Result, ok, err, transport}

pub record MemRead (R : Type 0) : Type 0 where
  pub read_mem : R → ℕ → R × Poll (Result Bytes)

-- What one read of at most `n` bytes may do to the unread bytes `w`, of which `w'` are left.
-- Nothing comes back only from an empty request or at the end of the stream.
abbrev pub Reads : Bytes → ℕ → Bytes → Poll (Result Bytes) → Type 0
Reads w n w' pending = w' ≡ w
Reads w n w' (ready (err e)) = (w' ≡ w) × (k : ℕ) × (e ≡ transport k)
Reads w n w' (ready (ok buf)) = (w ≡ buf ++ w') × (length buf ≤ n) × (buf ≡ [] → (n ≡ 0) ⊎ (w ≡ []))

pub record IsMemRead {R : Type 0} (m : MemRead R) (wire : R → Bytes) : Type 0 where
  pub reads : (r : R) (n : ℕ) → Reads (wire r) n (wire (m.read_mem r n).0) (m.read_mem r n).1
