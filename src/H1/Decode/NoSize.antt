-- ===== src/H1/Decode/NoSize.antt =====
-- A size line without a digit, which src/proto/h1/decode.rs reads as the size 0.
use kaiwaehnero.Base.{
  ℕ, ◌<◌, ◌≡◌, ◌≢◌, refl, ap, sym, ◌∙◌, subst, ◌⊎◌, inl, inr, [], ◌∷◌, ◌++◌, Bytes, Option, none,
  some, length, arith,
}
use kaiwaehnero.Poll.{Poll, pending, ready, Result, ok, err, transport}
use kaiwaehnero.H1.MemRead.{MemRead, IsMemRead}
use kaiwaehnero.H1.Decode.{ChunkedState, size, size_lws, extension, chunked, read_byte, decode}
use kaiwaehnero.H1.Decode.Reference.{Decoded, prepend, continue_with, decode_all}
use kaiwaehnero.H1.Decode.Refine.{IsOpen}
use kaiwaehnero.H1.Decode.Drains.{Returns-Holds}
use kaiwaehnero.H1.Decode.Passes.{Given, Passed, AllPassed, chunk_loop-Passed}
use kaiwaehnero.H1.Decode.Total.{Outcome, chunk_loop-Returns}

-- Tabs and spaces.
abbrev pub IsBlank : Bytes → Type 0
IsBlank [] = Unit
IsBlank (b ∷ bs) = ((b ≡ 9) ⊎ (b ≡ 32)) × IsBlank bs

-- No line feed and no carriage return.
abbrev pub IsText : Bytes → Type 0
IsText [] = Unit
IsText (b ∷ bs) = (b ≢ 13) × (b ≢ 10) × IsText bs

-- The end of the line, an empty line, and what follows the body.
abbrev line_end : Bytes → Bytes
line_end rest = 13 ∷ 10 ∷ 13 ∷ 10 ∷ rest

-- A size line of blanks and maybe an extension, and an empty line.
abbrev pub no_size_line : Bytes → Option Bytes → Bytes → Bytes
no_size_line blanks none rest = blanks ++ line_end rest
no_size_line blanks (some text) rest = blanks ++ 59 ∷ (text ++ line_end rest)

abbrev pub IsExtension : Option Bytes → Type 0
IsExtension none = Unit
IsExtension (some text) = IsText text

next_byte :
    (w : Bytes) (d : Decoded) (s : ChunkedState) (x : ℕ × Result ChunkedState)
    → x ≡ (0, ok s)
    → decode_all s 0 w ≡ d
    → continue_with (λ s' n'. decode_all s' n' w) x ≡ d
next_byte w d s x e h = rw (e) h

extension-text :
    (text rest : Bytes)
    → IsText text
    → decode_all extension 0 (text ++ line_end rest) ≡ ([], ok rest)
unfolding decode_all read_byte
extension-text [] rest h = refl
extension-text (b ∷ bs) rest (h, k, l) =
    next_byte (bs ++ line_end rest) ([], ok rest) extension (read_byte extension 0 b) (ground arith)
      (extension-text bs rest l)

size_lws-line :
    (blanks : Bytes) (ext : Option Bytes) (rest : Bytes)
    → IsBlank blanks
    → IsExtension ext
    → decode_all size_lws 0 (no_size_line blanks ext rest) ≡ ([], ok rest)
unfolding decode_all read_byte
size_lws-line [] none rest h k = refl
size_lws-line [] (some text) rest h k = extension-text text rest k
size_lws-line (b ∷ bs) none rest (h, l) k =
    next_byte (no_size_line bs none rest) ([], ok rest) size_lws (read_byte size_lws 0 b)
      (ground arith) (size_lws-line bs none rest l k)
size_lws-line (b ∷ bs) (some text) rest (h, l) k =
    next_byte (no_size_line bs (some text) rest) ([], ok rest) size_lws (read_byte size_lws 0 b)
      (ground arith) (size_lws-line bs (some text) rest l k)

size-line :
    (blanks : Bytes) (ext : Option Bytes) (rest : Bytes)
    → IsBlank blanks
    → IsExtension ext
    → decode_all size 0 (no_size_line blanks ext rest) ≡ ([], ok rest)
unfolding decode_all read_byte
size-line [] none rest h k = refl
size-line [] (some text) rest h k = extension-text text rest k
size-line (b ∷ bs) none rest (h, l) k =
    next_byte (no_size_line bs none rest) ([], ok rest) size_lws (read_byte size 0 b) (ground arith)
      (size_lws-line bs none rest l k)
size-line (b ∷ bs) (some text) rest (h, l) k =
    next_byte (no_size_line bs (some text) rest) ([], ok rest) size_lws (read_byte size 0 b)
      (ground arith) (size_lws-line bs (some text) rest l k)

no_bytes : (buf x : Bytes) → buf ++ x ≡ [] → buf ≡ []
no_bytes [] x h = refl
no_bytes (b ∷ bs) x h = cc

module _ {R : Type 0} (m : MemRead R) (wire : R → Bytes) where
  -- The polls from the start of a body, all of which wait.
  pub data Waited (r : R) : R → ChunkedState → ℕ → Type 0 where
    begin : Waited r r size 0
    again :
        {r' r'' : R} {s s' : ChunkedState} {n n' : ℕ} (word fuel : ℕ)
        → 1 < word
        → Waited r r' s n
        → length (wire r') < fuel
        → decode m word fuel r' (chunked s n) ≡ some (r'', chunked s' n', pending)
        → Waited r r'' s' n'

  -- The poll waits as the reader has, or it is the end of a body without a byte, before `rest`, or the transport fails.
  abbrev pub NoBody : Bytes → R → Poll (Result Bytes) → Type 0
  NoBody rest r pending = Given m pending
  NoBody rest r (ready (ok buf)) = (buf ≡ []) × (wire r ≡ rest)
  NoBody rest r (ready (err e)) = (k : ℕ) × (e ≡ transport k) × Given m (ready (err e))

  Outcome-NoBody :
      (rest : Bytes) (d : Decoded) (r : R) (s : ChunkedState) (n : ℕ) (p : Poll (Result Bytes))
      → d ≡ ([], ok rest)
      → Outcome d s n (wire r) p
      → Passed m p
      → NoBody rest r p
  unfolding decode_all
  Outcome-NoBody rest d r s n pending e o g = g
  Outcome-NoBody rest d r s n (ready (err x)) e (inl o) g = cc
  Outcome-NoBody rest d r s n (ready (err x)) e (inr (o, h, k, q)) g = (
    k,
    q,
    subst (λ x. Passed m {A = Bytes} (ready (err x)) → Given m (ready (err x))) (sym q) (λ h. h) g,
  )
  Outcome-NoBody rest d r s n (ready (ok buf)) e (o, h, (i, j)) g =
      let q : prepend buf (decode_all s n (wire r)) ≡ ([], ok rest) = sym o ∙ e in
      let z = no_bytes buf (decode_all s n (wire r)).0 (ap (λ x. x.0) q) in
      let f : decode_all s n (wire r) ≡ ([], ok (wire r)) =
        ap (λ x. decode_all x n (wire r)) (i z) in
      (z, cc)

  Waited-decode_all :
      (i : IsMemRead m wire) {r0 r : R} {s : ChunkedState} {n : ℕ} (d : Decoded)
      → decode_all size 0 (wire r0) ≡ d
      → Waited r0 r s n
      → (decode_all s n (wire r) ≡ d) × IsOpen s n
  unfolding decode
  Waited-decode_all i d e begin = (e, omega arith)
  Waited-decode_all i d e (again {r'} {r''} {s} {s'} {n} {n'} word fuel v w h q) =
      let (f, g) = Waited-decode_all i d e w in
      let (o, k) = Returns-Holds m wire (chunk_loop-Returns m wire i word v fuel r' s n g h) q in
      (sym o ∙ f, k)

  -- A chunked body begins with a size line without a digit: blanks, maybe an extension, which is any text in one line,
  -- and an empty line follows. The reference reads no error there but a body without a byte. After any polls that
  -- waited, a poll of the decoder over a reader that keeps its laws, where a usize has at least one bit and with more
  -- fuel than unread bytes, does no other than wait where the reader has waited, pass on an error that the transport has
  -- given, or end the body without a byte, with all that follows left.
  pub decode_no_size :
      (i : IsMemRead m wire) (blanks : Bytes) (ext : Option Bytes) (rest : Bytes) (word fuel : ℕ)
      {r0 r : R} {s : ChunkedState} {n : ℕ}
      → 1 < word
      → IsBlank blanks
      → IsExtension ext
      → wire r0 ≡ no_size_line blanks ext rest
      → Waited r0 r s n
      → length (wire r) < fuel
      → (decode_all size 0 (wire r0) ≡ ([], ok rest))
        × (r' : R) × (s' : ChunkedState) × (n' : ℕ) × (p : Poll (Result Bytes)) × (decode m word
              fuel r
              (chunked s n)
            ≡ some (r', chunked s' n', p))
        × NoBody rest r' p
  unfolding decode
  decode_no_size i blanks ext rest word fuel {r0} {r} {s} {n} v h k q w l =
      let all : decode_all size 0 (wire r0) ≡ ([], ok rest) =
        rw q (size-line blanks ext rest h k) in
      let (e, g) = Waited-decode_all i ([], ok rest) all w in
      let (r', s', n', p, f, o) = chunk_loop-Returns m wire i word v fuel r s n g l in
      (
        all,
        r',
        s',
        n',
        p,
        f,
        Outcome-NoBody rest (decode_all s n (wire r)) r' s' n' p e o
            (subst (AllPassed m) f (chunk_loop-Passed m word fuel r s n)),
      )
