-- ===== src/H1/Role/Reply/Loop.antt =====
-- The loop over a response's headers in `Server::encode_headers` of src/proto/h1/role.rs.
use kaiwaehnero.Base.{
  ◌≡◌, refl, ap, sym, ◌∙◌, subst, true, false, Option, none, some, List, [], ◌∷◌, Bytes, arith,
  if◌then◌else◌, Bool-cases, Option-cases, inl, inr, some-injective, ==_iff,
}
use kaiwaehnero.Http.{
  Header, HeaderName, transfer_encoding, content_length, connection, expect, upgrade, date,
  other_header,
}
use kaiwaehnero.Headers.{bytes_eq}
use kaiwaehnero.Headers.Split.{IsToStr}
use kaiwaehnero.H1.Role.Server.{can_chunked}
use kaiwaehnero.H1.Role.Reply.{
  Scribe, Response, same_name, is_new, drain_from, begin_line, add_value, plain_line, new_name,
  parsed_length, length_line, on_length, on_encoding, on_connection, on_value, on_current, on_entry,
  write_headers,
}
use kaiwaehnero.H1.Role.Reply.Lines.{shut_lines}
use kaiwaehnero.H1.Role.Reply.Step.{Good, new_name-Good}
use kaiwaehnero.H1.Role.Reply.Coding.{Trusted, on_value-Good}

bytes_eq-eq : (a b : Bytes) → bytes_eq a b ≡ true → a ≡ b
bytes_eq-eq [] [] h = refl
bytes_eq-eq [] (y ∷ b) h = cc
bytes_eq-eq (x ∷ a) [] h = cc
bytes_eq-eq (x ∷ a) (y ∷ b) h = ground (arith, ==_iff x y, bytes_eq-eq a b)

same_name-eq : (a b : HeaderName) → same_name a b ≡ true → a ≡ b
same_name-eq transfer_encoding transfer_encoding h = refl
same_name-eq content_length content_length h = refl
same_name-eq connection connection h = refl
same_name-eq expect expect h = refl
same_name-eq upgrade upgrade h = refl
same_name-eq date date h = refl
same_name-eq (other_header a) (other_header b) h = ap other_header (bytes_eq-eq a b h)
same_name-eq a b h = cc

old_name : (m : Option HeaderName) (n : HeaderName) → is_new m n ≡ false → m ≡ some n
old_name none n h = cc
old_name (some k) n h = ap some (same_name-eq k n (ground arith))

module _ (to_str : Bytes → Option Bytes) (name : HeaderName → Bytes) (r : Response)
    (orig : Bytes) where
  on_value-cur_name :
      (n : HeaderName) (v : Bytes) (s s' : Scribe)
      → on_value to_str name r n v s ≡ some s'
      → s'.cur_name ≡ s.cur_name
  unfolding on_value on_length length_line parsed_length on_encoding on_connection begin_line
      add_value plain_line
  on_value-cur_name content_length v s s' e = ground arith
  on_value-cur_name transfer_encoding v s s' e = ground arith
  on_value-cur_name connection v s s' e = ground arith
  on_value-cur_name date v s s' e = ground arith
  on_value-cur_name expect v s s' e = ground arith
  on_value-cur_name upgrade v s s' e = ground arith
  on_value-cur_name (other_header x) v s s' e = ground arith

  entry_new :
      (m : Option HeaderName) (h : Header) (s : Scribe)
      → is_new m h.name ≡ true
      → on_entry to_str name r (if is_new m h.name then some h.name else none) h.value s
        ≡ on_value to_str name r h.name h.value (new_name to_str name r (some h.name) s)
  unfolding on_entry on_current new_name
  entry_new m h s new = rw (new) refl

  entry_old :
      (m : Option HeaderName) (h : Header) (s : Scribe)
      → is_new m h.name ≡ false
      → s.cur_name ≡ some h.name
      → on_entry to_str name r (if is_new m h.name then some h.name else none) h.value s
        ≡ on_value to_str name r h.name h.value s
  unfolding on_entry on_current new_name
  entry_old m h s old c = rw (old) (ap (λ k. on_current to_str name r k h.value s) c)

  module _ (laws : IsToStr to_str) (can : can_chunked r.req_method r.head.status ≡ true) where
    abbrev pub AllTrusted : List Header → Type 0
    AllTrusted [] = Unit
    AllTrusted (h ∷ hs) = Trusted to_str name r orig laws h.name h.value × AllTrusted hs

    -- One value, with its name or under the name before it.
    entry-Good :
        (m : Option HeaderName) (h : Header) (s s' : Scribe) (ls : List Header)
        → s.cur_name ≡ m
        → Trusted to_str name r orig laws h.name h.value
        → Good to_str name r orig s ls
        → on_entry to_str name r (if is_new m h.name then some h.name else none) h.value s ≡ some s'
        → (s'.cur_name ≡ some h.name) × ((ls' : List Header) × Good to_str name r orig s' ls')
    unfolding on_entry on_current new_name
    entry-Good m h s s' ls q t g e = elim (Bool-cases (is_new m h.name)) [
      | inl new ↦
          let s1 = new_name to_str name r (some h.name) s in
          let f : on_value to_str name r h.name h.value s1 ≡ some s' =
            sym (entry_new m h s new) ∙ e in
          (
            on_value-cur_name h.name h.value s1 s' f,
            on_value-Good to_str name r orig laws h.name h.value s1 s'
                (shut_lines to_str name r s ls) can t refl
                (new_name-Good to_str name r orig h.name s ls g) f,
          )
      | inr old ↦
          let c : s.cur_name ≡ some h.name = q ∙ old_name m h.name old in
          let f : on_value to_str name r h.name h.value s ≡ some s' =
            sym (entry_old m h s old c) ∙ e in
          (
            on_value-cur_name h.name h.value s s' f ∙ c,
            on_value-Good to_str name r orig laws h.name h.value s s' ls can t c g f,
          )
    ]

    pub write_headers-Good :
        (m : Option HeaderName) (hs : List Header) (s s' : Scribe) (ls : List Header)
        → s.cur_name ≡ m
        → AllTrusted hs
        → Good to_str name r orig s ls
        → write_headers to_str name r (drain_from m hs) s ≡ some s'
        → (ls' : List Header) × Good to_str name r orig s' ls'
    unfolding write_headers drain_from
    write_headers-Good m [] s s' ls q t g e =
        (ls, subst (λ x. Good to_str name r orig x ls) (some-injective e) g)
    write_headers-Good m (h ∷ hs) s s' ls q t g e =
        elim (Option-cases
          (on_entry to_str name r (if is_new m h.name then some h.name else none) h.value s)) [
            | inl f ↦ cc (rw (write_headers, f) at e)
            | inr (s1, f) ↦
                let (c, p) = entry-Good m h s s1 ls q t.0 g f in
                write_headers-Good (some h.name) hs s1 s' p.0 c t.1 p.1 (rw (write_headers, f) at e)
          ]
