-- ===== src/H1/Role/Skipping.antt =====
-- What `Client::parse` of src/proto/h1/role.rs skips, and what it gives.
use kaiwaehnero.Base.{
  ℕ, zero, suc, ◌<◌, ◌≤◌, ◌≡◌, refl, ap, sym, ◌∙◌, Bool, true, false, not, ◌&&◌, ◌==◌, Option, none,
  some, List, [], ◌∷◌, ◌++◌, append_assoc, take, drop, take-append-drop, length-drop, length, Bytes,
  ◌⊎◌, inl, inr, arith, if◌then◌else◌, Bool-cases,
}
use kaiwaehnero.Body.{DecodedLength}
use kaiwaehnero.Http.{
  Method, Version, http_09, http_10, http_11, Header, MessageHead, is_informational, is_head,
  is_connect, is_success, is_transfer_encoding, is_content_length, get_all,
}
use kaiwaehnero.Http
use kaiwaehnero.Headers.{content_length_parse_all_values}
use kaiwaehnero.H1.Error.{Try, done, failed}
use kaiwaehnero.H1.Role.{
  record_header_indices, bad_version, header_name, header_value, new_line, bad_status, bad_token,
  too_many_headers, Status, complete, partial, invalid, Response,
}
use kaiwaehnero.H1.Role.Client.{decoder, by_headers, length_of, is_11}
use kaiwaehnero.H1.Role.Responses.{
  Outcome, waits, fails, parsed, spent, keep_alive_of, on_decoder, on_head, on_status, parse_loop,
  parse,
}

-- What is left of a buffer when bytes are taken off its front.
abbrev pub Tail : Bytes → Bytes → Type 0
Tail buf rest = (front : Bytes) × (buf ≡ front ++ rest)

and_not : (a up : Bool) → up ≡ true → (a && not up) ≡ false
and_not a up h = ground arith

module _ (to_str : Bytes → Option Bytes) where
  length_of-some :
      (inc : MessageHead) (o : Option ℕ) → length_of to_str inc o ≡ done none → true ≡ false
  unfolding length_of
  length_of-some inc o h = ground arith

  by_headers-some : (inc : MessageHead) → by_headers to_str inc ≡ done none → true ≡ false
  unfolding by_headers
  by_headers-some inc h = ground (
    arith,
    length_of-some inc
        (content_length_parse_all_values to_str (get_all is_content_length inc.headers)),
  )

  -- A response is skipped only if it is informational.
  decoder-skips :
      (inc : MessageHead) (m : Option Method)
      → decoder to_str inc m ≡ done none
      → is_informational inc.status ≡ true
  unfolding decoder
  decoder-skips inc m h = ground (arith, by_headers-some inc)

  decoder-informational :
      (inc : MessageHead) (m : Option Method) (x : DecodedLength × Bool)
      → decoder to_str inc m ≡ done (some x)
      → is_informational inc.status ≡ true
      → inc.status ≡ 101
  unfolding decoder
  decoder-informational inc m x h i = ground arith

module _ (to_str : Bytes → Option Bytes) (is_status : ℕ → Bool)
    (parse_response : Bytes → Status Response) (h09_responses : Bool)
    (req_method : Option Method) where
  abbrev pub Right : Bytes → Outcome → Type 0
  Right buf (waits rest) = Tail buf rest × ((rest ≡ []) ⊎ (parse_response rest ≡ partial))
  Right buf (fails rest e) = Tail buf rest
  Right buf (parsed rest msg) =
      Tail buf rest
      × (is_informational msg.head.status ≡ true → msg.head.status ≡ 101)
      × (msg.wants_upgrade ≡ true → msg.keep_alive ≡ false)
  Right buf spent = true ≡ false

  Tail-trans : (a b c : Bytes) → Tail a b → Tail b c → Tail a c
  Tail-trans a b c (x, p) (y, q) = (x ++ y, p ∙ (ap (◌++◌ x) q ∙ sym (append_assoc x y c)))

  Tail-drop : (n : ℕ) (buf : Bytes) → Tail buf (drop n buf)
  Tail-drop n buf = (take n buf, sym (take-append-drop n buf))

  Right-Tail : (a b : Bytes) (o : Outcome) → Tail a b → Right b o → Right a o
  Right-Tail a b (waits rest) t (s, r) = (Tail-trans a b rest t s, r)
  Right-Tail a b (fails rest e) t s = Tail-trans a b rest t s
  Right-Tail a b (parsed rest msg) t (s, r, u) = (Tail-trans a b rest t s, r, u)
  Right-Tail a b spent t r = r

  on_decoder-Right :
      (buf rest : Bytes) (head : MessageHead) (t : Try (Option (DecodedLength × Bool)))
      (again : Bytes → Outcome)
      → Tail buf rest
      → (t ≡ done none → Right rest (again rest))
      → ((x : DecodedLength × Bool)
          → t ≡ done (some x)
          → is_informational head.status ≡ true
          → head.status ≡ 101)
      → Right buf
          (on_decoder to_str is_status parse_response h09_responses req_method rest head t again)
  unfolding on_decoder
  on_decoder-Right buf rest head (failed e) again t f g = t
  on_decoder-Right buf [] head (done none) again t f g = (t, inl refl)
  on_decoder-Right buf (b ∷ bs) head (done none) again t f g =
      Right-Tail buf (b ∷ bs) (again (b ∷ bs)) t (f refl)
  on_decoder-Right buf rest head (done (some (d, up))) again t f g = (
    t,
    g (d, up) refl,
    and_not
        (keep_alive_of to_str is_status parse_response h09_responses req_method (is_11 head.version)
          head.headers)
        up,
  )

  on_head-Right :
      (buf : Bytes) (len code : ℕ) (version : Version) (hs : List Header) (again : Bytes → Outcome)
      → (is_informational code ≡ true → Right (drop len buf) (again (drop len buf)))
      → Right buf (
          on_head to_str is_status parse_response h09_responses req_method buf len code version hs
            again)
  unfolding on_head
  on_head-Right buf len code version hs again f =
      let head : MessageHead = record {
        version = version;
        status = code;
        method = Http.get;
        headers = hs;
      } in
      on_decoder-Right buf (drop len buf) head (decoder to_str head req_method) again
        (Tail-drop len buf) (λ h. f (decoder-skips to_str head req_method h))
        (λ x h i. decoder-informational to_str head req_method x h i)

  on_status-Right :
      (buf : Bytes) (s : Status Response) (again : Bytes → Outcome)
      → parse_response buf ≡ s
      → ((len : ℕ) (r : Response)
          → s ≡ complete len r
          → Right (drop len buf) (again (drop len buf)))
      → Right buf (on_status to_str is_status parse_response h09_responses req_method buf s again)
  unfolding on_status
  on_status-Right buf (complete len res) again e f = elim (Bool-cases (is_status res.code)) [
    | inl h ↦ elim (Bool-cases (record_header_indices res.headers)) [
      | inl k ↦
          rw (h, k)
            (on_head-Right buf len res.code (if res.minor == 1 then http_11 else http_10)
              res.headers again (λ i. f len res refl))
      | inr k ↦ rw (h, k) ([], refl)
    ]
    | inr h ↦ rw (h) ([], refl)
  ]
  on_status-Right buf partial again e f = (([], refl), inr e)
  on_status-Right buf (invalid bad_version b) again e f = elim (Bool-cases h09_responses) [
    | inl h ↦ rw (h) (on_head-Right buf 0 200 http_09 [] again (λ i. cc))
    | inr h ↦ rw (h) ([], refl)
  ]
  on_status-Right buf (invalid header_name b) again e f = ([], refl)
  on_status-Right buf (invalid header_value b) again e f = ([], refl)
  on_status-Right buf (invalid new_line b) again e f = ([], refl)
  on_status-Right buf (invalid bad_status b) again e f = ([], refl)
  on_status-Right buf (invalid bad_token b) again e f = ([], refl)
  on_status-Right buf (invalid too_many_headers b) again e f = ([], refl)

  parse_loop-Right :
      (fuel : ℕ) (buf : Bytes)
      → ((b : Bytes) (len : ℕ) (r : Response)
          → parse_response b ≡ complete len r
          → (0 < len) × (len ≤ length b))
      → length buf < fuel
      → Right buf (parse_loop to_str is_status parse_response h09_responses req_method fuel buf)
  unfolding parse_loop
  parse_loop-Right zero buf t h = ground arith
  parse_loop-Right (suc fuel) buf t h =
      on_status-Right buf (parse_response buf)
        (parse_loop to_str is_status parse_response h09_responses req_method fuel) refl
        (λ len r e.
          parse_loop-Right fuel (drop len buf) t
            (let (p, q) = t buf len r e in omega (arith, length-drop len buf)))

  -- With a parser whose whole heads take at least one byte and at most those of the buffer, the loop ends, and what is left of
  -- the buffer is its end. A response that is given is informational only if it is 101, and one that asks for an upgrade does
  -- not keep the connection alive. Where there is none yet, nothing is left or the parser waits for more of what is left.
  pub parse-Right :
      (buf : Bytes)
      → ((b : Bytes) (len : ℕ) (r : Response)
          → parse_response b ≡ complete len r
          → (0 < len) × (len ≤ length b))
      → Right buf (parse to_str is_status parse_response h09_responses req_method buf)
  unfolding parse
  parse-Right buf t = parse_loop-Right (suc (length buf)) buf t (omega arith)
