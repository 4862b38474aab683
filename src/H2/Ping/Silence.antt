-- ===== src/H2/Ping/Silence.antt =====
-- The keep-alive of an HTTP/2 connection, whose peer does not answer: src/proto/h2/ping.rs.
use kaiwaehnero.Base.{
  ℕ, ◌≡◌, refl, sym, ap, ◌∙◌, subst, inl, inr, Bool, true, false, Option, none, some, ltb, leb,
  if◌then◌else◌, Bool-cases, is_some, arith, some-injective,
}
use kaiwaehnero.Poll.{Poll, pending, ready}
use kaiwaehnero.H2.Ping.{
  Float, PingPong, Pong, KeepAlive, ping_sent, Shared, Ponger, Ponged, keep_alive_timed_out,
  record_data, record_non_data, update_last_read_at, after_delay, count_bytes, send_ping, sent,
  is_ping_sent, schedule, maybe_ping, maybe_timeout, keep_alive_due, no_pong, after_poll_pong,
  poll_pong, poll,
}

module _ {F P : Type 0} (f : Float F) (pp : PingPong P) where
  -- A ping is out, and the keep-alive waits for its answer until `due`.
  pub record Waiting (due : ℕ) (p : Ponger F P) : Type 0 where
    pub kept : KeepAlive
    pub keep_alive : p.keep_alive ≡ some kept
    pub state : kept.state ≡ ping_sent
    pub timer : kept.timer ≡ due
    pub out : is_some p.shared.ping_sent_at ≡ true

  send_ping-out :
      (now : ℕ) (s : Shared P)
      → is_some s.ping_sent_at ≡ true
      → is_some (send_ping pp now s).ping_sent_at ≡ true
  unfolding send_ping
  send_ping-out now s h = by_result (pp.send_ping s.ping_pong)
    where
      by_result : (x : P × Bool) → is_some (sent pp now s x).ping_sent_at ≡ true
      by_result (q, true) = refl
      by_result (q, false) = h

  update_last_read_at-out :
      (now : ℕ) (s : Shared P) → (update_last_read_at pp now s).ping_sent_at ≡ s.ping_sent_at
  unfolding update_last_read_at
  update_last_read_at-out now s = ground arith

  count_bytes-out :
      (now len : ℕ) (s : Shared P) (b : Option ℕ)
      → is_some s.ping_sent_at ≡ true
      → is_some (count_bytes pp now len s b).ping_sent_at ≡ true
  unfolding count_bytes is_ping_sent
  count_bytes-out now len s none h = h
  count_bytes-out now len s (some b) h = rw (h) h

  after_delay-out :
      (now len : ℕ) (s : Shared P) (at : Option ℕ)
      → is_some s.ping_sent_at ≡ true
      → is_some (after_delay pp now len s at).ping_sent_at ≡ true
  unfolding after_delay
  after_delay-out now len s none h = count_bytes-out now len s s.bytes h
  after_delay-out now len s (some at) h = elim (Bool-cases (ltb now at)) [
    | inl l ↦ rw (l) h
    | inr l ↦ rw (l) (count_bytes-out now len (record s { next_bdp_at = none }) s.bytes h)
  ]

  record_data-out :
      (now len : ℕ) (s : Shared P)
      → is_some s.ping_sent_at ≡ true
      → is_some (record_data pp now len s).ping_sent_at ≡ true
  unfolding record_data
  record_data-out now len s h =
      let u = update_last_read_at pp now s in
      after_delay-out now len u u.next_bdp_at (ap is_some (update_last_read_at-out now s) ∙ h)

  schedule-ping_sent :
      (now : ℕ) (k : KeepAlive) (is_idle : Bool) (s : Shared P)
      → k.state ≡ ping_sent
      → is_some s.ping_sent_at ≡ true
      → schedule pp now k is_idle s ≡ some k
  unfolding schedule is_ping_sent
  schedule-ping_sent now k is_idle s e o =
      rw (schedule, e, o) (ap (λ t. some (record k { state = t })) e)

  maybe_ping-ping_sent :
      (now : ℕ) (k : KeepAlive) (s : Shared P)
      → k.state ≡ ping_sent
      → maybe_ping pp now k s ≡ some (k, s)
  unfolding maybe_ping
  maybe_ping-ping_sent now k s e = rw (maybe_ping, e) (ap (λ t. some (record k { state = t }, s)) e)

  maybe_timeout-ping_sent :
      (now due : ℕ) (k : KeepAlive)
      → k.state ≡ ping_sent
      → k.timer ≡ due
      → maybe_timeout pp now k ≡ leb due now
  unfolding maybe_timeout
  maybe_timeout-ping_sent now due k e t = rw (maybe_timeout, e, t) (ground arith)

  -- No second ping is sent while one is out.
  keep_alive_due-Waiting :
      (now due : ℕ) (is_idle : Bool) (p : Ponger F P)
      → Waiting due p
      → keep_alive_due f pp now is_idle p ≡ some p
  unfolding keep_alive_due
  keep_alive_due-Waiting now due is_idle p w =
      let e = schedule-ping_sent now w.kept is_idle p.shared w.state w.out in
      let e' = maybe_ping-ping_sent now w.kept p.shared w.state in
      rw (keep_alive_due, w.keep_alive, e, e') refl

  after_poll_pong-pending :
      (now : ℕ) (is_idle : Bool) (p : Ponger F P) (x : P × Poll Pong)
      → x.1 ≡ pending
      → after_poll_pong f pp now is_idle p x
        ≡ no_pong f pp now (record p { shared = record p.shared { ping_pong = x.0 } }) p.keep_alive
  unfolding after_poll_pong
  after_poll_pong-pending now is_idle p (q, pending) e = refl
  after_poll_pong-pending now is_idle p (q, ready a) e = cc e

  -- The state after a poll that got no pong.
  abbrev pub unanswered : Ponger F P → Ponger F P
  unanswered p = record p {
    shared = record p.shared { ping_pong = (pp.poll_pong p.shared.ping_pong).0 };
  }

  pub poll_pong-Waiting :
      (now due : ℕ) (is_idle : Bool) (p : Ponger F P)
      → Waiting due p
      → (pp.poll_pong p.shared.ping_pong).1 ≡ pending
      → poll_pong f pp now is_idle p ≡ no_pong f pp now (unanswered p) p.keep_alive
  unfolding poll_pong is_ping_sent
  poll_pong-Waiting now due is_idle p w e =
      rw (poll_pong, w.out)
        (after_poll_pong-pending now is_idle p (pp.poll_pong p.shared.ping_pong) e)

  pub no_pong-Waiting :
      (now due : ℕ) (p q : Ponger F P)
      → Waiting due p
      → no_pong f pp now q p.keep_alive ≡ (
          if leb due now
          then some (
            record q {
              keep_alive = none;
              shared = record q.shared { is_keep_alive_timed_out = true };
            },
            ready keep_alive_timed_out,
          )
          else some (q, pending))
  unfolding no_pong maybe_timeout
  no_pong-Waiting now due p q w =
      rw (no_pong, w.keep_alive, maybe_timeout-ping_sent now due w.kept w.state w.timer) refl

  pub poll-Waiting :
      (now due : ℕ) (is_idle : Bool) (p : Ponger F P)
      → Waiting due p
      → (pp.poll_pong p.shared.ping_pong).1 ≡ pending
      → poll f pp now is_idle p ≡ (
          if leb due now
          then some (
            record (unanswered p) {
              keep_alive = none;
              shared = record (unanswered p).shared { is_keep_alive_timed_out = true };
            },
            ready keep_alive_timed_out,
          )
          else some (unanswered p, pending))
  unfolding poll
  poll-Waiting now due is_idle p w e =
      rw (poll, keep_alive_due-Waiting now due is_idle p w)
        (poll_pong-Waiting now due is_idle p w e ∙ no_pong-Waiting now due p (unanswered p) w)

  -- What may happen while no pong comes: frames are read, and the connection is polled before `due`.
  pub data Silence (due : ℕ) (p : Ponger F P) : Ponger F P → Type 0 where
    begun : Silence due p p
    data_read :
        (q : Ponger F P) (now len : ℕ)
        → Silence due p q
        → Silence due p (record q { shared = record_data pp now len q.shared })
    frame_read :
        (q : Ponger F P) (now : ℕ)
        → Silence due p q
        → Silence due p (record q { shared = record_non_data pp now q.shared })
    polled :
        (q q' : Ponger F P) (now : ℕ) (is_idle : Bool) (a : Poll Ponged)
        → Silence due p q
        → leb due now ≡ false
        → (pp.poll_pong q.shared.ping_pong).1 ≡ pending
        → poll f pp now is_idle q ≡ some (q', a)
        → Silence due p q'

  pub Silence-Waiting :
      (due : ℕ) (p q : Ponger F P) → Waiting due p → Silence due p q → Waiting due q
  unfolding record_non_data
  Silence-Waiting due p q w begun = w
  Silence-Waiting due p _ w (data_read q now len s) =
      let v = Silence-Waiting due p q w s in
      record {
        kept = v.kept;
        keep_alive = v.keep_alive;
        state = v.state;
        timer = v.timer;
        out = record_data-out now len q.shared v.out;
      }
  Silence-Waiting due p _ w (frame_read q now s) =
      let v = Silence-Waiting due p q w s in
      record {
        kept = v.kept;
        keep_alive = v.keep_alive;
        state = v.state;
        timer = v.timer;
        out = ap is_some (update_last_read_at-out now q.shared) ∙ v.out;
      }
  Silence-Waiting due p q' w (polled q _ now is_idle a s l e r) =
      let v = Silence-Waiting due p q w s in
      let h = poll-Waiting now due is_idle q v e in
      let same : unanswered q ≡ q' =
        ap (λ x. x.0) (some-injective {x = (unanswered q, pending)} (sym (rw (l) at h) ∙ r)) in
      subst (Waiting due) same (record {
        kept = v.kept;
        keep_alive = v.keep_alive;
        state = v.state;
        timer = v.timer;
        out = v.out;
      })
