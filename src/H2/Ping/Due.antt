-- ===== src/H2/Ping/Due.antt =====
-- A ping of the keep-alive that is due, and the time after it: src/proto/h2/ping.rs.
use kaiwaehnero.Base.{
  arith, ◌<◌, ℕ, ◌+◌, ◌≡◌, refl, ap, ◌∙◌, Bool, true, false, none, some, ltb, leb, if◌then◌else◌,
  is_some,
}
use kaiwaehnero.Poll.{pending, ready}
use kaiwaehnero.H2.Ping.{
  Float, PingPong, KeepAlive, scheduled, ping_sent, Shared, Ponger, keep_alive_timed_out, send_ping,
  schedule, maybe_ping, ping_due, keep_alive_due, poll,
}
use kaiwaehnero.H2.Ping.Silence.{
  Waiting, unanswered, Silence, Silence-Waiting, poll-Waiting, poll_pong-Waiting, no_pong-Waiting,
}

module _ {F P : Type 0} (f : Float F) (pp : PingPong P) where
  -- A keep-alive whose interval has passed without a frame sends its ping.
  pub record IsDue (now : ℕ) (k : KeepAlive) (p : Ponger F P) : Type 0 where
    pub last : ℕ
    pub kept : p.keep_alive ≡ some k
    pub state : k.state ≡ scheduled
    pub passed : ltb now k.timer ≡ false
    pub last_read : p.shared.last_read_at ≡ some last
    pub no_frame : ltb k.timer (last + k.interval) ≡ false
    pub out : is_some (send_ping pp now p.shared).ping_sent_at ≡ true

  abbrev pub pinged : ℕ → KeepAlive → Ponger F P → Ponger F P
  pinged now k p = record p {
    keep_alive = some (record k { state = ping_sent; timer = now + k.timeout });
    shared = send_ping pp now p.shared;
  }

  schedule-scheduled :
      (now : ℕ) (k : KeepAlive) (is_idle : Bool) (s : Shared P)
      → k.state ≡ scheduled
      → schedule pp now k is_idle s ≡ some k
  unfolding schedule
  schedule-scheduled now k is_idle s e =
      rw (schedule, e) (ap (λ t. some (record k { state = t })) e)

  ping_due-frameless :
      (now at : ℕ) (k : KeepAlive) (s : Shared P)
      → ltb k.timer (at + k.interval) ≡ false
      → ping_due pp now k s (some at)
        ≡ some (record k { state = ping_sent; timer = now + k.timeout }, send_ping pp now s)
  unfolding ping_due
  ping_due-frameless now at k s h = rw (h) refl

  maybe_ping-IsDue :
      (now : ℕ) (k : KeepAlive) (p : Ponger F P)
      → IsDue now k p
      → maybe_ping pp now k p.shared
        ≡ some (record k { state = ping_sent; timer = now + k.timeout }, send_ping pp now p.shared)
  unfolding maybe_ping
  maybe_ping-IsDue now k p d =
      rw (maybe_ping, d.state, d.passed)
        (ap (ping_due pp now (record k { state = scheduled }) p.shared) d.last_read
          ∙ ping_due-frameless now d.last (record k { state = scheduled }) p.shared d.no_frame)

  keep_alive_due-IsDue :
      (now : ℕ) (is_idle : Bool) (k : KeepAlive) (p : Ponger F P)
      → IsDue now k p
      → keep_alive_due f pp now is_idle p ≡ some (pinged now k p)
  unfolding keep_alive_due
  keep_alive_due-IsDue now is_idle k p d =
      rw
        (
          keep_alive_due,
          d.kept,
          schedule-scheduled now k is_idle p.shared d.state,
          maybe_ping-IsDue now k p d,
        )
        refl

  pinged-Waiting :
      (now : ℕ) (k : KeepAlive) (p : Ponger F P)
      → IsDue now k p
      → Waiting f pp (now + k.timeout) (pinged now k p)
  pinged-Waiting now k p d = record {
    kept = record k { state = ping_sent; timer = now + k.timeout };
    keep_alive = refl;
    state = refl;
    timer = refl;
    out = d.out;
  }

  -- The first poll sends the ping, finds no pong, and the timeout has not passed.
  first_poll :
      (now : ℕ) (is_idle : Bool) (k : KeepAlive) (p : Ponger F P)
      → IsDue now k p
      → 0 < k.timeout
      → (pp.poll_pong (send_ping pp now p.shared).ping_pong).1 ≡ pending
      → poll f pp now is_idle p ≡ some (unanswered f pp (pinged now k p), pending)
  unfolding poll
  first_poll now is_idle k p d h e =
      let w = pinged-Waiting now k p d in
      let early : leb (now + k.timeout) now ≡ false = ground arith in
      rw (poll, keep_alive_due-IsDue now is_idle k p d)
        (poll_pong-Waiting f pp now (now + k.timeout) is_idle (pinged now k p) w e
          ∙ no_pong-Waiting f pp now (now + k.timeout) (pinged now k p)
              (unanswered f pp (pinged now k p)) w
          ∙ rw (early) refl)

  unanswered-Waiting :
      (now : ℕ) (k : KeepAlive) (p : Ponger F P)
      → IsDue now k p
      → Waiting f pp (now + k.timeout) (unanswered f pp (pinged now k p))
  unanswered-Waiting now k p d =
      let w = pinged-Waiting now k p d in
      record {
        kept = w.kept;
        keep_alive = w.keep_alive;
        state = w.state;
        timer = w.timer;
        out = w.out;
      }

  -- A poll whose keep-alive interval has passed without a frame, which can send a ping or has one out, and whose timeout
  -- is not 0, waits if no pong is there yet. As long as the peer does not answer, whatever frames are read and however
  -- often the connection is polled before the timeout has passed, a poll without a pong ends the keep-alive and marks
  -- the connection as timed out if the timeout has passed since that first poll, and else goes on waiting.
  pub poll-Silence :
      (now later : ℕ) (is_idle idle_later : Bool) (k : KeepAlive) (p q : Ponger F P)
      → IsDue now k p
      → 0 < k.timeout
      → (pp.poll_pong (send_ping pp now p.shared).ping_pong).1 ≡ pending
      → Silence f pp (now + k.timeout) (unanswered f pp (pinged now k p)) q
      → (pp.poll_pong q.shared.ping_pong).1 ≡ pending
      → (poll f pp now is_idle p ≡ some (unanswered f pp (pinged now k p), pending))
        × (poll f pp later idle_later q ≡ (
            if leb (now + k.timeout) later
            then some (
              record (unanswered f pp q) {
                keep_alive = none;
                shared = record (unanswered f pp q).shared { is_keep_alive_timed_out = true };
              },
              ready keep_alive_timed_out,
            )
            else some (unanswered f pp q, pending)))
  poll-Silence now later is_idle idle_later k p q d h e s e' = (
    first_poll now is_idle k p d h e,
    poll-Waiting f pp later (now + k.timeout) idle_later q
        (Silence-Waiting f pp (now + k.timeout) (unanswered f pp (pinged now k p)) q
          (unanswered-Waiting now k p d) s)
        e',
  )
