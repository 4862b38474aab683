-- ===== src/H2/Ping.antt =====
-- src/proto/h2/ping.rs: the pings of an HTTP/2 connection, for its flow control and for its keep-alive. `PingPong` is
-- the h2 crate's; a `Sleep` is known by its deadline, and is ready from then on. A call reads the clock once, as
-- `now`, in nanoseconds. `none` stands for a panic. The operations on floating point numbers are a parameter.
pub mod Bandwidth
pub mod Silence
pub mod Due
use kaiwaehnero.Base.{
  ℕ, ◌+◌, ◌-◌, ◌*◌, ◌/◌, ◌%◌, ◌^◌, min, Bool, true, false, not, ◌&&◌, ◌||◌, Option, none, some, ltb,
  leb, ◌==◌, if◌then◌else◌, is_some, is_none, u64_mod,
}
use kaiwaehnero.Poll.{Poll, pending, ready}

pub record Float (F : Type 0) : Type 0 where
  pub zero : F
  pub is_zero : F → Bool
  pub less : F → F → Bool
  -- `seconds`, of a duration.
  pub seconds : ℕ → F
  -- `rtt + (sample - rtt) * 0.125`.
  pub average : F → F → F
  -- `bytes / (rtt * 1.5)`.
  pub bandwidth : ℕ → F → F

-- The connection's half of the h2 crate: whether a ping could be sent, and the answer to it.
pub data Pong : Type 0 where
  received broken : Pong

pub record PingPong (P : Type 0) : Type 0 where
  pub send_ping : P → P × Bool
  pub poll_pong : P → P × Poll Pong

pub record Bdp (F : Type 0) : Type 0 where
  pub bdp : ℕ
  pub max_bandwidth : F
  pub rtt : F
  pub ping_delay : ℕ
  pub stable_count : ℕ

pub data KeepAliveState : Type 0 where
  init scheduled ping_sent : KeepAliveState

pub record KeepAlive : Type 0 where
  pub interval : ℕ
  pub timeout : ℕ
  pub while_idle : Bool
  pub state : KeepAliveState
  pub timer : ℕ

pub record Shared (P : Type 0) : Type 0 where
  pub ping_pong : P
  pub ping_sent_at : Option ℕ
  pub bytes : Option ℕ
  pub next_bdp_at : Option ℕ
  pub last_read_at : Option ℕ
  pub is_keep_alive_timed_out : Bool

-- A `Ponger` with what it shares with the recorders.
pub record Ponger (F P : Type 0) : Type 0 where
  pub bdp : Option (Bdp F)
  pub keep_alive : Option KeepAlive
  pub shared : Shared P

pub data Ponged : Type 0 where
  size_update : ℕ → Ponged
  keep_alive_timed_out : Ponged

abbrev pub bdp_limit : ℕ
bdp_limit = 1024 * 1024 * 16

abbrev pub ten_seconds : ℕ
ten_seconds = 10 * 10 ^ 9

module _ {F : Type 0} (f : Float F) where
  unfoldable pub stabilize_delay : Bdp F → Bdp F
  stabilize_delay b =
      if ltb b.ping_delay ten_seconds
      then (if leb 2 (b.stable_count + 1)
          then record b { ping_delay = b.ping_delay * 4; stable_count = 0 }
          else record b { stable_count = b.stable_count + 1 })
      else b

  abbrev averaged : Bdp F → ℕ → F
  averaged b rtt = if f.is_zero b.rtt then f.seconds rtt else f.average b.rtt (f.seconds rtt)

  unfoldable pub grow : Bdp F → ℕ → Bdp F × Option ℕ
  unfolding stabilize_delay
  grow b bytes =
      let bdp = min (bytes * 2 % u64_mod) bdp_limit in
      if leb (b.bdp * 2 / 3) bytes
      then (record b { bdp = bdp; stable_count = 0; ping_delay = b.ping_delay / 2 }, some bdp)
      else (stabilize_delay b, none)

  unfoldable pub calculate : Bdp F → ℕ → ℕ → Bdp F × Option ℕ
  unfolding stabilize_delay grow
  calculate b bytes rtt =
      let b' = record b { rtt = averaged b rtt } in
      let bw = f.bandwidth bytes b'.rtt in
      if b.bdp == bdp_limit
      then (stabilize_delay b, none)
      else if f.less bw b.max_bandwidth
      then (stabilize_delay b', none)
      else grow (record b' { max_bandwidth = bw }) bytes

module _ {P : Type 0} (pp : PingPong P) (now : ℕ) where
  unfoldable pub is_ping_sent : Shared P → Bool
  is_ping_sent s = is_some s.ping_sent_at

  unfoldable pub sent : Shared P → P × Bool → Shared P
  sent s (p, true) = record s { ping_pong = p; ping_sent_at = some now }
  sent s (p, false) = record s { ping_pong = p }

  unfoldable pub send_ping : Shared P → Shared P
  unfolding sent
  send_ping s = sent s (pp.send_ping s.ping_pong)

  unfoldable pub update_last_read_at : Shared P → Shared P
  update_last_read_at s = if is_some s.last_read_at then record s { last_read_at = some now } else s

  unfoldable pub set_timer : KeepAlive → Option ℕ → Option KeepAlive
  set_timer k none = none
  set_timer k (some at) = some (record k { state = scheduled; timer = at + k.interval })

  unfoldable pub schedule : KeepAlive → Bool → Shared P → Option KeepAlive
  unfolding set_timer is_ping_sent
  schedule k is_idle s = elim k.state [
    | init ↦ if not k.while_idle && is_idle then some k else set_timer k s.last_read_at
    | ping_sent ↦ if is_ping_sent s then some k else set_timer k s.last_read_at
    | scheduled ↦ some k
  ]

  unfoldable pub ping_due : KeepAlive → Shared P → Option ℕ → Option (KeepAlive × Shared P)
  unfolding send_ping
  ping_due k s none = none
  ping_due k s (some at) =
      if ltb k.timer (at + k.interval)
      then some (record k { state = init }, s)
      else some (record k { state = ping_sent; timer = now + k.timeout }, send_ping s)

  unfoldable pub maybe_ping : KeepAlive → Shared P → Option (KeepAlive × Shared P)
  unfolding ping_due
  maybe_ping k s = elim k.state [
    | scheduled ↦ if ltb now k.timer then some (k, s) else ping_due k s s.last_read_at
    | init ↦ some (k, s)
    | ping_sent ↦ some (k, s)
  ]

  -- Whether the timeout has passed.
  unfoldable pub maybe_timeout : KeepAlive → Bool
  maybe_timeout k = elim k.state [
    | ping_sent ↦ not (ltb now k.timer)
    | init ↦ false
    | scheduled ↦ false
  ]

  -- `Recorder::record_non_data`.
  unfoldable pub record_non_data : Shared P → Shared P
  unfolding update_last_read_at
  record_non_data s = update_last_read_at s

  unfoldable pub count_bytes : ℕ → Shared P → Option ℕ → Shared P
  unfolding is_ping_sent send_ping
  count_bytes len s none = s
  count_bytes len s (some b) =
      let s' = record s { bytes = some ((b + len) % u64_mod) } in
      if not (is_ping_sent s') then send_ping s' else s'

  unfoldable pub after_delay : ℕ → Shared P → Option ℕ → Shared P
  unfolding count_bytes
  after_delay len s none = count_bytes len s s.bytes
  after_delay len s (some at) =
      if ltb now at then s else count_bytes len (record s { next_bdp_at = none }) s.bytes

  -- `Recorder::record_data`.
  unfoldable pub record_data : ℕ → Shared P → Shared P
  unfolding update_last_read_at after_delay
  record_data len s = let s' = update_last_read_at s in after_delay len s' s'.next_bdp_at

-- `Recorder::ensure_not_timed_out`.
unfoldable pub ensure_not_timed_out : {P : Type 0} → Shared P → Bool
ensure_not_timed_out s = not s.is_keep_alive_timed_out

module _ {F P : Type 0} (f : Float F) (pp : PingPong P) (now : ℕ) where
  abbrev pub Polled : Type 0
  Polled = Option (Ponger F P × Poll Ponged)

  unfoldable pub keep_alive_due : Bool → Ponger F P → Option (Ponger F P)
  unfolding schedule maybe_ping
  keep_alive_due is_idle p = elim p.keep_alive [
    | none ↦ some p
    | some k ↦ elim (schedule pp now k is_idle p.shared) [
      | none ↦ none
      | some k' ↦ elim (maybe_ping pp now k' p.shared) [
        | none ↦ none
        | some x ↦ some (record p { keep_alive = some x.0; shared = x.1 })
      ]
    ]
  ]

  -- After a pong, the next keep-alive ping is scheduled.
  unfoldable pub pong_keep_alive : Bool → Ponger F P → Option (Ponger F P)
  unfolding schedule update_last_read_at
  pong_keep_alive is_idle p = elim p.keep_alive [
    | none ↦ some p
    | some k ↦
        let s = update_last_read_at pp now p.shared in
        elim (schedule pp now k is_idle s) [
          | none ↦ none
          | some k' ↦ some (record p { keep_alive = some k'; shared = s })
        ]
  ]

  unfoldable pub answer_update : Ponger F P → Option ℕ → Polled
  answer_update p none = some (p, pending)
  answer_update p (some w) = some (p, ready (size_update w))

  unfoldable pub measured : Ponger F P → Bdp F → ℕ → Option ℕ → Polled
  unfolding calculate answer_update
  measured p b rtt none = none
  measured p b rtt (some bytes) =
      let r = calculate f b bytes rtt in
      answer_update
        (record p {
          bdp = some r.0;
          shared = record p.shared { bytes = some 0; next_bdp_at = some (now + r.0.ping_delay) };
        })
        r.1

  unfoldable pub pong_bdp : ℕ → Ponger F P → Polled
  unfolding measured
  pong_bdp rtt p = elim p.bdp [
    | none ↦ some (p, pending)
    | some b ↦ measured p b rtt p.shared.bytes
  ]

  unfoldable pub on_pong : Bool → Ponger F P → Option ℕ → Polled
  unfolding pong_keep_alive pong_bdp
  on_pong is_idle p none = none
  on_pong is_idle p (some start) =
      elim (pong_keep_alive is_idle
        (record p { shared = record p.shared { ping_sent_at = none } })) [
          | none ↦ none
          | some p' ↦ pong_bdp (now - start) p'
        ]

  unfoldable pub no_pong : Ponger F P → Option KeepAlive → Polled
  unfolding maybe_timeout
  no_pong p none = some (p, pending)
  no_pong p (some k) =
      if maybe_timeout pp now k
      then some (
        record p { keep_alive = none; shared = record p.shared { is_keep_alive_timed_out = true } },
        ready keep_alive_timed_out,
      )
      else some (p, pending)

  unfoldable pub after_poll_pong : Bool → Ponger F P → P × Poll Pong → Polled
  unfolding on_pong no_pong
  after_poll_pong is_idle p (q, pending) =
      no_pong (record p { shared = record p.shared { ping_pong = q } }) p.keep_alive
  after_poll_pong is_idle p (q, ready received) =
      on_pong is_idle (record p { shared = record p.shared { ping_pong = q } })
        p.shared.ping_sent_at
  after_poll_pong is_idle p (q, ready broken) =
      some (record p { shared = record p.shared { ping_pong = q } }, pending)

  unfoldable pub poll_pong : Bool → Ponger F P → Polled
  unfolding is_ping_sent after_poll_pong
  poll_pong is_idle p =
      if not (is_ping_sent pp now p.shared)
      then some (p, pending)
      else after_poll_pong is_idle p (pp.poll_pong p.shared.ping_pong)

  -- `Ponger::poll`.
  unfoldable pub poll : Bool → Ponger F P → Polled
  unfolding keep_alive_due poll_pong
  poll is_idle p = elim (keep_alive_due is_idle p) [ none ↦ none | some p' ↦ poll_pong is_idle p' ]
