-- ===== src/Examples/Pings.antt =====
-- The pings of a connection whose peer never answers.
use kaiwaehnero.Base.{
  ◌^◌, ℕ, ◌+◌, ◌*◌, ◌/◌, ◌≡◌, refl, true, false, none, some, ltb, ◌==◌, arith, suc,
}
use kaiwaehnero.Poll.{pending, ready}
use kaiwaehnero.H2.Ping.{
  Float, PingPong, Bdp, KeepAlive, scheduled, Ponger, keep_alive_timed_out, calculate, poll,
  record_data, send_ping,
}
use kaiwaehnero.H2.Ping.Bandwidth.{InBounds, Estimate, calculate-Estimate}
use kaiwaehnero.H2.Ping.Silence.{begun, data_read, unanswered}
use kaiwaehnero.H2.Ping.Due.{IsDue, pinged, poll-Silence}

-- Whole numbers in place of floating point numbers.
abbrev whole : Float ℕ
whole = record {
  zero = 0;
  is_zero = λ x. x == 0;
  less = ltb;
  seconds = λ n. n / 10 ^ 9;
  average = λ a b. (7 * a + b) / 8;
  bandwidth = λ n r. n;
}

abbrev mute : PingPong ℕ
mute = record { send_ping = λ n. (suc n, true); poll_pong = λ n. (n, pending) }

abbrev estimate : Bdp ℕ
estimate = record {
  bdp = 65535;
  max_bandwidth = 0;
  rtt = 0;
  ping_delay = 100000000;
  stable_count = 0;
}

estimate-InBounds : InBounds estimate
estimate-InBounds = record { at_least = omega arith; at_most = omega arith; delay = omega arith }

estimate_doubled : (calculate whole estimate 60000 1000).1 ≡ some 120000
unfolding calculate
estimate_doubled = refl

calculate-Estimate_example : Estimate whole estimate (calculate whole estimate 60000 1000)
calculate-Estimate_example =
    calculate-Estimate whole estimate 60000 1000 estimate-InBounds (omega arith)

abbrev kept : KeepAlive
kept = record { interval = 10; timeout = 5; while_idle = false; state = scheduled; timer = 20 }

abbrev ponger : Ponger ℕ ℕ
ponger = record {
  bdp = none;
  keep_alive = some kept;
  shared = record {
    ping_pong = 0;
    ping_sent_at = none;
    bytes = none;
    next_bdp_at = none;
    last_read_at = some 10;
    is_keep_alive_timed_out = false;
  };
}

ponger-IsDue : IsDue whole mute 21 kept ponger
unfolding send_ping
ponger-IsDue = record {
  last = 10;
  kept = refl;
  state = refl;
  passed = refl;
  last_read = refl;
  no_frame = refl;
  out = refl;
}

abbrev waiting : Ponger ℕ ℕ
waiting = unanswered whole mute (pinged whole mute 21 kept ponger)

-- A frame is read while the ping is out.
abbrev fed : Ponger ℕ ℕ
fed = record waiting { shared = record_data mute 24 100 waiting.shared }

poll-Silence_example :
    (poll whole mute 21 false ponger ≡ some (waiting, pending))
    × (poll whole mute 26 false fed
        ≡ some (
          record (unanswered whole mute fed) {
            keep_alive = none;
            shared = record (unanswered whole mute fed).shared { is_keep_alive_timed_out = true };
          },
          ready keep_alive_timed_out,
        ))
unfolding record_data
poll-Silence_example =
    poll-Silence whole mute 21 26 false false kept ponger fed ponger-IsDue (omega arith) refl
      (data_read waiting 24 100 begun) refl
