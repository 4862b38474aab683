-- ===== src/Examples/Dispatches.antt =====
-- A dispatcher over a quiet transport, for a client with two requests in its queue and for a server.
use kaiwaehnero.Base.{
  ℕ, zero, suc, ◌+◌, ◌≤◌, ◌≡◌, refl, inl, true, false, Option, none, some, List, [], ◌∷◌, Bytes,
  is_empty, ltb,
}
use kaiwaehnero.Poll.{Poll, pending, ready}
use kaiwaehnero.Http.{MessageHead, http_11, get}
use kaiwaehnero.H1.Conn.State.{wants_keep_alive, KeepAlive, is_idle, client, new}
use kaiwaehnero.H1.Dispatch.Parts.{BodyChannel, HttpBody, Parts, Dispatcher}
use kaiwaehnero.H1.Dispatch.Poll.{
  poll_catch, poll_inner, poll_loop, rounds, or_fail, after_loop, catch, stop_keep_alive,
}
use kaiwaehnero.H1.Dispatch.Read.{poll_read, turns}
use kaiwaehnero.H1.Conn.Read.{can_read_head}
use kaiwaehnero.H1.Dispatch.Graceful.{stop_keep_alive-last, unfinished, not_yet}
use kaiwaehnero.H1.Dispatch.Runs.{Calls, no_call, call, ask, give, Moves, Holds}
use kaiwaehnero.H1.Dispatch.PollRuns.{poll_catch-Moves}
use kaiwaehnero.H1.Dispatch.Client.{Client, Request}
use kaiwaehnero.H1.Dispatch.Client
use kaiwaehnero.H1.Dispatch.Line.{queued, settled_names, IsFifo, line, Took, arrived, arrived_now}
use kaiwaehnero.H1.Dispatch.Told.{AllTold}
use kaiwaehnero.H1.Dispatch.ClientRuns.{poll_catch-line}
use kaiwaehnero.H1.Dispatch.Server.{HttpService, Server}
use kaiwaehnero.H1.Dispatch.Server
use kaiwaehnero.H1.Dispatch.ServerRuns.{Alternates, events, Calls-Alternates}
use kaiwaehnero.Client.Channel.{Oneshot, Mpsc, Taker, Giver, Envelope, retry, no_retry}
use kaiwaehnero.Client.Sends.{taken, asked, taken-asked}
use kaiwaehnero.Examples.Conns.{quiet}

abbrev Queue : Type 0
Queue = List (Envelope (Request Bytes) ℕ)

abbrev next : Queue → Queue × Poll (Option (Envelope (Request Bytes) ℕ))
next [] = ([], pending)
next (e ∷ es) = (es, ready (some e))

abbrev next_now : Queue → Queue × Option (Option (Envelope (Request Bytes) ℕ))
next_now [] = ([], none)
next_now (e ∷ es) = (es, some (some e))

abbrev queue : Mpsc Queue (Envelope (Request Bytes) ℕ)
queue = record { poll_recv = next; close = λ q. q; recv_now = next_now }

queue-IsFifo : IsFifo queue (λ q. q)
queue-IsFifo = record { poll_recv = takes; close = λ q. refl; recv_now = takes_now }
  where
    takes : (q : Queue) → Took (arrived (next q).1) q (next q).0
    takes [] = refl
    takes (e ∷ es) = refl

    takes_now : (q : Queue) → Took (arrived_now (next_now q).1) q (next_now q).0
    takes_now [] = refl
    takes_now (e ∷ es) = refl

abbrev open_oneshot : Oneshot ℕ
open_oneshot = record { is_closed = λ x. false; poll_closed = λ x. (x, pending) }

abbrev taker : Taker ℕ
taker = record { want = λ k. k + 1; cancel = λ k. k }

abbrev body_channel : BodyChannel ℕ Bytes
body_channel = record {
  empty = [];
  new_channel = λ n b. (0, []);
  poll_ready = λ n. some (n, ready true);
  try_send_data = λ n b. (n + 1, true);
  send_error = λ n e. n;
}

-- A body in one piece.
abbrev whole_body : HttpBody Bytes
whole_body = record {
  take_full_data = λ b. (b, none);
  is_end_stream = λ b. is_empty b;
  exact = λ b. none;
  poll_data = λ b. ([], ready (some (some b)));
}

abbrev request : MessageHead
request = record { version = http_11; status = 200; method = get; headers = [] }

abbrev client_parts : Parts Bytes (Client Bytes Bytes ℕ Queue ℕ) Bytes ℕ Bytes
client_parts = record {
  transport = quiet;
  role = client;
  dispatch = Client.client open_oneshot queue taker;
  channel = body_channel;
  http_body = whole_body;
}

-- Two requests wait, of which the second is not to be tried again.
abbrev waiting_client : Dispatcher Bytes (Client Bytes Bytes ℕ Queue ℕ) Bytes ℕ
waiting_client = record {
  conn = record { io = []; state = new };
  dispatch = record {
    callback = none;
    rx = record {
      inner = some ((request, 1 ∷ 2 ∷ []), retry 7) ∷ some ((request, []), no_retry 8) ∷ [];
      taker = 0;
    };
    rx_closed = false;
    settled = [];
  };
  body_tx = none;
  body_rx = none;
  is_closing = false;
  gone = [];
}

poll_catch-Moves_example :
    Moves client_parts waiting_client (poll_catch client_parts 9 true waiting_client)
poll_catch-Moves_example = poll_catch-Moves client_parts 9 true waiting_client

poll_catch-line_example :
    Holds
      (λ e.
        (line (λ x. x) (λ q. q) e.dispatch ≡ 7 ∷ 8 ∷ [])
        × (s : Calls (Client.client open_oneshot queue taker) waiting_client.dispatch e.dispatch)
        × AllTold open_oneshot queue taker s)
      (poll_catch client_parts 9 true waiting_client)
unfolding line settled_names queued
poll_catch-line_example =
    poll_catch-line (λ x. x) (λ q. q) open_oneshot queue taker client_parts 9 true waiting_client
      (λ x. refl) queue-IsFifo refl

-- A service that answers each request at the second poll.
abbrev answer : ℕ → ℕ × Poll (Option (MessageHead × Bytes))
answer zero = (0, ready (some (request, [])))
answer (suc n) = (n, pending)

abbrev service : HttpService ℕ ℕ Bytes Bytes
service = record { poll_ready = λ n. (n, ready true); call = λ n r. (n + 1, 1); poll = answer }

abbrev idle_server : Server ℕ ℕ
idle_server = record { in_flight = none; service = 0 }

abbrev served : Calls (Server.server service) idle_server (record { in_flight = none; service = 1 })
unfolding Server.poll_ready Server.should_poll Server.recv_msg Server.poll_msg
served = call (call (call no_call (give request [] refl)) (ask _ refl refl)) (ask _ refl refl)

Calls-Alternates_example : Alternates false (events service served) false
Calls-Alternates_example =
    Calls-Alternates service idle_server (record { in_flight = none; service = 1 }) served

-- A receiver that asks once.
abbrev giver : Giver ℕ ℕ
giver = record {
  poll_want = λ n. (n, pending);
  is_wanting = λ n. false;
  is_canceled = λ n. false;
  give = λ n. (0, ltb 0 n);
  shared = λ n. n;
  shared_is_canceled = λ n. false;
}

abbrev sends : List ((ℕ × ℕ) × Bytes)
sends = ((1, 1), []) ∷ ((2, 2), []) ∷ ((3, 3), []) ∷ []

abbrev keep :
    List (Envelope Bytes ℕ) → Envelope Bytes ℕ → List (Envelope Bytes ℕ) × Option (Envelope Bytes ℕ)
keep q e = (e ∷ q, none)

taken-asked_example :
    taken keep giver (record { buffered_once = false; giver = 1; inner = [] }) sends
    ≤ asked keep giver (record { buffered_once = false; giver = 1; inner = [] }) sends + 1
taken-asked_example =
    taken-asked keep giver (record { buffered_once = false; giver = 1; inner = [] }) sends

-- A client's connection on which nothing is going on.
abbrev idle_client : Dispatcher Bytes (Client Bytes Bytes ℕ Queue ℕ) Bytes ℕ
idle_client = record waiting_client {
  conn = record { io = []; state = record new { ka = KeepAlive.idle } };
}

stop_keep_alive-last_example :
    can_read_head quiet client (stop_keep_alive client_parts idle_client).conn ≡ false
    × wants_keep_alive (stop_keep_alive client_parts idle_client).conn.state ≡ false
unfolding poll_catch poll_inner poll_loop rounds or_fail poll_read turns after_loop catch is_idle
stop_keep_alive-last_example =
    stop_keep_alive-last client_parts idle_client (stop_keep_alive client_parts idle_client)
      (inl refl) (unfinished (stop_keep_alive client_parts idle_client) 0 true not_yet refl)
