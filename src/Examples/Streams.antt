-- ===== src/Examples/Streams.antt =====
-- Bodies whose chunks wait in a list, and an end that is delayed by some polls.
use kaiwaehnero.Base.{
  ℕ, zero, suc, ◌≡◌, refl, true, false, Option, none, some, List, [], ◌∷◌, ◌++◌, Bytes, arith,
}
use kaiwaehnero.Poll.{ErrorKind, Poll, pending, ready}
use kaiwaehnero.H1.Error.{closed}
use kaiwaehnero.Body.{DecodedLength, into_opt}
use kaiwaehnero.Client.Channel.{Reply, answered}
use kaiwaehnero.Body.Stream.{
  poll_inner, take_delayed_eof, poll_with, poll_eof, poll_data, Item, Ends, Link, chan, new,
  size_hint, new_channel, drop_body, delayed_eof, poll_kind, on_chunk, delay_end, hold_eof,
  set_delayed_eof,
}
use kaiwaehnero.Body.Sender.{poll_want, poll_ready}
use kaiwaehnero.Body.Delay.{reads, Agrees, reads-delayed_eof}
use kaiwaehnero.Body.Demand.{
  Act, asks, sends, fails, trailers_polled, aborts, acts, offered, poll_ready-demand,
}
use kaiwaehnero.Body.Hint.{polled, polled-size_hint}

abbrev next_item : List Item → List Item × Poll (Option Item)
next_item [] = ([], ready none)
next_item (i ∷ is) = (is, ready (some i))

abbrev next_chunk : List Bytes → List Bytes × Poll (Option (Reply Bytes ErrorKind))
next_chunk [] = ([], ready none)
next_chunk (c ∷ cs) = (cs, ready (some (answered c)))

abbrev countdown : ℕ → ℕ × Poll (Unit {0})
countdown zero = (0, ready tt)
countdown (suc n) = (n, pending)

abbrev ends : Ends ℕ ℕ (List Item) ℕ (List Bytes) ℕ
ends = record {
  waker = record { register = λ w x. x; wake = λ w. 0 };
  poll_next = next_item;
  tx_poll_ready = λ m. (m, ready true);
  tx_try_send = λ m i. (m ++ i ∷ [], true);
  clone_try_send = λ m i. (m ++ i ∷ [], true);
  poll_trailers = λ t. (t, ready none);
  poll_stream = next_chunk;
  poll_delay = countdown;
}

abbrev two_chunks : Link ℕ (List Item) ℕ
two_chunks = record {
  want = record { value = 1; waker = 0 };
  chunks = answered (1 ∷ 2 ∷ []) ∷ answered (3 ∷ []) ∷ [];
  trailers = 0;
}

abbrev three_bytes : DecodedLength
three_bytes = record { value = 3 }

reads-delayed_eof_example :
    Agrees ends
      (reads ends 5 two_chunks (delayed_eof (new (chan three_bytes)) 1))
      (reads ends 5 two_chunks (new (chan three_bytes)))
reads-delayed_eof_example = reads-delayed_eof ends 5 two_chunks (chan three_bytes) 1

-- The end comes at the fifth poll, two polls later than without the delay.
delayed_two_polls :
    (reads ends 4 two_chunks (delayed_eof (new (chan three_bytes)) 2)).1 ≡ false
    × (reads ends 5 two_chunks (delayed_eof (new (chan three_bytes)) 2)).1 ≡ true
unfolding reads delayed_eof new poll_data poll_eof poll_with take_delayed_eof poll_inner poll_kind
    on_chunk delay_end hold_eof set_delayed_eof
delayed_two_polls = (refl, refl)

-- The sender asks, the body is polled, and then more is sent.
abbrev both_ends : List Act
both_ends = asks ∷ Act.polled ∷ sends (3 ∷ []) ∷ fails closed ∷ trailers_polled ∷ aborts ∷ asks ∷ []

abbrev sender : Link ℕ (List Item) ℕ
sender = (acts ends 7 both_ends (new_channel 0 [] 0 three_bytes true)).0

poll_ready-demand_example :
    (poll_ready ends 7 sender ≡ some (offered ends 7 true (poll_want ends 7 sender).0))
    × (poll_ready ends 7 (drop_body ends sender)
        ≡ some ((poll_want ends 7 (drop_body ends sender)).0, ready (some closed)))
poll_ready-demand_example = poll_ready-demand ends 7 0 [] 0 three_bytes true both_ends

polled-size_hint_example : size_hint (polled ends 1 two_chunks (new (chan three_bytes))).1 ≡ some 1
unfolding into_opt polled poll_data new
polled-size_hint_example =
    polled-size_hint ends 1 3 two_chunks three_bytes (omega arith) refl (omega arith)
