-- ===== src/H1/Dispatch/ClientRuns.antt =====
-- The order in which `Client` of src/proto/h1/dispatch.rs settles the callbacks of its queue.
use kaiwaehnero.Base.{ℕ, subst, Bool, Option, none, some, List, ◌∷◌, ◌++◌, ◌≡◌, refl, ap, ◌∙◌}
use kaiwaehnero.Poll.{Poll, pending, ready}
use kaiwaehnero.H1.Error.{Error, canceled}
use kaiwaehnero.H1.Dispatch.Parts.{Outgoing, Received, received, broken, Parts}
use kaiwaehnero.H1.Dispatch.Read.{Disp}
use kaiwaehnero.H1.Dispatch.Poll.{poll_catch}
use kaiwaehnero.H1.Dispatch.Runs.{
  Moves-Holds, Holds, Call, ask, give, fail, check, Calls, no_call, call,
}
use kaiwaehnero.H1.Dispatch.PollRuns.{poll_catch-Moves}
use kaiwaehnero.H1.Dispatch.Client.{
  Request, unwanted, Client, set_callback, not_canceled, on_request, poll_msg, cancel_next,
  recv_for, recv_msg, still_wanted, poll_ready_for, poll_ready, should_poll, client,
}
use kaiwaehnero.Client.Channel.{
  Reply, answered, refused, Oneshot, Mpsc, Taker, Callback, retry, no_retry, Sent, to_retry,
  to_no_retry, Envelope, Receiver, send, poll_canceled, poll_recv, received_now, try_recv,
}
use kaiwaehnero.Client.Channel
use kaiwaehnero.H1.Dispatch.Told.{AllTold, Calls-AllTold}
use kaiwaehnero.H1.Dispatch.Line.{
  arrived, arrived_now, Took, IsFifo, owner, settled_names, queued, is_none-none,
  owner-poll_canceled, line, settle-line, tell-line, if-line, held-line, tell-held, line-held,
  line-front, Keeps,
}

module _ {Bs Rx O Q K N : Type 0} (name : O → N) (waiting : Q → List (Envelope (Request Bs) O))
    (o : Oneshot O) (m : Mpsc Q (Envelope (Request Bs) O)) (t : Taker K) where
  not_canceled-line :
      (d : Client Bs Rx O Q K) (req : Request Bs) (x : Callback O × Poll (Unit {0}))
      → d.callback ≡ none
      → line name waiting (not_canceled d req x).0
        ≡ settled_names name d.settled ++ (owner name x.0 ∷ queued name (waiting d.rx.inner))
  unfolding not_canceled set_callback
  not_canceled-line d req (cb, ready u) c = settle-line name waiting d (unwanted cb) c
  not_canceled-line d (h, b) (cb, pending) c = rw (c) (line-held name waiting d cb)

  cancel_next-line :
      (d : Client Bs Rx O Q K) (e : Error) (q : Q) (r : Option (Option (Envelope (Request Bs) O)))
      → d.callback ≡ none
      → Took (arrived_now r) (waiting d.rx.inner) (waiting q)
      → line name waiting (cancel_next d e (received_now m t d.rx (q, r))).0 ≡ line name waiting d
  unfolding cancel_next received_now line queued
  cancel_next-line d e q none c k = rw (k) refl
  cancel_next-line d e q (some none) c k = rw (k) refl
  cancel_next-line d e q (some (some none)) c k = rw (k) refl
  cancel_next-line d e q (some (some (some (req, cb)))) c k =
      tell-line name waiting (record d { rx = record d.rx { inner = q } }) cb
        (refused (canceled, some req)) c
      ∙ line-front name waiting d (owner name cb) (queued name (waiting q)) c (ap (queued name) k)

  on_request-line :
      (d : Client Bs Rx O Q K) (q : Q) (r : Poll (Option (Envelope (Request Bs) O)))
      → ((tx : O) → name (o.poll_closed tx).0 ≡ name tx)
      → d.callback ≡ none
      → Took (arrived r) (waiting d.rx.inner) (waiting q)
      → Keeps name waiting d (on_request o m t d (Channel.received m t d.rx (q, r)))
  unfolding on_request Channel.received line queued
  on_request-line d q pending n c k = rw (k) refl
  on_request-line d q (ready none) n c k = rw (k) refl
  on_request-line d q (ready (some none)) n c k = tt
  on_request-line d q (ready (some (some (req, cb)))) n c k =
      not_canceled-line (record d { rx = record d.rx { inner = q } }) req (poll_canceled o cb) c
      ∙ (rw (owner-poll_canceled name o cb n) (
          line-front name waiting d (owner name cb) (queued name (waiting q)) c
            (ap (queued name) k)))

  poll_msg-line :
      (d : Client Bs Rx O Q K) (x : Client Bs Rx O Q K × Poll (Option (Outgoing Bs)))
      → ((tx : O) → name (o.poll_closed tx).0 ≡ name tx)
      → IsFifo m waiting
      → d.callback ≡ none
      → poll_msg o m t d ≡ some x
      → line name waiting x.0 ≡ line name waiting d
  unfolding poll_msg poll_recv
  poll_msg-line d x n f c e = subst (Keeps name waiting d) e (
      on_request-line d (m.poll_recv d.rx.inner).0 (m.poll_recv d.rx.inner).1 n c
        (f.poll_recv d.rx.inner))

  abbrev closed : Client Bs Rx O Q K → Client Bs Rx O Q K
  closed d = record d { rx = Channel.close m t d.rx }

  closed-line :
      (d : Client Bs Rx O Q K)
      → IsFifo m waiting
      → line name waiting (closed d) ≡ line name waiting d
  unfolding line Channel.close
  closed-line d f = rw (f.close d.rx.inner) refl

  close_next-line :
      (d : Client Bs Rx O Q K) (e : Error)
      → IsFifo m waiting
      → d.callback ≡ none
      → line name waiting (cancel_next (closed d) e (try_recv m t (closed d).rx)).0
        ≡ line name waiting d
  unfolding try_recv
  close_next-line d e f c =
      cancel_next-line (closed d) e (m.recv_now (closed d).rx.inner).0
        (m.recv_now (closed d).rx.inner).1 c (f.recv_now (closed d).rx.inner)
      ∙ closed-line d f

  recv_for-line :
      (d : Client Bs Rx O Q K) (cb : Option (Callback O)) (r : Received Rx)
      → IsFifo m waiting
      → d.callback ≡ cb
      → line name waiting (recv_for o m t d cb r).0 ≡ line name waiting d
  unfolding recv_for
  recv_for-line d (some cb) (received h b) f c = tell-held name waiting d cb (answered (h, b)) c
  recv_for-line d none (received h b) f c = refl
  recv_for-line d (some cb) (broken e) f c = tell-held name waiting d cb (refused (e, none)) c
  recv_for-line d none (broken e) f c =
      if-line name waiting d d.rx_closed _ _ refl (close_next-line d e f c)

  recv_msg-line :
      (d : Client Bs Rx O Q K) (r : Received Rx)
      → IsFifo m waiting
      → line name waiting (recv_msg o m t d r).0 ≡ line name waiting d
  unfolding recv_msg
  recv_msg-line d r f = recv_for-line d d.callback r f refl

  still_wanted-line :
      (d : Client Bs Rx O Q K) (x : Callback O × Poll (Unit {0}))
      → settled_names name d.settled ++ (owner name x.0 ∷ queued name (waiting d.rx.inner))
        ≡ line name waiting d
      → line name waiting (still_wanted d x).0 ≡ line name waiting d
  unfolding still_wanted line
  still_wanted-line d (cb, ready u) e = e
  still_wanted-line d (cb, pending) e = e

  poll_ready_for-line :
      (d : Client Bs Rx O Q K) (cb : Option (Callback O))
      → ((tx : O) → name (o.poll_closed tx).0 ≡ name tx)
      → d.callback ≡ cb
      → line name waiting (poll_ready_for o m t d cb).0 ≡ line name waiting d
  unfolding poll_ready_for
  poll_ready_for-line d none n c = refl
  poll_ready_for-line d (some cb) n c =
      still_wanted-line d (poll_canceled o cb)
        (rw (owner-poll_canceled name o cb n) (held-line name waiting d cb c))

  poll_ready-line :
      (d : Client Bs Rx O Q K)
      → ((tx : O) → name (o.poll_closed tx).0 ≡ name tx)
      → line name waiting (poll_ready o m t d).0 ≡ line name waiting d
  unfolding poll_ready
  poll_ready-line d n = poll_ready_for-line d d.callback n refl

  Call-line :
      (d e : Client Bs Rx O Q K)
      → ((tx : O) → name (o.poll_closed tx).0 ≡ name tx)
      → IsFifo m waiting
      → Call (client {Bs = Bs} {Rx = Rx} o m t) d e
      → line name waiting e ≡ line name waiting d
  unfolding should_poll
  Call-line d e n f (ask x s q) = poll_msg-line d x n f (is_none-none d.callback s) q
  Call-line d e n f (give h rx g) =
      recv_msg-line (poll_ready o m t d).0 (received h rx) f ∙ poll_ready-line d n
  Call-line d e n f (fail x) = recv_msg-line d (broken x) f
  Call-line d e n f check = poll_ready-line d n

  -- Over a queue that gives what is sent first in, first out, and oneshot channels that stay what they are when they are
  -- polled: whatever run of calls a dispatcher makes, each callback is settled once, in the order of the queue, and none is
  -- lost. Those that were settled, the one that waits for a response and those in the queue are the same line name waiting of callbacks
  -- before the run and after it.
  pub Calls-line :
      (d e : Client Bs Rx O Q K)
      → ((tx : O) → name (o.poll_closed tx).0 ≡ name tx)
      → IsFifo m waiting
      → Calls (client {Bs = Bs} {Rx = Rx} o m t) d e
      → line name waiting e ≡ line name waiting d
  Calls-line d e n f no_call = refl
  Calls-line d e n f (call {e = c} s k) = Call-line c e n f k ∙ Calls-line d c n f s

  -- Over a queue that gives what is sent first in, first out, and oneshot channels that stay what they are when they are
  -- polled: a client's dispatcher, polled with whatever fuel, settles callbacks in the order of the queue, each once, and
  -- loses none: those that were settled, the one that waits for a response and those in the queue are the same line of
  -- callbacks before the poll and after it, unless it panics. It gets there by a run of calls. A call that gives a
  -- response sends it to the callback that waits; one that gives an error sends it to the callback that waits, or if
  -- there is none, gives at most one request of the queue back to its callback; and any other settles at most one
  -- callback, without an answer, whose receiver was gone.
  pub poll_catch-line :
      {I Tx : Type 0} (p : Parts I (Client Bs Rx O Q K) Bs Tx Rx) (fuel : ℕ) (b : Bool) (d : Disp p)
      → ((tx : O) → name (o.poll_closed tx).0 ≡ name tx)
      → IsFifo m waiting
      → p.dispatch ≡ client o m t
      → Holds
          (λ e.
            (line name waiting e.dispatch ≡ line name waiting d.dispatch)
            × (s : Calls (client {Bs = Bs} {Rx = Rx} o m t) d.dispatch e.dispatch) × AllTold o m t
                s)
          (poll_catch p fuel b d)
  poll_catch-line p fuel b d n f k =
      Moves-Holds p d
        (λ e.
          (line name waiting e.dispatch ≡ line name waiting d.dispatch)
          × (s : Calls (client {Bs = Bs} {Rx = Rx} o m t) d.dispatch e.dispatch) × AllTold o m t s)
        (poll_catch p fuel b d) (poll_catch-Moves p fuel b d)
        (λ e r.
          let s = subst (λ c. Calls c d.dispatch e.dispatch) k r.dispatch in
          (Calls-line d.dispatch e.dispatch n f s, s, Calls-AllTold o m t s))
