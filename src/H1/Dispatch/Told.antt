-- ===== src/H1/Dispatch/Told.antt =====
-- What the calls of `Client` of src/proto/h1/dispatch.rs send to the callbacks.
use kaiwaehnero.Base.{
  Bool, true, false, Option, none, some, [], ◌∷◌, ◌++◌, ◌≡◌, refl, sym, ap, ◌⊎◌, inl, inr,
  if◌then◌else◌, subst,
}
use kaiwaehnero.Http.{MessageHead}
use kaiwaehnero.Poll.{Poll, pending, ready}
use kaiwaehnero.H1.Error.{Error, canceled}
use kaiwaehnero.H1.Dispatch.Parts.{Outgoing, Received, received, broken, Dispatch}
use kaiwaehnero.H1.Dispatch.Runs.{Call, ask, give, fail, check, Calls, no_call, call}
use kaiwaehnero.H1.Dispatch.Client.{
  settle, tell, Request, told, unwanted, Client, set_callback, not_canceled, on_request, poll_msg,
  cancel_next, recv_for, recv_msg, still_wanted, poll_ready_for, poll_ready, should_poll, client,
}
use kaiwaehnero.Client.Channel.{
  answered, refused, Oneshot, Mpsc, Taker, Callback, Envelope, Receiver, send, poll_canceled,
  poll_recv, received_now, try_recv,
}
use kaiwaehnero.Client.Channel
use kaiwaehnero.H1.Dispatch.Line.{is_none-none}

-- The message that a call gives.
abbrev pub message :
    {D Bs Rx : Type 0} {k : Dispatch D Bs Rx} {d e : D} → Call k d e → Option (Received Rx)
message (ask x s q) = none
message (give h rx g) = some (received h rx)
message (fail e) = some (broken e)
message check = none

module _ {Bs Rx O Q K : Type 0} (o : Oneshot O) (m : Mpsc Q (Envelope (Request Bs) O))
    (t : Taker K) where
  -- At most one of the queue is told that it was never begun.
  abbrev pub NeverBegun : Client Bs Rx O Q K → Client Bs Rx O Q K → Type 0
  NeverBegun d e =
      (e.settled ≡ d.settled)
      ⊎ ((req : Request Bs) × (cb : Callback O) × (e.settled
            ≡ d.settled ++ told (send cb (refused (canceled, some req))) ∷ []))

  -- A response answers the callback that waits for it. An error answers the callback that waits, or if there is none, at
  -- most one of the queue, with its request. Without a message, at most one is let go, and its receiver is gone.
  abbrev pub Told : Client Bs Rx O Q K → Option (Received Rx) → Client Bs Rx O Q K → Type 0
  Told d none e =
      (e.settled ≡ d.settled)
      ⊎ ((cb : Callback O) × ((poll_canceled o cb).1 ≡ ready tt)
          × (e.settled ≡ d.settled ++ unwanted (poll_canceled o cb).0 ∷ []))
  Told d (some (received h b)) e =
      (cb : Callback O) × (d.callback ≡ some cb)
      × (e.settled ≡ d.settled ++ told (send (poll_canceled o cb).0 (answered (h, b))) ∷ [])
  Told d (some (broken x)) e =
      ((cb : Callback O) × (d.callback ≡ some cb)
        × (e.settled ≡ d.settled ++ told (send cb (refused (x, none))) ∷ []))
      ⊎ ((d.callback ≡ none) × NeverBegun d e)

  not_canceled-Told :
      (d : Client Bs Rx O Q K) (req : Request Bs) (cb : Callback O)
      (x : Callback O × Poll (Unit {0}))
      → poll_canceled o cb ≡ x
      → d.callback ≡ none
      → Told d none (not_canceled d req x).0
  unfolding not_canceled set_callback
  not_canceled-Told d req cb (cb', ready u) q c =
      inr (cb, ap (λ x. x.1) q, ap (λ x. d.settled ++ unwanted x.0 ∷ []) (sym q))
  not_canceled-Told d (h, b) cb (cb', pending) q c = inl (rw (c) refl)

  abbrev KeepsTold : {A : Type 0} → Client Bs Rx O Q K → Option (Client Bs Rx O Q K × A) → Type 0
  KeepsTold d none = Unit
  KeepsTold d (some x) = Told d none x.0

  on_request-Told :
      (d : Client Bs Rx O Q K) (r : Option (Receiver Q K × Poll (Option (Request Bs × Callback O))))
      → d.callback ≡ none
      → KeepsTold d (on_request o m t d r)
  unfolding on_request
  on_request-Told d none c = tt
  on_request-Told d (some (rx, pending)) c = inl refl
  on_request-Told d (some (rx, ready none)) c = inl refl
  on_request-Told d (some (rx, ready (some (req, cb)))) c =
      not_canceled-Told (record d { rx = rx }) req cb (poll_canceled o cb) refl c

  poll_msg-Told :
      (d : Client Bs Rx O Q K) (x : Client Bs Rx O Q K × Poll (Option (Outgoing Bs)))
      → d.callback ≡ none
      → poll_msg o m t d ≡ some x
      → Told d none x.0
  unfolding poll_msg
  poll_msg-Told d x c e = subst (KeepsTold d) e (on_request-Told d (poll_recv m t d.rx) c)

  still_wanted-Told :
      (d : Client Bs Rx O Q K) (x : Callback O × Poll (Unit {0})) (h : MessageHead) (b : Rx)
      → (recv_msg o m t (still_wanted d x).0 (received h b)).0.settled
        ≡ d.settled ++ told (send x.0 (answered (h, b))) ∷ []
  unfolding still_wanted recv_msg recv_for tell settle
  still_wanted-Told d (cb, ready u) h b = refl
  still_wanted-Told d (cb, pending) h b = refl

  give-Told :
      (d : Client Bs Rx O Q K) (c : Option (Callback O)) (h : MessageHead) (b : Rx)
      → d.callback ≡ c
      → (poll_ready_for o m t d c).1 ≡ ready true
      → Told d (some (received h b)) (recv_msg o m t (poll_ready_for o m t d c).0 (received h b)).0
  unfolding poll_ready_for
  give-Told d none h b q g = cc
  give-Told d (some cb) h b q g = (cb, q, still_wanted-Told d (poll_canceled o cb) h b)

  wanted-settled :
      (d : Client Bs Rx O Q K) (x : Callback O × Poll (Unit {0}))
      → (still_wanted d x).0.settled ≡ d.settled
  unfolding still_wanted
  wanted-settled d (cb, ready u) = refl
  wanted-settled d (cb, pending) = refl

  check-Told :
      (d : Client Bs Rx O Q K) (c : Option (Callback O))
      → (poll_ready_for o m t d c).0.settled ≡ d.settled
  unfolding poll_ready_for
  check-Told d none = refl
  check-Told d (some cb) = wanted-settled d (poll_canceled o cb)

  cancel_next-NeverBegun :
      (d : Client Bs Rx O Q K) (x : Error) (r : Receiver Q K × Option (Request Bs × Callback O))
      → NeverBegun d (cancel_next d x r).0
  unfolding cancel_next tell settle
  cancel_next-NeverBegun d x (rx, none) = inl refl
  cancel_next-NeverBegun d x (rx, some (req, cb)) = inr (req, cb, refl)

  if-NeverBegun :
      {A : Type 0} (d : Client Bs Rx O Q K) (b : Bool) (x y : Client Bs Rx O Q K × A)
      → NeverBegun d x.0
      → NeverBegun d y.0
      → NeverBegun d (if b then x else y).0
  if-NeverBegun d true x y h k = h
  if-NeverBegun d false x y h k = k

  fail-Told :
      (d : Client Bs Rx O Q K) (c : Option (Callback O)) (x : Error)
      → d.callback ≡ c
      → Told d (some (broken x)) (recv_for o m t d c (broken x)).0
  unfolding recv_for tell settle
  fail-Told d (some cb) x q = inl (cb, q, refl)
  fail-Told d none x q = inr (
    q,
    if-NeverBegun d d.rx_closed (d, some x) _ (inl refl)
        (cancel_next-NeverBegun (record d { rx = Channel.close m t d.rx }) x
          (try_recv m t (Channel.close m t d.rx))),
  )

  Call-Told :
      {d e : Client Bs Rx O Q K} (k : Call (client {Bs = Bs} {Rx = Rx} o m t) d e)
      → Told d (message k) e
  unfolding should_poll recv_msg poll_ready
  Call-Told {d} (ask x s q) = poll_msg-Told d x (is_none-none d.callback s) q
  Call-Told {d} (give h rx g) = give-Told d d.callback h rx refl g
  Call-Told {d} (fail x) = fail-Told d d.callback x refl
  Call-Told {d} check = inl (check-Told d d.callback)

  -- Each call of the run does so.
  abbrev pub AllTold :
      {d e : Client Bs Rx O Q K} → Calls (client {Bs = Bs} {Rx = Rx} o m t) d e → Type 0
  AllTold no_call = Unit
  AllTold (call {e} {f} s k) = AllTold s × Told e (message k) f

  pub Calls-AllTold :
      {d e : Client Bs Rx O Q K} (s : Calls (client {Bs = Bs} {Rx = Rx} o m t) d e) → AllTold s
  Calls-AllTold no_call = tt
  Calls-AllTold (call s k) = (Calls-AllTold s, Call-Told k)
