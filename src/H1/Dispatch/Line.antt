-- ===== src/H1/Dispatch/Line.antt =====
-- The line of callbacks that `Client` of src/proto/h1/dispatch.rs works through.
use kaiwaehnero.Base.{
  arith, Bool, true, false, Option, none, some, List, [], ◌∷◌, ◌++◌, append_assoc, ◌≡◌, refl, ap,
  is_none, ◌∙◌, if◌then◌else◌,
}
use kaiwaehnero.Poll.{Poll, pending, ready}
use kaiwaehnero.H1.Error.{Error}
use kaiwaehnero.H1.Dispatch.Client.{
  Request, Response, Settled, told, unwanted, dropped, Client, settle, tell,
}
use kaiwaehnero.Client.Channel.{
  Reply, Oneshot, Mpsc, Callback, retry, no_retry, Sent, to_retry, to_no_retry, Envelope, send,
  poll_canceled,
}

abbrev pub arrived : {A : Type 0} → Poll (Option A) → Option A
arrived (ready x) = x
arrived pending = none

abbrev pub arrived_now : {A : Type 0} → Option (Option A) → Option A
arrived_now (some x) = x
arrived_now none = none

-- What is taken off the front of a queue.
abbrev pub Took : {A : Type 0} → Option A → List A → List A → Type 0
Took none before after = before ≡ after
Took (some x) before after = before ≡ x ∷ after

-- The queue gives what is or will be in it first in, first out; closing it loses nothing of what has been sent.
pub record IsFifo {Q E : Type 0} (m : Mpsc Q E) (waiting : Q → List E) : Type 0 where
  pub poll_recv : (q : Q) → Took (arrived (m.poll_recv q).1) (waiting q) (waiting (m.poll_recv q).0)
  pub close : (q : Q) → waiting (m.close q) ≡ waiting q
  pub recv_now :
      (q : Q) → Took (arrived_now (m.recv_now q).1) (waiting q) (waiting (m.recv_now q).0)

module _ {O N : Type 0} (name : O → N) where
  abbrev pub owner : Callback O → N
  owner (retry tx) = name tx
  owner (no_retry tx) = name tx

  abbrev pub receiver_of : {T U : Type 0} → Sent T U O → N
  receiver_of (to_retry tx v) = name tx
  receiver_of (to_no_retry tx v) = name tx

  abbrev pub settled_of : {Bs Rx : Type 0} → Settled Bs Rx O → N
  settled_of (told s) = receiver_of s
  settled_of (unwanted cb) = owner cb
  settled_of (dropped cb) = owner cb

  unfoldable pub settled_names : {Bs Rx : Type 0} → List (Settled Bs Rx O) → List N
  settled_names [] = []
  settled_names (s ∷ ss) = settled_of s ∷ settled_names ss

  abbrev pub held : Option (Callback O) → List N
  held none = []
  held (some cb) = owner cb ∷ []

  unfoldable pub queued : {T : Type 0} → List (Envelope T O) → List N
  queued [] = []
  queued (none ∷ es) = queued es
  queued (some (v, cb) ∷ es) = owner cb ∷ queued es

  pub settled_names-snoc :
      {Bs Rx : Type 0} (xs : List (Settled Bs Rx O)) (s : Settled Bs Rx O)
      → settled_names (xs ++ s ∷ []) ≡ settled_names xs ++ settled_of s ∷ []
  unfolding settled_names
  settled_names-snoc [] s = refl
  settled_names-snoc (x ∷ xs) s = ap (◌∷◌ (settled_of x)) (settled_names-snoc xs s)

  pub receiver_of-send :
      {T U : Type 0} (cb : Callback O) (v : Reply U (Error × Option T))
      → receiver_of (send cb v) ≡ owner cb
  unfolding send
  receiver_of-send (retry tx) v = refl
  receiver_of-send (no_retry tx) v = refl

pub is_none-none : {O : Type 0} (cb : Option (Callback O)) → is_none cb ≡ true → cb ≡ none
is_none-none none h = refl
is_none-none (some cb) h = ground arith

pub owner-poll_canceled :
    {O N : Type 0} (name : O → N) (o : Oneshot O) (cb : Callback O)
    → ((tx : O) → name (o.poll_closed tx).0 ≡ name tx)
    → owner name (poll_canceled o cb).0 ≡ owner name cb
unfolding poll_canceled
owner-poll_canceled name o (retry tx) n = n tx
owner-poll_canceled name o (no_retry tx) n = n tx

module _ {Bs Rx O Q K N : Type 0} (name : O → N)
    (waiting : Q → List (Envelope (Request Bs) O)) where
  -- The callbacks that were, are and will be in the client's hands, in order.
  unfoldable pub line : Client Bs Rx O Q K → List N
  line d =
      settled_names name d.settled ++ (held name d.callback ++ queued name (waiting d.rx.inner))

  pub settle-line :
      (d : Client Bs Rx O Q K) (s : Settled Bs Rx O)
      → d.callback ≡ none
      → line (settle d s)
        ≡ settled_names name d.settled ++ (settled_of name s ∷ queued name (waiting d.rx.inner))
  unfolding line settle
  settle-line d s c =
      rw
        (
          settled_names-snoc name d.settled s,
          c,
          append_assoc (settled_names name d.settled) (settled_of name s ∷ [])
              (queued name (waiting d.rx.inner)),
        )
        refl

  abbrev pub Keeps : {A : Type 0} → Client Bs Rx O Q K → Option (Client Bs Rx O Q K × A) → Type 0
  Keeps d none = Unit
  Keeps d (some x) = line x.0 ≡ line d

  -- The client when it holds no callback and its queue has given the one at the front.
  pub tell-line :
      (d : Client Bs Rx O Q K) (cb : Callback O)
      (v : Reply (Response Rx) (Error × Option (Request Bs)))
      → d.callback ≡ none
      → line (tell d cb v)
        ≡ settled_names name d.settled ++ (owner name cb ∷ queued name (waiting d.rx.inner))
  unfolding tell
  tell-line d cb v c =
      settle-line d (told (send cb v)) c
      ∙ ap (λ n. settled_names name d.settled ++ (n ∷ queued name (waiting d.rx.inner)))
          (receiver_of-send name cb v)

  pub if-line :
      {A : Type 0} (d : Client Bs Rx O Q K) (b : Bool) (x y : Client Bs Rx O Q K × A)
      → line x.0 ≡ line d
      → line y.0 ≡ line d
      → line (if b then x else y).0 ≡ line d
  if-line d true x y h k = h
  if-line d false x y h k = k

  pub held-line :
      (d : Client Bs Rx O Q K) (cb : Callback O)
      → d.callback ≡ some cb
      → settled_names name d.settled ++ (owner name cb ∷ queued name (waiting d.rx.inner)) ≡ line d
  unfolding line
  held-line d cb c = rw (c) refl

  pub tell-held :
      (d : Client Bs Rx O Q K) (cb : Callback O)
      (v : Reply (Response Rx) (Error × Option (Request Bs)))
      → d.callback ≡ some cb
      → line (tell (record d { callback = none }) cb v) ≡ line d
  tell-held d cb v c = tell-line (record d { callback = none }) cb v refl ∙ held-line d cb c

  pub line-held :
      (d : Client Bs Rx O Q K) (cb : Callback O)
      → line (record d { callback = some cb })
        ≡ settled_names name d.settled ++ (owner name cb ∷ queued name (waiting d.rx.inner))
  unfolding line
  line-held d cb = refl

  pub line-front :
      (d : Client Bs Rx O Q K) (n : N) (ns : List N)
      → d.callback ≡ none
      → queued name (waiting d.rx.inner) ≡ n ∷ ns
      → settled_names name d.settled ++ (n ∷ ns) ≡ line d
  unfolding line
  line-front d n ns c q = rw (c, q) refl
