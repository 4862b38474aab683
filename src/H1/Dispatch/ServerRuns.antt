-- ===== src/H1/Dispatch/ServerRuns.antt =====
-- The turns that `Server` of src/proto/h1/dispatch.rs takes with the user's service.
use kaiwaehnero.Base.{
  Bool, true, false, Option, none, some, List, [], ◌∷◌, ◌++◌, ◌≡◌, refl, ap, subst, sym, is_some,
  arith,
}
use kaiwaehnero.Poll.{Poll, pending, ready}
use kaiwaehnero.Http.{MessageHead}
use kaiwaehnero.H1.Dispatch.Parts.{Outgoing, message, user_error}
use kaiwaehnero.H1.Dispatch.Runs.{Call, ask, give, fail, check, Calls, no_call, call}
use kaiwaehnero.H1.Dispatch.Server.{
  HttpService, Server, on_response, poll_msg_for, poll_msg, recv_msg, poll_ready_for, poll_ready,
  should_poll, server,
}

pub data Event : Type 0 where
  called responded : Event

abbrev pub response : {Bs : Type 0} → Poll (Option (Outgoing Bs)) → List Event
response (ready (some (message h b))) = responded ∷ []
response (ready (some user_error)) = []
response (ready none) = []
response pending = []

-- The newest event comes first. Between the two ends the service is called only when nothing is in flight, and a response
-- comes only when something is.
abbrev pub Alternates : Bool → List Event → Bool → Type 0
Alternates last [] first = last ≡ first
Alternates last (called ∷ es) first = (last ≡ true) × Alternates false es first
Alternates last (responded ∷ es) first = (last ≡ false) × Alternates true es first

Alternates-append :
    (a b c : Bool) (xs ys : List Event)
    → Alternates c xs b
    → Alternates b ys a
    → Alternates c (xs ++ ys) a
Alternates-append a b c [] ys e f = subst (λ x. Alternates x ys a) (sym e) f
Alternates-append a b c (called ∷ xs) ys (h, e) f = (h, Alternates-append a b false xs ys e f)
Alternates-append a b c (responded ∷ xs) ys (h, e) f = (h, Alternates-append a b true xs ys e f)

module _ {S F Bs Rx : Type 0} (s : HttpService S F Bs Rx) where
  abbrev pub event : {d e : Server S F} → Call (server s) d e → List Event
  event (ask x p q) = response x.1
  event (give h rx g) = called ∷ []
  event (fail e) = []
  event check = []

  abbrev pub events : {d e : Server S F} → Calls (server s) d e → List Event
  events no_call = []
  events (call r c) = event c ++ events r

  abbrev pub in_flight : Server S F → Bool
  in_flight d = is_some d.in_flight

  on_response-Alternates :
      (d : Server S F) (x : F × Poll (Option (MessageHead × Bs)))
      → Alternates (in_flight (on_response s d x).0) (response (on_response s d x).1) true
  unfolding on_response
  on_response-Alternates d (f, pending) = refl
  on_response-Alternates d (f, ready none) = refl
  on_response-Alternates d (f, ready (some (h, b))) = (refl, refl)

  poll_msg-Alternates :
      (d : Server S F) (o : Option F) (x : Server S F × Poll (Option (Outgoing Bs)))
      → is_some o ≡ true
      → poll_msg_for s d o ≡ some x
      → Alternates (in_flight x.0) (response x.1) true
  unfolding poll_msg_for
  poll_msg-Alternates d none x h e = ground arith
  poll_msg-Alternates d (some f) x h e =
      subst (λ o. Answered o) e (on_response-Alternates d (s.poll f))
    where
      Answered : Option (Server S F × Poll (Option (Outgoing Bs))) → Type 0
      Answered none = Unit
      Answered (some y) = Alternates (in_flight y.0) (response y.1) true

  poll_ready-keeps :
      (d : Server S F) (o : Option F)
      → d.in_flight ≡ o
      → (poll_ready_for s d o).0.in_flight ≡ d.in_flight
  unfolding poll_ready_for
  poll_ready-keeps d none h = refl
  poll_ready-keeps d (some f) h = refl

  poll_ready-free :
      (d : Server S F) (o : Option F) → (poll_ready_for s d o).1 ≡ ready true → is_some o ≡ false
  unfolding poll_ready_for
  poll_ready-free d none h = refl
  poll_ready-free d (some f) h = ground arith

  Call-Alternates :
      (d e : Server S F) (c : Call (server s) d e)
      → Alternates (in_flight e) (event c) (in_flight d)
  unfolding poll_msg recv_msg poll_ready should_poll
  Call-Alternates d e (ask x p q) =
      subst (λ b. Alternates (in_flight x.0) (response x.1) b) (sym p)
        (poll_msg-Alternates d d.in_flight x p q)
  Call-Alternates d e (give h rx g) = (refl, sym (poll_ready-free d d.in_flight g))
  Call-Alternates d e (fail x) = refl
  Call-Alternates d e check = ap is_some (poll_ready-keeps d d.in_flight refl)

  -- Whatever run of calls a dispatcher makes, the service is called for a request only when no response is in flight, and a
  -- response goes to the connection only after a call for it: calls and responses take turns, beginning with a response if
  -- one is in flight before the run, and something is in flight after it exactly if the last of them is a call.
  pub Calls-Alternates :
      (d e : Server S F) (c : Calls (server s) d e)
      → Alternates (in_flight e) (events c) (in_flight d)
  Calls-Alternates d e no_call = refl
  Calls-Alternates d e (call {e = f} r c) =
      Alternates-append (in_flight d) (in_flight f) (in_flight e) (event c) (events r)
        (Call-Alternates f e c) (Calls-Alternates d f r)

  -- A dispatcher polls for a message only where the call does not panic.
  pub poll_msg-some : (d : Server S F) → should_poll s d ≡ true → is_some (poll_msg s d) ≡ true
  unfolding should_poll poll_msg poll_msg_for
  poll_msg-some d h = ground arith
