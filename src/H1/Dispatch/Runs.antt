-- ===== src/H1/Dispatch/Runs.antt =====
-- What a dispatcher does to its connection and to its `Dispatch`: src/proto/h1/dispatch.rs.
use kaiwaehnero.Base.{Bool, true, false, Option, none, some, ℕ, zero, suc, ◌≡◌, refl, if◌then◌else◌}
use kaiwaehnero.Poll.{Poll, pending, ready}
use kaiwaehnero.H1.Error.{Error}
use kaiwaehnero.H1.Conn.Write.{Conn}
use kaiwaehnero.H1.Conn.Steps.{Step, Reach, here, more, shut_read, shut_write}
use kaiwaehnero.Http.{MessageHead}
use kaiwaehnero.H1.Dispatch.Parts.{
  Dispatch, Outgoing, received, broken, Parts, Dispatcher, Run, returns, panics, spent,
}
use kaiwaehnero.H1.Dispatch.Read.{Disp, Runs, Ended, with_conn, close, go_on, turns}

-- The calls that a dispatcher makes of its `Dispatch`: a message is asked for only where it should be polled, and a head is
-- given only where it is ready for one.
pub data Call {D Bs Rx : Type 0} (k : Dispatch D Bs Rx) (d : D) : D → Type 0 where
  ask :
      (x : D × Poll (Option (Outgoing Bs)))
      → k.should_poll d ≡ true
      → k.poll_msg d ≡ some x
      → Call k d x.0
  give :
      (h : MessageHead) (rx : Rx)
      → (k.poll_ready d).1 ≡ ready true
      → Call k d (k.recv_msg (k.poll_ready d).0 (received h rx)).0
  fail : (e : Error) → Call k d (k.recv_msg d (broken e)).0
  check : Call k d (k.poll_ready d).0

pub data Calls {D Bs Rx : Type 0} (k : Dispatch D Bs Rx) (d : D) : D → Type 0 where
  no_call : Calls k d d
  call : {e f : D} → Calls k d e → Call k e f → Calls k d f

module _ {I D Bs Tx Rx : Type 0} (p : Parts I D Bs Tx Rx) where
  pub Reach-trans :
      {a b c : Conn I}
      → Reach p.transport p.role a b
      → Reach p.transport p.role b c
      → Reach p.transport p.role a c
  Reach-trans r here = r
  Reach-trans r (more s t) = more (Reach-trans r s) t

  Calls-trans : {a b c : D} → Calls p.dispatch a b → Calls p.dispatch b c → Calls p.dispatch a c
  Calls-trans r no_call = r
  Calls-trans r (call s t) = call (Calls-trans r s) t

  -- The connection has made a run of its steps, and the dispatch a run of its calls.
  pub record Moved (d d' : Disp p) : Type 0 where
    pub conn : Reach p.transport p.role d.conn d'.conn
    pub dispatch : Calls p.dispatch d.dispatch d'.dispatch

  abbrev pub Moves : {A : Type 0} → Disp p → Runs p A → Type 0
  Moves d (returns d' a) = Moved d d'
  Moves d panics = Unit
  Moves d (spent d') = Moved d d'

  pub Moved-refl : (d : Disp p) → Moved d d
  Moved-refl d = record { conn = here; dispatch = no_call }

  pub Moved-trans : {a b c : Disp p} → Moved a b → Moved b c → Moved a c
  Moved-trans m n = record {
    conn = Reach-trans m.conn n.conn;
    dispatch = Calls-trans m.dispatch n.dispatch;
  }

  pub Moved-Moves : {A : Type 0} {a b : Disp p} (r : Runs p A) → Moved a b → Moves b r → Moves a r
  Moved-Moves (returns d x) m n = Moved-trans m n
  Moved-Moves panics m n = tt
  Moved-Moves (spent d) m n = Moved-trans m n

  pub if-Moves :
      {A : Type 0} (d : Disp p) (b : Bool) (r s : Runs p A)
      → (b ≡ true → Moves d r)
      → (b ≡ false → Moves d s)
      → Moves d (if b then r else s)
  if-Moves d true r s t f = t refl
  if-Moves d false r s t f = f refl

  pub conn-Moved :
      (d : Disp p) (c : Conn I) → Step p.transport p.role d.conn c → Moved d (with_conn p d c)
  conn-Moved d c s = record { conn = more here s; dispatch = no_call }

  pub dispatch-Moved :
      (d : Disp p) (k : D) → Call p.dispatch d.dispatch k → Moved d (record d { dispatch = k })
  dispatch-Moved d k c = record { conn = here; dispatch = call no_call c }

  pub close-Moved : (d : Disp p) → Moved d (close p d)
  unfolding close
  close-Moved d = record { conn = more (more here shut_read) shut_write; dispatch = no_call }

  pub go_on-Moves :
      (d : Disp p) (r : Runs p (Poll (Option Error))) → Moves d r → Moves d (go_on p r)
  unfolding go_on
  go_on-Moves d (returns d' (ready none)) m = m
  go_on-Moves d (returns d' pending) m = m
  go_on-Moves d (returns d' (ready (some e))) m = m
  go_on-Moves d panics m = tt
  go_on-Moves d (spent d') m = m

  -- A loop whose turns are runs is one, whatever its fuel.
  pub turns-Moves :
      (turn : Disp p → Runs p (Ended p)) (fuel : ℕ) (d : Disp p)
      → ((e : Disp p) → Moves e (turn e))
      → Moves d (turns p turn fuel d)
  unfolding turns
  turns-Moves turn zero d t = Moved-refl d
  turns-Moves turn (suc fuel) d t = after (turn d) (t d) (λ e. turns-Moves turn fuel e t)
    where
      after :
          (r : Runs p (Ended p))
          → Moves d r
          → ((e : Disp p) → Moves e (turns p turn fuel e))
          → Moves d (elim r [
            | returns d' none ↦ turns p turn fuel d'
            | returns d' (some x) ↦ returns d' x
            | panics ↦ panics
            | spent d' ↦ spent d'
          ])
      after (returns d' none) m ih = Moved-Moves (turns p turn fuel d') m (ih d')
      after (returns d' (some x)) m ih = m
      after panics m ih = tt
      after (spent d') m ih = m

-- What is true of the dispatcher when a call returns, and when its fuel is spent.
abbrev pub Holds :
    {I D Bs Tx A : Type 0} → (Dispatcher I D Bs Tx → Type 0) → Run I D Bs Tx A → Type 0
Holds P (returns d a) = P d
Holds P panics = Unit
Holds P (spent d) = P d

-- What every run keeps holds after a call that is one.
pub Moves-Holds :
    {I D Bs Tx Rx A : Type 0} (p : Parts I D Bs Tx Rx) (d : Disp p) (P : Disp p → Type 0)
    (r : Run I D Bs Tx A)
    → Moves p d r
    → ((e : Disp p) → Moved p d e → P e)
    → Holds P r
Moves-Holds p d P (returns e a) m f = f e m
Moves-Holds p d P panics m f = tt
Moves-Holds p d P (spent e) m f = f e m
