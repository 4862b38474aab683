-- ===== src/H1/Dispatch/Graceful.antt =====
-- What a dispatcher of src/proto/h1/dispatch.rs does after a graceful shutdown.
use kaiwaehnero.Base.{ℕ, Bool, true, false, Option, ◌≡◌, ◌⊎◌, inl, inr, subst, arith}
use kaiwaehnero.Poll.{Poll}
use kaiwaehnero.H1.Error.{Error}
use kaiwaehnero.H1.Conn.State.{
  State, KeepAlive, wants_keep_alive, is_idle, close_read, close_write, is_write_closed, disable_ka,
}
use kaiwaehnero.H1.Conn.State
use kaiwaehnero.H1.Conn.Read.{can_read_head, reading_is_init, disable_keep_alive}
use kaiwaehnero.H1.Conn.Steps.{Reach-last_read}
use kaiwaehnero.H1.Dispatch.Parts.{Parts, returns, spent}
use kaiwaehnero.H1.Dispatch.Read.{Disp, close}
use kaiwaehnero.H1.Dispatch.Poll.{poll_catch, stop_keep_alive}
use kaiwaehnero.H1.Dispatch.Runs.{Moved, Moves, Moved-refl, Moved-trans}
use kaiwaehnero.H1.Dispatch.PollRuns.{poll_catch-Moves}

module _ {I D Bs Tx Rx : Type 0} (p : Parts I D Bs Tx Rx) where
  -- A dispatcher after some polls, each of which has returned or has spent its fuel.
  pub data Polled (d : Disp p) : Disp p → Type 0 where
    not_yet : Polled d d
    returned :
        {e : Disp p} (f : Disp p) (fuel : ℕ) (b : Bool) (a : Poll (Option Error))
        → Polled d e
        → poll_catch p fuel b e ≡ returns f a
        → Polled d f
    unfinished :
        {e : Disp p} (f : Disp p) (fuel : ℕ) (b : Bool)
        → Polled d e
        → poll_catch p fuel b e ≡ spent f
        → Polled d f

  Polled-Moved : (d e : Disp p) → Polled d e → Moved p d e
  Polled-Moved d e not_yet = Moved-refl p d
  Polled-Moved d e (returned {e = c} f fuel b a q h) =
      Moved-trans p (Polled-Moved d c q) (subst (Moves p c) h (poll_catch-Moves p fuel b c))
  Polled-Moved d e (unfinished {e = c} f fuel b q h) =
      Moved-trans p (Polled-Moved d c q) (subst (Moves p c) h (poll_catch-Moves p fuel b c))

  -- A message has begun to be read, or nothing is going on.
  abbrev pub Begun : State → Type 0
  Begun s = (is_idle s ≡ true) ⊎ (reading_is_init s.reading ≡ false)

  stop_keep_alive-disabled :
      (d : Disp p)
      → Begun d.conn.state
      → ((stop_keep_alive p d).conn.state.ka ≡ KeepAlive.disabled)
        × (reading_is_init (stop_keep_alive p d).conn.state.reading ≡ false)
  unfolding stop_keep_alive close disable_keep_alive close_read close_write disable_ka State.close
  stop_keep_alive-disabled d (inl h) = ground arith
  stop_keep_alive-disabled d (inr h) = ground arith

  -- A connection that is idle, or has begun to read a message, and is then told to stop keeping alive: however often its
  -- dispatcher is polled afterwards, it reads no other message, and it is not kept alive.
  pub stop_keep_alive-last :
      (d e : Disp p)
      → Begun d.conn.state
      → Polled (stop_keep_alive p d) e
      → can_read_head p.transport p.role e.conn ≡ false × wants_keep_alive e.conn.state ≡ false
  stop_keep_alive-last d e b q =
      let (h, n) = stop_keep_alive-disabled d b in
      Reach-last_read p.transport p.role (Polled-Moved (stop_keep_alive p d) e q).conn h n
