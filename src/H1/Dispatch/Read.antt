-- ===== src/H1/Dispatch/Read.antt =====
-- The reading half of src/proto/h1/dispatch.rs. `Poll<crate::Result<()>>` is a `Poll` of an error that there may be.
use kaiwaehnero.Base.{
  ℕ, zero, suc, Bool, true, false, Option, none, some, List, [], ◌∷◌, ◌++◌, Bytes, if◌then◌else◌,
  ◌==◌,
}
use kaiwaehnero.Poll.{Poll, pending, ready, Result, ok, err}
use kaiwaehnero.Body.{DecodedLength}
use kaiwaehnero.H1.Error.{Error}
use kaiwaehnero.H1.Conn.State.{close_read, close_write, is_write_closed}
use kaiwaehnero.H1.Conn.Write.{Conn}
use kaiwaehnero.H1.Conn.Read.{
  Incoming, can_read_head, can_read_body, poll_read_body, poll_read_keep_alive,
  poll_drain_or_close_read,
}
use kaiwaehnero.H1.Conn.Read
use kaiwaehnero.H1.Dispatch.Parts.{received, broken, Parts, Dispatcher, Run, returns, panics, spent}

module _ {I D Bs Tx Rx : Type 0} (p : Parts I D Bs Tx Rx) where
  abbrev pub Disp : Type 0
  Disp = Dispatcher I D Bs Tx

  abbrev pub Runs : Type 0 → Type 0
  Runs A = Run I D Bs Tx A

  -- What a turn of a loop gives: `none` where the loop goes on.
  abbrev pub Ended : Type 0
  Ended = Option (Poll (Option Error))

  abbrev pub with_conn : Disp → Conn I → Disp
  with_conn d c = record d { conn = c }

  unfoldable pub close : Disp → Disp
  close d = record d {
    is_closing = true;
    conn = record d.conn { state = close_write (close_read d.conn.state) };
  }

  -- `self.body_tx = tx`, which drops what was there.
  abbrev pub to_list : Option Tx → List Tx
  to_list none = []
  to_list (some tx) = tx ∷ []

  unfoldable pub set_body_tx : Disp → Option Tx → Disp
  set_body_tx d tx = record d { body_tx = tx; gone = to_list d.body_tx ++ d.gone }

  abbrev pub drop_tx : Disp → Tx → Disp
  drop_tx d tx = record d { gone = tx ∷ d.gone }

  abbrev pub keep_tx : Disp → Tx → Disp
  keep_tx d tx = record d { body_tx = some tx }

  -- `ready!(..)?` in a loop.
  unfoldable pub go_on : Runs (Poll (Option Error)) → Runs Ended
  go_on (returns d (ready none)) = returns d none
  go_on (returns d pending) = returns d (some pending)
  go_on (returns d (ready (some e))) = returns d (some (ready (some e)))
  go_on panics = panics
  go_on (spent d) = spent d

  -- `self.dispatch.recv_msg(..)?`, and what follows it.
  unfoldable pub hand_over : (Disp → Disp) → Disp → D × Option Error → Runs (Poll (Option Error))
  hand_over then_do d (k, none) = returns (then_do (record d { dispatch = k })) (ready none)
  hand_over then_do d (k, some e) = returns (record d { dispatch = k }) (ready (some e))

  -- The body of a head, if it has one.
  unfoldable pub new_body : Disp → DecodedLength → Bool → Disp × Rx
  unfolding set_body_tx
  new_body d len expect =
      if len.value == 0
      then (d, p.channel.empty)
      else (let (tx, rx) = p.channel.new_channel len expect in (set_body_tx d (some tx), rx))

  unfoldable pub on_incoming : Disp → Incoming → Runs (Poll (Option Error))
  unfolding hand_over new_body close
  on_incoming d (Incoming.head h len expect upgrade) =
      let (d', rx) = new_body d len expect in
      hand_over (λ x. x) d' (p.dispatch.recv_msg d.dispatch (received h rx))
  on_incoming d (Incoming.error e) = hand_over close d (p.dispatch.recv_msg d.dispatch (broken e))

  unfoldable pub head_read : Disp → Conn I × Poll (Option Incoming) → Runs (Poll (Option Error))
  unfolding on_incoming close
  head_read d (c, pending) = returns (with_conn d c) pending
  head_read d (c, ready (some i)) = on_incoming (with_conn d c) i
  head_read d (c, ready none) =
      returns (if is_write_closed c.state then close (with_conn d c) else with_conn d c)
        (ready none)

  unfoldable pub after_ready : Disp → D × Poll Bool → Runs (Poll (Option Error))
  unfolding head_read close
  after_ready d (k, pending) = returns (record d { dispatch = k }) pending
  after_ready d (k, ready false) = returns (close (record d { dispatch = k })) (ready none)
  after_ready d (k, ready true) =
      head_read (record d { dispatch = k }) (Read.poll_read_head p.transport p.role d.conn)

  unfoldable pub poll_read_head : Disp → Runs (Poll (Option Error))
  unfolding after_ready
  poll_read_head d = after_ready d (p.dispatch.poll_ready d.dispatch)

  -- Where the user does not want the chunk, the reading half is closed.
  unfoldable pub chunk_sent : Disp → Tx × Bool → Runs Ended
  chunk_sent d (tx, true) = returns (keep_tx d tx) none
  chunk_sent d (tx, false) =
      returns
        (if can_read_body p.transport p.role d.conn
          then record (drop_tx d tx) { conn = record d.conn { state = close_read d.conn.state } }
          else drop_tx d tx)
        none

  unfoldable pub body_read : Disp → Tx → Option (Conn I × Poll (Option (Result Bytes))) → Runs Ended
  unfolding chunk_sent
  body_read d tx none = panics
  body_read d tx (some (c, pending)) = returns (keep_tx (with_conn d c) tx) (some pending)
  body_read d tx (some (c, ready none)) = returns (drop_tx (with_conn d c) tx) none
  body_read d tx (some (c, ready (some (ok b)))) =
      chunk_sent (with_conn d c) (p.channel.try_send_data tx b)
  body_read d tx (some (c, ready (some (err e)))) =
      returns (drop_tx (with_conn d c) (p.channel.send_error tx (Error.body e))) none

  unfoldable pub drained : Disp → Tx → Option (Conn I) → Runs Ended
  drained d tx none = panics
  drained d tx (some c) = returns (drop_tx (with_conn d c) tx) none

  -- A body whose receiver may take a chunk, has no room yet, or is gone.
  unfoldable pub tx_ready : Disp → Option (Tx × Poll Bool) → Runs Ended
  unfolding body_read drained
  tx_ready d none = panics
  tx_ready d (some (tx, pending)) = returns (keep_tx d tx) (some pending)
  tx_ready d (some (tx, ready false)) =
      drained d tx (poll_drain_or_close_read p.transport p.role d.conn)
  tx_ready d (some (tx, ready true)) = body_read d tx (poll_read_body p.transport p.role d.conn)

  unfoldable pub body_turn : Disp → Option Tx → Runs Ended
  unfolding tx_ready
  body_turn d none =
      let (c, r) = poll_read_keep_alive p.transport p.role d.conn in
      returns (with_conn d c) (some r)
  body_turn d (some tx) =
      let d' = record d { body_tx = none } in
      if can_read_body p.transport p.role d.conn
      then tx_ready d' (p.channel.poll_ready tx)
      else returns (drop_tx d' tx) none

  -- The loop's body in `poll_read`.
  unfoldable pub read_turn : Disp → Runs Ended
  unfolding go_on poll_read_head body_turn
  read_turn d =
      if d.is_closing
      then returns d (some (ready none))
      else if can_read_head p.transport p.role d.conn
      then go_on (poll_read_head d)
      else body_turn d d.body_tx

  -- A loop of such turns.
  unfoldable pub turns : (Disp → Runs Ended) → ℕ → Disp → Runs (Poll (Option Error))
  turns turn zero d = spent d
  turns turn (suc fuel) d = elim (turn d) [
    | returns d' none ↦ turns turn fuel d'
    | returns d' (some r) ↦ returns d' r
    | panics ↦ panics
    | spent d' ↦ spent d'
  ]

  unfoldable pub poll_read : ℕ → Disp → Runs (Poll (Option Error))
  unfolding turns read_turn
  poll_read fuel d = turns read_turn fuel d
