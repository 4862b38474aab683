-- ===== src/H1/Dispatch/ReadRuns.antt =====
-- The reading half of src/proto/h1/dispatch.rs, as runs of the connection's steps and of the dispatch's calls.
use kaiwaehnero.Base.{
  ℕ, Bool, true, false, Option, none, some, ◌≡◌, refl, ap, Bytes, ◌==◌, Bool-cases, inl, inr,
}
use kaiwaehnero.Poll.{Poll, pending, ready, Result, ok, err}
use kaiwaehnero.Http.{MessageHead}
use kaiwaehnero.Body.{DecodedLength}
use kaiwaehnero.H1.Error.{Error}
use kaiwaehnero.H1.Conn.State.{is_write_closed}
use kaiwaehnero.H1.Conn.Write.{Conn}
use kaiwaehnero.H1.Conn.Read.{
  Incoming, can_read_head, can_read_body, poll_read_body, poll_drain_or_close_read,
}
use kaiwaehnero.H1.Conn.Read
use kaiwaehnero.H1.Conn.Steps.{
  Reach, here, more, read_head, read_body, read_keep_alive, drain, shut_read,
}
use kaiwaehnero.H1.Dispatch.Parts.{received, broken, Parts}
use kaiwaehnero.H1.Dispatch.Read.{
  Disp, with_conn, close, hand_over, new_body, on_incoming, head_read, after_ready, poll_read_head,
  chunk_sent, body_read, drained, tx_ready, body_turn, read_turn, poll_read,
}
use kaiwaehnero.H1.Dispatch.Runs.{
  Call, Calls, call, give, fail, check, Reach-trans, no_call, Moved, Moves, Moved-refl, Moved-trans,
  Moved-Moves, conn-Moved, dispatch-Moved, close-Moved, go_on-Moves, turns-Moves, if-Moves,
}

module _ {I D Bs Tx Rx : Type 0} (p : Parts I D Bs Tx Rx) where
  hand_over-Moves :
      (then_do : Disp p → Disp p) (a d : Disp p) (x : D × Option Error)
      → Reach p.transport p.role a.conn d.conn
      → Calls p.dispatch a.dispatch x.0
      → ((e : Disp p) → Moved p e (then_do e))
      → Moves p a (hand_over p then_do d x)
  unfolding hand_over
  hand_over-Moves then_do a d (k, none) r c t =
      Moved-trans p {a = a} {b = record d { dispatch = k }} (record { conn = r; dispatch = c })
        (t (record d { dispatch = k }))
  hand_over-Moves then_do a d (k, some e) r c t = record { conn = r; dispatch = c }

  new_body-Moved :
      (d : Disp p) (len : DecodedLength) (expect : Bool) → Moved p d (new_body p d len expect).0
  unfolding new_body
  new_body-Moved d len expect = elim (Bool-cases (len.value == 0)) [
    | inl z ↦ rw (z) (Moved-refl p d)
    | inr z ↦ rw (z) (record { conn = here; dispatch = no_call })
  ]

  -- What has been read when the dispatch has said that it is ready.
  on_incoming-Moves :
      (a d : Disp p) (i : Incoming)
      → Reach p.transport p.role a.conn d.conn
      → Call p.dispatch a.dispatch d.dispatch
      → ((h : MessageHead) (rx : Rx)
          → Call p.dispatch a.dispatch (p.dispatch.recv_msg d.dispatch (received h rx)).0)
      → Moves p a (on_incoming p d i)
  unfolding on_incoming
  on_incoming-Moves a d (Incoming.head h len expect upgrade) r c g =
      let x = new_body p d len expect in
      hand_over-Moves (λ x. x) a x.0 (p.dispatch.recv_msg d.dispatch (received h x.1))
        (Reach-trans p r (new_body-Moved d len expect).conn) (call no_call (g h x.1)) (Moved-refl p)
  on_incoming-Moves a d (Incoming.error e) r c g =
      hand_over-Moves (close p) a d (p.dispatch.recv_msg d.dispatch (broken e)) r
        (call (call no_call c) (fail e)) (close-Moved p)

  head_read-Moves :
      (a d : Disp p) (x : Conn I × Poll (Option Incoming))
      → Reach p.transport p.role a.conn x.0
      → Call p.dispatch a.dispatch d.dispatch
      → ((h : MessageHead) (rx : Rx)
          → Call p.dispatch a.dispatch (p.dispatch.recv_msg d.dispatch (received h rx)).0)
      → Moves p a (head_read p d x)
  unfolding head_read
  head_read-Moves a d (c, pending) r k g = record { conn = r; dispatch = call no_call k }
  head_read-Moves a d (c, ready (some i)) r k g = on_incoming-Moves a (with_conn p d c) i r k g
  head_read-Moves a d (c, ready none) r k g =
      let m : Moved p a (with_conn p d c) = record { conn = r; dispatch = call no_call k } in
      elim (Bool-cases (is_write_closed c.state)) [
        | inl h ↦ rw (h) (Moved-trans p m (close-Moved p (with_conn p d c)))
        | inr h ↦ rw (h) m
      ]

  after_ready-Moves :
      (d : Disp p) (x : D × Poll Bool)
      → p.dispatch.poll_ready d.dispatch ≡ x
      → can_read_head p.transport p.role d.conn ≡ true
      → Moves p d (after_ready p d x)
  unfolding after_ready
  after_ready-Moves d (k, pending) e g = dispatch-Moved p d k (rw⁻¹ (ap (λ x. x.0) e) check)
  after_ready-Moves d (k, ready false) e g =
      Moved-trans p (dispatch-Moved p d k (rw⁻¹ (ap (λ x. x.0) e) check))
        (close-Moved p (record d { dispatch = k }))
  after_ready-Moves d (k, ready true) e g =
      let k_eq = ap (λ x. x.0) e in
      head_read-Moves d (record d { dispatch = k }) (Read.poll_read_head p.transport p.role d.conn)
        (more here (read_head g)) (rw⁻¹ k_eq check)
        (λ h rx. rw⁻¹ k_eq (give h rx (ap (λ x. x.1) e)))

  poll_read_head-Moves :
      (d : Disp p) → can_read_head p.transport p.role d.conn ≡ true → Moves p d (poll_read_head p d)
  unfolding poll_read_head
  poll_read_head-Moves d g = after_ready-Moves d (p.dispatch.poll_ready d.dispatch) refl g

  chunk_sent-Moves : (d : Disp p) (x : Tx × Bool) → Moves p d (chunk_sent p d x)
  unfolding chunk_sent
  chunk_sent-Moves d (tx, true) = record { conn = here; dispatch = no_call }
  chunk_sent-Moves d (tx, false) = elim (Bool-cases (can_read_body p.transport p.role d.conn)) [
    | inl h ↦ rw (h) (record { conn = more here shut_read; dispatch = no_call })
    | inr h ↦ rw (h) (record { conn = here; dispatch = no_call })
  ]

  body_read-Moves :
      (d : Disp p) (tx : Tx) (o : Option (Conn I × Poll (Option (Result Bytes))))
      → poll_read_body p.transport p.role d.conn ≡ o
      → Moves p d (body_read p d tx o)
  unfolding body_read
  body_read-Moves d tx none e = tt
  body_read-Moves d tx (some (c, pending)) e = record {
    conn = more here (read_body (c, pending) e);
    dispatch = no_call;
  }
  body_read-Moves d tx (some (c, ready none)) e = record {
    conn = more here (read_body (c, ready none) e);
    dispatch = no_call;
  }
  body_read-Moves d tx (some (c, ready (some (ok b)))) e =
      let x = p.channel.try_send_data tx b in
      Moved-Moves p (chunk_sent p (with_conn p d c) x)
        (conn-Moved p d c (read_body (c, ready (some (ok b))) e))
        (chunk_sent-Moves (with_conn p d c) x)
  body_read-Moves d tx (some (c, ready (some (err k)))) e = record {
    conn = more here (read_body (c, ready (some (err k))) e);
    dispatch = no_call;
  }

  drained-Moves :
      (d : Disp p) (tx : Tx) (o : Option (Conn I))
      → poll_drain_or_close_read p.transport p.role d.conn ≡ o
      → Moves p d (drained p d tx o)
  unfolding drained
  drained-Moves d tx none e = tt
  drained-Moves d tx (some c) e = record { conn = more here (drain c e); dispatch = no_call }

  tx_ready-Moves : (d : Disp p) (x : Option (Tx × Poll Bool)) → Moves p d (tx_ready p d x)
  unfolding tx_ready
  tx_ready-Moves d none = tt
  tx_ready-Moves d (some (tx, pending)) = record { conn = here; dispatch = no_call }
  tx_ready-Moves d (some (tx, ready false)) =
      drained-Moves d tx (poll_drain_or_close_read p.transport p.role d.conn) refl
  tx_ready-Moves d (some (tx, ready true)) =
      body_read-Moves d tx (poll_read_body p.transport p.role d.conn) refl

  body_turn-Moves : (d : Disp p) (tx : Option Tx) → Moves p d (body_turn p d tx)
  unfolding body_turn
  body_turn-Moves d none = record { conn = more here read_keep_alive; dispatch = no_call }
  body_turn-Moves d (some tx) = elim (Bool-cases (can_read_body p.transport p.role d.conn)) [
    | inl h ↦ rw (h) (
        Moved-Moves p (tx_ready p (record d { body_tx = none }) (p.channel.poll_ready tx))
          (record { conn = here; dispatch = no_call })
          (tx_ready-Moves (record d { body_tx = none }) (p.channel.poll_ready tx)))
    | inr h ↦ rw (h) (record { conn = here; dispatch = no_call })
  ]

  read_turn-Moves : (d : Disp p) → Moves p d (read_turn p d)
  unfolding read_turn
  read_turn-Moves d =
      if-Moves p d d.is_closing _ _ (λ h. Moved-refl p d)
        (λ h.
          if-Moves p d (can_read_head p.transport p.role d.conn) _ _
            (λ g. go_on-Moves p d (poll_read_head p d) (poll_read_head-Moves d g))
            (λ g. body_turn-Moves d d.body_tx))

  pub poll_read-Moves : (fuel : ℕ) (d : Disp p) → Moves p d (poll_read p fuel d)
  unfolding poll_read
  poll_read-Moves fuel d = turns-Moves p (read_turn p) fuel d read_turn-Moves
