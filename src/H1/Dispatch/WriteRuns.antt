-- ===== src/H1/Dispatch/WriteRuns.antt =====
-- The writing half of src/proto/h1/dispatch.rs, as runs of the connection's steps and of the dispatch's calls.
use kaiwaehnero.Base.{
  ℕ, Bool, true, not, ◌&&◌, Option, none, some, ◌≡◌, refl, Bytes, Bool-cases, inl, inr, is_none,
  is_empty, arith,
}
use kaiwaehnero.Poll.{Poll, pending, ready}
use kaiwaehnero.Http.{MessageHead}
use kaiwaehnero.H1.Error.{Error}
use kaiwaehnero.H1.Conn.Write.{
  Conn, can_write_head, can_write_body, write_full_msg, write_body, write_body_and_end, end_body,
}
use kaiwaehnero.H1.Conn.Read.{can_buffer_body}
use kaiwaehnero.H1.Conn.Steps.{
  Step, here, more, start, start_full, chunk, last_chunk, finish, flush,
}
use kaiwaehnero.H1.Dispatch.Parts.{Outgoing, message, user_error, Parts}
use kaiwaehnero.H1.Dispatch.Read.{Disp, Ended}
use kaiwaehnero.H1.Dispatch.Write.{
  poll_flush, body_type, on_conn, start_msg, msg_polled, body_ended, without_body, write_chunk,
  data_polled, user_body_turn, write_turn, poll_write,
}
use kaiwaehnero.H1.Dispatch.Runs.{
  ask, no_call, Moved, Moves, Moved-refl, Moved-trans, Moved-Moves, conn-Moved, dispatch-Moved,
  close-Moved, go_on-Moves, turns-Moves, if-Moves,
}

module _ {I D Bs Tx Rx : Type 0} (p : Parts I D Bs Tx Rx) where
  pub poll_flush-Moves : (d : Disp p) → Moves p d (poll_flush p d)
  unfolding poll_flush
  poll_flush-Moves d = record { conn = more here flush; dispatch = no_call }

  on_conn-Moves :
      (d : Disp p) (r : Ended p) (o : Option (Conn I))
      → ((c : Conn I) → o ≡ some c → Step p.transport p.role d.conn c)
      → Moves p d (on_conn p d r o)
  unfolding on_conn
  on_conn-Moves d r none s = tt
  on_conn-Moves d r (some c) s = conn-Moved p d c (s c refl)

  start_msg-Moves :
      (d : Disp p) (h : MessageHead) (x : Bs × Option Bytes)
      → can_write_head p.transport p.role d.conn ≡ true
      → Moves p d (start_msg p d h x)
  unfolding start_msg
  start_msg-Moves d h (b, some full) g =
      on_conn-Moves d (some (ready none)) (write_full_msg p.transport p.role d.conn h full)
        (λ c e. start_full h full c g e)
  start_msg-Moves d h (b, none) g = elim (Bool-cases (p.http_body.is_end_stream b)) [
    | inl e ↦ rw (e) (record { conn = more here (start h none g); dispatch = no_call })
    | inr e ↦ rw (e) (record {
      conn = more here (start h (body_type p (p.http_body.exact b)) g);
      dispatch = no_call;
    })
  ]

  msg_polled-Moves :
      (d : Disp p) (x : Option (D × Poll (Option (Outgoing Bs))))
      → p.dispatch.poll_msg d.dispatch ≡ x
      → can_write_head p.transport p.role d.conn ≡ true
      → p.dispatch.should_poll d.dispatch ≡ true
      → Moves p d (msg_polled p d x)
  unfolding msg_polled
  msg_polled-Moves d none e g s = tt
  msg_polled-Moves d (some (k, pending)) e g s = dispatch-Moved p d k (ask _ s e)
  msg_polled-Moves d (some (k, ready none)) e g s =
      Moved-trans p (dispatch-Moved p d k (ask _ s e)) (close-Moved p (record d { dispatch = k }))
  msg_polled-Moves d (some (k, ready (some user_error))) e g s = dispatch-Moved p d k (ask _ s e)
  msg_polled-Moves d (some (k, ready (some (message h b)))) e g s =
      let d' = record d { dispatch = k } in
      Moved-Moves p (start_msg p d' h (p.http_body.take_full_data b))
        (dispatch-Moved p d k (ask _ s e)) (start_msg-Moves d' h (p.http_body.take_full_data b) g)

  body_ended-Moves :
      (d : Disp p) (x : Conn I × Option Error)
      → Step p.transport p.role d.conn x.0
      → Moves p d (body_ended p d x)
  unfolding body_ended
  body_ended-Moves d (c, none) s = conn-Moved p d c s
  body_ended-Moves d (c, some e) s = conn-Moved p d c s

  -- A body that is let go leaves the rest.
  body_gone : (d : Disp p) → Moved p d (without_body p d)
  body_gone d = record { conn = here; dispatch = no_call }

  body_kept : (d : Disp p) (b : Bs) → Moved p d (record d { body_rx = some b })
  body_kept d b = record { conn = here; dispatch = no_call }

  write_chunk-Moves : (d : Disp p) (b : Bs) (c : Bytes) → Moves p d (write_chunk p d b c)
  unfolding write_chunk
  write_chunk-Moves d b c = elim (Bool-cases (p.http_body.is_end_stream b)) [
    | inl e ↦ elim (Bool-cases (is_empty c)) [
      | inl z ↦
          rw (e, z)
            (Moved-Moves p (body_ended p (without_body p d) (end_body p.transport p.role d.conn))
              (body_gone d)
              (body_ended-Moves (without_body p d) (end_body p.transport p.role d.conn) finish))
      | inr z ↦
          rw (e, z)
            (Moved-Moves p
              (on_conn p (without_body p d) none (write_body_and_end p.transport p.role d.conn c))
              (body_gone d)
              (on_conn-Moves (without_body p d) none
                (write_body_and_end p.transport p.role d.conn c) (λ k q. last_chunk c k q)))
    ]
    | inr e ↦ elim (Bool-cases (is_empty c)) [
      | inl z ↦ rw (e, z) (body_kept d b)
      | inr z ↦
          rw (e, z)
            (Moved-Moves p
              (on_conn p (record d { body_rx = some b }) none
                (write_body p.transport p.role d.conn c))
              (body_kept d b)
              (on_conn-Moves (record d { body_rx = some b }) none
                (write_body p.transport p.role d.conn c) (λ k q. chunk c k q)))
    ]
  ]

  data_polled-Moves :
      (d : Disp p) (x : Bs × Poll (Option (Option Bytes))) → Moves p d (data_polled p d x)
  unfolding data_polled
  data_polled-Moves d (b, pending) = body_kept d b
  data_polled-Moves d (b, ready none) =
      Moved-Moves p (body_ended p (without_body p d) (end_body p.transport p.role d.conn))
        (body_gone d)
        (body_ended-Moves (without_body p d) (end_body p.transport p.role d.conn) finish)
  data_polled-Moves d (b, ready (some none)) = body_gone d
  data_polled-Moves d (b, ready (some (some c))) = write_chunk-Moves d b c

  user_body_turn-Moves : (d : Disp p) (b : Option Bs) → Moves p d (user_body_turn p d b)
  unfolding user_body_turn
  user_body_turn-Moves d none = Moved-refl p d
  user_body_turn-Moves d (some b) = elim (Bool-cases (can_write_body p.transport p.role d.conn)) [
    | inl h ↦ rw (h) (data_polled-Moves d (p.http_body.poll_data b))
    | inr h ↦ rw (h) (body_gone d)
  ]

  and_left : (a b c : Bool) → (a && (b && c)) ≡ true → (b ≡ true) × (c ≡ true)
  and_left a b c h = ground arith

  write_turn-Moves : (d : Disp p) → Moves p d (write_turn p d)
  unfolding write_turn
  write_turn-Moves d =
      if-Moves p d d.is_closing _ _ (λ h. Moved-refl p d)
        (λ h.
          if-Moves p d
            (is_none d.body_rx
              && (can_write_head p.transport p.role d.conn && p.dispatch.should_poll d.dispatch))
            _ _
            (λ g.
              let (w, s) =
                and_left (is_none d.body_rx) (can_write_head p.transport p.role d.conn)
                  (p.dispatch.should_poll d.dispatch) g in
              msg_polled-Moves d (p.dispatch.poll_msg d.dispatch) refl w s)
            (λ g.
              if-Moves p d (not (can_buffer_body p.transport p.role d.conn)) _ _
                (λ b. go_on-Moves p d (poll_flush p d) (poll_flush-Moves d))
                (λ b. user_body_turn-Moves d d.body_rx)))

  pub poll_write-Moves : (fuel : ℕ) (d : Disp p) → Moves p d (poll_write p fuel d)
  unfolding poll_write
  poll_write-Moves fuel d = turns-Moves p (write_turn p) fuel d write_turn-Moves
