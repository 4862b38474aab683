-- ===== src/H1/Conn/Steps.antt =====
-- The runs of one HTTP/1 connection: the calls that src/proto/h1/dispatch.rs makes of
-- src/proto/h1/conn.rs, under the tests that the dispatcher makes first.
use kaiwaehnero.Base.{◌≡◌, ◌≢◌, refl, true, false, Option, some, Bytes, arith}
use kaiwaehnero.Poll.{Poll, Result}
use kaiwaehnero.Http.{MessageHead, BodyLength}
use kaiwaehnero.H1.Conn.State.{
  Role, KeepAlive, Reading, Writing, close_read, close_write, wants_keep_alive,
}
use kaiwaehnero.H1.Conn.Transport.{Transport}
use kaiwaehnero.H1.Conn.Write.{
  Conn, can_write_head, can_write_body, write_head, write_full_msg, write_body, write_body_and_end,
  end_body, writing_is_init,
}
use kaiwaehnero.H1.Conn.Read.{
  can_read_head, can_read_body, poll_read_head, poll_read_body, poll_read_keep_alive, poll_flush,
  poll_drain_or_close_read, disable_keep_alive, take_error, wants_read_again, reading_is_init,
  poll_shutdown,
}
use kaiwaehnero.H1.Conn.Later.{
  Later, Later-refl, Later-trans, write_head-Later, write_full-Later, encode_head-Later,
  write_chunk-Later, write_last-Later, end_writing-Later,
}
use kaiwaehnero.H1.Conn.LaterRead.{
  close_read-Later, close_write-Later, poll_read_head-Later, poll_read_body-Later,
  poll_read_keep_alive-Later, poll_flush-Later, poll_drain_or_close_read-Later,
  disable_keep_alive-Later,
}

module _ {I : Type 0} (t : Transport I) (role : Role) where
  pub data Step (c : Conn I) : Conn I → Type 0 where
    read_head : can_read_head t role c ≡ true → Step c (poll_read_head t role c).0
    read_body :
        (x : Conn I × Poll (Option (Result Bytes))) → poll_read_body t role c ≡ some x → Step c x.0
    read_keep_alive : Step c (poll_read_keep_alive t role c).0
    drain : (c' : Conn I) → poll_drain_or_close_read t role c ≡ some c' → Step c c'
    start :
        (h : MessageHead) (b : Option BodyLength)
        → can_write_head t role c ≡ true
        → Step c (write_head t role c h b)
    start_full :
        (h : MessageHead) (msg : Bytes) (c' : Conn I)
        → can_write_head t role c ≡ true
        → write_full_msg t role c h msg ≡ some c'
        → Step c c'
    chunk : (b : Bytes) (c' : Conn I) → write_body t role c b ≡ some c' → Step c c'
    last_chunk : (b : Bytes) (c' : Conn I) → write_body_and_end t role c b ≡ some c' → Step c c'
    finish : Step c (end_body t role c).0
    flush : Step c (poll_flush t role c).0
    disable : Step c (disable_keep_alive t role c)
    shut_read : Step c (record c { state = close_read c.state })
    shut_write : Step c (record c { state = close_write c.state })
    report : Step c (take_error t role c).0
    again : Step c (wants_read_again t role c).0
    shut_down : Step c (poll_shutdown t role c).0

  pub data Reach (c : Conn I) : Conn I → Type 0 where
    here : Reach c c
    more : {d e : Conn I} → Reach c d → Step d e → Reach c e

  can_write_head-open :
      (c : Conn I) → can_write_head t role c ≡ true → c.state.writing ≢ Writing.closed
  unfolding can_write_head
  can_write_head-open c h = λ k. ground arith

  can_read_head-open :
      (c : Conn I) → can_read_head t role c ≡ true → c.state.reading ≢ Reading.closed
  unfolding can_read_head
  can_read_head-open c h = λ k. ground arith

  -- Whatever call the dispatcher makes, the connection takes nothing back.
  Step-Later : {c c' : Conn I} → Step c c' → Later c.state c'.state
  unfolding write_full_msg write_body write_body_and_end end_body take_error wants_read_again
      poll_shutdown
  Step-Later {c} (read_head g) = poll_read_head-Later t role c (can_read_head-open c g)
  Step-Later {c} (read_body x e) = poll_read_body-Later t role c x e
  Step-Later {c} read_keep_alive = poll_read_keep_alive-Later t role c
  Step-Later {c} (drain c' e) = poll_drain_or_close_read-Later t role c c' e
  Step-Later {c} (start h b g) = write_head-Later t role c h b (can_write_head-open c g)
  Step-Later {c} (start_full h msg c' g e) =
      write_full-Later t role c.state msg _ c' (can_write_head-open c g)
        (encode_head-Later t role c h _) e
  Step-Later {c} (chunk b c' e) = write_chunk-Later t role c c' b c.state.writing refl e
  Step-Later {c} (last_chunk b c' e) = write_last-Later t role c c' b c.state.writing refl e
  Step-Later {c} finish = end_writing-Later t role c c.state.writing refl
  Step-Later {c} flush = poll_flush-Later t role c
  Step-Later {c} disable = disable_keep_alive-Later t role c
  Step-Later {c} shut_read = close_read-Later t role c.state
  Step-Later {c} shut_write = close_write-Later t role c.state
  Step-Later {c} report = ground arith
  Step-Later {c} again = ground arith
  Step-Later {c} shut_down = Later-refl c.state

  Reach-Later : {c c' : Conn I} → Reach c c' → Later c.state c'.state
  Reach-Later {c} here = Later-refl c.state
  Reach-Later (more r s) = Later-trans (Reach-Later r) (Step-Later s)

  -- Once the reading half is closed, no later call reads a head or a byte of a body.
  pub Reach-read_closed :
      {c c' : Conn I}
      → Reach c c'
      → c.state.reading ≡ Reading.closed
      → can_read_head t role c' ≡ false × can_read_body t role c' ≡ false
  unfolding can_read_head can_read_body
  Reach-read_closed r h = let k = (Reach-Later r).reading h in ground arith

  -- Once the writing half is closed, no later call starts a message or writes to a body.
  pub Reach-write_closed :
      {c c' : Conn I}
      → Reach c c'
      → c.state.writing ≡ Writing.closed
      → can_write_head t role c' ≡ false × can_write_body t role c' ≡ false
  unfolding can_write_head can_write_body
  Reach-write_closed r h = let k = (Reach-Later r).writing h in ground arith

  -- Once keep-alive is disabled and a message has begun to arrive, no other message is ever read, and the
  -- connection never asks to be kept alive again.
  pub Reach-last_read :
      {c c' : Conn I}
      → Reach c c'
      → c.state.ka ≡ KeepAlive.disabled
      → reading_is_init c.state.reading ≡ false
      → can_read_head t role c' ≡ false × wants_keep_alive c'.state ≡ false
  unfolding can_read_head wants_keep_alive
  Reach-last_read r h n =
      let k = (Reach-Later r).read_once h n in let l = (Reach-Later r).ka h in ground arith

  -- Once keep-alive is disabled and a message has begun to be written, no other message is ever written.
  pub Reach-last_written :
      {c c' : Conn I}
      → Reach c c'
      → c.state.ka ≡ KeepAlive.disabled
      → writing_is_init c.state.writing ≡ false
      → can_write_head t role c' ≡ false
  unfolding can_write_head
  Reach-last_written r h n = let k = (Reach-Later r).write_once h n in ground arith
