-- ===== src/Pool.antt =====
-- src/client/pool.rs: the connections a client keeps, by host. A host's key is a number, and a
-- hash map is a function of the key. The end of an idle list's vector, where it is pushed and popped, is the
-- head of the list. A waiter is the number of its channel; the channels are those of futures_channel, of
-- which `is_canceled` and `accepts` say whether the receiver is gone when it is looked at and when the value
-- is sent. `now` is the clock.
pub mod Pop
pub mod Bounds
pub mod Waiters
use kaiwaehnero.Base.{
  ℕ, ◌-◌, ◌≡◌, Bool, true, false, not, ◌&&◌, Option, none, some, List, [], ◌∷◌, ◌++◌, length,
  is_empty, is_none, leb, ltb, ◌==◌, if◌then◌else◌,
}

pub data Reservation (T : Type 0) : Type 0 where
  shared : T → T → Reservation T
  unique : T → Reservation T

-- The trait `Poolable`.
pub record Poolable (T : Type 0) : Type 0 where
  pub is_open : T → Bool
  pub reserve : T → Reservation T
  pub can_share : T → Bool

pub record Idle (T : Type 0) : Type 0 where
  pub idle_at : ℕ
  pub value : T

pub record PoolInner (T : Type 0) : Type 0 where
  pub connecting : ℕ → Bool
  pub idle : ℕ → Option (List (Idle T))
  pub max_idle_per_host : ℕ
  pub waiters : ℕ → Option (List ℕ)
  pub timeout : Option ℕ

-- `insert` and `remove` of a hash map.
abbrev pub update {ℓ} : {A : Type ℓ} → (ℕ → A) → ℕ → A → ℕ → A
update m k v j = if j == k then v else m j

abbrev pub or_empty {ℓ} : {A : Type ℓ} → Option (List A) → List A
or_empty none = []
or_empty (some l) = l

-- `Expiration::expires`, and the test of `clear_expired`; `saturating_duration_since` stops at 0.
unfoldable pub expires : ℕ → Option ℕ → ℕ → Bool
expires now none at = false
expires now (some dur) at = ltb dur (now - at)

module _ {T : Type 0} (c : Poolable T) where
  abbrev pub is_dead : ℕ → Option ℕ → Idle T → Bool
  is_dead now timeout e = if not (c.is_open e.value) then true else expires now timeout e.idle_at

  unfoldable pub reserved :
      ℕ → Idle T → List (Idle T) → Reservation T → List (Idle T) × Option (Idle T)
  reserved now e rest (shared keep out) = (
    record { idle_at = now; value = keep } ∷ rest,
    some (record { idle_at = e.idle_at; value = out }),
  )
  reserved now e rest (unique v) = (rest, some (record { idle_at = e.idle_at; value = v }))

  -- `IdlePopper::pop`: the list left and the entry taken.
  unfoldable pub pop : ℕ → Option ℕ → List (Idle T) → List (Idle T) × Option (Idle T)
  unfolding reserved
  pop now timeout [] = ([], none)
  pop now timeout (e ∷ l) =
      let rest = pop now timeout l in
      if not (c.is_open e.value)
      then rest
      else if expires now timeout e.idle_at
      then rest
      else reserved now e l (c.reserve e.value)

  -- The loop of `put` over the waiters: the waiters left, the value if it is still there, and what was sent.
  unfoldable pub send_loop : (ℕ → Bool) → (ℕ → Bool) → List ℕ → T → List ℕ × Option T × List (ℕ × T)
  send_loop is_canceled accepts [] v = ([], some v, [])
  send_loop is_canceled accepts (tx ∷ ws) v =
      if is_canceled tx then send_loop is_canceled accepts ws v else elim (c.reserve v) [
        | shared keep out ↦
            if accepts tx
            then (let (ws', v', sent) = send_loop is_canceled accepts ws keep in
                (ws', v', (tx, out) ∷ sent))
            else send_loop is_canceled accepts ws out
        | unique u ↦
            if accepts tx then (ws, none, (tx, u) ∷ []) else send_loop is_canceled accepts ws u
      ]

  unfoldable pub send_waiters :
      (ℕ → Bool) → (ℕ → Bool) → Option (List ℕ) → T → Option (List ℕ) × Option T × List (ℕ × T)
  unfolding send_loop
  send_waiters is_canceled accepts none v = (none, some v, [])
  send_waiters is_canceled accepts (some ws) v =
      let (ws', v', sent) = send_loop is_canceled accepts ws v in
      ((if is_empty ws' then none else some ws'), v', sent)

  -- An idle list takes a value only if it is not full; the entry of the map is made in any case.
  unfoldable pub push_idle : ℕ → PoolInner T → ℕ → Option T → PoolInner T
  push_idle now p key none = p
  push_idle now p key (some v) =
      let list = or_empty (p.idle key) in
      record p {
        idle = update p.idle key (
            some (
              if leb p.max_idle_per_host (length list)
              then list
              else record { idle_at = now; value = v } ∷ list));
      }

  -- `PoolInner::put`, with the values sent to waiters.
  unfoldable pub put :
      (ℕ → Bool) → (ℕ → Bool) → ℕ → PoolInner T → ℕ → T → PoolInner T × List (ℕ × T)
  unfolding send_waiters push_idle
  put is_canceled accepts now p key v =
      if c.can_share v && not (is_none (p.idle key))
      then (p, [])
      else (let (ws, v', sent) = send_waiters is_canceled accepts (p.waiters key) v in
          (push_idle now (record p { waiters = update p.waiters key ws }) key v', sent))

  unfoldable pub connected : PoolInner T → ℕ → PoolInner T
  connected p key = record p {
    connecting = update p.connecting key false;
    waiters = update p.waiters key none;
  }

  -- `retain`.
  retain {ℓ} : {A : Type ℓ} → (A → Bool) → List A → List A
  retain f [] = []
  retain f (x ∷ l) = let l' = retain f l in if f x then x ∷ l' else l'

  abbrev pub non_empty {ℓ} : {A : Type ℓ} → List A → Option (List A)
  non_empty [] = none
  non_empty (x ∷ l) = some (x ∷ l)

  unfoldable pub clean_waiters : (ℕ → Bool) → PoolInner T → ℕ → PoolInner T
  unfolding retain
  clean_waiters is_canceled p key = elim (p.waiters key) [
    | none ↦ p
    | some ws ↦ record p {
      waiters = update p.waiters key (non_empty (retain (λ tx. not (is_canceled tx)) ws));
    }
  ]

  unfoldable pub clear_list : ℕ → Option ℕ → Option (List (Idle T)) → Option (List (Idle T))
  unfolding retain
  clear_list now timeout none = none
  clear_list now timeout (some l) = non_empty (retain (λ e. not (is_dead now timeout e)) l)

  -- `none` is the panic of `expect`: a pool without a timeout has no idle task.
  unfoldable pub clear_expired : ℕ → PoolInner T → Option (PoolInner T)
  unfolding clear_list
  clear_expired now p = elim p.timeout [
    | none ↦ none
    | some dur ↦ some (record p { idle = λ key. clear_list now (some dur) (p.idle key) })
  ]

  unfoldable pub pop_list :
      ℕ → Option ℕ → Option (List (Idle T)) → Option (List (Idle T)) × Option (Idle T)
  unfolding pop
  pop_list now timeout none = (none, none)
  pop_list now timeout (some l) =
      let (l', e) = pop now timeout l in ((if is_none e then none else non_empty l'), e)

  abbrev wait : Bool → PoolInner T → ℕ → ℕ → PoolInner T
  wait true p key tx = record p {
    waiters = update p.waiters key (some (or_empty (p.waiters key) ++ tx ∷ []));
  }
  wait false p key tx = p

  -- `Checkout::checkout` on an enabled pool: the pool, the checkout's waiter and the entry. `tx` is the channel
  -- that is made if there is none to wait on yet.
  unfoldable pub checkout :
      ℕ → PoolInner T → ℕ → Option ℕ → ℕ → PoolInner T × Option ℕ × Option (Idle T)
  unfolding pop_list
  checkout now p key waiter tx =
      let (list, e) = pop_list now p.timeout (p.idle key) in
      let waits = is_none e && is_none waiter in
      (
        wait waits (record p { idle = update p.idle key list }) key tx,
        (if waits then some tx else waiter),
        e,
      )

  -- `Pool::connecting` for HTTP/2 on an enabled pool: whether the caller may connect.
  unfoldable pub connecting_h2 : PoolInner T → ℕ → PoolInner T × Bool
  connecting_h2 p key =
      if p.connecting key
      then (p, false)
      else (record p { connecting = update p.connecting key true }, true)

  -- `Drop` of `Pooled`: `has_pool` says that its reference to the pool is there and alive.
  unfoldable pub drop_pooled :
      (ℕ → Bool) → (ℕ → Bool) → ℕ → Bool → PoolInner T → ℕ → T → PoolInner T × List (ℕ × T)
  unfolding put
  drop_pooled is_canceled accepts now has_pool p key v =
      if not (c.is_open v)
      then (p, [])
      else if has_pool
      then put is_canceled accepts now p key v
      else (p, [])
