-- ===== src/Pool/Bounds.antt =====
-- How many connections a pool keeps idle: src/client/pool.rs.
use kaiwaehnero.Base.{
  ℕ, ◌≡◌, ◌≤◌, refl, subst, Bool, not, ◌&&◌, Option, none, some, List, [], ◌∷◌, length, inl, inr,
  Bool-cases, Option-cases, some-injective, arith, is_none,
}
use kaiwaehnero.Pool.{
  Poolable, Idle, PoolInner, is_dead, pop, reserved, pop_list, checkout, put, push_idle, connected,
  clean_waiters, clear_list, clear_expired, drop_pooled, non_empty, update, or_empty, retain,
  send_waiters, connecting_h2,
}

module _ {T : Type 0} (c : Poolable T) where
  -- No idle list is longer than `max_idle_per_host`.
  pub record Bounded (p : PoolInner T) : Type 0 where
    pub at_most : (key : ℕ) → length (or_empty (p.idle key)) ≤ p.max_idle_per_host

  retain-length : (f : Idle T → Bool) (l : List (Idle T)) → length (retain c f l) ≤ length l
  unfolding retain
  retain-length f [] = omega arith
  retain-length f (x ∷ l) = let k = retain-length f l in ground arith

  pop-length :
      (now : ℕ) (timeout : Option ℕ) (l : List (Idle T)) → length (pop c now timeout l).0 ≤ length l
  unfolding pop reserved
  pop-length now timeout [] = omega arith
  pop-length now timeout (e ∷ l) = let k = pop-length now timeout l in ground arith

  push_idle-Bounded :
      (now : ℕ) (p : PoolInner T) (key : ℕ) (o : Option T)
      → Bounded p
      → Bounded (push_idle c now p key o)
  unfolding push_idle
  push_idle-Bounded now p key none b = b
  push_idle-Bounded now p key (some v) b = record {
    at_most = λ j. let k = b.at_most j in let k' = b.at_most key in ground arith;
  }

  pub put-Bounded :
      (is_canceled accepts : ℕ → Bool) (now : ℕ) (p : PoolInner T) (key : ℕ) (v : T)
      → Bounded p
      → Bounded (put c is_canceled accepts now p key v).0
  unfolding put
  put-Bounded is_canceled accepts now p key v b =
      elim (Bool-cases (c.can_share v && not (is_none (p.idle key)))) [
        | inl there ↦ rw (there) b
        | inr add ↦ rw (add) (
            push_idle-Bounded now
              (record p {
                waiters =
                    update p.waiters key (send_waiters c is_canceled accepts (p.waiters key) v).0;
              })
              key (send_waiters c is_canceled accepts (p.waiters key) v).1
              (record { at_most = b.at_most }))
      ]

  non_empty-length : (l : List (Idle T)) → length (or_empty (non_empty c l)) ≡ length l
  non_empty-length [] = refl
  non_empty-length (x ∷ l) = refl

  pop_list-length :
      (now : ℕ) (timeout : Option ℕ) (o : Option (List (Idle T)))
      → length (or_empty (pop_list c now timeout o).0) ≤ length (or_empty o)
  unfolding pop_list
  pop_list-length now timeout none = omega arith
  pop_list-length now timeout (some l) =
      ground (arith, pop-length now timeout l, non_empty-length (pop c now timeout l).0)

  checkout-Bounded :
      (now : ℕ) (p : PoolInner T) (key : ℕ) (waiter : Option ℕ) (tx : ℕ)
      → Bounded p
      → Bounded (checkout c now p key waiter tx).0
  unfolding checkout
  checkout-Bounded now p key waiter tx b = record {
    at_most = λ j.
        let k = b.at_most j in
        let k' = b.at_most key in
        let l = pop_list-length now p.timeout (p.idle key) in ground arith;
  }

  clear_list-length :
      (now : ℕ) (timeout : Option ℕ) (o : Option (List (Idle T)))
      → length (or_empty (clear_list c now timeout o)) ≤ length (or_empty o)
  unfolding clear_list
  clear_list-length now timeout none = omega arith
  clear_list-length now timeout (some l) = omega (
    arith,
    non_empty-length (retain c (λ e. not (is_dead c now timeout e)) l),
    retain-length (λ e. not (is_dead c now timeout e)) l,
  )

  cleared-Bounded :
      (now dur : ℕ) (p : PoolInner T)
      → Bounded p
      → Bounded (record p { idle = λ key. clear_list c now (some dur) (p.idle key) })
  cleared-Bounded now dur p b = record {
    at_most = λ j.
        let k = b.at_most j in let l = clear_list-length now (some dur) (p.idle j) in omega arith;
  }

  clear_expired-Bounded :
      (now : ℕ) (p p' : PoolInner T) → Bounded p → clear_expired c now p ≡ some p' → Bounded p'
  unfolding clear_expired
  clear_expired-Bounded now p p' b e = elim (Option-cases p.timeout) [
    | inl h ↦ cc (rw (h, clear_expired) at e)
    | inr (dur, h) ↦
        let q : record p { idle = λ key. clear_list c now (some dur) (p.idle key) } ≡ p' =
          some-injective (rw (h, clear_expired) at e) in
        subst (λ x. Bounded x) q (cleared-Bounded now dur p b)
  ]

  clean_waiters-Bounded :
      (is_canceled : ℕ → Bool) (p : PoolInner T) (key : ℕ)
      → Bounded p
      → Bounded (clean_waiters c is_canceled p key)
  unfolding clean_waiters
  clean_waiters-Bounded is_canceled p key b = elim (Option-cases (p.waiters key)) [
    | inl h ↦ rw (h, clean_waiters) b
    | inr (ws, h) ↦ rw (h, clean_waiters) (record { at_most = b.at_most })
  ]

  -- What is done to a pool.
  pub data Step (p : PoolInner T) : PoolInner T → Type 0 where
    returned :
        (is_canceled accepts : ℕ → Bool) (now : ℕ) (has_pool : Bool) (key : ℕ) (v : T)
        → Step p (drop_pooled c is_canceled accepts now has_pool p key v).0
    inserted :
        (is_canceled accepts : ℕ → Bool) (now key : ℕ) (v : T)
        → Step p (put c is_canceled accepts now p key v).0
    taken : (now key : ℕ) (waiter : Option ℕ) (tx : ℕ) → Step p (checkout c now p key waiter tx).0
    cleared : (now : ℕ) (p' : PoolInner T) → clear_expired c now p ≡ some p' → Step p p'
    cleaned : (is_canceled : ℕ → Bool) (key : ℕ) → Step p (clean_waiters c is_canceled p key)
    started : (key : ℕ) → Step p (connecting_h2 c p key).0
    ended : (key : ℕ) → Step p (connected c p key)

  pub data Reach (p : PoolInner T) : PoolInner T → Type 0 where
    here : Reach p p
    more : {q r : PoolInner T} → Reach p q → Step q r → Reach p r

  Step-Bounded : {p q : PoolInner T} → Step p q → Bounded p → Bounded q
  unfolding drop_pooled connecting_h2 connected
  Step-Bounded {p} (returned is_canceled accepts now has_pool key v) b =
      ground (arith, put-Bounded is_canceled accepts now p key v b)
  Step-Bounded {p} (inserted is_canceled accepts now key v) b =
      put-Bounded is_canceled accepts now p key v b
  Step-Bounded {p} (taken now key waiter tx) b = checkout-Bounded now p key waiter tx b
  Step-Bounded {p} (cleared now p' e) b = clear_expired-Bounded now p p' b e
  Step-Bounded {p} (cleaned is_canceled key) b = clean_waiters-Bounded is_canceled p key b
  Step-Bounded {p} (started key) b = elim (Bool-cases (p.connecting key)) [
    | inl h ↦ rw (h) b
    | inr h ↦ rw (h) (record { at_most = b.at_most })
  ]
  Step-Bounded {p} (ended key) b = record { at_most = b.at_most }

  -- A pool never keeps more idle connections for a host than it was told to.
  pub Reach-Bounded : {p q : PoolInner T} → Reach p q → Bounded p → Bounded q
  Reach-Bounded here b = b
  Reach-Bounded (more r s) b = Step-Bounded s (Reach-Bounded r b)
