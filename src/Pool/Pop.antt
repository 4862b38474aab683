-- ===== src/Pool/Pop.antt =====
-- What `IdlePopper::pop` and `Checkout::checkout` of src/client/pool.rs hand out.
use kaiwaehnero.Base.{
  ℕ, ◌≡◌, ◌≢◌, refl, ap, ◌∙◌, subst, true, false, not, Option, none, some, List, [], ◌∷◌, ◌++◌, inl,
  inr, Bool-cases, Option-cases, some-injective, arith,
}
use kaiwaehnero.Pool.{
  Poolable, Idle, PoolInner, Reservation, shared, unique, is_dead, expires, pop, reserved, pop_list,
  checkout, non_empty, retain, clear_list, clear_expired,
}

module _ {T : Type 0} (c : Poolable T) where
  abbrev pub AllDead : ℕ → Option ℕ → List (Idle T) → Type 0
  AllDead now timeout [] = Unit
  AllDead now timeout (e ∷ l) = (is_dead c now timeout e ≡ true) × AllDead now timeout l

  -- `out` comes of the connection of `e`: it is that connection, or a share of it, whose other part is put
  -- back with the time of now.
  pub data Taken (now : ℕ) (e : Idle T) (rest left : List (Idle T)) (out : T) : Type 0 where
    whole : c.reserve e.value ≡ unique out → left ≡ rest → Taken now e rest left out
    part :
        (keep : T)
        → c.reserve e.value ≡ shared keep out
        → left ≡ record { idle_at = now; value = keep } ∷ rest
        → Taken now e rest left out

  -- The list was some entries that were all closed or expired, and then nothing, or one that is open and has
  -- not expired, which is taken.
  pub data Popped (now : ℕ) (timeout : Option ℕ) (l left : List (Idle T))
      : Option (Idle T) → Type 0 where
    nothing : AllDead now timeout l → left ≡ [] → Popped now timeout l left none
    found :
        (dead rest : List (Idle T)) (e out : Idle T)
        → l ≡ dead ++ e ∷ rest
        → AllDead now timeout dead
        → c.is_open e.value ≡ true
        → expires now timeout e.idle_at ≡ false
        → out.idle_at ≡ e.idle_at
        → Taken now e rest left out.value
        → Popped now timeout l left (some out)

  skip :
      (now : ℕ) (timeout : Option ℕ) (d : Idle T) (l left : List (Idle T)) (o : Option (Idle T))
      → is_dead c now timeout d ≡ true
      → Popped now timeout l left o
      → Popped now timeout (d ∷ l) left o
  skip now timeout d l left _ h (nothing a e) = nothing (h, a) e
  skip now timeout d l left _ h (found dead rest e out q a o x i k) =
      found (d ∷ dead) rest e out (cc) (h, a) o x i k

  reserved-Popped :
      (now : ℕ) (timeout : Option ℕ) (e : Idle T) (l : List (Idle T)) (r : Reservation T)
      → c.reserve e.value ≡ r
      → c.is_open e.value ≡ true
      → expires now timeout e.idle_at ≡ false
      → Popped now timeout (e ∷ l) (reserved c now e l r).0 (reserved c now e l r).1
  unfolding reserved
  reserved-Popped now timeout e l (shared keep out) q o x =
      found [] l e (record { idle_at = e.idle_at; value = out }) refl tt o x refl (part keep q refl)
  reserved-Popped now timeout e l (unique v) q o x =
      found [] l e (record { idle_at = e.idle_at; value = v }) refl tt o x refl (whole q refl)

  -- A connection taken off an idle list is open and has not expired, and it is the one that was put there last of
  -- those; what is passed over is closed or expired.
  pub pop-Popped :
      (now : ℕ) (timeout : Option ℕ) (l : List (Idle T))
      → Popped now timeout l (pop c now timeout l).0 (pop c now timeout l).1
  unfolding pop
  pop-Popped now timeout [] = nothing tt refl
  pop-Popped now timeout (e ∷ l) = elim (Bool-cases (c.is_open e.value)) [
    | inr closed ↦
        rw (closed) (skip now timeout e l _ _ (rw (closed) refl) (pop-Popped now timeout l))
    | inl o ↦ elim (Bool-cases (expires now timeout e.idle_at)) [
      | inl x ↦ rw (o, x) (skip now timeout e l _ _ (rw (o) x) (pop-Popped now timeout l))
      | inr x ↦ rw (o, x) (reserved-Popped now timeout e l (c.reserve e.value) refl o x)
    ]
  ]

  pop_list-none :
      (now : ℕ) (timeout : Option ℕ) (o : Option (List (Idle T)))
      → (pop_list c now timeout o).1 ≡ none
      → (pop_list c now timeout o).0 ≡ none
  unfolding pop_list
  pop_list-none now timeout none h = refl
  pop_list-none now timeout (some l) h = ground arith

  -- A checkout that gets no connection waits on a channel and leaves no idle list for its host.
  pub checkout-waits :
      (now : ℕ) (p : PoolInner T) (key : ℕ) (waiter : Option ℕ) (tx : ℕ)
      → (checkout c now p key waiter tx).2 ≡ none
      → ((checkout c now p key waiter tx).1 ≢ none)
        × ((checkout c now p key waiter tx).0.idle key ≡ none)
  unfolding checkout pop_list
  checkout-waits now p key waiter tx h =
      elim (Option-cases (pop_list c now p.timeout (p.idle key)).1) [
        | inl e ↦ ground (arith, pop_list-none now p.timeout (p.idle key) e)
        | inr (x, e) ↦ cc
      ]

  abbrev pub AllAlive : ℕ → Option ℕ → List (Idle T) → Type 0
  AllAlive now timeout [] = Unit
  AllAlive now timeout (e ∷ l) = (is_dead c now timeout e ≡ false) × AllAlive now timeout l

  retain-AllAlive :
      (now : ℕ) (timeout : Option ℕ) (l : List (Idle T))
      → AllAlive now timeout (retain c (λ e. not (is_dead c now timeout e)) l)
  unfolding retain
  retain-AllAlive now timeout [] = tt
  retain-AllAlive now timeout (e ∷ l) = elim (Bool-cases (is_dead c now timeout e)) [
    | inl dead ↦ rw (dead) (retain-AllAlive now timeout l)
    | inr alive ↦ rw (alive) (alive, retain-AllAlive now timeout l)
  ]

  non_empty-inv : (l l' : List (Idle T)) → non_empty c l ≡ some l' → l ≡ l' × l' ≢ []
  non_empty-inv [] l' h = cc
  non_empty-inv (x ∷ l) l' h = (cc, λ e. cc)

  clear_list-AllAlive :
      (now : ℕ) (timeout : Option ℕ) (o : Option (List (Idle T))) (l : List (Idle T))
      → clear_list c now timeout o ≡ some l
      → AllAlive now timeout l × l ≢ []
  unfolding clear_list
  clear_list-AllAlive now timeout none l h = cc
  clear_list-AllAlive now timeout (some k) l h =
      let (e, n) = non_empty-inv (retain c (λ e. not (is_dead c now timeout e)) k) l h in
      (subst (AllAlive now timeout) e (retain-AllAlive now timeout k), n)

  -- After the idle task has run, every idle connection is open and has not expired, and no host has an empty
  -- list.
  pub clear_expired-AllAlive :
      (now : ℕ) (p q : PoolInner T) (key : ℕ) (l : List (Idle T))
      → clear_expired c now p ≡ some q
      → q.idle key ≡ some l
      → AllAlive now p.timeout l × l ≢ []
  unfolding clear_expired
  clear_expired-AllAlive now p q key l e h = elim (Option-cases p.timeout) [
    | inl t ↦ cc (rw (t, clear_expired) at e)
    | inr (dur, t) ↦
        let r : record p { idle = λ key. clear_list c now (some dur) (p.idle key) } ≡ q =
          some-injective (rw (t, clear_expired) at e) in
        rw (t) (clear_list-AllAlive now (some dur) (p.idle key) l (ap (λ x. x.idle key) r ∙ h))
  ]
