-- ===== src/Pool/Waiters.antt =====
-- Where a connection goes that is put into the pool of src/client/pool.rs.
use kaiwaehnero.Base.{
  ℕ, ◌≡◌, ◌≢◌, ◌≤◌, ◌<◌, refl, ap, Bool, true, false, not, ◌&&◌, Option, none, some, List, [], ◌∷◌,
  ◌++◌, length, inl, inr, Bool-cases, Option-cases, arith, is_empty, leb, ==_iff, sym, subst, ◌∙◌,
  if◌then◌else◌,
}
use kaiwaehnero.Pool.{
  Poolable, PoolInner, shared, unique, put, push_idle, update, or_empty, send_loop, send_waiters,
}

update-same {ℓ} : {A : Type ℓ} (m : ℕ → A) (k : ℕ) (v : A) → update m k v k ≡ v
update-same m k v = rw ((==_iff k k).1 refl) refl

or_empty-left : (ws : List ℕ) → or_empty (if is_empty ws then none else some ws) ≡ ws
or_empty-left [] = refl
or_empty-left (x ∷ ws) = refl

module _ {T : Type 0} (c : Poolable T) (is_canceled accepts : ℕ → Bool) where
  -- A waiter that takes what is sent to it.
  abbrev pub live : ℕ → Bool
  live tx = not (is_canceled tx) && accepts tx

  abbrev pub AllGone : List ℕ → Type 0
  AllGone [] = Unit
  AllGone (tx ∷ ws) = (live tx ≡ false) × AllGone ws

  -- A connection for one use goes to the first waiter that takes it, and the waiters after it keep waiting; if
  -- none takes it, it is still there and no waiter is left.
  pub data Sent (v : T) (ws ws' : List ℕ) : Option T → List (ℕ × T) → Type 0 where
    kept : AllGone ws → ws' ≡ [] → Sent v ws ws' (some v) []
    first :
        (gone : List ℕ) (tx : ℕ)
        → ws ≡ gone ++ tx ∷ ws'
        → AllGone gone
        → live tx ≡ true
        → Sent v ws ws' none ((tx, v) ∷ [])

  pass :
      (v : T) (tx : ℕ) (ws ws' : List ℕ) (o : Option T) (sent : List (ℕ × T))
      → live tx ≡ false
      → Sent v ws ws' o sent
      → Sent v (tx ∷ ws) ws' o sent
  pass v tx ws ws' _ _ h (kept a e) = kept (h, a) e
  pass v tx ws ws' _ _ h (first gone w q a l) = first (tx ∷ gone) w (ap (λ l. tx ∷ l) q) (h, a) l

  pub send_loop-Sent :
      (v : T) (ws : List ℕ)
      → c.reserve v ≡ unique v
      → Sent v ws
          (send_loop c is_canceled accepts ws v).0
          (send_loop c is_canceled accepts ws v).1
          (send_loop c is_canceled accepts ws v).2
  unfolding send_loop
  send_loop-Sent v [] u = kept tt refl
  send_loop-Sent v (tx ∷ ws) u = elim (Bool-cases (is_canceled tx)) [
    | inl x ↦ rw (x) (pass v tx ws _ _ _ (rw (x) refl) (send_loop-Sent v ws u))
    | inr x ↦ elim (Bool-cases (accepts tx)) [
      | inl y ↦ rw (x, u, y) (first [] tx refl tt (rw (x) y))
      | inr y ↦ rw (x, u, y) (pass v tx ws _ _ _ (rw (x) y) (send_loop-Sent v ws u))
    ]
  ]

  -- The waiters that take what is sent to them.
  abbrev pub live_ones : List ℕ → List ℕ
  live_ones [] = []
  live_ones (tx ∷ ws) = let l = live_ones ws in if live tx then tx ∷ l else l

  abbrev pub receivers : List (ℕ × T) → List ℕ
  receivers [] = []
  receivers ((tx, v) ∷ l) = tx ∷ receivers l

  -- A connection that can always be shared goes to every waiter that takes it, in their order, and stays in the pool's
  -- hands; no waiter is left.
  pub send_loop-shared :
      (v : T) (ws : List ℕ)
      → ((w : T) → (keep : T) × (out : T) × (c.reserve w ≡ shared keep out))
      → (send_loop c is_canceled accepts ws v).0 ≡ []
        × (send_loop c is_canceled accepts ws v).1 ≢ none
        × receivers (send_loop c is_canceled accepts ws v).2 ≡ live_ones ws
  unfolding send_loop
  send_loop-shared v [] s = (refl, (λ h. cc), refl)
  send_loop-shared v (tx ∷ ws) s =
      let (keep, out, u) = s v in
      elim (Bool-cases (is_canceled tx)) [
        | inl x ↦ rw (x) (send_loop-shared v ws s)
        | inr x ↦ elim (Bool-cases (accepts tx)) [
          | inl y ↦
              let (a, b, d) = send_loop-shared keep ws s in rw (x, u, y) (a, b, ap (λ l. tx ∷ l) d)
          | inr y ↦ rw (x, u, y) (send_loop-shared out ws s)
        ]
      ]

  -- Where a connection for one use ends up: with one waiter, or in its host's idle list, or nowhere if that
  -- list is full.
  pub data Placed (now : ℕ) (p q : PoolInner T) (key : ℕ) (v : T) : List (ℕ × T) → Type 0 where
    sent :
        (gone : List ℕ) (tx : ℕ)
        → AllGone gone
        → live tx ≡ true
        → or_empty (p.waiters key) ≡ gone ++ tx ∷ or_empty (q.waiters key)
        → q.idle key ≡ p.idle key
        → Placed now p q key v ((tx, v) ∷ [])
    pooled :
        AllGone (or_empty (p.waiters key))
        → q.waiters key ≡ none
        → length (or_empty (p.idle key)) < p.max_idle_per_host
        → q.idle key ≡ some (record { idle_at = now; value = v } ∷ or_empty (p.idle key))
        → Placed now p q key v []
    dropped :
        AllGone (or_empty (p.waiters key))
        → q.waiters key ≡ none
        → p.max_idle_per_host ≤ length (or_empty (p.idle key))
        → q.idle key ≡ some (or_empty (p.idle key))
        → Placed now p q key v []

  -- The end of `put`, by what the loop over the waiters gave.
  abbrev finish : ℕ → PoolInner T → ℕ → List ℕ → Option T → PoolInner T
  finish now p key ws o =
      push_idle c now
        (record p { waiters = update p.waiters key (if is_empty ws then none else some ws) }) key o

  finish-Placed :
      (now : ℕ) (p : PoolInner T) (key : ℕ) (v : T) (ws ws' : List ℕ) (o : Option T)
      (l : List (ℕ × T))
      → or_empty (p.waiters key) ≡ ws
      → Sent v ws ws' o l
      → Placed now p (finish now p key ws' o) key v l
  unfolding push_idle
  finish-Placed now p key v ws ws' _ _ q (first gone tx e a li) =
      let same =
        ap or_empty (update-same p.waiters key (if is_empty ws' then none else some ws')) in
      sent gone tx a li (q ∙ e ∙ ap (λ l. gone ++ tx ∷ l) (sym (same ∙ or_empty-left ws'))) refl
  finish-Placed now p key v ws ws' _ _ q (kept a e) =
      let all = subst AllGone (sym q) a in
      let list = or_empty (p.idle key) in
      let none_left =
        update-same p.waiters key (if is_empty ws' then none else some ws')
        ∙ ap (λ l. if is_empty l then none else some l) e in
      let there = update-same p.idle key (
        some (
          if leb p.max_idle_per_host (length list)
          then list
          else record { idle_at = now; value = v } ∷ list)) in
      elim (Bool-cases (leb p.max_idle_per_host (length list))) [
        | inl full ↦ dropped all none_left (ground arith) (
            there
            ∙ ap (λ b. some (if b then list else record { idle_at = now; value = v } ∷ list)) full)
        | inr room ↦ pooled all none_left (ground arith) (
            there
            ∙ ap (λ b. some (if b then list else record { idle_at = now; value = v } ∷ list)) room)
      ]

  -- A connection for one use that is put into the pool ends up in one place only: with the first waiter for its
  -- host that takes it, or idle if no waiter is left, or closed if the host has its number of idle ones.
  pub put-Placed :
      (now : ℕ) (p : PoolInner T) (key : ℕ) (v : T)
      → c.can_share v ≡ false
      → c.reserve v ≡ unique v
      → Placed now p
          (put c is_canceled accepts now p key v).0
          key
          v
          (put c is_canceled accepts now p key v).1
  unfolding put send_waiters
  put-Placed now p key v s u = elim (Option-cases (p.waiters key)) [
    | inl w ↦ rw (s, w) (finish-Placed now p key v [] [] (some v) [] (ap or_empty w) (kept tt refl))
    | inr (ws, w) ↦
        rw (s, w) (finish-Placed now p key v ws _ _ _ (ap or_empty w) (send_loop-Sent v ws u))
  ]
