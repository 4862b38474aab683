-- ===== src/Client/Sends.antt =====
-- How many messages the handle of src/client/dispatch.rs sends.
use kaiwaehnero.Base.{
  ℕ, ◌+◌, ◌≤◌, Bool, true, false, Option, none, some, List, [], ◌∷◌, arith, Bool-cases, inl, inr,
  if◌then◌else◌, not,
}
use kaiwaehnero.Client.Channel.{
  Reply, answered, refused, Giver, Callback, Envelope, Sender, can_send, outcome, put, send_as,
  try_send,
}

abbrev pub one : Bool → ℕ
one b = if b then 1 else 0

abbrev pub is_answered : {P T : Type 0} → Option (Reply P T) → Bool
is_answered (some (answered rx)) = true
is_answered (some (refused v)) = false
is_answered none = false

one-bound : (b : Bool) → one b ≤ 1
one-bound true = omega arith
one-bound false = omega arith

-- Whether a message may be sent that is not asked for.
abbrev pub spare : {G S : Type 0} → Sender G S → ℕ
spare s = one (not s.buffered_once)

can_send-spare :
    {G H S : Type 0} (g : Giver G H) (s : Sender G S)
    → one (can_send g s).1 + spare (can_send g s).0 ≤ one (g.give s.giver).1 + spare s
unfolding can_send
can_send-spare g s = elim (Bool-cases (g.give s.giver).1) [
  | inl h ↦ rw (h) (omega arith)
  | inr h ↦ elim (Bool-cases s.buffered_once) [
    | inl k ↦ rw (h, k) (omega arith)
    | inr k ↦ rw (h, k) (omega arith)
  ]
]

module _ {T O P G H S : Type 0} (into_queue : S → Envelope T O → S × Option (Envelope T O))
    (g : Giver G H) where
  -- How many of the values are taken, each with a oneshot channel of its own.
  unfoldable pub taken : Sender G S → List ((O × P) × T) → ℕ
  taken s [] = 0
  taken s ((c, v) ∷ vs) =
      let (s', r) = try_send into_queue g c s v in one (is_answered r) + taken s' vs

  -- How often the receiver had asked for one then.
  unfoldable pub asked : Sender G S → List ((O × P) × T) → ℕ
  asked s [] = 0
  asked s ((c, v) ∷ vs) = one (g.give s.giver).1 + asked (try_send into_queue g c s v).0 vs

  put-spare :
      (cb : Callback O) (rx : P) (v : T) (x : Sender G S × Bool)
      → one (is_answered (put into_queue cb rx v x).1) + spare (put into_queue cb rx v x).0
        ≤ one x.1 + spare x.0
  unfolding put
  put-spare cb rx v (s, false) = omega arith
  put-spare cb rx v (s, true) =
      omega (arith, one-bound (is_answered (outcome rx (into_queue s.inner (some (v, cb))).1)))

  -- Of values that are sent one after the other, at most one is taken beyond those that the receiver had asked for, and none
  -- beyond them if a message was sent before.
  pub taken-asked : (s : Sender G S) (vs : List ((O × P) × T)) → taken s vs ≤ asked s vs + spare s
  unfolding taken asked try_send send_as
  taken-asked s [] = omega arith
  taken-asked s (((tx, rx), v) ∷ vs) = omega (
    arith,
    can_send-spare g s,
    put-spare (Callback.retry tx) rx v (can_send g s),
    taken-asked (put into_queue (Callback.retry tx) rx v (can_send g s)).0 vs,
  )
