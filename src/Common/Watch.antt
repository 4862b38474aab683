-- ===== src/Common/Watch.antt =====
-- src/common/watch.rs: a number that one end sets and the other looks at. Both ends share one `Shared`. Its waker is an
-- `AtomicWaker` of futures-util, a parameter.
use kaiwaehnero.Base.{ℕ, ◌==◌, if◌then◌else◌}

pub record AtomicWaker (W X : Type 0) : Type 0 where
  pub register : W → X → W
  pub wake : W → W

pub record Shared (W : Type 0) : Type 0 where
  pub value : ℕ
  pub waker : W

abbrev pub closed : ℕ
closed = 0

-- `channel`, over a fresh waker.
unfoldable pub channel : {W : Type 0} → W → ℕ → Shared W
channel w initial = record { value = initial; waker = w }

unfoldable pub peek : {W : Type 0} → Shared W → ℕ
peek s = s.value

module _ {W X : Type 0} (a : AtomicWaker W X) where
  unfoldable pub send : Shared W → ℕ → Shared W
  send s value = record {
    value = value;
    waker = if s.value == value then s.waker else a.wake s.waker;
  }

  -- `Drop` of the sender.
  unfoldable pub drop_sender : Shared W → Shared W
  unfolding send
  drop_sender s = send s closed

  unfoldable pub load : Shared W → X → Shared W × ℕ
  load s cx = (record s { waker = a.register s.waker cx }, s.value)
