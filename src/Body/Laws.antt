-- ===== src/Body/Laws.antt =====
-- What src/body/length.rs promises of a body's length.
use kaiwaehnero.Base.{ℕ, ◌-◌, ◌≤◌, ◌≡◌, refl, true, Option, none, some, arith, leb, if◌then◌else◌}
use kaiwaehnero.Body.{DecodedLength, max_len, checked_new, from_option, into_opt, sub_if, is_exact}

-- A length that is known is never mistaken for one of the two reserved values.
pub checked_new-into_opt :
    (n : ℕ) (d : DecodedLength)
    → checked_new n ≡ some d
    → (into_opt d ≡ some n) × (is_exact d ≡ true) × (n ≤ max_len)
unfolding checked_new into_opt is_exact
checked_new-into_opt n d h = ground arith

-- Reading `amt` bytes of a known body leaves the rest known; it never turns into a reserved value.
pub into_opt-sub_if :
    (d : DecodedLength) (n amt : ℕ)
    → into_opt d ≡ some n
    → n ≤ max_len
    → amt ≤ n
    → into_opt (sub_if d amt) ≡ some (n - amt)
unfolding into_opt sub_if
into_opt-sub_if d n amt h k l = ground arith

-- A `content-length` that is out of range is read as a chunked body, any other as itself.
pub into_opt-from_option :
    (o : Option ℕ)
    → into_opt (from_option o)
      ≡ elim o [ none ↦ none | some n ↦ if leb n max_len then some n else none ]
unfolding into_opt from_option
into_opt-from_option none = refl
into_opt-from_option (some n) = ground arith
