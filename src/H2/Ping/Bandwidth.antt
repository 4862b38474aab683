-- ===== src/H2/Ping/Bandwidth.antt =====
-- The flow control window that src/proto/h2/ping.rs estimates, and the delay between its pings.
use kaiwaehnero.Base.{
  sym, ◌∙◌, ℕ, ◌*◌, ◌/◌, ◌%◌, ◌^◌, ◌≡◌, ◌≤◌, ◌<◌, min, refl, inl, inr, true, Option, none, some,
  leb, ◌==◌, if◌then◌else◌, Bool-cases, u64_mod, arith,
}
use kaiwaehnero.H2.Ping.{Float, Bdp, bdp_limit, ten_seconds, stabilize_delay, grow, calculate}

-- What an estimate tells the connection.
abbrev pub Tells : {F : Type 0} → Bdp F → Bdp F → Option ℕ → Type 0
Tells b b' none = b'.bdp ≡ b.bdp
Tells b b' (some w) = (w ≡ b'.bdp) × (b.bdp ≤ w)

pub record InBounds {F : Type 0} (b : Bdp F) : Type 0 where
  pub at_least : 2 ≤ b.bdp
  pub at_most : b.bdp ≤ bdp_limit
  pub delay : b.ping_delay < 4 * ten_seconds

module _ {F : Type 0} (f : Float F) where
  -- The estimate and the window told.
  pub record Estimate (b : Bdp F) (r : Bdp F × Option ℕ) : Type 0 where
    pub in_bounds : InBounds r.0
    pub tells : Tells b r.0 r.1

  stabilize_delay-bdp : (c : Bdp F) → (stabilize_delay f c).bdp ≡ c.bdp
  unfolding stabilize_delay
  stabilize_delay-bdp c = ground arith

  stabilize_delay-ping_delay :
      (c : Bdp F)
      → c.ping_delay < 4 * ten_seconds
      → (stabilize_delay f c).ping_delay < 4 * ten_seconds
  unfolding stabilize_delay
  stabilize_delay-ping_delay c h = ground arith

  stabilize_delay-Estimate :
      (b c : Bdp F)
      → InBounds b
      → c.bdp ≡ b.bdp
      → c.ping_delay ≡ b.ping_delay
      → Estimate b (stabilize_delay f c, none)
  stabilize_delay-Estimate b c i e d =
      let s = stabilize_delay-bdp c ∙ e in
      let l = i.at_least in
      let m = i.at_most in
      let p = i.delay in
      record {
        in_bounds = record {
          at_least = omega arith;
          at_most = omega arith;
          delay = stabilize_delay-ping_delay c (omega arith);
        };
        tells = s;
      }

  larger :
      (bdp bytes : ℕ)
      → 2 ≤ bdp
      → bdp ≤ bdp_limit
      → bytes < 2 ^ 63
      → leb (bdp * 2 / 3) bytes ≡ true
      → bdp ≤ min (bytes * 2 % u64_mod) bdp_limit
  larger bdp bytes l m h g = ground arith

  grow-Estimate :
      (b c : Bdp F) (bytes : ℕ)
      → InBounds b
      → c.bdp ≡ b.bdp
      → c.ping_delay ≡ b.ping_delay
      → bytes < 2 ^ 63
      → Estimate b (grow f c bytes)
  unfolding grow
  grow-Estimate b c bytes i e d h = elim (Bool-cases (leb (c.bdp * 2 / 3) bytes)) [
    | inl g ↦
        let l = i.at_least in
        let m = i.at_most in
        let p = i.delay in
        let k = larger b.bdp bytes l m h (rw (sym e) g) in
        rw (g) (record {
          in_bounds = record { at_least = omega arith; at_most = omega arith; delay = omega arith };
          tells = (refl, k);
        })
    | inr g ↦ rw (g) (stabilize_delay-Estimate b c i e d)
  ]

  -- From at least 2 and at most the limit, an estimate from less than 2^63 bytes stays in these bounds and never
  -- shrinks; a window is told exactly as it is then, and the delay between pings stays below 40 seconds.
  pub calculate-Estimate :
      (b : Bdp F) (bytes rtt : ℕ)
      → InBounds b
      → bytes < 2 ^ 63
      → Estimate b (calculate f b bytes rtt)
  unfolding calculate
  calculate-Estimate b bytes rtt i h = elim (Bool-cases (b.bdp == bdp_limit)) [
    | inl g ↦ rw (g) (stabilize_delay-Estimate b b i refl refl)
    | inr g ↦
        elim (Bool-cases (
          f.less
            (f.bandwidth bytes
              (if f.is_zero b.rtt then f.seconds rtt else f.average b.rtt (f.seconds rtt)))
            b.max_bandwidth)) [
              | inl g' ↦ rw (g, g') (stabilize_delay-Estimate b _ i refl refl)
              | inr g' ↦ rw (g, g') (grow-Estimate b _ bytes i refl refl h)
            ]
  ]
