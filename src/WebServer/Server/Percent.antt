-- ===== src/WebServer/Server/Percent.antt =====
-- `ceil((queueSize(waiting_requests)*0.3f))` of hw3/webserver-files/server.c in IEEE single
-- precision. A float is an integer over a power of two, and 0.3f is 10066330 / 2^25.
use native.Mathlib.Nat.{pow-suc, le_trans, le-div_iff_mul-le}
use operations_systems.Base.{
  ℕ, zero, suc, ◌+◌, ◌-◌, ◌*◌, ◌/◌, ◌%◌, ◌^◌, ◌≤◌, ◌<◌, arith, Bool-cases, inl, inr, ◌||◌, ◌&&◌,
  ltb, ◌==◌, if◌then◌else◌,
}

-- How many bits a number has beyond the 24 of a float, on fuel for 64 bits.
excess : ℕ → ℕ → ℕ
excess zero m = 0
excess (suc k) m = let e = suc (excess k (m / 2)) in if ltb m (2 ^ 24) then 0 else e

-- To nearest, ties to even.
round_at : ℕ → ℕ → ℕ
round_at unit m =
    let q = m / unit in
    let r = m % unit in
    (if ltb unit (2 * r) || (unit == 2 * r && q % 2 == 1) then q + 1 else q) * unit

round_f32 : ℕ → ℕ
unfolding excess round_at
round_f32 m = round_at (2 ^ excess 64 m) m

unfoldable pub discard_count : ℕ → ℕ
unfolding round_f32
discard_count n = (round_f32 (round_f32 n * 10066330) + (2 ^ 25 - 1)) / 2 ^ 25

excess_pow : (k m : ℕ) → 0 < m → 2 ^ excess k m ≤ m
unfolding excess
excess_pow zero m h = omega arith
excess_pow (suc k) m h = elim (Bool-cases (ltb m (2 ^ 24))) [
  | inl small ↦ rw small (omega arith)
  | inr large ↦ rw (large, pow-suc) (ground (arith, excess_pow k (m / 2)))
]

-- Rounding never goes below the units that fit.
round_at_ge : (unit m : ℕ) → m / unit * unit ≤ round_at unit m
unfolding round_at
round_at_ge unit m = grind arith

round_f32_pos : (m : ℕ) → 0 < m → 0 < round_f32 m
unfolding round_f32
round_f32_pos m h =
    le_trans
      (le_trans (pow_pos (excess 64 m))
        (le-mul (2 ^ excess 64 m) (m / 2 ^ excess 64 m) (fits (excess 64 m) (excess_pow 64 m h))))
      (round_at_ge (2 ^ excess 64 m) m)
  where
    pow_pos : (e : ℕ) → 1 ≤ 2 ^ e
    pow_pos zero = omega arith
    pow_pos (suc e) = rw pow-suc (omega (arith, pow_pos e))

    fits : (e : ℕ) → 2 ^ e ≤ m → 1 ≤ m / 2 ^ e
    fits e le = (le-div_iff_mul-le (pow_pos e)).1 (omega (arith, le))

    le-mul : (u q : ℕ) → 1 ≤ q → u ≤ q * u
    le-mul u q one = grind arith

-- A queue that is not empty loses at least one request.
pub discard_count_pos : (n : ℕ) → 0 < n → 0 < discard_count n
unfolding discard_count
discard_count_pos n h = omega (arith, round_f32_pos (round_f32 n * 10066330) scaled)
  where
    scaled : 0 < round_f32 n * 10066330
    scaled = omega (arith, round_f32_pos n h)
