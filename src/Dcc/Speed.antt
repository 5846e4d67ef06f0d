-- ===== src/Dcc/Speed.antt =====
-- A decoder's view of the byte for 28 speed steps.
use command_station_ex.Base.{
  ℕ, ◌+◌, ◌-◌, ◌*◌, ◌/◌, ◌%◌, ◌≡◌, ◌≤◌, ◌<◌, refl, true, [], ◌∷◌, bit_or, bit_and, length, ◌&&◌,
  ltb, leb, ◌==◌, ==_iff, if◌then◌else◌, passes_below, passes_at, Bool-cases, inl, inr, arith,
}
use command_station_ex.Dcc.{speed28, code28, speed_bytes}

-- The byte `01DCSSSS` of 28 speed steps as a number: 0 for stop, 1 for emergency stop, and from 2
-- on one more than the step.
unfoldable pub read_step : ℕ → ℕ
read_step b = if ltb (b % 16) 2 then b % 16 else b % 16 * 2 + b / 16 % 2 - 2

-- The 126 speeds of the throttle spread over the 28 steps.
unfoldable pub scaled : ℕ → ℕ
scaled speed = if ltb speed 2 then speed else (speed * 10 + 36) / 46 + 1

step_byte : ℕ → ℕ
step_byte code =
    bit_or (bit_or 0x40 (code28 (bit_and code 0x7F))) (if bit_and code 0x80 == 0 then 0 else 0x20)

-- With 28 speed steps or less, the packet for a speed code is one byte that a decoder reads as the
-- direction of the code and its speed scaled to 28 steps, where a stop stays a stop.
pub speed_bytes-read_step :
    (steps code : ℕ)
    → steps ≤ 28
    → code < 256
    → (b : ℕ) × (speed_bytes steps code ≡ b ∷ [])
      × (b / 32 ≡ 2 + code / 128)
      × (read_step b ≡ scaled (code % 128))
unfolding speed_bytes step_byte read_step scaled code28 speed28 passes_below
speed_bytes-read_step steps code few below =
    let b = step_byte code in
    let test =
      passes_at
        (λ c. (step_byte c / 32 == 2 + c / 128) && (read_step (step_byte c) == scaled (c % 128)))
        256 code below refl in
    let small : leb steps 28 ≡ true = ground (arith, few) in
    (
      b,
      rw (small, speed_bytes) refl,
      (==_iff (b / 32) (2 + code / 128)).0 (ground (arith, test)),
      (==_iff (read_step b) (scaled (code % 128))).0 (ground (arith, test)),
    )

pub length-speed_bytes : (steps code : ℕ) → length (speed_bytes steps code) ≤ 2
unfolding speed_bytes
length-speed_bytes steps code = elim (Bool-cases (leb steps 28)) [
  | inl few ↦ rw (few, speed_bytes) (omega arith)
  | inr many ↦ rw (many, speed_bytes) (omega arith)
]
