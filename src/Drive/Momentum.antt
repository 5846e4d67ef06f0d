-- ===== src/Drive/Momentum.antt =====
-- DCC.cpp: how a speed follows its target, and the times of momentum. A signed speed stands with 128
-- added, so that -128 to 127 are 0 to 255; a subtraction stops at 0, where the source goes below and
-- is brought back to the target, which is not below.
use command_station_ex.Base.{
  ℕ, zero, suc, ◌+◌, ◌-◌, ◌*◌, ◌/◌, ◌%◌, ◌^◌, ◌≡◌, ◌<◌, refl, Bool, true, false, not, ◌&&◌, ◌||◌,
  none, some, List, [], ◌∷◌, bit_or, bit_and, ltb, leb, ◌==◌, ==_iff, if◌then◌else◌, passes_below,
  passes_at,
}
use command_station_ex.Base.Int.{ℤ, pos, negsuc}
use command_station_ex.Loco.{momentum_use_default}
use command_station_ex.Drive.{Station, slot_of, put_slot, find}

abbrev pub momentum_factor : ℕ
momentum_factor = 7

unfoldable pub normalize : ℕ → ℕ
normalize speed = if bit_and speed 0x80 == 0 then 127 - speed else 128 + bit_and speed 0x7F

unfoldable pub dccalize : ℕ → ℕ
dccalize v =
    if ltb 255 v
    then 0xFF
    else if ltb v 1
    then 0x7F
    else if leb 128 v
    then bit_or (v - 128) 0x80
    else 127 - v

-- The speed after so many notches.
unfoldable pub approach : ℕ → ℕ → ℕ → ℕ
approach current target ticks =
    if ltb current target
    then (if ltb target (current + ticks) then target else current + ticks)
    else if ltb (current - ticks) target
    then target
    else current - ticks

-- The notches since the speed was changed last. The time since is cut to an int16_t: a time whose
-- bit 15 is set counts as negative, which gives no notch.
unfoldable pub ticks_since : ℕ → ℕ → ℕ → ℕ
ticks_since now base momentum =
    let delay = (now + 2 ^ 32 - base) % 2 ^ 16 in
    let per_notch = momentum_factor * momentum in
    if ltb 0 per_notch then (if ltb delay (2 ^ 15) then delay / per_notch else 0) else 500

unfoldable pub next_code : ℕ → ℕ → ℕ → ℕ
next_code code target ticks = dccalize (approach (normalize code) (normalize target) ticks)

-- What is kept of a time in milliseconds: a byte of notches, or the mark for the default.
abbrev pub momentum_of : ℤ → ℕ
momentum_of (pos n) = n / momentum_factor
momentum_of (negsuc n) = momentum_use_default

abbrev pub is_negative : ℤ → Bool
is_negative (pos n) = false
is_negative (negsuc n) = true

abbrev pub below_default : ℤ → Bool
below_default (negsuc zero) = true
below_default (negsuc (suc n)) = false
below_default (pos n) = ltb (n / momentum_factor) momentum_use_default

module _ (highest_short max_locos : ℕ) (alloc : Bool) where
  unfoldable pub set_momentum : ℕ → ℤ → ℤ → Station → Station × Bool
  set_momentum cab accelerating decelerating st =
      if cab == 0
      then (if is_negative accelerating || is_negative decelerating then (st, false) else (
        record st {
          default_momentum_a = momentum_of accelerating % 256;
          default_momentum_d = momentum_of decelerating % 256;
        },
        true,
      ))
      else if not (below_default accelerating && below_default decelerating)
      then (st, false)
      else let (st1, o) = find highest_short max_locos alloc cab true st in
        elim o [
          | none ↦ (st1, false)
          | some p ↦
              let s = slot_of st1 p in
              (
                put_slot p
                    (record s {
                      momentum_a = momentum_of accelerating;
                      momentum_d = momentum_of decelerating;
                    })
                    st1,
                true,
              )
        ]

-- A speed is read back from its signed form.
pub dccalize-normalize : (code : ℕ) → code < 256 → dccalize (normalize code) ≡ code
unfolding passes_below dccalize normalize
dccalize-normalize code below =
    (==_iff (dccalize (normalize code)) code).0
      (passes_at (λ x. dccalize (normalize x) == x) 256 code below refl)

-- The speeds at reminders that see the given notches.
unfoldable pub ramp : List ℕ → ℕ → ℕ → ℕ
ramp [] target code = code
ramp (ticks ∷ rest) target code = ramp rest target (next_code code target ticks)

abbrev distance : ℕ → ℕ → ℕ
distance a b = (a - b) + (b - a)

abbrev pub sum : List ℕ → ℕ
sum [] = 0
sum (x ∷ xs) = x + sum xs

-- How far a speed is from its target, in notches.
abbrev pub gap : ℕ → ℕ → ℕ
gap target code = distance (normalize code) (normalize target)
