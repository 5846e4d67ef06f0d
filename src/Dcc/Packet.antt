-- ===== src/Dcc/Packet.antt =====
-- A decoder's view of the packets that `setThrottleDCC` makes.
use command_station_ex.Base.{
  ℕ, ◌-◌, ◌/◌, ◌%◌, ◌≡◌, ◌≤◌, ◌<◌, refl, ap, sym, ◌∙◌, Bool, true, false, Option, none, some, List,
  [], ◌∷◌, ◌++◌, leb, ◌==◌, if◌then◌else◌, Bool-cases, inl, inr, arith,
}
use command_station_ex.Loco.{LocoSlot}
use command_station_ex.Dcc.{address_bytes, speed_bytes}
use command_station_ex.Dcc.Address.{read_address, read_address-address_bytes}
use command_station_ex.Dcc.Speed.{read_step, scaled, speed_bytes-read_step}

-- What stands behind the address: one byte `01DCSSSS`, or the byte 0x3F and a byte with the direction
-- above seven bits of speed. The result is the direction, 1 for forward, and the speed.
unfoldable pub read_speed : List ℕ → Option (ℕ × ℕ)
read_speed [] = none
read_speed (b ∷ []) = if b / 64 == 1 then some (b / 32 % 2, read_step b) else none
read_speed (b ∷ c ∷ []) = if b == 0x3F then some (c / 128, c % 128) else none
read_speed (b ∷ c ∷ d ∷ bs) = none

-- The address, the direction and the speed.
unfoldable pub read_throttle : List ℕ → Option (ℕ × ℕ × ℕ)
read_throttle p = elim (read_address p) [
  | none ↦ none
  | some (cab, bs) ↦ elim (read_speed bs) [ none ↦ none | some (d, s) ↦ some (cab, d, s) ]
]

-- A loco that runs backwards in its consist.
abbrev pub turned : Option LocoSlot → Bool
turned none = false
turned (some s) = s.consist_reverse

abbrev pub wanted_direction : Option LocoSlot → ℕ → ℕ
wanted_direction slot code = if turned slot then 1 - code / 128 else code / 128

-- 1 is the emergency stop, which the lock makes of every speed.
abbrev pub wanted_speed : Bool → ℕ → ℕ
wanted_speed locked code = if locked then 1 else code % 128

-- The speed in the steps of the packet.
abbrev pub in_steps : ℕ → ℕ → ℕ
in_steps steps speed = if leb steps 28 then scaled speed else speed

pub read_speed-speed_bytes :
    (steps code : ℕ)
    → code < 256
    → read_speed (speed_bytes steps code) ≡ some (code / 128, in_steps steps (code % 128))
unfolding read_speed speed_bytes
read_speed-speed_bytes steps code h = elim (Bool-cases (leb steps 28)) [
  | inl few ↦
      let (b, e, high, low) = speed_bytes-read_step steps code (ground (arith, few)) h in
      let one : (b / 64 == 1) ≡ true = ground (arith, high, h) in
      let forward : b / 32 % 2 ≡ code / 128 = omega (arith, high, h) in
      ap read_speed e
      ∙ ap
          (λ (x : Bool).
            let r : Option (ℕ × ℕ) = if x then some (b / 32 % 2, read_step b) else none in r)
          one
      ∙ ap (λ d. some (d, read_step b)) forward
      ∙ ap (λ s. some (code / 128, s)) low
      ∙ ap (λ (x : Bool). some (code / 128, if x then scaled (code % 128) else code % 128))
          (sym few)
  | inr many ↦ rw (many, speed_bytes) refl
]

-- A packet of one or two bytes behind the address.
pub read_throttle-read_speed :
    (highest_short cab : ℕ) (bs : List ℕ) (d s : ℕ)
    → highest_short ≤ 127
    → cab < 10240
    → read_speed bs ≡ some (d, s)
    → read_throttle (address_bytes highest_short cab ++ bs) ≡ some (cab, d, s)
unfolding read_throttle read_speed
read_throttle-read_speed highest_short cab [] d s short fits e = cc
read_throttle-read_speed highest_short cab (b ∷ bs) d s short fits e =
    ap
      (λ (o : Option (ℕ × List ℕ)).
        let r : Option (ℕ × ℕ × ℕ) = elim o [
          | none ↦ none
          | some (c, xs) ↦ elim (read_speed xs) [ none ↦ none | some (x, y) ↦ some (c, x, y) ]
        ] in
        r)
      (read_address-address_bytes highest_short cab b bs short fits)
    ∙ ap
        (λ (o : Option (ℕ × ℕ)).
          let r : Option (ℕ × ℕ × ℕ) = elim o [ none ↦ none | some (x, y) ↦ some (cab, x, y) ] in r)
        e
