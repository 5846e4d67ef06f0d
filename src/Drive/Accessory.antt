-- ===== src/Drive/Accessory.antt =====
-- DCC.cpp: the packets to accessories and to signals, and a decoder that reads them.
use command_station_ex.Base.{
  ℕ, ◌+◌, ◌-◌, ◌*◌, ◌/◌, ◌%◌, ◌≡◌, ◌<◌, refl, ap, ◌∙◌, Bool, true, false, not, ◌&&◌, ◌||◌, Option,
  none, some, List, [], ◌∷◌, arith, bit_or, bit_and, bit_xor, length, ltb, leb, ◌==◌, if◌then◌else◌,
  passes_below, passes_at,
}
use command_station_ex.Base.Int.{ℤ, pos, negsuc}
use command_station_ex.Queue.{Queues}
use command_station_ex.Queue.Schedule.{schedule_dcc_packet, schedule_acc_on_off_packet}

unfoldable pub accessory_packet : ℕ → ℕ → ℕ → ℕ → List ℕ
accessory_packet address port gate onoff =
    let second = bit_xor (address / 64 % 8 * 16 + port % 4 * 2 + gate % 2) 0xF8 in
    (address % 64 + 128) ∷ (if onoff == 0 then bit_and second 0xF7 else second) ∷ []

-- `activate` is the call of the automation, which the configuration may leave out.
module _ {ℓ} {World : Type ℓ} (activate : ℕ → ℕ → World → World) where
  unfoldable pub set_accessory : ℕ → ℕ → ℕ → ℕ → Queues × World → Queues × World
  set_accessory address port gate onoff (st, world) =
      let b = accessory_packet address port gate onoff in
      if not (address == bit_and address 511)
      then (st, world)
      else if not (port == bit_and port 3)
      then (st, world)
      else (
        if leb onoff 1
            then schedule_dcc_packet st b 2 3 0
            else schedule_acc_on_off_packet st b 2 3 100,
        if onoff == 0 then world else activate (bit_or (address * 4) port) gate world,
      )

-- The address with 3 added, which is 11 bits wide.
unfoldable pub extended_packet : ℕ → ℕ → List ℕ
extended_packet address value =
    bit_or 0x80 (bit_and (address / 4) 0x3F)
    ∷ bit_or (bit_or 0x01 ((7 - address / 256 % 8) * 16)) (bit_and address 0x03 * 2)
    ∷ value
    ∷ []

abbrev pub plus3 : ℤ → Option ℕ
plus3 (pos n) = if ltb 2044 n then none else some (n + 3)
plus3 (negsuc n) = if ltb n 3 then some (2 - n) else none

unfoldable pub set_extended_accessory : ℤ → ℕ → ℕ → Queues → Queues × Bool
set_extended_accessory address value repeats st = elim (plus3 address) [
  | none ↦ (st, false)
  | some a ↦
      if not (value == bit_and value 0x1F)
      then (st, false)
      else let b = extended_packet a value in (schedule_dcc_packet st b (length b) repeats 0, true)
]

-- What a decoder reads: address, port, gate and whether it is to switch on.
pub record Turned : Type 0 where
  pub address : ℕ
  pub port : ℕ
  pub gate : ℕ
  pub on : ℕ

-- 10AAAAAA 1AAACPPG, with the high bits of the address inverted.
unfoldable pub read_accessory : List ℕ → Option Turned
read_accessory (b ∷ c ∷ []) =
    if (b / 64 == 2) && (c / 128 == 1)
    then some (record {
      address = (7 - c / 16 % 8) * 64 + b % 64;
      port = c / 2 % 4;
      gate = c % 2;
      on = c / 8 % 2;
    })
    else none
read_accessory _ = none

-- What stands in the second byte, whose parts are a number below 128 with bit 3 clear.
abbrev second_is : ℕ → ℕ → ℕ → Bool
second_is n c on =
    (c / 128 == 1)
    && (7 - c / 16 % 8 == n / 16)
    && (c / 2 % 4 == n / 2 % 4)
    && (c % 2 == n % 2)
    && (c / 8 % 2 == on)

abbrev second : ℕ → ℕ → ℕ
second n onoff = if onoff == 0 then bit_and (bit_xor n 0xF8) 0xF7 else bit_xor n 0xF8

switched : ℕ → ℕ
switched onoff = if onoff == 0 then 0 else 1

second_table :
    (n onoff : ℕ) → n < 128 → n / 8 % 2 ≡ 0 → second_is n (second n onoff) (switched onoff) ≡ true
unfolding passes_below switched
second_table n onoff below clear = by_onoff (onoff == 0)
  where
    by_onoff :
        (b : Bool)
        → second_is n
            (if b then bit_and (bit_xor n 0xF8) 0xF7 else bit_xor n 0xF8)
            (if b then 0 else 1)
          ≡ true
    by_onoff true =
        let test =
          passes_at (λ x. (x / 8 % 2 == 1) || second_is x (bit_and (bit_xor x 0xF8) 0xF7) 0) 128 n
            below refl in
        ground (arith, test, clear)
    by_onoff false =
        let test =
          passes_at (λ x. (x / 8 % 2 == 1) || second_is x (bit_xor x 0xF8) 1) 128 n below refl in
        ground (arith, test, clear)

-- The packet for an accessory is read back by a decoder: its address, port and gate, and off exactly
-- if `onoff` is 0; for an address below 512, a port below 4 and a gate below 2.
pub read_accessory-accessory_packet :
    (address port gate onoff : ℕ)
    → address < 512
    → port < 4
    → gate < 2
    → read_accessory (accessory_packet address port gate onoff)
      ≡ some
          (record { address = address; port = port; gate = gate; on = if onoff == 0 then 0 else 1 })
unfolding read_accessory accessory_packet switched
read_accessory-accessory_packet address port gate onoff a p g =
    let n = address / 64 % 8 * 16 + port % 4 * 2 + gate % 2 in
    let c = second n onoff in
    let t = second_table n onoff (omega arith) (omega (arith, p, g, a)) in
    let first : ((address % 64 + 128) / 64 == 2) ≡ true = ground arith in
    let top : (c / 128 == 1) ≡ true = ground (arith, t) in
    ap (λ b. if b && (c / 128 == 1) then some (read c) else none) first
    ∙ ap (λ b. if b then some (read c) else none) top
    ∙ same (read c) _ (ground (arith, t, a)) (ground (arith, t, p)) (ground (arith, t, g))
        (ground (arith, t))
  where
    same :
        (x y : Turned)
        → x.address ≡ y.address
        → x.port ≡ y.port
        → x.gate ≡ y.gate
        → x.on ≡ y.on
        → some x ≡ some y
    same x y e f g h = λ i. some (record { address = e i; port = f i; gate = g i; on = h i })

    read : ℕ → Turned
    read c = record {
      address = (7 - c / 16 % 8) * 64 + (address % 64 + 128) % 64;
      port = c / 2 % 4;
      gate = c % 2;
      on = c / 8 % 2;
    }

-- 10AAAAAA 0AAA0AA1 000XXXXX, with the highest three bits of the address inverted.
unfoldable pub read_extended : List ℕ → Option (ℕ × ℕ)
read_extended (b ∷ c ∷ d ∷ []) =
    if (b / 64 == 2) && (c / 128 == 0) && (c / 8 % 2 == 0) && (c % 2 == 1) && ltb d 32
    then some ((7 - c / 16 % 8) * 256 + b % 64 * 4 + c / 2 % 4, d)
    else none
read_extended _ = none

abbrev extended_is : ℕ → Bool
extended_is a =
    let b = bit_or 0x80 (bit_and (a / 4) 0x3F) in
    let c = bit_or (bit_or 0x01 ((7 - a / 256 % 8) * 16)) (bit_and a 0x03 * 2) in
    ((b / 64 == 2) && (c / 128 == 0) && (c / 8 % 2 == 0) && (c % 2 == 1))
    && ((7 - c / 16 % 8) * 256 + b % 64 * 4 + c / 2 % 4 == a)

-- The packet for a signal is read back by a decoder: its address, offset by 3, and its aspect, for an
-- address below 2048 and an aspect below 32.
pub read_extended-extended_packet :
    (address value : ℕ)
    → address < 2048
    → value < 32
    → read_extended (extended_packet address value) ≡ some (address, value)
unfolding read_extended extended_packet passes_below
read_extended-extended_packet address value a v =
    let b = bit_or 0x80 (bit_and (address / 4) 0x3F) in
    let c = bit_or (bit_or 0x01 ((7 - address / 256 % 8) * 16)) (bit_and address 0x03 * 2) in
    let got = (7 - c / 16 % 8) * 256 + b % 64 * 4 + c / 2 % 4 in
    let test = passes_at extended_is 2048 address a refl in
    let fits : ((b / 64 == 2) && (c / 128 == 0) && (c / 8 % 2 == 0) && (c % 2 == 1) && ltb value 32)
        ≡ true =
      ground (arith, test, v) in
    let same : got ≡ address = ground (arith, test) in
    ap (λ x. if x then some (got, value) else none) fits ∙ ap (λ x. some (x, value)) same
