-- ===== src/Dcc.antt =====
-- DCC.cpp: the packets that it makes for locos and for clocks and puts into the queues. HIGHEST_SHORT_ADDR, which
-- the configuration sets, is an argument, as are the speed steps and the lock of the emergency stop.
use command_station_ex.Base.{
  ℕ, ◌+◌, ◌-◌, ◌*◌, ◌/◌, ◌%◌, ◌≡◌, Bool, true, false, Option, none, some, List, [], ◌∷◌, ◌++◌, ◌||◌,
  bit_or, bit_and, bit_xor, length, low_byte, high_byte, ltb, leb, ◌==◌, if◌then◌else◌,
}
use command_station_ex.Loco.{LocoSlot}
use command_station_ex.Queue.{Queues}
use command_station_ex.Queue.Schedule.{
  schedule_dcc_packet, schedule_dcc_speed_packet, schedule_dcc_function_packet,
  schedule_estop_packet,
}
pub mod Address
pub mod Cv
pub mod Speed
pub mod Packet
pub mod Throttle
pub mod Clock
mod Tests

-- The one or two bytes of a loco address.
unfoldable pub address_bytes : ℕ → ℕ → List ℕ
address_bytes highest_short cab =
    if ltb highest_short cab
    then bit_or (high_byte cab) 0xC0 ∷ low_byte cab ∷ []
    else low_byte cab ∷ []

-- `speed28` of a speed between 2 and 127, as a byte.
pub speed28 : ℕ → ℕ
speed28 speed128 = (speed128 * 10 + 36) / 46 % 256

pub code28 : ℕ → ℕ
code28 speed128 =
    if (speed128 == 0)
    then speed128
    else if speed128 == 1
    then speed128
    else bit_or ((speed28 speed128 + 3) / 2) (if bit_and (speed28 speed128) 1 == 0 then 0x10 else 0)

pub speed_bytes : ℕ → ℕ → List ℕ
speed_bytes steps speed_code =
    if leb steps 28
    then bit_or (bit_or 0x40 (code28 (bit_and speed_code 0x7F)))
        (if bit_and speed_code 0x80 == 0 then 0 else 0x20)
      ∷ []
    else 0x3F ∷ speed_code ∷ []

-- The speed that is sent: reversed in a consist, and a stop while the stop is locked.
pub sent_code : Bool → Option LocoSlot → ℕ → ℕ
sent_code locked slot speed_code =
    let code : ℕ = elim slot [
      | some s ↦ if s.consist_reverse then bit_xor speed_code 0x80 else speed_code
      | none ↦ speed_code
    ] in
    if locked then bit_or (bit_and code 0x80) 1 else code

-- `cab`, 0 for all locos.
abbrev pub cab_of : Option LocoSlot → ℕ
cab_of none = 0
cab_of (some s) = s.loco

pub set_throttle_dcc : ℕ → ℕ → Bool → Queues → Option LocoSlot → ℕ → Queues
set_throttle_dcc highest_short steps locked st slot speed_code =
    let cab = cab_of slot in
    let code = sent_code locked slot speed_code in
    let b = address_bytes highest_short cab ++ speed_bytes steps code in
    if bit_and code 0x7F == 1
    then schedule_estop_packet st b (length b) 4 cab
    else schedule_dcc_speed_packet st b (length b) 0 cab

pub set_function_internal : ℕ → Queues → ℕ → ℕ → ℕ → ℕ → Queues
set_function_internal highest_short st cab group byte1 byte2 =
    let b =
      address_bytes highest_short cab ++ (if byte1 == 0 then byte2 ∷ [] else byte1 ∷ byte2 ∷ []) in
    schedule_dcc_function_packet st b (length b) cab group

-- `cv` is at least 1.
unfoldable pub cv1 : ℕ → ℕ → ℕ
cv1 opcode cv = bit_or (bit_and (high_byte (cv - 1)) 3) opcode

pub cv2 : ℕ → ℕ
cv2 cv = low_byte (cv - 1)

pub cv_byte_packet : ℕ → ℕ → ℕ → ℕ → List ℕ
cv_byte_packet highest_short cab cv value =
    address_bytes highest_short cab ++ cv1 0xEC cv ∷ cv2 cv ∷ value ∷ []

pub write_cv_byte_main : ℕ → Queues → ℕ → ℕ → ℕ → Queues
write_cv_byte_main highest_short st cab cv value =
    let b = cv_byte_packet highest_short cab cv value in schedule_dcc_packet st b (length b) 4 cab

pub cv_bit_packet : ℕ → ℕ → ℕ → ℕ → Bool → List ℕ
cv_bit_packet highest_short cab cv bit_number value =
    address_bytes highest_short cab
    ++ cv1 0xE8 cv
      ∷ cv2 cv
      ∷ bit_or (bit_or 0xF0 (if value then 0x08 else 0x00)) (bit_number % 8)
      ∷ []

pub write_cv_bit_main : ℕ → Queues → ℕ → ℕ → ℕ → Bool → Queues
write_cv_bit_main highest_short st cab cv bit_number value =
    let b = cv_bit_packet highest_short cab cv bit_number value in
    schedule_dcc_packet st b (length b) 4 cab

pub time_packet : ℕ → ℕ → Bool → List ℕ
time_packet minutes speed sudden =
    0
    ∷ 0xC1
    ∷ minutes % 60
    ∷ bit_or 0xE0 (minutes / 60)
    ∷ bit_or (if sudden then 0x80 else 0) speed
    ∷ []

pub set_time : Queues → ℕ → ℕ → Bool → Queues × Bool
set_time st minutes speed sudden =
    if leb 1440 minutes || ltb 63 speed
    then (st, false)
    else let b = time_packet minutes speed sudden in (schedule_dcc_packet st b (length b) 2 0, true)
