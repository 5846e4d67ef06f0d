-- ===== src/Dcc/Throttle.antt =====
-- What `setThrottleDCC` sends, and what it makes of the queues.
use command_station_ex.Base.{
  ℕ, ◌+◌, ◌-◌, ◌*◌, ◌/◌, ◌%◌, ◌≡◌, ◌≤◌, ◌<◌, refl, ap, subst, sym, ◌∙◌, Bool, true, false, not,
  Option, none, some, List, ◌∷◌, ◌++◌, bit_or, bit_and, bit_xor, length, length-append, ◌==◌,
  ==_iff, if◌then◌else◌, passes_below, passes_at, arith,
}
use command_station_ex.Loco.{LocoSlot}
use command_station_ex.Queue.{Queues, speed_packet}
use command_station_ex.Queue.Spec.{Entry, change_or_add, keep}
use command_station_ex.Queue.Schedule.{
  schedule_estop_packet, schedule_dcc_speed_packet, schedule_next,
}
use command_station_ex.Queue.Schedule.Refine.{Shows, fresh}
use command_station_ex.Queue.Schedule.Replace.{replaced}
use command_station_ex.Queue.Schedule.Put.{schedule_dcc_speed_packet-Shows}
use command_station_ex.Queue.Schedule.Estop.{stops, schedule_estop_packet-Shows}
use command_station_ex.Queue.Schedule.Urgent.{schedule_next-schedule_estop_packet}
use command_station_ex.Dcc.{address_bytes, speed_bytes, sent_code, cab_of, set_throttle_dcc}
use command_station_ex.Dcc.Address.{length-address_bytes}
use command_station_ex.Dcc.Speed.{scaled, length-speed_bytes}
use command_station_ex.Dcc.Packet.{
  read_throttle, turned, wanted_direction, wanted_speed, in_steps, read_speed-speed_bytes,
  read_throttle-read_speed,
}

abbrev coded : Bool → Bool → ℕ → ℕ
coded locked back code =
    let c = if back then bit_xor code 0x80 else code in
    if locked then bit_or (bit_and c 0x80) 1 else c

coded_fields :
    (locked back : Bool) (code : ℕ)
    → code < 256
    → coded locked back code
      ≡ (if back then 1 - code / 128 else code / 128) * 128 + (if locked then 1 else code % 128)
unfolding passes_below
coded_fields true true code h =
    (==_iff _ _).0 (passes_at (λ c. coded true true c == (1 - c / 128) * 128 + 1) 256 code h refl)
coded_fields true false code h =
    (==_iff _ _).0 (passes_at (λ c. coded true false c == c / 128 * 128 + 1) 256 code h refl)
coded_fields false true code h =
    (==_iff _ _).0
      (passes_at (λ c. coded false true c == (1 - c / 128) * 128 + c % 128) 256 code h refl)
coded_fields false false code h = omega arith

sent_code_fields :
    (locked : Bool) (slot : Option LocoSlot) (code : ℕ)
    → code < 256
    → sent_code locked slot code ≡ wanted_direction slot code * 128 + wanted_speed locked code
unfolding sent_code
sent_code_fields locked none code h = coded_fields locked false code h
sent_code_fields locked (some s) code h = coded_fields locked s.consist_reverse code h

-- Each is within its field.
wanted-lt :
    (locked : Bool) (slot : Option LocoSlot) (code : ℕ)
    → code < 256
    → (wanted_direction slot code < 2) × (wanted_speed locked code < 128)
wanted-lt locked slot code h = (direction (turned slot), speed locked)
  where
    direction : (b : Bool) → (if b then 1 - code / 128 else code / 128) < 2
    direction true = omega arith
    direction false = omega (arith, h)

    speed : (b : Bool) → (if b then 1 else code % 128) < 128
    speed true = omega arith
    speed false = omega arith

-- The packet of a throttle.
throttle_bytes : ℕ → ℕ → Bool → Option LocoSlot → ℕ → List ℕ
throttle_bytes highest_short steps locked slot code =
    address_bytes highest_short (cab_of slot) ++ speed_bytes steps (sent_code locked slot code)

read_throttle-throttle_bytes :
    (highest_short steps : ℕ) (locked : Bool) (slot : Option LocoSlot) (code : ℕ)
    → highest_short ≤ 127
    → cab_of slot < 10240
    → code < 256
    → read_throttle (throttle_bytes highest_short steps locked slot code)
      ≡ some (cab_of slot, wanted_direction slot code, in_steps steps (wanted_speed locked code))
unfolding throttle_bytes
read_throttle-throttle_bytes highest_short steps locked slot code short fits below =
    let c = sent_code locked slot code in
    let d = wanted_direction slot code in
    let s = wanted_speed locked code in
    let e = sent_code_fields locked slot code below in
    let (d_fits, s_fits) = wanted-lt locked slot code below in
    let direction : c / 128 ≡ d = omega (arith, e, d_fits, s_fits) in
    let speed : c % 128 ≡ s = omega (arith, e, d_fits, s_fits) in
    read_throttle-read_speed highest_short (cab_of slot) (speed_bytes steps c) d (in_steps steps s)
      short fits
      (read_speed-speed_bytes steps c (omega (arith, e, d_fits, s_fits))
        ∙ ap (λ n. some (n, in_steps steps (c % 128))) direction
        ∙ ap (λ n. some (d, in_steps steps n)) speed)

length-throttle_bytes :
    (highest_short steps : ℕ) (locked : Bool) (slot : Option LocoSlot) (code : ℕ)
    → length (throttle_bytes highest_short steps locked slot code) ≤ 5
unfolding throttle_bytes
length-throttle_bytes highest_short steps locked slot code = omega (
  arith,
  length-append (address_bytes highest_short (cab_of slot))
      (speed_bytes steps (sent_code locked slot code)),
  length-address_bytes highest_short (cab_of slot),
  length-speed_bytes steps (sent_code locked slot code),
)

-- The speed bits decide which queue operation is called.
set_throttle_dcc_calls :
    (st : Queues) (highest_short steps : ℕ) (locked : Bool) (slot : Option LocoSlot) (code : ℕ)
    → code < 256
    → let b = throttle_bytes highest_short steps locked slot code in
      set_throttle_dcc highest_short steps locked st slot code ≡ (
        if wanted_speed locked code == 1
        then schedule_estop_packet st b (length b) 4 (cab_of slot)
        else schedule_dcc_speed_packet st b (length b) 0 (cab_of slot))
unfolding set_throttle_dcc throttle_bytes passes_below
set_throttle_dcc_calls st highest_short steps locked slot code below =
    let c = sent_code locked slot code in
    let b = throttle_bytes highest_short steps locked slot code in
    let e = sent_code_fields locked slot code below in
    let (d_fits, s_fits) = wanted-lt locked slot code below in
    let mask : bit_and c 0x7F ≡ c % 128 =
      (==_iff _ _).0 (
        passes_at (λ x. bit_and x 0x7F == x % 128) 256 c (omega (arith, e, d_fits, s_fits)) refl) in
    let speed : bit_and c 0x7F ≡ wanted_speed locked code =
      mask ∙ omega (arith, e, d_fits, s_fits) in
    ap
      (λ n.
        if n == 1
        then schedule_estop_packet st b (length b) 4 (cab_of slot)
        else schedule_dcc_speed_packet st b (length b) 0 (cab_of slot))
      speed

-- A throttle makes a packet from which a decoder reads the address of the loco, or 0 for all, the
-- direction, turned for a loco that runs backwards in its consist, and the speed in the steps of the
-- packet, an emergency stop while the stop is locked. If this is an emergency stop, the packet goes to
-- the front of the high queue and all that waits for the loco is taken out; else it takes the place of
-- the speed that waits for the loco, or goes to the end. The low queue stays. This is for
-- addresses below 10240, of which at most 127 are short, and a speed code of a byte.
pub set_throttle_dcc-Shows :
    (st : Queues) (highs lows : List Entry) (highest_short steps : ℕ) (locked : Bool)
    (slot : Option LocoSlot) (code : ℕ)
    → Shows st highs lows
    → highest_short ≤ 127
    → cab_of slot < 10240
    → code < 256
    → (b : List ℕ) × (read_throttle b
        ≡ some (cab_of slot, wanted_direction slot code, in_steps steps (wanted_speed locked code)))
      × Shows
          (set_throttle_dcc highest_short steps locked st slot code)
          (if wanted_speed locked code == 1
            then fresh speed_packet b 4 0 ∷ keep (λ e. not (stops (cab_of slot) e)) highs
            else change_or_add
                (λ e. e.shared % 65536 == cab_of slot)
                (replaced b 0)
                (fresh speed_packet b 0 (cab_of slot))
                highs)
          lows
set_throttle_dcc-Shows st highs lows highest_short steps locked slot code sh short fits below =
    let cab = cab_of slot in
    let b = throttle_bytes highest_short steps locked slot code in
    let size = length-throttle_bytes highest_short steps locked slot code in
    let stopped = fresh speed_packet b 4 0 ∷ keep (λ e. not (stops cab e)) highs in
    let moved =
      change_or_add (λ e. e.shared % 65536 == cab) (replaced b 0) (fresh speed_packet b 0 cab)
        highs in
    let by_test = λ (x : Bool).
      elim x
        as (λ k.
          Shows
            (if k
              then schedule_estop_packet st b (length b) 4 cab
              else schedule_dcc_speed_packet st b (length b) 0 cab)
            (if k then stopped else moved) lows) [
              | true ↦ schedule_estop_packet-Shows st highs lows b (length b) 4 cab sh (refl, size)
              | false ↦
                  schedule_dcc_speed_packet-Shows st highs lows b (length b) 0 cab sh (refl, size)
            ] in
    (
      b,
      read_throttle-throttle_bytes highest_short steps locked slot code short fits below,
      subst (λ q. Shows q (if wanted_speed locked code == 1 then stopped else moved) lows)
          (sym (set_throttle_dcc_calls st highest_short steps locked slot code below))
          (by_test (wanted_speed locked code == 1)),
    )

-- While the emergency stop is locked, the packet that follows a throttle of any speed to the track
-- is an emergency stop with four repeats, whatever waits. It is addressed to the loco of the throttle,
-- with its direction; it is the broadcast packet only for a throttle of all locos. This is for addresses below
-- 10240, of which at most 127 are short, and a speed code of a byte.
pub schedule_next-set_throttle_dcc :
    (st : Queues) (highs lows : List Entry) (highest_short steps : ℕ) (slot : Option LocoSlot)
    (code now : ℕ) (force : Bool)
    → Shows st highs lows
    → highest_short ≤ 127
    → cab_of slot < 10240
    → code < 256
    → let st' = set_throttle_dcc highest_short steps true st slot code in
      (b : List ℕ) × (read_throttle b ≡ some (cab_of slot, wanted_direction slot code, 1))
      × ((schedule_next st' force now).1 ≡ true)
      × ((schedule_next st' force now).0.sent ≡ record { bytes = b; repeats = 4 } ∷ st'.sent)
unfolding scaled
schedule_next-set_throttle_dcc st highs lows highest_short steps slot code now force sh short fits
      below =
    let b = throttle_bytes highest_short steps true slot code in
    let size = length-throttle_bytes highest_short steps true slot code in
    let next =
      schedule_next-schedule_estop_packet st highs lows b (length b) 4 (cab_of slot) now force sh
        (refl, size) in
    let same : in_steps steps 1 ≡ 1 = ground arith in
    let calls = sym (set_throttle_dcc_calls st highest_short steps true slot code below) in
    (
      b,
      read_throttle-throttle_bytes highest_short steps true slot code short fits below
          ∙ ap (λ s. some (cab_of slot, wanted_direction slot code, s)) same,
      subst (λ q. (schedule_next q force now).1 ≡ true) calls next.0,
      subst (λ q. (schedule_next q force now).0.sent ≡ record { bytes = b; repeats = 4 } ∷ q.sent)
          calls next.1,
    )
