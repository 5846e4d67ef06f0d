-- ===== src/Drive.antt =====
-- DCC.cpp: throttle, functions, momentum and the emergency stop, over the slots of the locos and the
-- queues of packets. A loco and a function are numbers from 0 on: the negative ones, which the calls
-- refuse, are left out. What is told to others, the throttles and the tracks on direct current, is in
-- `out`, the newest first. `millis()` is an argument. The bits of `functions` are read by division.
use command_station_ex.Base.{
  ℕ, zero, suc, ◌+◌, ◌-◌, ◌*◌, ◌/◌, ◌%◌, ◌^◌, Bool, true, false, not, ◌&&◌, ◌||◌, Option, none,
  some, List, [], ◌∷◌, ◌++◌, bit_or, bit_and, bit_xor, length, ltb, leb, ◌==◌, if◌then◌else◌,
}
use command_station_ex.Loco.{
  LocoSlot, Locos, get_slot, set_loco, forget, forget_all, momentum_use_default,
}
use command_station_ex.Queue.{Queues}
use command_station_ex.Queue.Schedule.{schedule_dcc_packet}
use command_station_ex.Dcc.{set_throttle_dcc, address_bytes}
pub mod Consist
pub mod Functions
pub mod Momentum
pub mod Reminders
pub mod Accessory
pub mod Bits
pub mod Switched
pub mod Kept
pub mod Walk
pub mod Pass
pub mod Stop
pub mod Moved
pub mod Sound
pub mod Forgetting
pub mod Commands
mod Tests

pub data Notice : Type 0 where
  -- The loco of a slot, a loco that is forgotten, the lock of the stop, and a signal for a loco.
  broadcast_loco : ℕ → Notice
  broadcast_forget_loco : ℕ → Notice
  broadcast_estop_lock : Bool → Notice
  dc_signal : ℕ → ℕ → Notice

pub record Station : Type 0 where
  pub locos : Locos
  pub queues : Queues
  pub global_speedsteps : ℕ
  pub estop_is_locked : Bool
  pub default_momentum_a : ℕ
  pub default_momentum_d : ℕ
  pub linear_acceleration : Bool
  pub next_loco_reminder : Option ℕ
  pub loop_status : ℕ
  pub out : List Notice

abbrev pub slot_of : Station → ℕ → LocoSlot
slot_of st p = st.locos.slot p

abbrev pub put_slot : ℕ → LocoSlot → Station → Station
put_slot p s st = let l = st.locos in record st { locos = record l { slot = set_loco l.slot p s } }

abbrev pub tell : Notice → Station → Station
tell n st = record st { out = n ∷ st.out }

-- `setDCSignal`, unless the stop is locked.
abbrev pub signal : ℕ → ℕ → Station → Station
signal cab code st = if st.estop_is_locked then st else tell (dc_signal cab code) st

pub get_momentum : Station → LocoSlot → ℕ
get_momentum st s =
    let target = bit_and s.target_speed 0x7F in
    let current = bit_and s.speed_code 0x7F in
    let momentum =
      if s.momentum_a == momentum_use_default then st.default_momentum_a else s.momentum_a in
    let difference = (target - current) / 8 in
    if ltb current target
    then if (momentum == 0) || st.linear_acceleration
      then momentum
      else if ltb momentum difference
      then 0
      else momentum - difference
    else if s.momentum_d == momentum_use_default
    then st.default_momentum_d
    else s.momentum_d

-- The followers of a consist take the target of their lead, in their own direction. The loop takes
-- the number of slots as its fuel.
unfoldable pub copy_target : ℕ → ℕ → Option ℕ → Station → Station
copy_target zero code o st = st
copy_target (suc fuel) code none st = st
copy_target (suc fuel) code (some p) st =
    let s = slot_of st p in
    copy_target fuel code s.consist_next (
      put_slot p (record s { target_speed = bit_xor code (if s.consist_reverse then 0x80 else 0) })
        st)

module _ (highest_short : ℕ) where
  abbrev pub throttle_dcc : Option LocoSlot → ℕ → Station → Station
  throttle_dcc slot code st = record st {
    queues =
        set_throttle_dcc highest_short st.global_speedsteps st.estop_is_locked st.queues slot code;
  }

  -- The loop of `setThrottle2` over a consist.
  unfoldable pub throttle_all : ℕ → ℕ → Option ℕ → Station → Station
  throttle_all zero code o st = st
  throttle_all (suc fuel) code none st = st
  throttle_all (suc fuel) code (some p) st =
      let s : LocoSlot = record (slot_of st p) { speed_code = code } in
      throttle_all fuel code s.consist_next (throttle_dcc (some s) code (put_slot p s st))

  unfoldable pub set_throttle2 : ℕ → ℕ → Station → Station
  set_throttle2 p code st = throttle_all st.locos.created code (some p) st

  -- The loop of `estopAll` over the chain of slots.
  unfoldable pub stop_slots : ℕ → Option ℕ → Station → Station
  stop_slots zero o st = st
  stop_slots (suc fuel) none st = st
  stop_slots (suc fuel) (some p) st =
      let s = slot_of st p in
      let code = bit_or (bit_and s.target_speed 0x80) 1 in
      stop_slots fuel (st.locos.next p) (
        tell (broadcast_loco p)
          (put_slot p (record s { speed_code = code; target_speed = code }) st))

  unfoldable pub estop_all : Station → Station
  estop_all st =
      let st1 = tell (dc_signal 0 1) (throttle_dcc none 1 st) in
      stop_slots st1.locos.created st1.locos.first_slot st1

  unfoldable pub estop_lock : Bool → Station → Station
  estop_lock lock st =
      if (if lock then st.estop_is_locked else not st.estop_is_locked)
      then st
      else let st1 : Station = record st { estop_is_locked = lock } in
        tell (broadcast_estop_lock lock)
          (if lock then tell (dc_signal 0 1) (throttle_dcc none 1 st1) else st1)

  module _ (max_locos : ℕ) (alloc : Bool) where
    abbrev pub find : ℕ → Bool → Station → Station × Option ℕ
    find cab create st =
        let (locos, p) = get_slot max_locos alloc st.locos cab create in
        (record st { locos = locos }, p)

    -- `setThrottle` on the slot of the loco.
    unfoldable pub set_throttle_at : ℕ → ℕ → ℕ → ℕ → ℕ → Station → Station
    set_throttle_at now cab t_speed code p st =
        let s = slot_of st p in
        let follows : Bool = elim s.consist_lead [ none ↦ false | some lead ↦ true ] in
        if follows || (s.target_speed == code)
        then st
        else let st1 = put_slot p (record s { target_speed = code }) st in
          let st2 = copy_target st1.locos.created code (slot_of st1 p).consist_next st1 in
          let s2 = slot_of st2 p in
          tell (broadcast_loco p) (
            if not (get_momentum st2 s2 == 0) && not (t_speed == 1)
            then put_slot p (record s2 { momentum_base = now }) st2
            else signal cab code (set_throttle2 p code st2))

    unfoldable pub set_throttle : ℕ → ℕ → ℕ → Bool → Station → Station × Bool
    set_throttle now cab t_speed t_direction st =
        if (t_speed == 1) && (cab == 0)
        then (estop_all st, true)
        else let code = (bit_and t_speed 0x7F + (if t_direction then 128 else 0)) % 256 in
          let (st1, o) = find cab true st in
          elim o [
            | none ↦ (st1, false)
            | some p ↦ (set_throttle_at now cab t_speed code p st1, true)
          ]
