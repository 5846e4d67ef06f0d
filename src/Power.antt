-- ===== src/Power.antt =====
-- MotorDriver.cpp and MotorDriver.h: the power of a track, and how an overload switches it off and on
-- again. What a call reads from outside is in `Readings`: micros(), which stays the same throughout a
-- call, the fault, whether the current is over its limit, and the offset of the sensor. What it does
-- there is in `out`, the newest first. lastCurrent and tripValue, which only serve a call, are left out.
use command_station_ex.Base.{
  ℕ, zero, suc, ◌+◌, ◌-◌, ◌*◌, ◌%◌, ◌^◌, Bool, true, false, not, ◌&&◌, ◌||◌, List, [], ◌∷◌, ltb,
  if◌then◌else◌,
}
use command_station_ex.Ack.{PowerMode, power_off, power_on, power_overload, power_alert, elapsed}
pub mod Trip
mod Tests

pub data Action : Type 0 where
  power_pin : Bool → Action
  inrush : Bool → Action
  clear_resets : Action
  invert : Action
  -- EXRAIL is told.
  power_event : Action

pub record Readings : Type 0 where
  pub micros : ℕ
  pub fault : Bool
  pub over : Bool
  pub offset : ℕ

-- What does not change: the pins and the mode of the track.
pub record Wiring : Type 0 where
  pub has_current_pin : Bool
  pub is_prog_track : Bool
  pub common_fault_pin : Bool
  -- The brake pin is there, and the track is for DCC.
  pub has_inrush : Bool
  -- The track turns its output over at a fault.
  pub auto_inverts : Bool

pub record Driver : Type 0 where
  pub mode : PowerMode
  pub last_mode : PowerMode
  pub last_change : PowerMode → ℕ
  pub last_bad_sample : ℕ
  pub global_overload_start : ℕ
  pub sense_offset : ℕ
  pub overload_wait : ℕ
  pub out : List Action

abbrev pub same_mode : PowerMode → PowerMode → Bool
same_mode power_off power_off = true
same_mode power_on power_on = true
same_mode power_overload power_overload = true
same_mode power_alert power_alert = true
same_mode _ _ = false

abbrev pub is_powered : PowerMode → Bool
is_powered power_on = true
is_powered power_alert = true
is_powered _ = false

abbrev pub act : Action → Driver → Driver
act a st = record st { out = a ∷ st.out }

abbrev pub set_change : PowerMode → ℕ → Driver → Driver
set_change mode now st = record st {
  last_change = λ m. if same_mode m mode then now else st.last_change m;
}

module _ (w : Wiring) where
  pub set_power : Readings → PowerMode → Driver → Driver
  set_power i mode st =
      let st1 = set_change mode i.micros st in
      let st2 : Driver =
        if same_mode mode power_overload
        then record st1 { global_overload_start = i.micros }
        else st1 in
      let st3 : Driver =
        if same_mode st.mode power_off && w.has_current_pin
        then record st2 { sense_offset = i.offset }
        else st2 in
      let st4 = act (power_pin true) st3 in
      let st5 =
        if is_powered mode
        then (if w.is_prog_track then act clear_resets st4 else st4)
        else act (power_pin false) st2 in
      if same_mode st.mode mode then st else record st5 { mode = mode }

  abbrev pub throttle_inrush : Bool → Driver → Driver
  throttle_inrush on st = if w.has_inrush then act (inrush on) st else st

  -- A change that is long ago is brought nearer, so that the clock does not wrap past it.
  pub micros_since : ℕ → PowerMode → Driver → Driver × ℕ
  micros_since now mode st =
      let diff = elapsed now (st.last_change mode) in
      (if ltb (2 ^ 28) diff then set_change mode (elapsed now 30000000) st else st, diff)

  -- The state ALERT.
  pub check_alert : Readings → Driver → Driver
  check_alert i st =
      let now = i.micros in
      let st1 : Driver = record st {
        last_bad_sample = if same_mode st.mode st.last_mode then st.last_bad_sample else now;
        last_mode = power_alert;
      } in
      let (st2, since) = micros_since now power_alert st1 in
      let bad : Driver = record st2 { last_bad_sample = now } in
      let slowed = throttle_inrush true bad in
      let good = elapsed now st2.last_bad_sample in
      if i.fault
      then if ltb since (if i.over then 5000 else 100000)
        then slowed
        else set_power i power_overload (throttle_inrush false slowed)
      else if i.over
      then if ltb since 100000 then bad else set_power i power_overload (throttle_inrush false bad)
      else if ltb 20000 good
      then set_power i power_on (throttle_inrush false st2)
      else if ltb 10000 good
      then throttle_inrush false st2
      else st2

  -- The state ON.
  pub check_on : Readings → Driver → Driver
  check_on i st =
      let st1 : Driver = record st { last_mode = power_on } in
      let alert = set_power i power_alert st1 in
      let (st2, since) = micros_since i.micros power_on st1 in
      if i.fault || i.over
      then (if w.auto_inverts then act invert alert else alert)
      else if ltb 5000000 since
      then record st2 { overload_wait = 40000 }
      else st2

  -- The state OVERLOAD.
  pub check_overload : Readings → Driver → Driver
  check_overload i st =
      let st1 : Driver = record st { last_mode = power_overload } in
      let (st2, since) =
        if w.common_fault_pin
        then (st1, elapsed i.micros st1.global_overload_start)
        else micros_since i.micros power_overload st1 in
      let longer =
        if ltb 10000000 (st2.overload_wait * 2) then 10000000 else st2.overload_wait * 2 in
      if ltb st2.overload_wait since
      then set_power i power_alert (act power_event (record st2 { overload_wait = longer }))
      else st2

  pub check_in : PowerMode → Readings → Driver → Driver
  check_in power_off i st = record st { last_mode = power_off; overload_wait = 40000 }
  check_in power_on i st = check_on i st
  check_in power_alert i st = check_alert i st
  check_in power_overload i st = check_overload i st

  pub check_power_overload : Readings → Driver → Driver
  check_power_overload i st = check_in st.mode i st

  -- Calls one after the other.
  pub checks : List Readings → Driver → Driver
  checks [] st = st
  checks (i ∷ is) st = checks is (check_power_overload i st)
