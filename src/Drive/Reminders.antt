-- ===== src/Drive/Reminders.antt =====
-- DCC.cpp: the reminders of speeds and functions, and the loop that sends packets.
use command_station_ex.Base.{
  ℕ, zero, suc, ◌+◌, ◌*◌, ◌/◌, ◌%◌, ◌^◌, Bool, true, false, ◌&&◌, ◌||◌, Option, none, some, bit_or,
  bit_and, ltb, leb, ◌==◌, if◌then◌else◌,
}
use command_station_ex.Loco.{LocoSlot}
use command_station_ex.Dcc.{set_function_internal}
use command_station_ex.Drive.{Station, slot_of, put_slot, signal, get_momentum, set_throttle2}
use command_station_ex.Drive.Consist.{is_consist_follower}
use command_station_ex.Drive.Momentum.{next_code, ticks_since}

-- The momentum of a loco on the way to its target.
unfoldable pub move_speed : ℕ → ℕ → Station → Station × ℕ
move_speed now p st =
    let s = slot_of st p in
    let ticks = ticks_since now s.momentum_base (get_momentum st s) in
    let code = next_code s.speed_code s.target_speed ticks in
    let s1 : LocoSlot = record s { speed_code = code } in
    let st2 = signal s.loco code (put_slot p s1 st) in
    if (s.target_speed == s.speed_code) || (ticks == 0)
    then (st, s.speed_code)
    else (put_slot p (record (slot_of st2 p) { momentum_base = now }) st2, code)

module _ (highest_short : ℕ) where
  unfoldable pub remind_speed : ℕ → ℕ → Station → Station × Bool
  remind_speed now p st =
      let (st1, code) = move_speed now p st in
      if is_consist_follower (slot_of st p)
      then (st, false)
      else (set_throttle2 highest_short p code st1, true)

  -- A group that was touched is reminded.
  unfoldable pub remind_group : ℕ → ℕ → ℕ → ℕ → ℕ → Station → Station × Bool
  remind_group mask group byte1 byte2 p st =
      let s = slot_of st p in
      if bit_and s.group_flags mask == 0 then (st, false) else (
        record st {
          queues = set_function_internal highest_short st.queues s.loco group byte1 byte2;
        },
        true,
      )

  unfoldable pub remind_at : ℕ → ℕ → ℕ → Station → Station × Bool
  remind_at status now p st =
      let f = (slot_of st p).functions in
      if status % 2 == 0 && leb status 8
      then remind_speed now p st
      else if status == 1
      then remind_group 0x01 1 0 (bit_or (bit_or 128 (f / 2 % 16)) (f % 2 * 16)) p st
      else if status == 3
      then remind_group 0x02 2 0 (bit_or 176 (f / 2 ^ 5 % 16)) p st
      else if status == 5
      then remind_group 0x04 3 0 (bit_or 160 (f / 2 ^ 9 % 16)) p st
      else if status == 7
      then remind_group 0x08 4 222 (f / 2 ^ 13 % 256) p st
      else if status == 9
      then remind_group 0x10 5 223 (f / 2 ^ 21 % 256) p st
      else (st, false)

  unfoldable pub issue_reminder : ℕ → ℕ → Station → Station × Bool
  issue_reminder now p st = remind_at st.loop_status now p st

  -- From a slot on, until a reminder is sent.
  unfoldable pub remind_from : ℕ → ℕ → Option ℕ → Station → Station
  remind_from zero now o st = record st { next_loco_reminder = none }
  remind_from (suc fuel) now none st = record st { next_loco_reminder = none }
  remind_from (suc fuel) now (some p) st =
      let (st1, sent) = issue_reminder now p st in
      elim sent [
        | true ↦ record st1 { next_loco_reminder = st1.locos.next p }
        | false ↦ remind_from fuel now (st1.locos.next p) st1
      ]

  abbrev pub next_status : ℕ → ℕ
  next_status status = if ltb 9 (status + 1) then 0 else status + 1

  -- The start from the first slot, when the chain has changed or its end was reached.
  unfoldable pub restart : Station → Station
  restart st =
      let l = st.locos in
      let st1 : Station = record st {
        locos = record l { chain_modified = false };
        next_loco_reminder = l.first_slot;
      } in
      elim l.first_slot [
        | none ↦ st1
        | some p ↦ record st1 { loop_status = next_status st.loop_status }
      ]

  unfoldable pub issue_reminders : ℕ → Station → Station
  issue_reminders now st =
      let at_end : Bool = elim st.next_loco_reminder [ none ↦ true | some p ↦ false ] in
      let st1 = if st.locos.chain_modified || at_end then restart st else st in
      elim st1.next_loco_reminder [
        | none ↦ st1
        | some p ↦ remind_from st1.locos.created now (some p) st1
      ]
