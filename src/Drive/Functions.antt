-- ===== src/Drive/Functions.antt =====
-- DCC.cpp: the functions of a loco and its speeds, as the commands set and read them.
use command_station_ex.Base.{
  ℕ, ◌+◌, ◌-◌, ◌/◌, ◌%◌, ◌^◌, Bool, true, false, not, ◌||◌, Option, none, some, List, [], ◌∷◌, ◌++◌,
  bit_or, bit_and, length, ltb, leb, ◌==◌, if◌then◌else◌,
}
use command_station_ex.Loco.{LocoSlot}
use command_station_ex.Queue.Schedule.{schedule_dcc_packet}
use command_station_ex.Dcc.{address_bytes}
use command_station_ex.Drive.{Station, slot_of, put_slot, tell, broadcast_loco, find, set_throttle}

-- `functions & (1UL << n)` is not 0.
abbrev pub has_function : ℕ → ℕ → Bool
has_function functions n = functions / 2 ^ n % 2 == 1

-- `functions | (1UL << n)`, and `functions & ~(1UL << n)`.
unfoldable pub with_function : ℕ → ℕ → Bool → ℕ
with_function functions n on =
    if on
    then (if has_function functions n then functions else functions + 2 ^ n)
    else if has_function functions n
    then functions - 2 ^ n
    else functions

unfoldable pub group_mask : ℕ → ℕ
group_mask n =
    if leb n 4
    then 0x01
    else if leb n 8
    then 0x02
    else if leb n 12
    then 0x04
    else if leb n 20
    then 0x08
    else 0x10

abbrev pub update_group_flags : LocoSlot → ℕ → LocoSlot
update_group_flags s n = record s { group_flags = bit_or s.group_flags (group_mask n) }

-- The packet for a function above 28.
unfoldable pub binary_state_packet : ℕ → ℕ → ℕ → Bool → List ℕ
binary_state_packet highest_short cab n on =
    address_bytes highest_short cab
    ++ (if leb n 127
        then 0xDD ∷ bit_or n (if on then 0x80 else 0) ∷ []
        else 0xC0 ∷ bit_or (bit_and n 0x7F) (if on then 0x80 else 0) ∷ n / 128 % 256 ∷ [])

module _ (highest_short max_locos : ℕ) (alloc : Bool) where
  -- The functions of a slot are set; without a change nothing is told.
  unfoldable pub set_functions : ℕ → ℕ → Bool → Station → Station
  set_functions p n on st =
      let s = slot_of st p in
      let newset = with_function s.functions n on in
      let s1 : LocoSlot = record s { functions = newset } in
      if newset == s.functions
      then st
      else tell (broadcast_loco p)
          (put_slot p (if leb n 28 then update_group_flags s1 n else s1) st)

  unfoldable pub set_fn : ℕ → ℕ → Bool → Station → Station × Bool
  set_fn cab n on st =
      if cab == 0
      then (st, false)
      else let b = binary_state_packet highest_short cab n on in
        let st1 : Station =
          if ltb 28 n
          then record st { queues = schedule_dcc_packet st.queues b (length b) 4 cab }
          else st in
        if ltb 31 n
        then (st1, true)
        else let (st2, o) = find highest_short max_locos alloc cab true st1 in
          elim o [ none ↦ (st2, false) | some p ↦ (set_functions p n on st2, true) ]

  -- `none` stands for -1.
  unfoldable pub get_fn : ℕ → ℕ → Station → Option Bool
  get_fn cab n st =
      if (cab == 0) || ltb 31 n
      then none
      else elim (find highest_short max_locos alloc cab false st).1 [
        | none ↦ none
        | some p ↦ some (has_function (slot_of st p).functions n)
      ]

  pub change_fn : ℕ → ℕ → Station → Station
  change_fn cab n st = elim (get_fn cab n st) [
    | none ↦ st
    | some current ↦ (set_fn cab n (not current) st).0
  ]

  pub get_function_map : ℕ → Station → ℕ
  get_function_map cab st =
      if cab == 0 then 0 else elim (find highest_short max_locos alloc cab false st).1 [
        | none ↦ 0
        | some p ↦ (slot_of st p).functions
      ]

  -- Functions 29, 30 and 31 keep the frequency.
  unfoldable pub set_dc_freq : ℕ → ℕ → Station → Station
  set_dc_freq cab freq st =
      if (cab == 0) || ltb 3 freq
      then st
      else let (st1, o) = find highest_short max_locos alloc cab true st in
        elim o [
          | none ↦ st1
          | some p ↦
              let s = slot_of st1 p in
              let newset = s.functions % 2 ^ 29 + (if freq == 0 then 0 else 2 ^ (28 + freq)) in
              if newset == s.functions
              then st1
              else tell (broadcast_loco p) (put_slot p (record s { functions = newset }) st1)
        ]

  pub get_throttle_frequency : ℕ → Station → ℕ
  get_throttle_frequency cab st = elim (find highest_short max_locos alloc cab false st).1 [
    | none ↦ 0
    | some p ↦ (slot_of st p).functions / 2 ^ 29 % 256
  ]

  unfoldable pub get_throttle_speed_byte : ℕ → Station → ℕ
  get_throttle_speed_byte cab st = elim (find highest_short max_locos alloc cab false st).1 [
    | none ↦ 128
    | some p ↦ (slot_of st p).target_speed
  ]

  pub get_throttle_speed : ℕ → Station → ℕ
  get_throttle_speed cab st = bit_and (get_throttle_speed_byte cab st) 0x7F

  pub get_throttle_direction : ℕ → Station → Bool
  get_throttle_direction cab st = not (bit_and (get_throttle_speed_byte cab st) 0x80 == 0)

  pub get_loco_speed_byte : ℕ → Station → ℕ
  get_loco_speed_byte cab st = elim (find highest_short max_locos alloc cab false st).1 [
    | none ↦ 128
    | some p ↦ (slot_of st p).speed_code
  ]

  unfoldable pub save_speed : ℕ → Station → Station
  save_speed cab st = elim (find highest_short max_locos alloc cab false st).1 [
    | none ↦ st
    | some p ↦
        let s = slot_of st p in put_slot p (record s { saved_speed_code = s.target_speed }) st
  ]

  unfoldable pub restore_speed : ℕ → ℕ → Station → Station
  restore_speed now cab st = elim (find highest_short max_locos alloc cab false st).1 [
    | none ↦ st
    | some p ↦
        let code = (slot_of st p).saved_speed_code in
        (set_throttle highest_short max_locos alloc now cab (bit_and code 0x7F)
          (not (bit_and code 0x80 == 0)) st).0
  ]
