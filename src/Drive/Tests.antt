-- ===== src/Drive/Tests.antt =====
-- A station with no loco, and one with the locos 3 and 4.
use command_station_ex.Base.{
  ℕ, inr, ◌≡◌, refl, true, false, none, some, List, [], ◌∷◌, ◌++◌, arith, ltb, ◌==◌, if◌then◌else◌,
}
use command_station_ex.Chain.{count}
use command_station_ex.Chain.Loops.{find_slot}
use command_station_ex.Loco.{Locos, new_loco, get_slot, find_loco}
use command_station_ex.Loco.Table.{Table}
use command_station_ex.Queue.{Queues, Slot, normal_packet}
use command_station_ex.Drive.{Station, slot_of, estop_all, throttle_dcc}
use command_station_ex.Drive.Functions.{set_fn, get_fn}
use command_station_ex.Drive.Accessory.{
  accessory_packet, read_accessory, read_accessory-accessory_packet, extended_packet, read_extended,
  read_extended-extended_packet,
}
use command_station_ex.Drive.Walk.{Pass}
use command_station_ex.Drive.Pass.{reminders, reminders-Pass}
use command_station_ex.Base.Int.{pos, negsuc}
use command_station_ex.Drive.Sound.{Sound}
use command_station_ex.Drive.Commands.{
  throttle, function, momentum, forget_one, obey_all, obey_all-Sound,
}
use command_station_ex.Drive.Switched.{set_fn-get_fn}
use command_station_ex.Drive.Stop.{stopped, estop_all-stopped}

abbrev blank : Slot
blank = record {
  type = normal_packet;
  packet_length = 0;
  packet_repeat = 0;
  packet = 0 ∷ 0 ∷ 0 ∷ 0 ∷ 0 ∷ [];
  shared = 0;
}

abbrev no_packets : Queues
no_packets = record {
  next = λ a. none;
  slot = λ a. blank;
  high = record { head = none; tail = none };
  low = record { head = none; tail = none };
  recycle_list = none;
  created = 0;
  last_sent = 0;
  sent = [];
}

abbrev no_locos : Locos
no_locos = record {
  next = λ a. none;
  slot = λ a. new_loco 0;
  first_slot = none;
  recycler = none;
  slot_count = 0;
  chain_modified = false;
  created = 0;
}

abbrev two_locos : Locos
two_locos = record {
  next = λ a. if a == 1 then some 0 else none;
  slot = λ a. if a == 0 then new_loco 3 else new_loco 4;
  first_slot = some 1;
  recycler = none;
  slot_count = 2;
  chain_modified = false;
  created = 2;
}

no_locos-Table : Table no_locos [] 0
no_locos-Table = record {
  xs = [];
  rs = [];
  chain = refl;
  recycled = refl;
  once = λ a. ground arith;
  spares = refl;
  total = refl;
  room = omega arith;
  shows = refl;
  apart = λ loco. omega arith;
  no_zero = refl;
}

abbrev station : Locos → Station
station locos = record {
  locos = locos;
  queues = no_packets;
  global_speedsteps = 128;
  estop_is_locked = false;
  default_momentum_a = 0;
  default_momentum_d = 0;
  linear_acceleration = false;
  next_loco_reminder = some 1;
  loop_status = 0;
  out = [];
}

read_accessory-accessory_packet_example :
    read_accessory (accessory_packet 300 2 1 0)
    ≡ some (record { address = 300; port = 2; gate = 1; on = 0 })
read_accessory-accessory_packet_example =
    read_accessory-accessory_packet 300 2 1 0 (omega arith) (omega arith) (omega arith)

read_extended-extended_packet_example : read_extended (extended_packet 1500 17) ≡ some (1500, 17)
read_extended-extended_packet_example =
    read_extended-extended_packet 1500 17 (omega arith) (omega arith)

reminders-Pass_example :
    let st : Station = record (station two_locos) { next_loco_reminder = none; loop_status = 9 } in
    (early : List ℕ) × (late : List ℕ) × (10 ∷ 20 ∷ 30 ∷ [] ≡ early ++ late)
    × Pass 127 (1 ∷ 0 ∷ []) (station two_locos) (reminders 127 early st)
    × ((reminders 127 early st).next_loco_reminder ≡ none)
reminders-Pass_example =
    reminders-Pass 127 (10 ∷ 20 ∷ 30 ∷ []) 1 (0 ∷ [])
      (record (station two_locos) { next_loco_reminder = none; loop_status = 9 }) (inr refl)
      (refl, (refl, refl)) (omega arith) (omega arith)

set_fn-get_fn_example :
    get_fn 127 50 true 3 5 (set_fn 127 50 true 3 5 true (station no_locos)).0 ≡ some true
unfolding set_fn get_slot find_loco find_slot
set_fn-get_fn_example =
    set_fn-get_fn 127 50 true 3 refl 5 5 0 true (station no_locos) [] no_locos-Table (omega arith)
      (omega arith) refl

estop_all-stopped_example :
    ((a : ℕ)
      → slot_of (estop_all 127 (station two_locos)) a ≡ (
          if ltb 0 (count a (1 ∷ 0 ∷ []))
          then stopped (slot_of (station two_locos) a)
          else slot_of (station two_locos) a))
    × ((estop_all 127 (station two_locos)).queues
        ≡ (throttle_dcc 127 none 1 (station two_locos)).queues)
estop_all-stopped_example =
    estop_all-stopped 127 (1 ∷ 0 ∷ []) (station two_locos) (refl, (refl, refl)) (omega arith)
      (λ a. ground arith)

obey_all-Sound_example :
    Sound
      (obey_all 127 50 true
        (throttle 5 3 20 true
          ∷ function 3 5 true
          ∷ momentum 4 (pos 70) (negsuc 0)
          ∷ forget_one 3
          ∷ [])
        (station no_locos)).locos
unfolding Sound
obey_all-Sound_example =
    obey_all-Sound 127 50 true
      (throttle 5 3 20 true
        ∷ function 3 5 true
        ∷ momentum 4 (pos 70) (negsuc 0)
        ∷ forget_one 3
        ∷ [])
      (station no_locos) ([], 0, no_locos-Table)
