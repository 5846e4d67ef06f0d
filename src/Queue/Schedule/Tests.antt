-- ===== src/Queue/Schedule/Tests.antt =====
-- The queues from empty on, with packets for the locos 3 and 7 and for a turnout.
use command_station_ex.Base.{
  ℕ, ◌≡◌, ◌≢◌, ◌%◌, refl, true, false, none, List, [], ◌∷◌, ◌++◌, arith, ◌==◌, ◌⊎◌, not,
}
use command_station_ex.Chain.Loops.{find_slot, find_previous}
use command_station_ex.Queue.{
  Slot, Queues, normal_packet, speed_packet, acc_on_packet, is_type, type_number, get_slot,
  add_high, jump_high, recycle_slot, remove_high, add_queue, jump_queue, recycle, remove,
}
use command_station_ex.Queue.Spec.{Entry, change_or_add, keep, next_turn}
use command_station_ex.Queue.Schedule.{
  schedule_dcc_speed_packet, schedule_acc_on_off_packet, schedule_estop_packet, schedule_next,
  schedule_next_internal, dispatch, retire, send, is_skipped, replace_packet, discard_stopped,
  is_stopped,
}
use command_station_ex.Queue.Schedule.Refine.{Shows, fresh}
use command_station_ex.Queue.Schedule.Replace.{replaced}
use command_station_ex.Queue.Schedule.Put.{schedule_dcc_speed_packet-Shows}
use command_station_ex.Queue.Schedule.Accessory.{schedule_acc_on_off_packet-Shows}
use command_station_ex.Queue.Schedule.Estop.{stops, schedule_estop_packet-Shows}
use command_station_ex.Queue.Schedule.Dispatch.{Turned}
use command_station_ex.Queue.Schedule.Next.{is_some, schedule_next-Turned}
use command_station_ex.Queue.Schedule.Urgent.{
  schedule_next-schedule_estop_packet, schedule_dcc_speed_packet_again,
}
use command_station_ex.Queue.Schedule.Apart.{Sends, schedule_next_apart}

abbrev blank : Slot
blank = record {
  type = normal_packet;
  packet_length = 0;
  packet_repeat = 0;
  packet = 0 ∷ 0 ∷ 0 ∷ 0 ∷ 0 ∷ [];
  shared = 0;
}

abbrev empty : Queues
empty = record {
  next = λ a. none;
  slot = λ a. blank;
  high = record { head = none; tail = none };
  low = record { head = none; tail = none };
  recycle_list = none;
  created = 0;
  last_sent = 0;
  sent = [];
}

empty-Shows : Shows empty [] []
empty-Shows = record {
  hs = [];
  ls = [];
  rs = [];
  rep = record {
    high = record { chain = refl; ends = refl };
    low = record { chain = refl; ends = refl };
    recycled = refl;
    once = λ a. ground arith;
    total = refl;
  };
  high_entries = refl;
  low_entries = refl;
}

abbrev fast : List ℕ
fast = 3 ∷ 0x3F ∷ 0x94 ∷ []

abbrev slow : List ℕ
slow = 3 ∷ 0x3F ∷ 0x82 ∷ []

abbrev stop : List ℕ
stop = 3 ∷ 0x3F ∷ 1 ∷ []

abbrev moving : Queues
moving = schedule_dcc_speed_packet empty fast 3 0 3

abbrev goes_fast : Entry
goes_fast = record { type = speed_packet; bytes = fast; repeats = 0; shared = 3 }

moving-Shows : Shows moving (goes_fast ∷ []) []
unfolding change_or_add fresh
moving-Shows =
    schedule_dcc_speed_packet-Shows empty [] [] fast 3 0 3 empty-Shows (refl, omega arith)

-- Loco 3 runs, its slower speed replaces the faster, and a stop goes out before both.
runs :
    ((schedule_next moving false 0).0.sent ≡ record { bytes = fast; repeats = 0 } ∷ [])
    × ((schedule_next (schedule_dcc_speed_packet moving slow 3 0 3) false 0).0.sent
        ≡ record { bytes = slow; repeats = 0 } ∷ [])
    × ((schedule_next (schedule_estop_packet moving stop 3 2 3) false 0).0.sent
        ≡ record { bytes = stop; repeats = 2 } ∷ [])
unfolding schedule_next schedule_next_internal dispatch retire send is_skipped
    schedule_dcc_speed_packet replace_packet schedule_estop_packet discard_stopped is_stopped
    find_slot find_previous get_slot add_high jump_high recycle_slot remove_high add_queue
    jump_queue recycle remove is_type type_number
runs = (refl, refl, refl)

moving_goes : (schedule_next moving true 5).1 ≡ true
unfolding schedule_next schedule_next_internal dispatch retire send is_skipped
    schedule_dcc_speed_packet replace_packet schedule_estop_packet discard_stopped is_stopped
    find_slot find_previous get_slot add_high jump_high recycle_slot remove_high add_queue
    jump_queue recycle remove is_type type_number
moving_goes = refl

moving_goes_on : (schedule_next (schedule_next moving true 5).0 true 6).1 ≡ true
unfolding schedule_next schedule_next_internal dispatch retire send is_skipped
    schedule_dcc_speed_packet replace_packet schedule_estop_packet discard_stopped is_stopped
    find_slot find_previous get_slot add_high jump_high recycle_slot remove_high add_queue
    jump_queue recycle remove is_type type_number
moving_goes_on = refl

schedule_dcc_speed_packet-Shows_example :
    Shows
      (schedule_dcc_speed_packet moving slow 3 1 3)
      (change_or_add
        (λ e. e.shared % 65536 == 3)
        (replaced slow 1)
        (fresh speed_packet slow 1 3)
        (goes_fast ∷ []))
      []
schedule_dcc_speed_packet-Shows_example =
    schedule_dcc_speed_packet-Shows moving (goes_fast ∷ []) [] slow 3 1 3 moving-Shows
      (refl, omega arith)

schedule_acc_on_off_packet-Shows_example :
    Shows
      (schedule_acc_on_off_packet moving (0x81 ∷ 0xF8 ∷ []) 2 3 100)
      (goes_fast ∷ [])
      ([] ++ fresh acc_on_packet (0x81 ∷ 0xF8 ∷ []) 3 100 ∷ [])
schedule_acc_on_off_packet-Shows_example =
    schedule_acc_on_off_packet-Shows moving (goes_fast ∷ []) [] (0x81 ∷ 0xF8 ∷ []) 2 3 100
      moving-Shows (refl, omega arith)

schedule_estop_packet-Shows_example :
    Shows
      (schedule_estop_packet moving stop 3 2 3)
      (fresh speed_packet stop 2 0 ∷ keep (λ e. not (stops 3 e)) (goes_fast ∷ []))
      []
schedule_estop_packet-Shows_example =
    schedule_estop_packet-Shows moving (goes_fast ∷ []) [] stop 3 2 3 moving-Shows
      (refl, omega arith)

schedule_next-Turned_example :
    Turned
      (schedule_next moving true 5).0
      (next_turn 5 moving.last_sent true (goes_fast ∷ []) [])
      moving.sent
    × ((schedule_next moving true 5).1
        ≡ is_some (next_turn 5 moving.last_sent true (goes_fast ∷ []) []).sent)
schedule_next-Turned_example = schedule_next-Turned moving (goes_fast ∷ []) [] true 5 moving-Shows

schedule_next-schedule_estop_packet_example :
    ((schedule_next (schedule_estop_packet moving stop 3 2 3) false 5).1 ≡ true)
    × ((schedule_next (schedule_estop_packet moving stop 3 2 3) false 5).0.sent
        ≡ record { bytes = stop; repeats = 2 } ∷ (schedule_estop_packet moving stop 3 2 3).sent)
schedule_next-schedule_estop_packet_example =
    schedule_next-schedule_estop_packet moving (goes_fast ∷ []) [] stop 3 2 3 5 false moving-Shows
      (refl, omega arith)

schedule_next_apart_example :
    let st1 = (schedule_next moving true 5).0 in
    let st2 = (schedule_next st1 true 6).0 in
    (loco loco' : ℕ) × (highs' lows' : List Entry) × Sends
      (goes_fast ∷ [])
      moving.sent
      st1.sent
      loco
    × Shows st1 highs' lows'
    × Sends (highs' ++ lows') st1.sent st2.sent loco'
    × ((loco' ≡ 0) ⊎ (loco' ≢ loco))
schedule_next_apart_example =
    schedule_next_apart moving (goes_fast ∷ []) [] true true 5 6 moving-Shows moving_goes
      moving_goes_on

schedule_dcc_speed_packet_again_example :
    Shows
      (schedule_dcc_speed_packet (schedule_dcc_speed_packet moving slow 3 1 3) fast 3 0 3)
      (change_or_add
        (λ e. e.shared % 65536 == 3)
        (replaced fast 0)
        (fresh speed_packet fast 0 3)
        (goes_fast ∷ []))
      []
schedule_dcc_speed_packet_again_example =
    schedule_dcc_speed_packet_again moving (goes_fast ∷ []) [] slow fast 3 3 1 0 3 moving-Shows
      (refl, omega arith) (refl, omega arith) (omega arith)
