-- ===== src/Dcc/Tests.antt =====
-- Packets for loco 3 and loco 10000, from empty queues on.
use command_station_ex.Base.{
  ℕ, ◌+◌, ◌/◌, ◌%◌, ◌≡◌, ◌==◌, List, refl, true, false, none, some, [], ◌∷◌, ◌++◌, arith,
}
use command_station_ex.Loco.{new_loco}
use command_station_ex.Queue.{Queues, Slot, normal_packet, speed_packet}
use command_station_ex.Queue.Spec.{change_or_add}
use command_station_ex.Queue.Schedule.{schedule_next}
use command_station_ex.Queue.Schedule.Replace.{replaced}
use command_station_ex.Queue.Schedule.Refine.{Shows, fresh}
use command_station_ex.Dcc.{
  address_bytes, code28, speed28, speed_bytes, set_throttle_dcc, cv1, cv2, cv_byte_packet,
  write_cv_byte_main,
}
use command_station_ex.Dcc.{time_packet, set_time}
use command_station_ex.Dcc.Clock.{read_time, set_time-Shows}
use command_station_ex.Dcc.Cv.{read_cv, write_cv_byte_main-Shows}
use command_station_ex.Dcc.Speed.{read_step, scaled, speed_bytes-read_step}
use command_station_ex.Dcc.Packet.{read_throttle}
use command_station_ex.Dcc.Throttle.{set_throttle_dcc-Shows, schedule_next-set_throttle_dcc}

abbrev blank : Slot
blank = record {
  type = normal_packet;
  packet_length = 0;
  packet_repeat = 0;
  packet = 0 ∷ 0 ∷ 0 ∷ 0 ∷ 0 ∷ [];
  shared = 0;
}

abbrev idle : Queues
idle = record {
  next = λ a. none;
  slot = λ a. blank;
  high = record { head = none; tail = none };
  low = record { head = none; tail = none };
  recycle_list = none;
  created = 0;
  last_sent = 0;
  sent = [];
}

idle-Shows : Shows idle [] []
idle-Shows = record {
  hs = [];
  ls = [];
  rs = [];
  rep = record {
    high = record { chain = refl; ends = refl };
    low = record { chain = refl; ends = refl };
    recycled = refl;
    once = λ a. ground arith;
    total = refl;
  };
  high_entries = refl;
  low_entries = refl;
}

runs :
    (address_bytes 127 10000 ≡ 231 ∷ 16 ∷ [])
    × (speed_bytes 28 0xFF ≡ 0x7F ∷ [])
    × (cv_byte_packet 127 3 29 6 ≡ 3 ∷ 0xEC ∷ 28 ∷ 6 ∷ [])
unfolding address_bytes speed_bytes code28 speed28 cv_byte_packet cv1 cv2
runs = (refl, refl, refl)

write_cv_byte_main-Shows_example :
    Shows
      (write_cv_byte_main 127 idle 10000 1024 6)
      []
      ([] ++ fresh normal_packet (cv_byte_packet 127 10000 1024 6) 4 10000 ∷ [])
    × (read_cv (cv_byte_packet 127 10000 1024 6)
        ≡ some (record { loco = 10000; action = 0xEC; cv = 1024; data_byte = 6 }))
write_cv_byte_main-Shows_example =
    write_cv_byte_main-Shows idle [] [] 127 10000 1024 6 idle-Shows (omega arith) (omega arith)
      (omega arith) (omega arith)

speed_bytes-read_step_example :
    (b : ℕ) × (speed_bytes 28 200 ≡ b ∷ [])
    × (b / 32 ≡ 2 + 200 / 128)
    × (read_step b ≡ scaled (200 % 128))
speed_bytes-read_step_example = speed_bytes-read_step 28 200 (omega arith) (omega arith)

set_throttle_dcc-Shows_example :
    (b : List ℕ) × (read_throttle b ≡ some (3, 1, 29))
    × Shows
        (set_throttle_dcc 127 28 false idle (some (new_loco 3)) 255)
        (change_or_add (λ e. e.shared % 65536 == 3) (replaced b 0) (fresh speed_packet b 0 3) [])
        []
unfolding scaled
set_throttle_dcc-Shows_example =
    set_throttle_dcc-Shows idle [] [] 127 28 false (some (new_loco 3)) 255 idle-Shows (omega arith)
      (omega arith) (omega arith)

schedule_next-set_throttle_dcc_example :
    let st' = set_throttle_dcc 127 128 true idle (some (new_loco 300)) 200 in
    (b : List ℕ) × (read_throttle b ≡ some (300, 1, 1))
    × ((schedule_next st' false 7).1 ≡ true)
    × ((schedule_next st' false 7).0.sent ≡ record { bytes = b; repeats = 4 } ∷ st'.sent)
schedule_next-set_throttle_dcc_example =
    schedule_next-set_throttle_dcc idle [] [] 127 128 (some (new_loco 300)) 200 7 false idle-Shows
      (omega arith) (omega arith) (omega arith)

set_time-Shows_example :
    ((set_time idle 1439 63 true).1 ≡ true)
    × Shows
        (set_time idle 1439 63 true).0
        []
        ([] ++ fresh normal_packet (time_packet 1439 63 true) 2 0 ∷ [])
    × (read_time (time_packet 1439 63 true)
        ≡ some (record { minutes = 1439; speed = 63; sudden = 1 }))
set_time-Shows_example =
    set_time-Shows idle [] [] 1439 63 true idle-Shows (omega arith) (omega arith)
