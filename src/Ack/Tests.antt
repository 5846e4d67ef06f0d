-- ===== src/Ack/Tests.antt =====
-- A decoder whose CVs all hold 0xE0, and a track whose current rises for an acknowledgement.
use command_station_ex.Base.{
  ℕ, ◌+◌, ◌-◌, ◌*◌, ◌/◌, ◌%◌, ◌≡◌, ◌≤◌, ◌<◌, refl, ap, sym, ◌∙◌, Bool, true, false, not, none, some,
  List, [], ◌∷◌, arith, bit_or, bit_and, high_byte, leb, ◌==◌, if◌then◌else◌, passes_below,
  passes_at,
}
use command_station_ex.Base.Int.{pos}
use command_station_ex.Dcc.{cv1}
use command_station_ex.Ack.{
  Ack, Pulse, Inputs, power_off, power_on, ready, after_write, loop, bit_message, byte_message,
}
use command_station_ex.Ack.Programs.{read_cv_prog, read_cv, verify_cv_byte, get_loco_id}
use command_station_ex.Ack.Decoder.{core, eval}
use command_station_ex.Ack.Simulation.{is_running}
use command_station_ex.Ack.Session.{Ending, program-Ending}
use command_station_ex.Ack.Reading.{Answers, bit_of, tail_of, eval-read_cv_prog}
use command_station_ex.Ack.Address.{reported_address}
use command_station_ex.Ack.Delivery.{calls_back, Done, calls_back-Done}
use command_station_ex.Ack.Pulses.{
  Sample, Low, High, over, more, gap, silent, still, check_acks, check_acks-verdict,
}
use command_station_ex.Ack.Leaving.{Leaves, loop-Leaves}
use command_station_ex.Ack.Retries.{GivesUp, mute-GivesUp}
use command_station_ex.Ack.Reports.{
  Times, Reports, read_cv-Reports, verify_cv_byte-Reports, get_loco_id-Reports,
}

abbrev held : ℕ → ℕ
held cv = 0xE0

abbrev told : ℕ → Bool
told d = if d / 8 % 2 == 0 then bit_of 0xE0 (d % 8) == 0 else bit_of 0xE0 (d % 8) == 1

abbrev answer : List ℕ → Bool
answer (b ∷ _ ∷ d ∷ []) = if leb 0x78 b then told d else d == 0xE0
answer _ = false

same_as_test : (a b : Bool) → (if a then b else not b) ≡ true → a ≡ b
same_as_test true true e = refl
same_as_test true false e = sym e
same_as_test false true e = e
same_as_test false false e = refl

manipulates : (cv : ℕ) → cv ≤ 1024 → leb 0x78 (cv1 0x78 cv) ≡ true
unfolding cv1 passes_below
manipulates cv to =
    passes_at (λ x. leb 0x78 (bit_or (bit_and x 3) 0x78)) 4 (high_byte (cv - 1)) (omega (arith, to))
      refl

verifies : (cv : ℕ) → cv ≤ 1024 → leb 0x78 (cv1 0x74 cv) ≡ false
unfolding cv1 passes_below
verifies cv to =
    let test =
      passes_at (λ x. not (leb 0x78 (bit_or (bit_and x 3) 0x74))) 4 (high_byte (cv - 1))
        (omega (arith, to)) refl in
    ground (arith, test)

held-Answers : Answers answer held
unfolding passes_below bit_message byte_message
held-Answers = record {
  zero_bit = λ cv n from to small.
      ap
        (λ (b : Bool).
          if b then told (bit_or (bit_or 0xE0 0) n) else bit_or (bit_or 0xE0 0) n == 0xE0)
        (manipulates cv to)
      ∙ same_as_test (told (bit_or (bit_or 0xE0 0) n)) (bit_of 0xE0 n == 0) (
          passes_at
            (λ x.
              if told (bit_or (bit_or 0xE0 0) x)
              then bit_of 0xE0 x == 0
              else not (bit_of 0xE0 x == 0))
            8 n small refl);
  one_bit = λ cv n from to small.
      ap
        (λ (b : Bool).
          if b then told (bit_or (bit_or 0xE0 0x08) n) else bit_or (bit_or 0xE0 0x08) n == 0xE0)
        (manipulates cv to)
      ∙ same_as_test (told (bit_or (bit_or 0xE0 0x08) n)) (bit_of 0xE0 n == 1) (
          passes_at
            (λ x.
              if told (bit_or (bit_or 0xE0 0x08) x)
              then bit_of 0xE0 x == 1
              else not (bit_of 0xE0 x == 1))
            8 n small refl);
  whole = λ cv b from to small. ap (λ (x : Bool). if x then told b else b == 0xE0) (verifies cv to);
  small = λ cv. omega arith;
}

abbrev pulse : Pulse
pulse = record {
  pending = false;
  detected = false;
  threshold = 100;
  max_current = 0;
  check_start = 0;
  check_duration = 0;
  pulse_start = 0;
  pulse_duration = 0;
  samples = 0;
  gaps = 0;
  trailing_edge = 0;
  clears = 0;
}

abbrev idle : Ack
idle = record {
  prog = none;
  prog_start = [];
  byte = 0;
  byte_verify = 0;
  stash = 0;
  word = 0;
  retry = 0;
  ack_retry = 2;
  cv = 0;
  bit_num = 0;
  received = false;
  rejoin = false;
  auto_power_off = false;
  callback_state = ready;
  callback_start = 0;
  power = power_off;
  pulse = pulse;
  out = [];
}

abbrev inputs : Inputs
inputs = record { resets = 20; now = 7; current = 40; limit = 60 }

abbrev times : Times 1000 1100 1130
times = record { powered = omega arith; cut = omega arith; unwrapped = omega arith }

abbrev reading : Ack
reading = record idle {
  prog = some read_cv_prog;
  prog_start = read_cv_prog;
  cv = 8;
  power = power_on;
}

read_cv-Reports_example :
    Reports answer inputs []
      (read_cv true (some true) 8 idle)
      (pos 0xE0)
      (1000 ∷ 1100 ∷ 1130 ∷ 1131 ∷ [])
read_cv-Reports_example =
    read_cv-Reports answer inputs 1000 1100 1130 1131 times held held-Answers true idle refl refl
      (omega arith) 8 (omega arith) (omega arith)

verify_cv_byte-Reports_example :
    Reports answer inputs []
      (verify_cv_byte true (some true) 8 9 idle)
      (pos 0xE0)
      (1000 ∷ 1100 ∷ 1130 ∷ 1131 ∷ [])
verify_cv_byte-Reports_example =
    verify_cv_byte-Reports answer inputs 1000 1100 1130 1131 times held held-Answers true idle refl
      refl (omega arith) 8 9 (omega arith) (omega arith) (omega arith)

get_loco_id-Reports_example :
    Reports answer inputs []
      (get_loco_id false (some true) idle)
      (pos (16384 + 32 * 256 + 0xE0))
      (1000 ∷ 1100 ∷ 1130 ∷ 1131 ∷ [])
unfolding reported_address
get_loco_id-Reports_example =
    get_loco_id-Reports answer inputs 1000 1100 1130 1131 times held held-Answers false idle refl
      refl (omega arith) (λ e. cc) (λ e. omega arith)

program-Ending_example :
    (end : Ending answer inputs reading (pos 0xE0)) × (is_running end.last.callback_state ≡ true)
unfolding eval
program-Ending_example =
    program-Ending answer inputs 40 (tail_of read_cv_prog) reading (pos 0xE0) refl
      (record { resets = omega arith; working = refl }) refl
      (eval-read_cv_prog answer held held-Answers (core reading) (omega arith) (omega arith))

calls_back-Done_example :
    Done
      (record reading { callback_state = after_write })
      (calls_back
        (pos 1)
        (1000 ∷ 1100 ∷ 1130 ∷ 1131 ∷ [])
        (record reading { callback_state = after_write }))
      (pos 1)
calls_back-Done_example =
    calls_back-Done (pos 1) 1000 1100 1130 1131 (record reading { callback_state = after_write })
      read_cv_prog (omega arith) (refl, refl) refl (omega arith) (omega arith) (omega arith)

loop-Leaves_example : Leaves inputs reading (loop 41 inputs reading)
loop-Leaves_example = loop-Leaves inputs 41 read_cv_prog reading refl (omega arith)

mute-GivesUp_example :
    GivesUp inputs 2 [] (read_cv true (some true) 8 idle) (1000 ∷ 1100 ∷ 1130 ∷ 1131 ∷ [])
    × GivesUp inputs 2 []
        (verify_cv_byte true (some true) 8 9 idle)
        (1000 ∷ 1100 ∷ 1130 ∷ 1131 ∷ [])
    × GivesUp inputs 2 [] (get_loco_id true (some true) idle) (1000 ∷ 1100 ∷ 1130 ∷ 1131 ∷ [])
mute-GivesUp_example =
    mute-GivesUp inputs 1000 1100 1130 1131 times true idle refl refl (omega arith) 8 9

-- Samples every 100 microseconds; the pulse is 6 ms long.
abbrev sample : ℕ → ℕ → Sample
sample current micros = record { resets = 1; current = current; now = 5; micros = micros }

check_acks-verdict_example :
    let after =
      check_acks 2000 20000
        (sample 90 900
          ∷ sample 150 1000
          ∷ sample 160 1100
          ∷ sample 80 1200
          ∷ sample 150 1300
          ∷ sample 20 7000
          ∷ sample 20 7100
          ∷ sample 20 7200
          ∷ [])
        (record pulse { pending = true }) in
    (after.pending ≡ false)
    × (after.detected ≡ true)
    × (after.trailing_edge ≡ 0)
    × (after.pulse_start ≡ 1000)
check_acks-verdict_example =
    let low : (c t : ℕ) → c ≤ 100 → Low 2000 20000 100 (sample c t) =
      λ c t h. record { early = omega arith; low = h } in
    let high : (c t : ℕ) → 100 < c → High 2000 20000 100 (sample c t) =
      λ c t h. record { early = omega arith; high = h } in
    check_acks-verdict 2000 20000 (sample 90 900 ∷ [])
      (sample 160 1100 ∷ sample 80 1200 ∷ sample 150 1300 ∷ []) (sample 150 1000) (sample 20 7000)
      (sample 20 7100) (sample 20 7200) (record pulse { pending = true }) refl refl
      (still (low 90 900 (omega arith)) silent) (high 150 1000 (omega arith)) (omega arith)
      (more (high 160 1100 (omega arith))
        (gap (low 80 1200 (omega arith)) (high 150 1300 (omega arith)) over))
      (low 20 7000 (omega arith)) (low 20 7100 (omega arith)) (low 20 7200 (omega arith))
