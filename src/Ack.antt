-- ===== src/Ack.antt =====
-- DCCACK.cpp and DCCACK.h: the interpreter of the programs for the programming track, and what it
-- does when a program ends. A program is the list of its operations, each with its operand; the
-- program pointer is the rest of the list. What the calls read from outside (resets sent, time, motor
-- current) is in `Inputs`; what they do there is in `out`, the newest first. LCD and DIAG are left out.
use command_station_ex.Base.{
  ℕ, zero, suc, ◌+◌, ◌-◌, ◌*◌, ◌/◌, ◌%◌, ◌^◌, ◌≡◌, Bool, true, false, not, ◌&&◌, ◌||◌, Option, none,
  some, List, [], ◌∷◌, ◌++◌, bit_or, bit_and, length, low_byte, high_byte, ltb, leb, ◌==◌,
  if◌then◌else◌,
}
use command_station_ex.Base.Int.{ℤ, pos, negsuc, int16}
use command_station_ex.Dcc.{cv1, cv2}
pub mod Programs
pub mod Check
pub mod Pulses
pub mod Delivery
pub mod Decoder
pub mod Simulation
pub mod Session
pub mod Reading
pub mod Address
pub mod Leaving
pub mod Starting
pub mod Reports
pub mod Retries
mod Tests

pub data AckOp : Type 0 where
  baseline w0 w1 wb vb v0 v1 wack itc1 itc0 itcb itcbv itcb7 nak_fail call_fail biv : AckOp
  start_merge merge set_byte_h set_byte_l stash_loco_id combine_loco_id it_skip nak_skip : AckOp
  combine1920 bad20_skip fail_if_nonzero_nak skip_target : AckOp
  set_bit set_cv set_byte : ℕ → AckOp

pub data CallbackState : Type 0 where
  after_read after_write waiting_100 waiting_30 ready : CallbackState

pub data PowerMode : Type 0 where
  power_off power_on power_overload power_alert : PowerMode

pub data Event : Type 0 where
  -- A packet for the programming track, with its repeats.
  sent : List ℕ → ℕ → Event
  power_set : PowerMode → Event
  join_set : Bool → Event
  resets_cleared : Event
  -- A call of the function that was handed to `setup`.
  called : ℤ → Event

pub record Inputs : Type 0 where
  pub resets : ℕ
  pub now : ℕ
  pub current : ℕ
  pub limit : ℕ

pub record Pulse : Type 0 where
  pub pending : Bool
  pub detected : Bool
  pub threshold : ℕ
  pub max_current : ℕ
  pub check_start : ℕ
  pub check_duration : ℕ
  pub pulse_start : ℕ
  pub pulse_duration : ℕ
  pub samples : ℕ
  pub gaps : ℕ
  pub trailing_edge : ℕ
  -- How often the repeats that wait on the programming track were cleared.
  pub clears : ℕ

pub record Ack : Type 0 where
  pub prog : Option (List AckOp)
  pub prog_start : List AckOp
  pub byte : ℕ
  pub byte_verify : ℕ
  pub stash : ℕ
  pub word : ℕ
  pub retry : ℕ
  pub ack_retry : ℕ
  pub cv : ℕ
  pub bit_num : ℕ
  pub received : Bool
  pub rejoin : Bool
  pub auto_power_off : Bool
  pub callback_state : CallbackState
  pub callback_start : ℕ
  pub power : PowerMode
  pub pulse : Pulse
  pub out : List Event

abbrev pub emit : Event → Ack → Ack
emit e st = record st { out = e ∷ st.out }

abbrev pub set_power : PowerMode → Ack → Ack
set_power p st = record st { power = p; out = power_set p ∷ st.out }

abbrev pub is_off : PowerMode → Bool
is_off power_off = true
is_off _ = false

abbrev pub is_overload : PowerMode → Bool
is_overload power_overload = true
is_overload _ = false

-- `Setup` of a CV; `driver` says whether there is a programming track, and whether it measures.
pub setup : Bool → Option Bool → ℕ → ℕ → List AckOp → Ack → Ack
setup joined driver cv value program st0 =
    let st1 : Ack = record st0 { rejoin = joined } in
    let st =
      if joined then record st1 { out = resets_cleared ∷ join_set false ∷ st1.out } else st1 in
    elim driver [
      | none ↦ emit (called (negsuc 2)) (if joined then emit (join_set false) st else st)
      | some false ↦ emit (called (negsuc 1)) (emit (join_set joined) st)
      | some true ↦
          let st2 =
            if is_off st.power
            then set_power power_on (record st { auto_power_off = true })
            else record st { auto_power_off = false } in
          record st2 {
            cv = cv;
            prog = some program;
            prog_start = program;
            retry = st2.ack_retry;
            byte = value;
            byte_verify = value;
            bit_num = value;
          }
    ]

-- `Setup` of a word.
pub setup_word : Bool → Option Bool → ℕ → List AckOp → Ack → Ack
setup_word joined driver word program st =
    setup joined driver 0 0 program (record st { word = word })

pub set_ack_baseline : Inputs → Ack → Ack
set_ack_baseline i st =
    let p = st.pulse in record st { pulse = record p { threshold = i.current + i.limit } }

-- The counter of the trailing edge is not reset.
pub set_ack_pending : Inputs → Ack → Ack
set_ack_pending i st =
    let p = st.pulse in
    record st {
      pulse = record p {
        max_current = 0;
        pulse_start = 0;
        pulse_duration = 0;
        detected = false;
        check_start = i.now;
        samples = 0;
        gaps = 0;
        pending = true;
      };
    }

-- The messages to a decoder.
pub bit_message : ℕ → ℕ → ℕ → ℕ → List ℕ
bit_message instruction bit cv n = cv1 0x78 cv ∷ cv2 cv ∷ bit_or (bit_or instruction bit) n ∷ []

pub byte_message : ℕ → ℕ → ℕ → List ℕ
byte_message instruction cv value = cv1 instruction cv ∷ cv2 cv ∷ value ∷ []

pub send_message : List ℕ → Inputs → Ack → Ack
send_message m i st = set_ack_pending i (emit (sent m 8) st)

-- `millis()-start`, on 32 bits.
abbrev pub elapsed : ℕ → ℕ → ℕ
elapsed now start = (now + 2 ^ 32 - start) % 2 ^ 32

-- The switch of `callback` on its state.
pub callback_in : CallbackState → ℕ → ℤ → Ack → Ack
callback_in after_read now value st =
    if st.rejoin && not st.auto_power_off
    then record (set_power power_off st) { callback_start = now; callback_state = waiting_30 }
    else record st { callback_state = ready }
callback_in after_write now value st =
    if not st.rejoin && not st.auto_power_off
    then record st { callback_state = ready }
    else record st { callback_start = now; callback_state = waiting_100 }
callback_in waiting_100 now value st =
    if ltb (elapsed now st.callback_start) 100
    then st
    else if st.auto_power_off
    then record st { callback_state = ready }
    else record (set_power power_off st) { callback_start = now; callback_state = waiting_30 }
callback_in waiting_30 now value st =
    if ltb (elapsed now st.callback_start) 30
    then st
    else record (set_power power_on st) { callback_state = ready }
-- The function takes an int16_t.
callback_in ready now value st =
    let st1 = if st.auto_power_off then set_power power_off st else st in
    let st2 = if st.rejoin then emit (join_set true) st1 else st1 in
    emit (called (int16 value)) (record st2 { prog = none })

abbrev pub is_failure : ℤ → Bool
is_failure (negsuc zero) = true
is_failure _ = false

pub callback : ℕ → ℤ → Ack → Ack
callback now value st =
    if is_failure value && ltb 0 st.retry
    then record st { retry = st.retry - 1; prog = some st.prog_start }
    else callback_in st.callback_state now value st

-- The operations behind the next target.
pub skip : List AckOp → List AckOp
skip [] = []
skip (skip_target ∷ ops) = ops
skip (_ ∷ ops) = skip ops

-- An operation that stays on its entry until enough resets were sent.
abbrev pub after_resets : ℕ → Inputs → Ack → Ack × Bool → Ack × Bool
after_resets n i st next = if ltb i.resets n then (st, false) else next

-- The call of the callback, which leaves the loop.
abbrev pub finish : ℕ → ℤ → Ack → Ack × Bool
finish now value st = (callback now value st, false)

abbrev pub go_on : List AckOp → Ack → Ack × Bool
go_on ops st = (record st { prog = some ops }, true)

abbrev pub calls_if : Bool → Inputs → ℤ → List AckOp → Ack → Ack × Bool
calls_if test i value ops st = if test then finish i.now value st else go_on ops st

-- `LONG_ADDR_MARKER | (byte + ((stash - 192) << 8))` of an int of 32 bits: below 192 the sum is
-- negative, and the marker is set in its two's complement.
pub long_loco_id : ℕ → ℕ → ℤ
long_loco_id stash byte =
    let k = (192 - stash) * 256 - byte - 1 in
    if ltb stash 192
    then negsuc (k - bit_and k 0x4000)
    else pos (bit_or 0x4000 (byte + (stash - 192) * 256))

-- One entry of the program; the Boolean says whether the loop goes on.
pub exec : AckOp → List AckOp → Inputs → Ack → Ack × Bool
exec baseline ops i st =
    if is_overload st.power
    then (st, false)
    else after_resets (if st.auto_power_off || st.rejoin then 20 else 3) i st
        (go_on ops (record (set_ack_baseline i st) { callback_state = after_read }))
exec w0 ops i st = after_resets 8 i st (
    go_on ops (record (send_message (bit_message 0xF0 0 st.cv st.bit_num) i st) {
      callback_state = after_write;
    }))
exec w1 ops i st = after_resets 8 i st (
    go_on ops (record (send_message (bit_message 0xF0 0x08 st.cv st.bit_num) i st) {
      callback_state = after_write;
    }))
exec wb ops i st = after_resets 8 i st (
    go_on ops (record (send_message (byte_message 0x7C st.cv st.byte) i st) {
      callback_state = after_write;
    }))
exec vb ops i st =
    after_resets 8 i st (go_on ops (send_message (byte_message 0x74 st.cv st.byte) i st))
exec v0 ops i st =
    after_resets 8 i st (go_on ops (send_message (bit_message 0xE0 0 st.cv st.bit_num) i st))
exec v1 ops i st =
    after_resets 8 i st (go_on ops (send_message (bit_message 0xE0 0x08 st.cv st.bit_num) i st))
exec wack ops i st =
    if st.pulse.pending then (st, false) else go_on ops (record st { received = st.pulse.detected })
exec itc0 ops i st = calls_if st.received i (pos 0) ops st
exec itc1 ops i st = calls_if st.received i (pos 1) ops st
exec itcb ops i st = calls_if st.received i (pos st.byte) ops st
exec itcbv ops i st = calls_if st.received i (pos st.byte) ops st
exec itcb7 ops i st = calls_if st.received i (pos (bit_and st.byte 0x7F)) ops st
exec nak_fail ops i st = calls_if (not st.received) i (negsuc 0) ops st
exec call_fail ops i st = finish i.now (negsuc 0) st
exec biv ops i st = go_on ops (record st { byte = st.byte_verify })
exec start_merge ops i st = go_on ops (record st { bit_num = 7; byte = 0 })
exec merge ops i st = go_on ops (record st {
  byte = if st.received then st.byte * 2 % 256 else bit_or (st.byte * 2 % 256) 1;
  bit_num = (st.bit_num + 255) % 256;
})
exec (set_bit n) ops i st = go_on ops (record st { bit_num = n })
exec (set_cv n) ops i st = go_on ops (record st { cv = n })
exec (set_byte n) ops i st = go_on ops (record st { byte = n })
exec set_byte_h ops i st = go_on ops (record st { byte = high_byte st.word })
exec set_byte_l ops i st = go_on ops (record st { byte = low_byte st.word })
exec stash_loco_id ops i st = go_on ops (record st { stash = st.byte })
exec combine_loco_id ops i st = finish i.now (long_loco_id st.stash st.byte) st
exec combine1920 ops i st =
    let st1 : Ack = record st { byte = bit_and st.byte 0x7F % 100 } in
    finish i.now (pos (st1.stash * 100 + st1.byte)) st1
exec it_skip ops i st = go_on (if st.received then skip ops else ops) st
exec nak_skip ops i st = go_on (if not st.received then skip ops else ops) st
exec bad20_skip ops i st = go_on (if ltb 120 st.byte then skip ops else ops) st
exec fail_if_nonzero_nak ops i st =
    if st.byte == 0 then go_on ops st else finish i.now (negsuc 3) st
exec skip_target ops i st = go_on ops st

-- No program ends without a callback, so that the end of the list is not reached.
pub step_at : Option (List AckOp) → Inputs → Ack → Ack × Bool
step_at none i st = (st, false)
step_at (some []) i st = (st, false)
step_at (some (op ∷ ops)) i st = exec op ops i st

pub step : Inputs → Ack → Ack × Bool
step i st = step_at st.prog i st

pub loop : ℕ → Inputs → Ack → Ack
loop zero i st = st
loop (suc fuel) i st = let (st', on) = step i st in elim on [ true ↦ loop fuel i st' | false ↦ st' ]
