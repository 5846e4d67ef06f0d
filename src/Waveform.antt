-- ===== src/Waveform.antt =====
-- DCCWaveform.cpp and DCCWaveform.h: the bit generator of one track. A timer interrupt comes every
-- 58 microseconds; calls into the timer and the analogue converter leave this state alone.
use command_station_ex.Base.{
  ℕ, zero, suc, ◌+◌, ◌-◌, ◌≡◌, Bool, true, false, Option, none, some, List, [], ◌∷◌, ◌++◌, ◌&&◌,
  not, bit_and, bit_xor, get_or, length, overlay, ltb, ◌==◌, if◌then◌else◌,
}
pub mod Bits
pub mod Packet
pub mod Preamble
mod Tests
pub mod Checksum

-- `enum WAVE_STATE`.
pub data WaveState : Type 0 where
  wave_start wave_mid_1 wave_high_0 wave_mid_0 wave_low_0 wave_pending : WaveState

pub record Wave : Type 0 where
  pub is_main_track : Bool
  pub packet_pending : Bool
  pub reminder_window_open : Bool
  pub sent_resets : ℕ
  pub transmit_packet : List ℕ
  pub transmit_length : ℕ
  pub transmit_repeats : ℕ
  pub remaining_preambles : ℕ
  pub required_preambles : ℕ
  pub bits_sent : ℕ
  pub bytes_sent : ℕ
  pub state : WaveState
  pub pending_packet : List ℕ
  pub pending_length : ℕ
  pub pending_repeats : ℕ

abbrev pub max_packet_size : ℕ
max_packet_size = 5

abbrev pub bit_mask : List ℕ
bit_mask = 0x00 ∷ 0x80 ∷ 0x40 ∷ 0x20 ∷ 0x10 ∷ 0x08 ∷ 0x04 ∷ 0x02 ∷ 0x01 ∷ []

abbrev pub idle_packet : List ℕ
idle_packet = 0xFF ∷ 0x00 ∷ 0xFF ∷ []

abbrev pub reset_packet : List ℕ
reset_packet = 0x00 ∷ 0x00 ∷ 0x00 ∷ []

pub state_transform : WaveState → WaveState
state_transform wave_start = wave_pending
state_transform wave_mid_1 = wave_start
state_transform wave_high_0 = wave_mid_0
state_transform wave_mid_0 = wave_low_0
state_transform wave_low_0 = wave_start
state_transform wave_pending = wave_pending

-- HIGH is true.
pub signal_transform : WaveState → Bool
signal_transform wave_start = true
signal_transform wave_mid_1 = false
signal_transform wave_high_0 = true
signal_transform wave_mid_0 = false
signal_transform wave_low_0 = false
signal_transform wave_pending = false

-- The constructor. The tracks are static objects, so what it does not set is zero.
pub init : ℕ → Bool → Wave
init preamble_bits is_main = record {
  is_main_track = is_main;
  packet_pending = false;
  reminder_window_open = false;
  sent_resets = 0;
  transmit_packet = idle_packet;
  transmit_length = 0;
  transmit_repeats = 0;
  remaining_preambles = 0;
  required_preambles = suc preamble_bits;
  bits_sent = 0;
  bytes_sent = 0;
  state = wave_start;
  pending_packet = [];
  pending_length = 0;
  pending_repeats = 0;
}

pub promote_pending_packet : Wave → Wave
promote_pending_packet w =
    if ltb 0 w.transmit_repeats
    then record w { transmit_repeats = w.transmit_repeats - 1 }
    else if w.packet_pending
    then record w {
      transmit_packet = w.pending_packet;
      transmit_length = w.pending_length;
      transmit_repeats = w.pending_repeats;
      packet_pending = false;
      sent_resets = 0;
    }
    else record w {
      transmit_packet =
          overlay (if w.is_main_track then idle_packet else reset_packet) w.transmit_packet;
      transmit_length = 3;
      transmit_repeats = 0;
      sent_resets = if ltb w.sent_resets 250 then suc w.sent_resets else w.sent_resets;
    }

-- The branch of `interrupt2` that sends a preamble bit.
pub preamble_bit : Wave → Wave
preamble_bit w =
    let left = w.remaining_preambles - 1 in
    let w1 = record w {
      state = wave_mid_1;
      remaining_preambles = left;
      reminder_window_open = (w.transmit_repeats == 0) && ltb left 12 && ltb 1 left;
    } in
    if left == 1 then promote_pending_packet w1 else w1

-- The branch of `interrupt2` that sends a bit of the packet.
pub packet_bit : Wave → Wave
packet_bit w =
    let one =
      not
        (bit_and (get_or w.transmit_packet w.bytes_sent 0) (get_or bit_mask w.bits_sent 0) == 0) in
    let w1 = record w {
      state = if one then wave_mid_1 else wave_high_0;
      bits_sent = suc w.bits_sent;
    } in
    if suc w.bits_sent == 9
    then (if ltb (suc w.bytes_sent) w.transmit_length
        then record w1 { bits_sent = 0; bytes_sent = suc w.bytes_sent }
        else record w1 {
          bits_sent = 0;
          bytes_sent = 0;
          remaining_preambles = w.required_preambles;
        })
    else w1

pub interrupt2 : Wave → Wave
interrupt2 w = if ltb 0 w.remaining_preambles then preamble_bit w else packet_bit w

pub is_wave_pending : WaveState → Bool
is_wave_pending wave_pending = true
is_wave_pending _ = false

-- `interrupt_handler` for one track: the level that it puts out, then the next state.
pub interrupt_handler : Wave → Wave × Bool
interrupt_handler w =
    let s = state_transform w.state in
    let w1 = record w { state = s } in
    (if is_wave_pending s then interrupt2 w1 else w1, signal_transform w.state)

pub checksum : ℕ → List ℕ → ℕ
checksum acc [] = acc
checksum acc (b ∷ bs) = checksum (bit_xor acc b) bs

-- `while (packetPending);`, in which interrupts run. The fuel is their number; `none` is out of it.
unfoldable pub wait_promotion : ℕ → Wave → Option Wave
wait_promotion zero w = if w.packet_pending then none else some w
wait_promotion (suc fuel) w =
    let later = wait_promotion fuel (interrupt_handler w).0 in
    if w.packet_pending then later else some w

-- What `schedulePacket` does after the wait. The pending array is one byte longer than the longest
-- packet; its bytes past the length are not sent.
unfoldable pub set_pending : List ℕ → ℕ → Wave → Wave
set_pending bytes repeats w = record w {
  pending_packet = bytes ++ checksum 0 bytes ∷ [];
  pending_length = suc (length bytes);
  pending_repeats = repeats;
  packet_pending = true;
  sent_resets = 0;
}

-- `none` is a wait that outlasts the fuel.
pub schedule_packet : ℕ → Wave → List ℕ → ℕ → Option Wave
schedule_packet fuel w bytes repeats =
    if ltb max_packet_size (length bytes) then some w else elim (wait_promotion fuel w) [
      | none ↦ none
      | some w1 ↦ some (set_pending bytes repeats w1)
    ]

pub is_reminder_window_open : Wave → Bool
is_reminder_window_open w = w.reminder_window_open && not w.packet_pending
