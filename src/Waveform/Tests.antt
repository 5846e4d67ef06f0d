-- ===== src/Waveform/Tests.antt =====
-- A main track that sends an emergency stop to loco 3.
use command_station_ex.Base.{
  ℕ, ◌+◌, ◌*◌, ◌≡◌, refl, true, false, some, List, [], ◌∷◌, ◌++◌, arith, replicate, take, length,
}
use command_station_ex.Waveform.{
  Wave, wave_start, wave_pending, wave_mid_1, interrupt2, interrupt_handler, preamble_bit,
  promote_pending_packet, schedule_packet, set_pending, wait_promotion, state_transform,
  is_wave_pending, checksum,
}
use command_station_ex.Waveform.Bits.{is_one, run_bits, run_interrupts, pulse, run_interrupts-pulse}
use command_station_ex.Waveform.Packet.{IsReady, SameLoad, packet_bits}
use command_station_ex.Waveform.Preamble.{run_bits-packet}

abbrev stop : List ℕ
stop = 0x03 ∷ 0x3F ∷ 0x01 ∷ []

abbrev ready : Wave
ready = record {
  is_main_track = true;
  packet_pending = true;
  reminder_window_open = false;
  sent_resets = 0;
  transmit_packet = 0xFF ∷ 0x00 ∷ 0xFF ∷ [];
  transmit_length = 3;
  transmit_repeats = 0;
  remaining_preambles = 17;
  required_preambles = 17;
  bits_sent = 0;
  bytes_sent = 0;
  state = wave_start;
  pending_packet = 0x03 ∷ 0x3F ∷ 0x01 ∷ 0x3D ∷ [];
  pending_length = 4;
  pending_repeats = 2;
}

-- A packet waits, and is taken up at the interrupt that follows.
abbrev waiting : Wave
waiting = record ready { remaining_preambles = 2 }

checksum_runs :
    schedule_packet 1 waiting stop 2
    ≡ some (record waiting {
      state = wave_mid_1;
      remaining_preambles = 1;
      transmit_packet = ready.pending_packet;
      transmit_length = 4;
      transmit_repeats = 2;
      packet_pending = true;
    })
unfolding schedule_packet set_pending wait_promotion interrupt_handler interrupt2 preamble_bit
    promote_pending_packet state_transform is_wave_pending checksum
checksum_runs = refl

run_interrupts-pulse_example :
    let next = interrupt2 (record ready { state = wave_pending }) in
    let bit = is_one next.state in
    run_interrupts (length (pulse bit)) ready ≡ (record next { state = wave_start }, pulse bit)
run_interrupts-pulse_example = run_interrupts-pulse ready refl

run_bits-packet_example :
    let p = promote_pending_packet ready in
    (v : Wave) × (run_bits (17 + 9 * 4) ready
      ≡ (v, replicate 17 true ++ packet_bits (take 4 p.transmit_packet)))
    × IsReady v
    × SameLoad p v
unfolding promote_pending_packet
run_bits-packet_example =
    run_bits-packet ready (record { no_bits = refl; no_bytes = refl; preamble = refl })
      (omega arith) 3 refl (omega arith) (omega arith)
