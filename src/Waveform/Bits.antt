-- ===== src/Waveform/Bits.antt =====
-- The bits of a packet, and the level of the signal through each of them.
use command_station_ex.Base.{
  ℕ, zero, suc, ◌-◌, ◌≡◌, Bool, true, false, List, [], ◌∷◌, arith, length, ◌⊎◌, inl, inr, ◌&&◌, ltb,
  ◌==◌,
}
use command_station_ex.Waveform.{
  Wave, WaveState, wave_start, wave_mid_1, wave_high_0, wave_pending, interrupt2, packet_bit,
  preamble_bit, promote_pending_packet, interrupt_handler, is_wave_pending, state_transform,
  signal_transform,
}

unfoldable pub is_one : WaveState → Bool
is_one wave_mid_1 = true
is_one _ = false

-- The next `n` bits that the track decides to send.
unfoldable pub run_bits : ℕ → Wave → Wave × List Bool
run_bits zero w = (w, [])
run_bits (suc n) w =
    let w1 = interrupt2 w in let (w2, bs) = run_bits n w1 in (w2, is_one w1.state ∷ bs)

-- The levels that the next `n` interrupts put out.
unfoldable pub run_interrupts : ℕ → Wave → Wave × List Bool
run_interrupts zero w = (w, [])
run_interrupts (suc n) w =
    let (w1, level) = interrupt_handler w in
    let (w2, levels) = run_interrupts n w1 in (w2, level ∷ levels)

-- NMRA S-9.1: a one is high and low for one period each, a zero for two.
pub pulse : Bool → List Bool
pulse true = true ∷ false ∷ []
pulse false = true ∷ true ∷ false ∷ false ∷ []

-- A bit is sent as one of two states.
abbrev Decided : Wave → Type 0
Decided w = ((w.state ≡ wave_mid_1)) ⊎ ((w.state ≡ wave_high_0))

promote-state : (w : Wave) → (promote_pending_packet w).state ≡ w.state
unfolding promote_pending_packet
promote-state w = ground arith

interrupt2-Decided : (w : Wave) → Decided (interrupt2 w)
unfolding interrupt2 preamble_bit packet_bit
interrupt2-Decided w = ground (
  arith,
  promote-state (record w {
    state = wave_mid_1;
    remaining_preambles = w.remaining_preambles - 1;
    reminder_window_open =
        (w.transmit_repeats == 0)
        && ltb (w.remaining_preambles - 1) 12
        && ltb 1 (w.remaining_preambles - 1);
  }),
)

handler_start :
    (w : Wave)
    → w.state ≡ wave_start
    → interrupt_handler w ≡ (interrupt2 (record w { state = wave_pending }), true)
unfolding interrupt_handler state_transform signal_transform is_wave_pending
handler_start w e = ground arith

handler_mid_1 :
    (w : Wave)
    → w.state ≡ wave_mid_1
    → interrupt_handler w ≡ (record w { state = wave_start }, false)
unfolding interrupt_handler state_transform signal_transform is_wave_pending
handler_mid_1 w e = ground arith

handlers_zero :
    (w : Wave)
    → w.state ≡ wave_high_0
    → run_interrupts 3 w ≡ (record w { state = wave_start }, true ∷ false ∷ false ∷ [])
unfolding run_interrupts interrupt_handler state_transform signal_transform is_wave_pending
handlers_zero w e = ground arith

-- From the start of a bit the interrupts put out the pulse of the bit that `interrupt2` decides,
-- and come to the start of the next.
pub run_interrupts-pulse :
    (w : Wave)
    → w.state ≡ wave_start
    → let next = interrupt2 (record w { state = wave_pending }) in
      let bit = is_one next.state in
      run_interrupts (length (pulse bit)) w ≡ (record next { state = wave_start }, pulse bit)
unfolding run_interrupts pulse is_one
run_interrupts-pulse w e = elim (interrupt2-Decided (record w { state = wave_pending })) [
  | inl one ↦
      ground (
        arith,
        handler_start w e,
        handler_mid_1 (interrupt2 (record w { state = wave_pending })) one,
      )
  | inr zero_bit ↦ ground (
    arith,
    handler_start w e,
    handlers_zero (interrupt2 (record w { state = wave_pending })) zero_bit,
  )
]
