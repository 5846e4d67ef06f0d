-- ===== src/Ack/Check.antt =====
-- DCCACK.cpp: the samples of the current while an acknowledgement is awaited.
use command_station_ex.Base.{
  ℕ, ◌+◌, ◌%◌, true, false, not, ◌&&◌, ◌||◌, ltb, leb, ◌==◌, if◌then◌else◌,
}
use command_station_ex.Ack.{Pulse, elapsed}

-- The end of a pulse is trusted at the third low sample.
unfoldable pub trail : ℕ → ℕ → ℕ → Pulse → Pulse
trail min_pulse max_pulse now p =
    if ltb p.trailing_edge 2
    then record p { trailing_edge = p.trailing_edge + 1 }
    else if leb min_pulse p.pulse_duration && (leb p.pulse_duration max_pulse || (max_pulse == 0))
    then record p {
      trailing_edge = 0;
      check_duration = elapsed now p.check_start;
      detected = true;
      pending = false;
      clears = p.clears + 1;
    }
    else record p { trailing_edge = 0; pulse_start = 0 }

-- `checkAck`, of the interrupt: the resets since the packet, the current and the time in
-- milliseconds and microseconds.
unfoldable pub check_ack : ℕ → ℕ → ℕ → ℕ → ℕ → ℕ → Pulse → Pulse
check_ack min_pulse max_pulse resets current now micros p0 =
    if not p0.pending
    then p0
    else if ltb 6 resets
    then record p0 { check_duration = elapsed now p0.check_start; pending = false }
    else let p : Pulse = record p0 {
      samples = (p0.samples + 1) % 256;
      max_current = if ltb p0.max_current current then current else p0.max_current;
    } in
      if ltb p.threshold current
      then record p {
        gaps = if ltb 0 p.trailing_edge then (p.gaps + 1) % 256 else p.gaps;
        trailing_edge = 0;
        pulse_start = if p.pulse_start == 0 then micros else p.pulse_start;
      }
      else if p.pulse_start == 0
      then p
      else trail min_pulse max_pulse now (
          if p.trailing_edge == 0
          then record p { pulse_duration = elapsed micros p.pulse_start }
          else p)
