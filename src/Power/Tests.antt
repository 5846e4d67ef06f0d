-- ===== src/Power/Tests.antt =====
-- A main track with an overcurrent of a tenth of a second.
use command_station_ex.Base.{ℕ, true, false, []}
use command_station_ex.Ack.{power_on}
use command_station_ex.Power.{Readings, Wiring, Driver}

abbrev main_track : Wiring
main_track = record {
  has_current_pin = true;
  is_prog_track = false;
  common_fault_pin = false;
  has_inrush = true;
  auto_inverts = false;
}

abbrev powered : Driver
powered = record {
  mode = power_on;
  last_mode = power_on;
  last_change = λ m. 0;
  last_bad_sample = 0;
  global_overload_start = 0;
  sense_offset = 0;
  overload_wait = 40000;
  out = [];
}

abbrev overcurrent : ℕ → Readings
overcurrent t = record { micros = t; fault = false; over = true; offset = 0 }
