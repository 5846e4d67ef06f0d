-- ===== src/Waveform/Checksum.antt =====
-- The check byte that `schedulePacket` appends.
use command_station_ex.Base.{ℕ, ◌<◌, List, [], ◌∷◌}

abbrev pub AllBytes : List ℕ → Type 0
AllBytes [] = Unit {0}
AllBytes (b ∷ bs) = (b < 256) × AllBytes bs
