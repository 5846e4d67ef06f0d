-- ===== src/Drive/Commands.antt =====
-- The operations of DCC.cpp on the locos as commands, in any order.
use command_station_ex.Base.{ℕ, Bool, List, [], ◌∷◌}
use command_station_ex.Base.Int.{ℤ}
use command_station_ex.Drive.{Station, set_throttle, estop_all, estop_lock}
use command_station_ex.Drive.Moved.{estop_all-Moved}
use command_station_ex.Drive.Functions.{set_fn, set_dc_freq, save_speed, restore_speed}
use command_station_ex.Drive.Momentum.{set_momentum}
use command_station_ex.Drive.Consist.{forget_loco, forget_all_locos}
use command_station_ex.Drive.Sound.{
  Sound, Moved-Sound, set_throttle-Sound, set_fn-Sound, set_dc_freq-Sound, set_momentum-Sound,
  save_speed-Sound, restore_speed-Sound, estop_lock-Sound,
}
use command_station_ex.Drive.Forgetting.{forget_all-Sound, forget_loco-Sound}

module _ (highest_short max_locos : ℕ) (alloc : Bool) where
  -- The commands that reach DCC.cpp.
  pub data Command : Type 0 where
    throttle : ℕ → ℕ → ℕ → Bool → Command
    function : ℕ → ℕ → Bool → Command
    dc_frequency : ℕ → ℕ → Command
    momentum : ℕ → ℤ → ℤ → Command
    stop_all : Command
    lock_stop : Bool → Command
    save : ℕ → Command
    restore : ℕ → ℕ → Command
    forget_one : ℕ → Command
    forget_every : Command

  pub obey : Command → Station → Station
  obey (throttle now cab t_speed t_direction) st =
      (set_throttle highest_short max_locos alloc now cab t_speed t_direction st).0
  obey (function cab n on) st = (set_fn highest_short max_locos alloc cab n on st).0
  obey (dc_frequency cab freq) st = set_dc_freq highest_short max_locos alloc cab freq st
  obey (momentum cab a d) st = (set_momentum highest_short max_locos alloc cab a d st).0
  obey stop_all st = estop_all highest_short st
  obey (lock_stop lock) st = estop_lock highest_short lock st
  obey (save cab) st = save_speed highest_short max_locos alloc cab st
  obey (restore now cab) st = restore_speed highest_short max_locos alloc now cab st
  obey (forget_one cab) st = forget_loco max_locos alloc highest_short cab st
  obey forget_every st = forget_all_locos max_locos alloc highest_short st

  pub obey_all : List Command → Station → Station
  obey_all [] st = st
  obey_all (c ∷ cs) st = obey_all cs (obey c st)

  -- Whatever throttles, functions, frequencies, momenta, stops, saved speeds and forgotten locos are
  -- asked for, in any order, the slots stay a table: the chains of used and spare slots are sound and
  -- apart, every slot is counted, no loco has two slots and none is for loco 0.
  pub obey_all-Sound :
      (cs : List Command) (st : Station) → Sound st.locos → Sound (obey_all cs st).locos
  unfolding obey_all obey
  obey_all-Sound [] st h = h
  obey_all-Sound (throttle now cab t_speed t_direction ∷ cs) st h =
      obey_all-Sound cs _
        (set_throttle-Sound highest_short max_locos alloc now cab t_speed t_direction st h)
  obey_all-Sound (function cab n on ∷ cs) st h =
      obey_all-Sound cs _ (set_fn-Sound highest_short max_locos alloc cab n on st h)
  obey_all-Sound (dc_frequency cab freq ∷ cs) st h =
      obey_all-Sound cs _ (set_dc_freq-Sound highest_short max_locos alloc cab freq st h)
  obey_all-Sound (momentum cab a d ∷ cs) st h =
      obey_all-Sound cs _ (set_momentum-Sound highest_short max_locos alloc cab a d st h)
  obey_all-Sound (stop_all ∷ cs) st h =
      obey_all-Sound cs _ (Moved-Sound st.locos _ (estop_all-Moved highest_short st) h)
  obey_all-Sound (lock_stop lock ∷ cs) st h =
      obey_all-Sound cs _ (estop_lock-Sound highest_short max_locos alloc lock st h)
  obey_all-Sound (save cab ∷ cs) st h =
      obey_all-Sound cs _ (save_speed-Sound highest_short max_locos alloc cab st h)
  obey_all-Sound (restore now cab ∷ cs) st h =
      obey_all-Sound cs _ (restore_speed-Sound highest_short max_locos alloc now cab st h)
  obey_all-Sound (forget_one cab ∷ cs) st h =
      obey_all-Sound cs _ (forget_loco-Sound highest_short max_locos alloc cab st h)
  obey_all-Sound (forget_every ∷ cs) st h =
      obey_all-Sound cs _ (forget_all-Sound highest_short max_locos alloc st)
