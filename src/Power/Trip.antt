-- ===== src/Power/Trip.antt =====
-- An overload that lasts is cut off, and a short one is not.
use command_station_ex.Base.{ℕ, ◌≡◌, ◌≤◌, ◌<◌, true, false, List, [], ◌∷◌}
use command_station_ex.Ack.{power_overload, power_alert}
use command_station_ex.Power.{Action, power_pin, Readings, Wiring, Driver}

module _ (w : Wiring) where
  -- The track is in ALERT since the given time.
  pub record Alerted (since : ℕ) (st : Driver) : Type 0 where
    pub alert : st.mode ≡ power_alert
    pub changed : st.last_change power_alert ≡ since

  -- What a reading with an overcurrent and no fault makes of ALERT, given whether it comes early.
  abbrev bad_sample : Readings → Driver → Driver
  bad_sample i st = record st { last_bad_sample = i.micros; last_mode = power_alert }

  -- A reading of an overcurrent without a fault, in the given time.
  pub record Over (from to : ℕ) (i : Readings) : Type 0 where
    pub over : i.over ≡ true
    pub no_fault : i.fault ≡ false
    pub late : from ≤ i.micros
    pub early : i.micros < to

  -- The track is off.
  pub record Off (st : Driver) : Type 0 where
    pub overload : st.mode ≡ power_overload
    pub rest : List Action
    pub pin : st.out ≡ power_pin false ∷ rest

  pub data AllOver (from to : ℕ) : List Readings → Type 0 where
    no_more : AllOver from to []
    one_more :
        {i : Readings}
        → {is : List Readings} → Over from to i
        → AllOver from to is
        → AllOver from to (i ∷ is)
