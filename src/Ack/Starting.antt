-- ===== src/Ack/Starting.antt =====
-- `Setup` of DCCACK.cpp with a programming track that measures its current.
use command_station_ex.Base.{ℕ, ◌≡◌, refl, Bool, true, false, some, List}
use command_station_ex.Ack.{
  AckOp, Ack, setup, is_overload, PowerMode, power_on, power_off, power_overload, power_alert,
}
use command_station_ex.Ack.Simulation.{calls}

-- What `setup` leaves when there is a track that measures.
pub record Starts (st : Ack) (cv value : ℕ) (program : List AckOp) (st' : Ack) : Type 0 where
  pub prog : st'.prog ≡ some program
  pub cv_set : st'.cv ≡ cv
  pub verify_set : st'.byte_verify ≡ value
  pub working : is_overload st'.power ≡ false
  pub uncalled : calls st'.out ≡ calls st.out
  pub same_pulse : st'.pulse ≡ st.pulse
  pub start : st'.prog_start ≡ program
  pub tries : st'.retry ≡ st.ack_retry

pub setup-Starts :
    (joined : Bool) (cv value : ℕ) (program : List AckOp) (st : Ack)
    → is_overload st.power ≡ false
    → Starts st cv value program (setup joined (some true) cv value program st)
unfolding setup
setup-Starts joined cv value program st h = by_cases joined st.power h
  where
    by_cases :
        (j : Bool) (p : PowerMode)
        → is_overload p ≡ false
        → Starts
            (record st { power = p })
            cv
            value
            program
            (setup j (some true) cv value program (record st { power = p }))
    by_cases true power_off h = record {
      prog = refl;
      cv_set = refl;
      verify_set = refl;
      working = refl;
      uncalled = refl;
      same_pulse = refl;
      start = refl;
      tries = refl;
    }
    by_cases true power_on h = record {
      prog = refl;
      cv_set = refl;
      verify_set = refl;
      working = refl;
      uncalled = refl;
      same_pulse = refl;
      start = refl;
      tries = refl;
    }
    by_cases true power_alert h = record {
      prog = refl;
      cv_set = refl;
      verify_set = refl;
      working = refl;
      uncalled = refl;
      same_pulse = refl;
      start = refl;
      tries = refl;
    }
    by_cases false power_off h = record {
      prog = refl;
      cv_set = refl;
      verify_set = refl;
      working = refl;
      uncalled = refl;
      same_pulse = refl;
      start = refl;
      tries = refl;
    }
    by_cases false power_on h = record {
      prog = refl;
      cv_set = refl;
      verify_set = refl;
      working = refl;
      uncalled = refl;
      same_pulse = refl;
      start = refl;
      tries = refl;
    }
    by_cases false power_alert h = record {
      prog = refl;
      cv_set = refl;
      verify_set = refl;
      working = refl;
      uncalled = refl;
      same_pulse = refl;
      start = refl;
      tries = refl;
    }
    by_cases true power_overload h = cc
    by_cases false power_overload h = cc
