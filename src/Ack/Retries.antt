-- ===== src/Ack/Retries.antt =====
-- A decoder that never acknowledges: the program is run again for each try that is left, and fails.
use command_station_ex.Base.{
  ℕ, zero, suc, ◌-◌, ◌≡◌, ◌≤◌, refl, ap, sym, ◌∙◌, subst, Bool, true, false, none, some, List, [],
  ◌∷◌, arith, ltb, if◌then◌else◌,
}
use command_station_ex.Base.Int.{ℤ, negsuc}
use command_station_ex.Ack.{
  AckOp, Ack, Pulse, baseline, Inputs, setup, callback, callback_in, is_overload,
}
use command_station_ex.Ack.Programs.{
  read_cv_prog, verify_byte_prog, loco_read_id_prog, read_cv, verify_cv_byte, get_loco_id,
}
use command_station_ex.Ack.Decoder.{Core, core, turn, eval}
use command_station_ex.Ack.Simulation.{is_running, calls, Ready}
use command_station_ex.Ack.Session.{Ending, program-Ending}
use command_station_ex.Ack.Reading.{tail_of}
use command_station_ex.Ack.Starting.{setup-Starts}
use command_station_ex.Ack.Delivery.{calls_back, calls_back-Done}
use command_station_ex.Ack.Reports.{Times}

abbrev pub mute : List ℕ → Bool
mute m = false

abbrev pub failure : ℤ
failure = negsuc 0

module _ (i : Inputs) where
  -- Runs of a program that end with a failure, each after the first started by the callback of the one
  -- before; no retry is left at the end of the last.
  pub data Tries : ℕ → Ack → Ack → Type 0 where
    last_try :
        (st : Ack) (end : Ending mute i st failure) → end.last.retry ≡ 0 → Tries 0 st end.last
    one_more :
        (n : ℕ) (st last : Ack) (end : Ending mute i st failure)
        → end.last.retry ≡ suc n
        → Tries n (callback i.now failure end.last) last
        → Tries (suc n) st last

  -- A program that fails whatever it starts with.
  abbrev Fails : ℕ → List AckOp → Type 0
  Fails fuel ops = (c : Core) → eval mute fuel ops c ≡ some failure

  record Tried (n : ℕ) (st : Ack) : Type 0 where
    pub last : Ack
    pub tries : Tries n st last
    pub at : (ops : List AckOp) × (last.prog ≡ some ops)
    pub none_left : last.retry ≡ 0
    pub running : is_running last.callback_state ≡ true
    pub uncalled : calls last.out ≡ calls st.out

  -- A failure with a retry left starts the program again.
  again :
      (n : ℕ) (st : Ack)
      → st.retry ≡ suc n
      → callback i.now failure st ≡ record st { retry = st.retry - 1; prog = some st.prog_start }
  unfolding callback
  again n st e =
      let more : ltb 0 st.retry ≡ true = ground (arith, e) in
      ap
        (λ (b : Bool).
          if b
          then record st { retry = st.retry - 1; prog = some st.prog_start }
          else callback_in st.callback_state i.now failure st)
        more

  program-Tried :
      (n fuel : ℕ) (ops : List AckOp) (st : Ack)
      → st.prog ≡ some (baseline ∷ ops)
      → st.prog_start ≡ baseline ∷ ops
      → Ready i st
      → st.pulse.pending ≡ false
      → st.retry ≡ n
      → Fails fuel ops
      → Tried n st
  program-Tried zero fuel ops st e start ready quiet left fails =
      let (end, running) =
        program-Ending mute i fuel ops st failure e ready quiet (fails (core st)) in
      record {
        last = end.last;
        tries = last_try st end (end.same.tries ∙ left);
        at = end.at;
        none_left = end.same.tries ∙ left;
        running = running;
        uncalled = end.same.uncalled;
      }
  program-Tried (suc n) fuel ops st e start ready quiet left fails =
      let (end, running) =
        program-Ending mute i fuel ops st failure e ready quiet (fails (core st)) in
      let l = end.last in
      let st1 : Ack = record l { retry = l.retry - 1; prog = some l.prog_start } in
      let more : l.retry ≡ suc n = end.same.tries ∙ left in
      let begun = end.same.start ∙ start in
      let rest =
        program-Tried n fuel ops st1 (ap (λ p. some p) begun) begun
          (record {
            resets = ready.resets;
            working = ap is_overload end.same.powered ∙ ready.working;
          })
          end.calm (omega (arith, more)) fails in
      record {
        last = rest.last;
        tries =
            one_more n st rest.last end more
              (subst (λ x. Tries n x rest.last) (sym (again n l more)) rest.tries);
        at = rest.at;
        none_left = rest.none_left;
        running = rest.running;
        uncalled = rest.uncalled ∙ end.same.uncalled;
      }

  -- After as many retries as were left the program fails for good: the function is told -1, on top of
  -- the calls before, and the program is gone.
  pub record GivesUp (n : ℕ) (before : List ℤ) (st : Ack) (times : List ℕ) : Type 0 where
    pub last : Ack
    pub tries : Tries n st last
    pub untold : calls last.out ≡ before
    pub gone : (calls_back failure times last).prog ≡ none
    pub told : calls (calls_back failure times last).out ≡ failure ∷ before

  module _ (t0 t1 t2 t3 : ℕ) (times : Times t0 t1 t2) (joined : Bool) (st : Ack)
      (working : is_overload st.power ≡ false) (quiet : st.pulse.pending ≡ false)
      (enough : 20 ≤ i.resets) where
    started-GivesUp :
        (fuel cv value : ℕ) (ops : List AckOp)
        → Fails fuel ops
        → GivesUp st.ack_retry
            (calls st.out)
            (setup joined (some true) cv value (baseline ∷ ops) st)
            (t0 ∷ t1 ∷ t2 ∷ t3 ∷ [])
    started-GivesUp fuel cv value ops fails =
        let s = setup-Starts joined cv value (baseline ∷ ops) st working in
        let r =
          program-Tried st.ack_retry fuel ops
            (setup joined (some true) cv value (baseline ∷ ops) st) s.prog s.start
            (record { resets = enough; working = s.working })
            (ap (λ (p : Pulse). p.pending) s.same_pulse ∙ quiet) s.tries fails in
        let (ops', at) = r.at in
        let done =
          calls_back-Done failure t0 t1 t2 t3 r.last ops' (omega arith) (at, ap (ltb 0) r.none_left)
            r.running times.powered times.cut times.unwrapped in
        record {
          last = r.last;
          tries = r.tries;
          untold = r.uncalled ∙ s.uncalled;
          gone = done.gone;
          told = done.told ∙ ap (λ xs. failure ∷ xs) (r.uncalled ∙ s.uncalled);
        }

    -- With a decoder that never acknowledges, the programs that read a CV, verify a byte or read the
    -- address of a loco fail: each is run once and then again for each of the retries set, without a
    -- call of the function; then calls of the callback 100 ms and 30 ms apart tell it -1 once, and end
    -- the program. This is for a programming track that measures its current, is not overloaded,
    -- waits for no acknowledgement and has sent twenty resets.
    pub mute-GivesUp :
        (cv value : ℕ)
        → GivesUp st.ack_retry
            (calls st.out)
            (read_cv joined (some true) cv st)
            (t0 ∷ t1 ∷ t2 ∷ t3 ∷ [])
          × GivesUp st.ack_retry
              (calls st.out)
              (verify_cv_byte joined (some true) cv value st)
              (t0 ∷ t1 ∷ t2 ∷ t3 ∷ [])
          × GivesUp st.ack_retry
              (calls st.out)
              (get_loco_id joined (some true) st)
              (t0 ∷ t1 ∷ t2 ∷ t3 ∷ [])
    unfolding read_cv verify_cv_byte get_loco_id eval turn
    mute-GivesUp cv value = (
      started-GivesUp 40 cv 0 (tail_of read_cv_prog) (λ c. refl),
      started-GivesUp 50 cv value (tail_of verify_byte_prog) (λ c. refl),
      started-GivesUp 65 0 0 (tail_of loco_read_id_prog) (λ c. refl),
    )
