-- ===== src/Ack/Reports.antt =====
-- From the call that starts a program to the value its function is given.
use command_station_ex.Base.{
  ℕ, ◌+◌, ◌^◌, ◌≡◌, ◌≤◌, ◌<◌, refl, ap, ◌∙◌, Bool, true, false, ◌&&◌, none, some, List, [], ◌∷◌,
  arith, ltb, ◌==◌,
}
use command_station_ex.Base.Int.{ℤ, pos, FitsInt16}
use command_station_ex.Ack.{AckOp, Ack, Pulse, baseline, Inputs, setup, is_overload, is_failure}
use command_station_ex.Ack.Programs.{
  read_cv_prog, verify_byte_prog, loco_read_id_prog, read_cv, verify_cv_byte, get_loco_id,
}
use command_station_ex.Ack.Decoder.{Core, core, eval}
use command_station_ex.Ack.Simulation.{calls, Ready}
use command_station_ex.Ack.Session.{Ending, program-Ending}
use command_station_ex.Ack.Reading.{
  Answers, bit_of, tail_of, eval-read_cv_prog, eval-verify_byte_prog,
}
use command_station_ex.Ack.Address.{
  reported_address, reported_address-FitsInt16, eval-loco_read_id_prog,
}
use command_station_ex.Ack.Starting.{setup-Starts}
use command_station_ex.Ack.Delivery.{calls_back, calls_back-Done}

-- The times at which the callback is called: 100 ms and 30 ms lie between.
pub record Times (t0 t1 t2 : ℕ) : Type 0 where
  pub powered : t0 + 100 ≤ t1
  pub cut : t1 + 30 ≤ t2
  pub unwrapped : t2 < 2 ^ 32

-- The program runs to a callback with `v`; after it the function was called with `v`, on top of the
-- calls before, and the program is gone.
pub record Reports (answer : List ℕ → Bool) (i : Inputs) (before : List ℤ) (st : Ack) (v : ℤ)
    (times : List ℕ) : Type 0 where
  pub ending : Ending answer i st v
  pub gone : (calls_back v times ending.last).prog ≡ none
  pub told : calls (calls_back v times ending.last).out ≡ v ∷ before

byte-FitsInt16 : (b : ℕ) → b < 256 → FitsInt16 (pos b)
byte-FitsInt16 b h = omega (arith, h)

module _ (answer : List ℕ → Bool) (i : Inputs) (t0 t1 t2 t3 : ℕ) (times : Times t0 t1 t2) where
  program-Reports :
      (fuel : ℕ) (ops : List AckOp) (st : Ack) (v : ℤ)
      → st.prog ≡ some (baseline ∷ ops)
      → Ready i st
      → st.pulse.pending ≡ false
      → FitsInt16 v
      → is_failure v ≡ false
      → eval answer fuel ops (core st) ≡ some v
      → Reports answer i (calls st.out) st v (t0 ∷ t1 ∷ t2 ∷ t3 ∷ [])
  program-Reports fuel ops st v e ready quiet fits good h =
      let (end, running) = program-Ending answer i fuel ops st v e ready quiet h in
      let (ops', at) = end.at in
      let done =
        calls_back-Done v t0 t1 t2 t3 end.last ops' fits
          (at, ap (λ b. b && ltb 0 end.last.retry) good) running times.powered times.cut
          times.unwrapped in
      record {
        ending = end;
        gone = done.gone;
        told = done.told ∙ ap (λ xs. v ∷ xs) end.same.uncalled;
      }

  module _ (m : ℕ → ℕ) (a : Answers answer m) (joined : Bool) (st : Ack)
      (working : is_overload st.power ≡ false) (quiet : st.pulse.pending ≡ false)
      (enough : 20 ≤ i.resets) where
    started-Reports :
        (fuel cv value : ℕ) (ops : List AckOp) (v : ℤ)
        → FitsInt16 v
        → is_failure v ≡ false
        → ((c : Core) → c.cv ≡ cv → c.verify ≡ value → eval answer fuel ops c ≡ some v)
        → Reports answer i
            (calls st.out)
            (setup joined (some true) cv value (baseline ∷ ops) st)
            v
            (t0 ∷ t1 ∷ t2 ∷ t3 ∷ [])
    started-Reports fuel cv value ops v fits good h =
        let st' = setup joined (some true) cv value (baseline ∷ ops) st in
        let s = setup-Starts joined cv value (baseline ∷ ops) st working in
        let r =
          program-Reports fuel ops st' v s.prog (record { resets = enough; working = s.working })
            (ap (λ (p : Pulse). p.pending) s.same_pulse ∙ quiet) fits good
            (h (core st') s.cv_set s.verify_set) in
        record { ending = r.ending; gone = r.gone; told = r.told ∙ ap (λ xs. v ∷ xs) s.uncalled }

    -- Reading a CV from 1 to 1024: if the programming track exists and measures its current, is not
    -- overloaded, waits for no acknowledgement and has sent twenty resets, and if the decoder
    -- acknowledges what is true of its CVs, then the program runs to its callback, and calls of that
    -- 100 ms and 30 ms apart tell the value of the CV once and end the program.
    pub read_cv-Reports :
        (cv : ℕ)
        → 1 ≤ cv
        → cv ≤ 1024
        → Reports answer i
            (calls st.out)
            (read_cv joined (some true) cv st)
            (pos (m cv))
            (t0 ∷ t1 ∷ t2 ∷ t3 ∷ [])
    unfolding read_cv
    read_cv-Reports cv from to =
        started-Reports 40 cv 0 (tail_of read_cv_prog) (pos (m cv))
          (byte-FitsInt16 (m cv) (a.small cv)) refl
          (λ c e f.
            eval-read_cv_prog answer m a c (omega (arith, from, e)) (omega (arith, to, e))
            ∙ ap (λ k. some (pos (m k))) e)

    -- Verifying a byte of a CV from 1 to 1024: under the conditions of a read, the program tells the
    -- value of the CV once, whether it is that byte or not, and ends.
    pub verify_cv_byte-Reports :
        (cv value : ℕ)
        → 1 ≤ cv
        → cv ≤ 1024
        → value < 256
        → Reports answer i
            (calls st.out)
            (verify_cv_byte joined (some true) cv value st)
            (pos (m cv))
            (t0 ∷ t1 ∷ t2 ∷ t3 ∷ [])
    unfolding verify_cv_byte
    verify_cv_byte-Reports cv value from to small =
        started-Reports 50 cv value (tail_of verify_byte_prog) (pos (m cv))
          (byte-FitsInt16 (m cv) (a.small cv)) refl
          (λ c e f.
            eval-verify_byte_prog answer m a c (omega (arith, from, e)) (omega (arith, to, e))
              (omega (arith, small, f))
            ∙ ap (λ k. some (pos (m k))) e)

    -- Reading the address of a loco: under the conditions of a read, if CV 1 is below 128 for a short
    -- address and CV 17 is from 192 to 231 for a long one, the program tells once what the CVs hold and
    -- ends: a short address as it is, a long one with the marker 16384 added.
    pub get_loco_id-Reports :
        ((bit_of (m 29) 5 == 0) ≡ true → m 1 < 128)
        → ((bit_of (m 29) 5 == 0) ≡ false → (192 ≤ m 17) × (m 17 ≤ 231))
        → Reports answer i
            (calls st.out)
            (get_loco_id joined (some true) st)
            (reported_address answer m a)
            (t0 ∷ t1 ∷ t2 ∷ t3 ∷ [])
    unfolding get_loco_id
    get_loco_id-Reports low range =
        let (fits, good) = reported_address-FitsInt16 answer m a low range in
        started-Reports 65 0 0 (tail_of loco_read_id_prog) (reported_address answer m a) fits good
          (λ c e f. eval-loco_read_id_prog answer m a c low range)
