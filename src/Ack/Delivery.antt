-- ===== src/Ack/Delivery.antt =====
-- The end of a program: the callback is called at each turn of the loop until it is done.
use command_station_ex.Base.{
  ℕ, ◌+◌, ◌-◌, ◌^◌, ◌≡◌, ◌≤◌, ◌<◌, refl, ap, sym, ◌∙◌, subst, Bool, true, false, not, ◌&&◌, Option,
  none, some, List, [], ◌∷◌, arith, ltb, if◌then◌else◌,
}
use command_station_ex.Base.Int.{ℤ, int16, FitsInt16, int16-FitsInt16}
use command_station_ex.Ack.{
  AckOp, Ack, power_set, power_off, power_on, join_set, CallbackState, after_read, after_write,
  waiting_100, waiting_30, ready, callback, callback_in, is_failure, elapsed,
}
use command_station_ex.Ack.Simulation.{is_running, calls}

-- The callbacks at the given times; there is none once the program is gone.
pub calls_back : ℤ → List ℕ → Ack → Ack
calls_back v [] st = st
calls_back v (t ∷ ts) st = elim st.prog [ none ↦ st | some ops ↦ calls_back v ts (callback t v st) ]

-- The state of the end is `cs`.
abbrev in_state : CallbackState → Ack → Ack
in_state cs st = record st { callback_state = cs }

-- The function was called with `v`, once, and the program is gone.
pub record Done (st st' : Ack) (v : ℤ) : Type 0 where
  pub gone : st'.prog ≡ none
  pub told : calls st'.out ≡ v ∷ calls st.out

module _ (v : ℤ) where
  -- The program is at an operation that calls back, and a failure is not tried again.
  abbrev AtEnd : Ack → List AckOp → Type 0
  AtEnd st ops = (st.prog ≡ some ops) × ((is_failure v && ltb 0 st.retry) ≡ false)

  gone-calls_back : (ts : List ℕ) (st : Ack) → st.prog ≡ none → calls_back v ts st ≡ st
  unfolding calls_back
  gone-calls_back [] st e = refl
  gone-calls_back (t ∷ ts) st e =
      ap
        (λ (o : Option (List AckOp)).
          let r : Ack = elim o [ none ↦ st | some ops ↦ calls_back v ts (callback t v st) ] in r)
        e

  next-calls_back :
      (t : ℕ) (ts : List ℕ) (st : Ack) (ops : List AckOp)
      → AtEnd st ops
      → calls_back v (t ∷ ts) st ≡ calls_back v ts (callback_in st.callback_state t v st)
  unfolding calls_back callback
  next-calls_back t ts st ops (e, last_try) =
      ap
        (λ (o : Option (List AckOp)).
          let r : Ack = elim o [ none ↦ st | some ops' ↦ calls_back v ts (callback t v st) ] in r)
        e
      ∙ ap
          (λ b. calls_back v ts (
            if b
            then record st { retry = st.retry - 1; prog = some st.prog_start }
            else callback_in st.callback_state t v st))
          last_try

  ready-Done :
      (t : ℕ) (ts : List ℕ) (st : Ack) (ops : List AckOp)
      → AtEnd st ops
      → Done st (calls_back v (t ∷ ts) (in_state ready st)) (int16 v)
  unfolding callback_in
  ready-Done t ts st ops end =
      subst (λ x. Done st x (int16 v))
        (sym (
          next-calls_back t ts (in_state ready st) ops end
          ∙ gone-calls_back ts (callback_in ready t v (in_state ready st)) refl))
        (record { gone = refl; told = ap (λ xs. int16 v ∷ xs) (told st.auto_power_off st.rejoin) })
    where
      told :
          (off join : Bool)
          → (let st1 : Ack =
                if off
                then record (in_state ready st) {
                  power = power_off;
                  out = power_set power_off ∷ st.out;
                }
                else in_state ready st in
              let st2 : Ack = if join then record st1 { out = join_set true ∷ st1.out } else st1 in
              calls st2.out)
            ≡ calls st.out
      told true true = refl
      told true false = refl
      told false true = refl
      told false false = refl

  waiting_30-Done :
      (t t' : ℕ) (ts : List ℕ) (st : Ack) (ops : List AckOp)
      → AtEnd st ops
      → 30 ≤ elapsed t st.callback_start
      → Done st (calls_back v (t ∷ t' ∷ ts) (in_state waiting_30 st)) (int16 v)
  unfolding callback_in
  waiting_30-Done t t' ts st ops end late =
      let on : Ack = record st { power = power_on; out = power_set power_on ∷ st.out } in
      let test : ltb (elapsed t st.callback_start) 30 ≡ false = ground (arith, late) in
      let d = ready-Done t' ts on ops end in
      subst (λ x. Done st x (int16 v))
        (sym (
          next-calls_back t (t' ∷ ts) (in_state waiting_30 st) ops end
          ∙ ap
              (λ b.
                calls_back v (t' ∷ ts) (if b then in_state waiting_30 st else in_state ready on))
              test))
        (record { gone = d.gone; told = d.told })

  -- The power goes off at `t`, for 30 ms at least.
  cut-Done :
      (t t' t'' : ℕ) (ts : List ℕ) (st : Ack) (ops : List AckOp)
      → AtEnd st ops
      → t < 2 ^ 32
      → t' < 2 ^ 32
      → t + 30 ≤ t'
      → Done st
          (calls_back v (t' ∷ t'' ∷ ts) (
            in_state waiting_30 (record st {
              power = power_off;
              out = power_set power_off ∷ st.out;
              callback_start = t;
            })))
          (int16 v)
  cut-Done t t' t'' ts st ops end small small' late =
      let off : Ack = record st {
        power = power_off;
        out = power_set power_off ∷ st.out;
        callback_start = t;
      } in
      let d = waiting_30-Done t' t'' ts off ops end (omega (arith, small, small', late)) in
      record { gone = d.gone; told = d.told }

  narrows-Done :
      (t0 t1 t2 t3 : ℕ) (st : Ack) (ops : List AckOp)
      → AtEnd st ops
      → is_running st.callback_state ≡ true
      → t0 + 100 ≤ t1
      → t1 + 30 ≤ t2
      → t2 < 2 ^ 32
      → Done st (calls_back v (t0 ∷ t1 ∷ t2 ∷ t3 ∷ []) st) (int16 v)
  unfolding callback_in
  narrows-Done t0 t1 t2 t3 st ops end running late later small = by_state st.callback_state running
    where
      cut_at : ℕ → Ack
      cut_at t = record st {
        power = power_off;
        out = power_set power_off ∷ st.out;
        callback_start = t;
      }

      test : ltb (elapsed t1 t0) 100 ≡ false
      test = ground (arith, late, later, small)

      from_read :
          (b : Bool)
          → Done st
              (calls_back v
                (t1 ∷ t2 ∷ t3 ∷ [])
                (if b then in_state waiting_30 (cut_at t0) else in_state ready st))
              (int16 v)
      from_read true =
          cut-Done t0 t1 t2 (t3 ∷ []) st ops end (omega (arith, late, later, small))
            (omega (arith, late, later, small)) (omega (arith, late))
      from_read false = ready-Done t1 (t2 ∷ t3 ∷ []) st ops end

      -- 100 ms of power have passed.
      stable : Ack
      stable = record st { callback_start = t0 }

      after_power :
          (b : Bool)
          → Done stable
              (calls_back v
                (t2 ∷ t3 ∷ [])
                (if b then in_state ready stable else in_state waiting_30 (cut_at t1)))
              (int16 v)
      after_power true = ready-Done t2 (t3 ∷ []) stable ops end
      after_power false =
          cut-Done t1 t2 t3 [] stable ops end (omega (arith, later, small)) small later

      from_write :
          (b : Bool)
          → Done st
              (calls_back v
                (t1 ∷ t2 ∷ t3 ∷ [])
                (if b then in_state ready st else in_state waiting_100 stable))
              (int16 v)
      from_write true = ready-Done t1 (t2 ∷ t3 ∷ []) st ops end
      from_write false =
          let runs =
            next-calls_back t1 (t2 ∷ t3 ∷ []) (in_state waiting_100 stable) ops end
            ∙ ap
                (λ b. calls_back v (t2 ∷ t3 ∷ []) (
                  if b
                  then in_state waiting_100 stable
                  else if st.auto_power_off
                  then in_state ready stable
                  else in_state waiting_30 (cut_at t1)))
                test in
          let d = subst (λ x. Done stable x (int16 v)) (sym runs) (after_power st.auto_power_off) in
          record { gone = d.gone; told = d.told }

      by_state :
          (cs : CallbackState)
          → is_running cs ≡ true
          → Done st (calls_back v (t0 ∷ t1 ∷ t2 ∷ t3 ∷ []) (in_state cs st)) (int16 v)
      by_state after_read r =
          subst (λ x. Done st x (int16 v))
            (sym (next-calls_back t0 (t1 ∷ t2 ∷ t3 ∷ []) (in_state after_read st) ops end))
            (from_read (st.rejoin && not st.auto_power_off))
      by_state after_write r =
          subst (λ x. Done st x (int16 v))
            (sym (next-calls_back t0 (t1 ∷ t2 ∷ t3 ∷ []) (in_state after_write st) ops end))
            (from_write (not st.rejoin && not st.auto_power_off))
      by_state waiting_100 r = cc
      by_state waiting_30 r = cc
      by_state ready r = cc

  -- A value of 16 bits that is no failure to try again is delivered once by four calls of the callback,
  -- if the second comes 100 ms after the first and the third 30 ms after the second, before the clock
  -- wraps; the program is gone then. This is for a program whose end has not begun; the power, the
  -- rejoining and what was done to the decoder make no difference.
  pub calls_back-Done :
      (t0 t1 t2 t3 : ℕ) (st : Ack) (ops : List AckOp)
      → FitsInt16 v
      → AtEnd st ops
      → is_running st.callback_state ≡ true
      → t0 + 100 ≤ t1
      → t1 + 30 ≤ t2
      → t2 < 2 ^ 32
      → Done st (calls_back v (t0 ∷ t1 ∷ t2 ∷ t3 ∷ []) st) v
  calls_back-Done t0 t1 t2 t3 st ops fits end running late later small =
      subst (Done st (calls_back v (t0 ∷ t1 ∷ t2 ∷ t3 ∷ []) st)) (int16-FitsInt16 v fits)
        (narrows-Done t0 t1 t2 t3 st ops end running late later small)
