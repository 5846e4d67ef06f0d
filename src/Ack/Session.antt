-- ===== src/Ack/Session.antt =====
-- A program runs to its end: the operations one after the other, each message with its verdict.
use command_station_ex.Base.{
  ℕ, zero, suc, ◌≡◌, ap, sym, ◌∙◌, subst, Bool, true, false, Option, some, List, [], ◌∷◌,
}
use command_station_ex.Base.Int.{ℤ}
use command_station_ex.Ack.{AckOp, Ack, baseline, Inputs, step, callback, is_overload}
use command_station_ex.Ack.Decoder.{core, Turn, ends, goes, turn, eval, tick, ticks}
use command_station_ex.Ack.Simulation.{
  is_running, Same, Ready, Follows, exec-Follows, step-exec, baseline_starts,
}

pub Same-trans : (a b c : Ack) → Same a b → Same b c → Same a c
Same-trans a b c s t = record {
  start = t.start ∙ s.start;
  tries = t.tries ∙ s.tries;
  joined = t.joined ∙ s.joined;
  switched = t.switched ∙ s.switched;
  powered = t.powered ∙ s.powered;
  uncalled = t.uncalled ∙ s.uncalled;
  running = λ r. t.running (s.running r);
}

-- After some operations the callback is reached with a value; until then it was not called.
pub record Ending (answer : List ℕ → Bool) (i : Inputs) (st : Ack) (v : ℤ) : Type 0 where
  pub count : ℕ
  pub last : Ack
  pub runs : step i (ticks answer count i st) ≡ (callback i.now v last, false)
  pub same : Same st last
  pub at : (ops : List AckOp) × (last.prog ≡ some ops)
  pub calm : last.pulse.pending ≡ false

module _ (answer : List ℕ → Bool) (i : Inputs) where
  pub eval-Ending :
      (fuel : ℕ) (ops : List AckOp) (st : Ack) (v : ℤ)
      → st.prog ≡ some ops
      → Ready i st
      → st.pulse.pending ≡ false
      → eval answer fuel ops (core st) ≡ some v
      → Ending answer i st v
  unfolding eval ticks tick
  eval-Ending zero ops st v e ready quiet h = cc
  eval-Ending (suc fuel) [] st v e ready quiet h = cc
  eval-Ending (suc fuel) (op ∷ ops) st v e ready quiet h =
      by_turn (λ ops' st' e' ready' quiet' h'. eval-Ending fuel ops' st' v e' ready' quiet' h')
        (turn answer op ops (core st)) h
        (subst (λ r. Follows answer i st r (turn answer op ops (core st)))
          (sym (step-exec answer i st ready quiet op ops e))
          (exec-Follows answer i st ready quiet op ops))
    where
      by_turn :
          ((ops' : List AckOp) (st' : Ack)
            → st'.prog ≡ some ops'
            → Ready i st'
            → st'.pulse.pending ≡ false
            → eval answer fuel ops' (core st') ≡ some v
            → Ending answer i st' v)
          → (t : Turn)
          → (elim t as (λ x. Option ℤ) [
            | ends w ↦ some w
            | goes c' ops' ↦ eval answer fuel ops' c'
          ])
            ≡ some v
          → Follows answer i st (step i st) t
          → Ending answer i st v
      by_turn again (ends w) q (st1, runs, same, at, calm) =
          let w' : w ≡ v = cc in
          record {
            count = 0;
            last = st1;
            runs = runs ∙ ap (λ x. (callback i.now x st1, false)) w';
            same = same;
            at = (op ∷ ops, at ∙ e);
            calm = calm;
          }
      by_turn again (goes c' ops') q (e', ec, p, same) =
          let next = tick answer i st in
          let rest =
            again ops' next e'
              (record {
                resets = ready.resets;
                working = ap is_overload same.powered ∙ ready.working;
              })
              p (ap (eval answer fuel ops') ec ∙ q) in
          record {
            count = suc rest.count;
            last = rest.last;
            runs = rest.runs;
            same = Same-trans st next rest.last same rest.same;
            at = rest.at;
            calm = rest.calm;
          }

  -- If the evaluation of a program without time gives a value, then the interpreter, operation by
  -- operation and with a verdict after each message, runs the program from its baseline to a callback
  -- with that value; until then the function was not called and the end has not begun. This is for a
  -- track that is not overloaded, waits for no verdict and has sent twenty resets.
  pub program-Ending :
      (fuel : ℕ) (ops : List AckOp) (st : Ack) (v : ℤ)
      → st.prog ≡ some (baseline ∷ ops)
      → Ready i st
      → st.pulse.pending ≡ false
      → eval answer fuel ops (core st) ≡ some v
      → (end : Ending answer i st v) × (is_running end.last.callback_state ≡ true)
  unfolding ticks tick turn
  program-Ending fuel ops st v e ready quiet h =
      let next = tick answer i st in
      let (e', ec, p, same) =
        subst (λ r. Follows answer i st r (goes (core st) ops))
          (sym (step-exec answer i st ready quiet baseline ops e))
          (exec-Follows answer i st ready quiet baseline ops) in
      let rest =
        eval-Ending fuel ops next v e'
          (record { resets = ready.resets; working = ap is_overload same.powered ∙ ready.working })
          p (ap (eval answer fuel ops) ec ∙ h) in
      (
        record {
          count = suc rest.count;
          last = rest.last;
          runs = rest.runs;
          same = Same-trans st next rest.last same rest.same;
          at = rest.at;
          calm = rest.calm;
        },
        rest.same.running (ap is_running (baseline_starts answer i st ready quiet ops e)),
      )
