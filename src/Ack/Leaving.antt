-- ===== src/Ack/Leaving.antt =====
-- The loop of the interpreter comes to an end at each call.
use command_station_ex.Base.{
  ℕ, zero, suc, ◌≡◌, ◌≤◌, ◌<◌, refl, ap, sym, ◌∙◌, subst, Bool, true, false, not, bit_and, ◌||◌,
  Option, some, List, [], ◌∷◌, length, arith, ltb, ◌==◌, if◌then◌else◌,
}
use command_station_ex.Base.Int.{ℤ, pos, negsuc}
use command_station_ex.Ack.{
  AckOp, baseline, w0, w1, wb, vb, v0, v1, wack, itc1, itc0, itcb, itcbv, itcb7, nak_fail,
  call_fail, biv, start_merge, merge, set_byte_h, set_byte_l, stash_loco_id, combine_loco_id,
  it_skip, nak_skip, combine1920, bad20_skip, fail_if_nonzero_nak, skip_target, set_bit, set_cv,
  set_byte, Ack, Inputs, skip, exec, step_at, step, loop, after_resets, calls_if, go_on, finish,
  is_overload, set_ack_baseline, after_read, CallbackState, after_write, send_message,
  set_ack_pending, bit_message, byte_message,
}

-- One call of the loop: operations that go on, then one that does not.
pub data Leaves (i : Inputs) : Ack → Ack → Type 0 where
  leaves : (st st' : Ack) → step i st ≡ (st', false) → Leaves i st st'
  continues : (st next st' : Ack) → step i st ≡ (next, true) → Leaves i next st' → Leaves i st st'

-- The operation leaves the loop, or leaves a shorter program.
abbrev Shortens : ℕ → Ack × Bool → Type 0
Shortens n r = (r.1 ≡ true) → (ops : List AckOp) × (r.0.prog ≡ some ops) × (length ops ≤ n)

skip_shortens : (ops : List AckOp) → length (skip ops) ≤ length ops
unfolding skip
skip_shortens [] = omega arith
skip_shortens (skip_target ∷ ops) = omega arith
skip_shortens (_ ∷ ops) = omega (arith, skip_shortens ops)

module _ (i : Inputs) where
  on :
      (ops : List AckOp) (n : ℕ)
      → length ops ≤ n
      → true ≡ true
      → (ops' : List AckOp) × (some ops ≡ some ops') × (length ops' ≤ n)
  on ops n h e = (ops, refl, h)

  off : {A : Type 0} → false ≡ true → A
  off e = cc

  after :
      (m : ℕ) (st : Ack) (r : Ack × Bool) (n : ℕ)
      → Shortens n r
      → Shortens n (after_resets m i st r)
  after m st r n h = either (ltb i.resets m)
    where
      either : (b : Bool) → Shortens n (if b then (st, false) else r)
      either true = off
      either false = h

  sends :
      (m : List ℕ) (cs : CallbackState) (ops : List AckOp) (st : Ack)
      → Shortens
          (length ops)
          (after_resets 8 i st (go_on ops (record (send_message m i st) { callback_state = cs })))
  sends m cs ops st =
      after 8 st (go_on ops (record (send_message m i st) { callback_state = cs })) (length ops)
        (on ops (length ops) (omega arith))

  ends_if :
      (test : Bool) (v : ℤ) (ops : List AckOp) (st : Ack)
      → Shortens (length ops) (calls_if test i v ops st)
  ends_if true v ops st = off
  ends_if false v ops st = on ops (length ops) (omega arith)

  skips :
      (test : Bool) (ops : List AckOp) (st : Ack)
      → Shortens (length ops) (go_on (if test then skip ops else ops) st)
  skips true ops st = on (skip ops) (length ops) (skip_shortens ops)
  skips false ops st = on ops (length ops) (omega arith)

  pub exec_shortens :
      (op : AckOp) (ops : List AckOp) (st : Ack) → Shortens (length ops) (exec op ops i st)
  unfolding exec send_message set_ack_pending set_ack_baseline
  exec_shortens baseline ops st = either (is_overload st.power)
    where
      either :
          (b : Bool)
          → Shortens (length ops) (
              if b
              then (st, false)
              else after_resets
                  (if st.auto_power_off || st.rejoin then 20 else 3)
                  i
                  st
                  (go_on ops (record (set_ack_baseline i st) { callback_state = after_read })))
      either true = off
      either false =
          after (if st.auto_power_off || st.rejoin then 20 else 3) st
            (go_on ops (record (set_ack_baseline i st) { callback_state = after_read }))
            (length ops) (on ops (length ops) (omega arith))
  exec_shortens w0 ops st = sends (bit_message 0xF0 0 st.cv st.bit_num) after_write ops st
  exec_shortens w1 ops st = sends (bit_message 0xF0 0x08 st.cv st.bit_num) after_write ops st
  exec_shortens wb ops st = sends (byte_message 0x7C st.cv st.byte) after_write ops st
  exec_shortens vb ops st = sends (byte_message 0x74 st.cv st.byte) st.callback_state ops st
  exec_shortens v0 ops st = sends (bit_message 0xE0 0 st.cv st.bit_num) st.callback_state ops st
  exec_shortens v1 ops st = sends (bit_message 0xE0 0x08 st.cv st.bit_num) st.callback_state ops st
  exec_shortens wack ops st = either st.pulse.pending
    where
      either :
          (b : Bool)
          → Shortens
              (length ops)
              (if b then (st, false) else go_on ops (record st { received = st.pulse.detected }))
      either true = off
      either false = on ops (length ops) (omega arith)
  exec_shortens itc0 ops st = ends_if st.received (pos 0) ops st
  exec_shortens itc1 ops st = ends_if st.received (pos 1) ops st
  exec_shortens itcb ops st = ends_if st.received (pos st.byte) ops st
  exec_shortens itcbv ops st = ends_if st.received (pos st.byte) ops st
  exec_shortens itcb7 ops st = ends_if st.received (pos (bit_and st.byte 0x7F)) ops st
  exec_shortens nak_fail ops st = ends_if (not st.received) (negsuc 0) ops st
  exec_shortens call_fail ops st = off
  exec_shortens combine_loco_id ops st = off
  exec_shortens combine1920 ops st = off
  exec_shortens biv ops st = on ops (length ops) (omega arith)
  exec_shortens start_merge ops st = on ops (length ops) (omega arith)
  exec_shortens merge ops st = on ops (length ops) (omega arith)
  exec_shortens (set_bit n) ops st = on ops (length ops) (omega arith)
  exec_shortens (set_cv n) ops st = on ops (length ops) (omega arith)
  exec_shortens (set_byte n) ops st = on ops (length ops) (omega arith)
  exec_shortens set_byte_h ops st = on ops (length ops) (omega arith)
  exec_shortens set_byte_l ops st = on ops (length ops) (omega arith)
  exec_shortens stash_loco_id ops st = on ops (length ops) (omega arith)
  exec_shortens skip_target ops st = on ops (length ops) (omega arith)
  exec_shortens it_skip ops st = skips st.received ops st
  exec_shortens nak_skip ops st = skips (not st.received) ops st
  exec_shortens bad20_skip ops st = skips (ltb 120 st.byte) ops st
  exec_shortens fail_if_nonzero_nak ops st = either (st.byte == 0)
    where
      either :
          (b : Bool)
          → Shortens (length ops) (if b then go_on ops st else finish i.now (negsuc 3) st)
      either true = on ops (length ops) (omega arith)
      either false = off

  abbrev after_step : ℕ → Ack × Bool → Ack
  after_step fuel r = elim r.1 [ true ↦ loop fuel i r.0 | false ↦ r.0 ]

  none_below : {n : ℕ} → n < 0 → ⊥
  none_below h = omega (arith, h)

  -- A fuel above the length of the program is enough for the loop to come to its end.
  pub loop-Leaves :
      (fuel : ℕ) (ops : List AckOp) (st : Ack)
      → st.prog ≡ some ops
      → length ops < fuel
      → Leaves i st (loop fuel i st)
  unfolding loop step step_at
  loop-Leaves zero ops st e h = elim (none_below h) [ ]
  loop-Leaves (suc fuel) [] st e h =
      let stops : step i st ≡ (st, false) = ap (λ (o : Option (List AckOp)). step_at o i st) e in
      subst (Leaves i st) (sym (ap (λ (r : Ack × Bool). after_step fuel r) stops))
        (leaves st st stops)
  loop-Leaves (suc fuel) (op ∷ ops) st e h =
      let runs : step i st ≡ exec op ops i st =
        ap (λ (o : Option (List AckOp)). step_at o i st) e in
      by_flag (step i st) refl (λ on.
        let (ops', e', shorter) =
          exec_shortens op ops st (ap (λ (r : Ack × Bool). r.1) (sym runs) ∙ on) in
        loop-Leaves fuel ops' (step i st).0 (ap (λ (r : Ack × Bool). r.0.prog) runs ∙ e')
          (omega (arith, h, shorter)))
    where
      by_flag :
          (r : Ack × Bool)
          → step i st ≡ r
          → (r.1 ≡ true → Leaves i r.0 (loop fuel i r.0))
          → Leaves i st (after_step fuel r)
      by_flag (next, true) e rest = continues st next (loop fuel i next) e (rest refl)
      by_flag (next, false) e rest = leaves st next e

  -- The end of a call is determined.
  pub Leaves-unique : (st a b : Ack) → Leaves i st a → Leaves i st b → a ≡ b
  Leaves-unique st a b (leaves _ _ e) (leaves _ _ f) = ap (λ (r : Ack × Bool). r.0) (sym e ∙ f)
  Leaves-unique st a b (leaves _ _ e) (continues _ next _ f m) = cc
  Leaves-unique st a b (continues _ next _ e l) (leaves _ _ f) = cc
  Leaves-unique st a b (continues _ next _ e l) (continues _ next' _ f m) =
      Leaves-unique next a b l
        (subst (λ x. Leaves i x b) (ap (λ (r : Ack × Bool). r.0) (sym f ∙ e)) m)
