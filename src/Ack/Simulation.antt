-- ===== src/Ack/Simulation.antt =====
-- The interpreter does what `turn` says of each operation, once enough resets are sent and each
-- message has its verdict.
use command_station_ex.Base.{
  ℕ, ◌+◌, ◌*◌, ◌%◌, ◌≡◌, ◌≤◌, refl, ap, sym, ◌∙◌, subst, Bool, true, false, not, ◌||◌, some, List,
  [], ◌∷◌, bit_or, bit_and, low_byte, high_byte, ltb, ◌==◌, if◌then◌else◌, arith,
}
use command_station_ex.Base.Int.{ℤ, pos, negsuc}
use command_station_ex.Ack.{
  AckOp, baseline, w0, w1, wb, vb, v0, v1, wack, itc1, itc0, itcb, itcbv, itcb7, nak_fail,
  call_fail, biv, start_merge, merge, set_byte_h, set_byte_l, stash_loco_id, combine_loco_id,
  it_skip, nak_skip, combine1920, bad20_skip, fail_if_nonzero_nak, skip_target, set_bit, set_cv,
  set_byte, Ack, Pulse, Event, called, skip, bit_message, byte_message, Inputs, step, step_at, exec,
  callback, after_resets, calls_if, go_on, is_overload, set_ack_baseline, set_ack_pending,
  send_message, CallbackState, after_read, after_write,
}
use command_station_ex.Ack.Decoder.{
  Core, core, Turn, ends, goes, ends_if, asks, turn, settle, tick, last_message,
}

-- A program's end has not begun.
abbrev pub is_running : CallbackState → Bool
is_running after_read = true
is_running after_write = true
is_running _ = false

-- The values with which the callback was called.
abbrev pub calls : List Event → List ℤ
calls [] = []
calls (called v ∷ out) = v ∷ calls out
calls (_ ∷ out) = calls out

-- What no operation changes. The end of a program is not begun by one.
pub record Same (st st' : Ack) : Type 0 where
  pub start : st'.prog_start ≡ st.prog_start
  pub tries : st'.retry ≡ st.retry
  pub joined : st'.rejoin ≡ st.rejoin
  pub switched : st'.auto_power_off ≡ st.auto_power_off
  pub powered : st'.power ≡ st.power
  pub uncalled : calls st'.out ≡ calls st.out
  pub running : is_running st.callback_state ≡ true → is_running st'.callback_state ≡ true

-- The track is not overloaded, and as many resets were sent as any operation waits for.
pub record Ready (i : Inputs) (st : Ack) : Type 0 where
  pub resets : 20 ≤ i.resets
  pub working : is_overload st.power ≡ false

abbrev pub Follows : (List ℕ → Bool) → Inputs → Ack → Ack × Bool → Turn → Type 0
Follows answer i st r (ends v) =
    (st1 : Ack) × (r ≡ (callback i.now v st1, false))
    × Same st st1
    × (st1.prog ≡ st.prog)
    × (st1.pulse.pending ≡ false)
Follows answer i st r (goes c ops) =
    ((settle answer r.0).prog ≡ some ops)
    × (core (settle answer r.0) ≡ c)
    × ((settle answer r.0).pulse.pending ≡ false)
    × Same st (settle answer r.0)

module _ (answer : List ℕ → Bool) (i : Inputs) (st : Ack) (ready : Ready i st)
    (quiet : st.pulse.pending ≡ false) where
  few : (n : ℕ) → n ≤ 20 → ltb i.resets n ≡ false
  few n h = ground (arith, ready.resets, h)

  unchanged_but :
      (st' : Ack)
      → st'.prog_start ≡ st.prog_start
      → st'.retry ≡ st.retry
      → st'.rejoin ≡ st.rejoin
      → st'.auto_power_off ≡ st.auto_power_off
      → st'.power ≡ st.power
      → calls st'.out ≡ calls st.out
      → (is_running st.callback_state ≡ true → is_running st'.callback_state ≡ true)
      → Same st st'
  unchanged_but st' a b c d e f g = record {
    start = a;
    tries = b;
    joined = c;
    switched = d;
    powered = e;
    uncalled = f;
    running = g;
  }

  unchanged : Same st st
  unchanged = record {
    start = refl;
    tries = refl;
    joined = refl;
    switched = refl;
    powered = refl;
    uncalled = refl;
    running = λ r. r;
  }

  -- An operation that sends nothing goes on.
  silent :
      (st' : Ack) (ops : List AckOp)
      → st'.prog ≡ some ops
      → st'.pulse.pending ≡ false
      → Same st st'
      → Follows answer i st (st', true) (goes (core st') ops)
  unfolding settle
  silent st' ops e q s = (
    e,
    ap (λ (d : Bool). let c : Core = record (core st') { verdict = d } in c)
        (kept (last_message answer st'.out) st'.pulse.detected st'.pulse.pending q),
    refl,
    record {
      start = s.start;
      tries = s.tries;
      joined = s.joined;
      switched = s.switched;
      powered = s.powered;
      uncalled = s.uncalled;
      running = s.running;
    },
  )
    where
      kept : (m : List ℕ) (d b : Bool) → b ≡ false → (if b then answer m else d) ≡ d
      kept m d b e = rw e refl

  after_resets-Follows :
      (n : ℕ) (r : Ack × Bool) (t : Turn)
      → n ≤ 20
      → Follows answer i st r t
      → Follows answer i st (after_resets n i st r) t
  after_resets-Follows n r t h f = subst (λ x. Follows answer i st x t) (sym runs) f
    where
      runs : after_resets n i st r ≡ r
      runs = rw (few n h) refl

  calls_if-Follows :
      (test : Bool) (v : ℤ) (ops : List AckOp)
      → Follows answer i st (calls_if test i v ops st) (ends_if test v (core st) ops)
  calls_if-Follows true v ops = (st, refl, unchanged, refl, quiet)
  calls_if-Follows false v ops =
      silent (record st { prog = some ops }) ops refl quiet
        (unchanged_but _ refl refl refl refl refl refl (λ r. r))

  -- A message is sent, and its verdict stands when the next operation runs.
  asks-Follows :
      (m : List ℕ) (cs : CallbackState) (ops : List AckOp)
      → (is_running st.callback_state ≡ true → is_running cs ≡ true)
      → Follows answer i st
          (after_resets 8 i st (go_on ops (record (send_message m i st) { callback_state = cs })))
          (asks answer m (core st) ops)
  unfolding settle send_message set_ack_pending
  asks-Follows m cs ops h =
      after_resets-Follows 8 (go_on ops (record (send_message m i st) { callback_state = cs }))
        (asks answer m (core st) ops) (omega arith)
        (refl, refl, refl, unchanged_but _ refl refl refl refl refl refl h)

  go :
      (st' : Ack) (ops : List AckOp)
      → st'.pulse ≡ st.pulse
      → Same st st'
      → Follows answer i st (go_on ops st') (goes (core st') ops)
  go st' ops p s =
      silent (record st' { prog = some ops }) ops refl (ap (λ (x : Pulse). x.pending) p ∙ quiet)
        (record {
          start = s.start;
          tries = s.tries;
          joined = s.joined;
          switched = s.switched;
          powered = s.powered;
          uncalled = s.uncalled;
          running = s.running;
        })

  -- An operation that only computes.
  computes :
      (c : Core) (ops : List AckOp)
      → Follows answer i st
          (go_on ops (record st {
            byte = c.byte;
            stash = c.stash;
            cv = c.cv;
            bit_num = c.bit_num;
            received = c.received;
          }))
          (goes
            (record (core st) {
              byte = c.byte;
              stash = c.stash;
              cv = c.cv;
              bit_num = c.bit_num;
              received = c.received;
            })
            ops)
  computes c ops =
      go
        (record st {
          byte = c.byte;
          stash = c.stash;
          cv = c.cv;
          bit_num = c.bit_num;
          received = c.received;
        })
        ops refl (unchanged_but _ refl refl refl refl refl refl (λ r. r))

  waits-Follows :
      (ops : List AckOp) → Follows answer i st (exec wack ops i st) (turn answer wack ops (core st))
  unfolding exec turn
  waits-Follows ops =
      subst (λ x. Follows answer i st x (turn answer wack ops (core st)))
        (sym (
          ap
            (λ b. if b then (st, false) else go_on ops (record st { received = st.pulse.detected }))
            quiet))
        (computes (record (core st) { received = st.pulse.detected }) ops)

  baseline-Follows :
      (ops : List AckOp)
      → Follows answer i st (exec baseline ops i st) (turn answer baseline ops (core st))
  unfolding exec turn set_ack_baseline
  baseline-Follows ops =
      let n : ℕ = if st.auto_power_off || st.rejoin then 20 else 3 in
      let st' : Ack = record (set_ack_baseline i st) { callback_state = after_read } in
      let rest = after_resets n i st (go_on ops st') in
      subst (λ x. Follows answer i st x (turn answer baseline ops (core st)))
        (sym (ap (λ b. if b then (st, false) else rest) ready.working))
        (after_resets-Follows n (go_on ops st') (turn answer baseline ops (core st)) (ground arith)
          (silent (record st' { prog = some ops }) ops refl quiet
            (unchanged_but _ refl refl refl refl refl refl (λ r. refl))))

  fails-Follows :
      (test : Bool) (ops : List AckOp)
      → Follows answer i st
          (if test then go_on ops st else (callback i.now (negsuc 3) st, false))
          (if test then goes (core st) ops else ends (negsuc 3))
  fails-Follows true ops = computes (core st) ops
  fails-Follows false ops = (st, refl, unchanged, refl, quiet)

  -- Every operation does what `turn` says of it.
  pub exec-Follows :
      (op : AckOp) (ops : List AckOp)
      → Follows answer i st (exec op ops i st) (turn answer op ops (core st))
  unfolding exec turn send_message set_ack_pending
  exec-Follows baseline ops = baseline-Follows ops
  exec-Follows w0 ops =
      asks-Follows (bit_message 0xF0 0 st.cv st.bit_num) after_write ops (λ r. refl)
  exec-Follows w1 ops =
      asks-Follows (bit_message 0xF0 0x08 st.cv st.bit_num) after_write ops (λ r. refl)
  exec-Follows wb ops = asks-Follows (byte_message 0x7C st.cv st.byte) after_write ops (λ r. refl)
  exec-Follows vb ops =
      asks-Follows (byte_message 0x74 st.cv st.byte) st.callback_state ops (λ r. r)
  exec-Follows v0 ops =
      asks-Follows (bit_message 0xE0 0 st.cv st.bit_num) st.callback_state ops (λ r. r)
  exec-Follows v1 ops =
      asks-Follows (bit_message 0xE0 0x08 st.cv st.bit_num) st.callback_state ops (λ r. r)
  exec-Follows wack ops = waits-Follows ops
  exec-Follows itc0 ops = calls_if-Follows st.received (pos 0) ops
  exec-Follows itc1 ops = calls_if-Follows st.received (pos 1) ops
  exec-Follows itcb ops = calls_if-Follows st.received (pos st.byte) ops
  exec-Follows itcbv ops = calls_if-Follows st.received (pos st.byte) ops
  exec-Follows itcb7 ops = calls_if-Follows st.received (pos (bit_and st.byte 0x7F)) ops
  exec-Follows nak_fail ops = calls_if-Follows (not st.received) (negsuc 0) ops
  exec-Follows call_fail ops = (st, refl, unchanged, refl, quiet)
  exec-Follows biv ops = computes (record (core st) { byte = st.byte_verify }) ops
  exec-Follows start_merge ops = computes (record (core st) { bit_num = 7; byte = 0 }) ops
  exec-Follows merge ops =
      computes
        (record (core st) {
          byte = if st.received then st.byte * 2 % 256 else bit_or (st.byte * 2 % 256) 1;
          bit_num = (st.bit_num + 255) % 256;
        })
        ops
  exec-Follows (set_bit n) ops = computes (record (core st) { bit_num = n }) ops
  exec-Follows (set_cv n) ops = computes (record (core st) { cv = n }) ops
  exec-Follows (set_byte n) ops = computes (record (core st) { byte = n }) ops
  exec-Follows set_byte_h ops = computes (record (core st) { byte = high_byte st.word }) ops
  exec-Follows set_byte_l ops = computes (record (core st) { byte = low_byte st.word }) ops
  exec-Follows stash_loco_id ops = computes (record (core st) { stash = st.byte }) ops
  exec-Follows combine_loco_id ops = (st, refl, unchanged, refl, quiet)
  exec-Follows combine1920 ops = (
    record st { byte = bit_and st.byte 0x7F % 100 },
    refl,
    unchanged_but _ refl refl refl refl refl refl (λ r. r),
    refl,
    quiet,
  )
  exec-Follows it_skip ops = computes (core st) (if st.received then skip ops else ops)
  exec-Follows nak_skip ops = computes (core st) (if not st.received then skip ops else ops)
  exec-Follows bad20_skip ops = computes (core st) (if ltb 120 st.byte then skip ops else ops)
  exec-Follows fail_if_nonzero_nak ops = fails-Follows (st.byte == 0) ops
  exec-Follows skip_target ops = computes (core st) ops

  pub step-exec :
      (op : AckOp) (ops : List AckOp) → st.prog ≡ some (op ∷ ops) → step i st ≡ exec op ops i st
  unfolding step step_at
  step-exec op ops e = ap (λ o. step_at o i st) e

  -- A program starts with the state in which its end has not begun.
  pub baseline_starts :
      (ops : List AckOp)
      → st.prog ≡ some (baseline ∷ ops)
      → (tick answer i st).callback_state ≡ after_read
  unfolding exec tick settle set_ack_baseline
  baseline_starts ops e =
      let n : ℕ = if st.auto_power_off || st.rejoin then 20 else 3 in
      let st' : Ack = record (set_ack_baseline i st) { callback_state = after_read } in
      let small : n ≤ 20 = ground arith in
      let runs : exec baseline ops i st ≡ go_on ops st' =
        ap (λ b. if b then (st, false) else after_resets n i st (go_on ops st')) ready.working
        ∙ ap (λ (b : Bool). if b then (st, false) else go_on ops st') (few n small) in
      ap (λ (r : Ack × Bool). r.0.callback_state) (step-exec baseline ops e ∙ runs)
