-- ===== src/Ack/Decoder.antt =====
-- The programs without time: what a program gives when each message is answered at once.
use command_station_ex.Base.{
  ℕ, zero, suc, ◌+◌, ◌*◌, ◌%◌, Bool, false, not, Option, none, some, List, [], ◌∷◌, bit_or, bit_and,
  low_byte, high_byte, ltb, ◌==◌, if◌then◌else◌,
}
use command_station_ex.Base.Int.{ℤ, pos, negsuc}
use command_station_ex.Ack.{
  AckOp, baseline, w0, w1, wb, vb, v0, v1, wack, itc1, itc0, itcb, itcbv, itcb7, nak_fail,
  call_fail, biv, start_merge, merge, set_byte_h, set_byte_l, stash_loco_id, combine_loco_id,
  it_skip, nak_skip, combine1920, bad20_skip, fail_if_nonzero_nak, skip_target, set_bit, set_cv,
  set_byte, Ack, Pulse, Event, sent, skip, bit_message, byte_message, long_loco_id, Inputs, step,
}

-- What the operations compute with. `verdict` is the answer to the last message.
pub record Core : Type 0 where
  pub byte : ℕ
  pub verify : ℕ
  pub stash : ℕ
  pub word : ℕ
  pub cv : ℕ
  pub bit_num : ℕ
  pub received : Bool
  pub verdict : Bool

abbrev pub core : Ack → Core
core st = record {
  byte = st.byte;
  verify = st.byte_verify;
  stash = st.stash;
  word = st.word;
  cv = st.cv;
  bit_num = st.bit_num;
  received = st.received;
  verdict = st.pulse.detected;
}

-- An operation ends the program with a value, or leaves the rest of it.
pub data Turn : Type 0 where
  ends : ℤ → Turn
  goes : Core → List AckOp → Turn

abbrev pub ends_if : Bool → ℤ → Core → List AckOp → Turn
ends_if test v c ops = if test then ends v else goes c ops

module _ (answer : List ℕ → Bool) where
  abbrev pub asks : List ℕ → Core → List AckOp → Turn
  asks m c ops = goes (record c { verdict = answer m }) ops

  unfoldable pub turn : AckOp → List AckOp → Core → Turn
  turn baseline ops c = goes c ops
  turn w0 ops c = asks (bit_message 0xF0 0 c.cv c.bit_num) c ops
  turn w1 ops c = asks (bit_message 0xF0 0x08 c.cv c.bit_num) c ops
  turn wb ops c = asks (byte_message 0x7C c.cv c.byte) c ops
  turn vb ops c = asks (byte_message 0x74 c.cv c.byte) c ops
  turn v0 ops c = asks (bit_message 0xE0 0 c.cv c.bit_num) c ops
  turn v1 ops c = asks (bit_message 0xE0 0x08 c.cv c.bit_num) c ops
  turn wack ops c = goes (record c { received = c.verdict }) ops
  turn itc0 ops c = ends_if c.received (pos 0) c ops
  turn itc1 ops c = ends_if c.received (pos 1) c ops
  turn itcb ops c = ends_if c.received (pos c.byte) c ops
  turn itcbv ops c = ends_if c.received (pos c.byte) c ops
  turn itcb7 ops c = ends_if c.received (pos (bit_and c.byte 0x7F)) c ops
  turn nak_fail ops c = ends_if (not c.received) (negsuc 0) c ops
  turn call_fail ops c = ends (negsuc 0)
  turn biv ops c = goes (record c { byte = c.verify }) ops
  turn start_merge ops c = goes (record c { bit_num = 7; byte = 0 }) ops
  turn merge ops c =
      goes
        (record c {
          byte = if c.received then c.byte * 2 % 256 else bit_or (c.byte * 2 % 256) 1;
          bit_num = (c.bit_num + 255) % 256;
        })
        ops
  turn (set_bit n) ops c = goes (record c { bit_num = n }) ops
  turn (set_cv n) ops c = goes (record c { cv = n }) ops
  turn (set_byte n) ops c = goes (record c { byte = n }) ops
  turn set_byte_h ops c = goes (record c { byte = high_byte c.word }) ops
  turn set_byte_l ops c = goes (record c { byte = low_byte c.word }) ops
  turn stash_loco_id ops c = goes (record c { stash = c.byte }) ops
  turn combine_loco_id ops c = ends (long_loco_id c.stash c.byte)
  turn combine1920 ops c = ends (pos (c.stash * 100 + bit_and c.byte 0x7F % 100))
  turn it_skip ops c = goes c (if c.received then skip ops else ops)
  turn nak_skip ops c = goes c (if not c.received then skip ops else ops)
  turn bad20_skip ops c = goes c (if ltb 120 c.byte then skip ops else ops)
  turn fail_if_nonzero_nak ops c = if c.byte == 0 then goes c ops else ends (negsuc 3)
  turn skip_target ops c = goes c ops

  -- The value with which a program ends, with a fuel of its length.
  unfoldable pub eval : ℕ → List AckOp → Core → Option ℤ
  eval zero ops c = none
  eval (suc fuel) [] c = none
  eval (suc fuel) (op ∷ ops) c = elim (turn op ops c) [
    | ends v ↦ some v
    | goes c' ops' ↦ eval fuel ops' c'
  ]

  abbrev pub last_message : List Event → List ℕ
  last_message [] = []
  last_message (sent m n ∷ out) = m
  last_message (_ ∷ out) = last_message out

  -- The interrupt has come to a verdict on a message that waits for one.
  abbrev pub judged : List ℕ → Pulse → Pulse
  judged m p = record p { pending = false; detected = if p.pending then answer m else p.detected }

  unfoldable pub settle : Ack → Ack
  settle st = record st { pulse = judged (last_message st.out) st.pulse }

  -- One operation, and the verdict on what it sent.
  unfoldable pub tick : Inputs → Ack → Ack
  tick i st = settle (step i st).0

  unfoldable pub ticks : ℕ → Inputs → Ack → Ack
  ticks zero i st = st
  ticks (suc k) i st = ticks k i (tick i st)
