-- ===== src/Ack/Programs.antt =====
-- DCC.cpp: the programs for the programming track, and the calls that start them.
use command_station_ex.Base.{
  ℕ, zero, suc, ◌*◌, ◌/◌, ◌%◌, Bool, ◌||◌, Option, List, [], ◌∷◌, bit_or, ltb, leb, if◌then◌else◌,
}
use command_station_ex.Base.Int.{negsuc}
use command_station_ex.Ack.{
  AckOp, baseline, w0, w1, wb, vb, v0, v1, wack, itc1, itc0, itcb, itcbv, itcb7, nak_fail,
  call_fail, biv, start_merge, merge, set_byte_h, set_byte_l, stash_loco_id, combine_loco_id,
  it_skip, nak_skip, combine1920, bad20_skip, fail_if_nonzero_nak, skip_target, set_bit, set_cv,
  set_byte, Ack, called, emit, setup, setup_word,
}

-- `V0, WACK, MERGE`, as often as the number says.
abbrev pub merges : ℕ → List AckOp → List AckOp
merges zero ops = ops
merges (suc n) ops = v0 ∷ wack ∷ merge ∷ merges n ops

abbrev pub write_bit0_prog : List AckOp
write_bit0_prog = baseline ∷ w0 ∷ wack ∷ v0 ∷ wack ∷ itc1 ∷ call_fail ∷ []

abbrev pub write_bit1_prog : List AckOp
write_bit1_prog = baseline ∷ w1 ∷ wack ∷ v1 ∷ wack ∷ itc1 ∷ call_fail ∷ []

abbrev pub verify_bit0_prog : List AckOp
verify_bit0_prog = baseline ∷ v0 ∷ wack ∷ itc0 ∷ v1 ∷ wack ∷ itc1 ∷ call_fail ∷ []

abbrev pub verify_bit1_prog : List AckOp
verify_bit1_prog = baseline ∷ v1 ∷ wack ∷ itc1 ∷ v0 ∷ wack ∷ itc0 ∷ call_fail ∷ []

abbrev pub read_bit_prog : List AckOp
read_bit_prog = baseline ∷ v1 ∷ wack ∷ itc1 ∷ v0 ∷ wack ∷ itc0 ∷ call_fail ∷ []

abbrev pub write_byte_prog : List AckOp
write_byte_prog = baseline ∷ wb ∷ wack ∷ itc1 ∷ vb ∷ wack ∷ itc1 ∷ call_fail ∷ []

-- The first bit with its excursion, then the other seven.
abbrev pub read_byte : List AckOp → List AckOp
read_byte ops =
    start_merge
    ∷ v0
    ∷ wack
    ∷ merge
    ∷ it_skip
    ∷ set_bit 7
    ∷ v1
    ∷ wack
    ∷ nak_fail
    ∷ set_bit 6
    ∷ skip_target
    ∷ merges 7 ops

abbrev pub verify_byte_prog : List AckOp
verify_byte_prog =
    baseline ∷ biv ∷ vb ∷ wack ∷ itcb ∷ read_byte (vb ∷ wack ∷ itcbv ∷ call_fail ∷ [])

abbrev pub read_cv_prog : List AckOp
read_cv_prog = baseline ∷ read_byte (vb ∷ wack ∷ itcb ∷ call_fail ∷ [])

-- Reads the address, long or short, without a look at the consist.
abbrev pub read_address_ops : List AckOp
read_address_ops =
    set_cv 29
    ∷ set_bit 5
    ∷ v0
    ∷ wack
    ∷ it_skip
    ∷ set_cv 17
    ∷ start_merge
    ∷ merges 8 (
        vb
        ∷ wack
        ∷ nak_fail
        ∷ stash_loco_id
        ∷ set_cv 18
        ∷ start_merge
        ∷ merges 8 (
            vb
            ∷ wack
            ∷ nak_fail
            ∷ combine_loco_id
            ∷ skip_target
            ∷ set_cv 1
            ∷ start_merge
            ∷ set_bit 6
            ∷ merges 7 (vb ∷ wack ∷ itcb ∷ call_fail ∷ [])))

-- Reads the extended address of a consist out of CVs 20 and 19, if CV 20 has one.
abbrev pub extended_ops : List AckOp → List AckOp
extended_ops ops =
    set_cv 20
    ∷ set_byte 0
    ∷ vb
    ∷ wack
    ∷ it_skip
    ∷ start_merge
    ∷ merges 8 (
        vb
        ∷ wack
        ∷ nak_skip
        ∷ bad20_skip
        ∷ stash_loco_id
        ∷ set_cv 19
        ∷ start_merge
        ∷ merges 8 (vb ∷ wack ∷ nak_fail ∷ combine1920 ∷ skip_target ∷ ops))

abbrev pub loco_driveaway_prog : List AckOp
loco_driveaway_prog =
    baseline
    ∷ extended_ops (
        set_cv 19
        ∷ set_byte 0
        ∷ vb
        ∷ wack
        ∷ it_skip
        ∷ set_byte 128
        ∷ vb
        ∷ wack
        ∷ it_skip
        ∷ start_merge
        ∷ merges 8 (vb ∷ wack ∷ itcb7 ∷ skip_target ∷ read_address_ops))

abbrev pub loco_read_id_prog : List AckOp
loco_read_id_prog = baseline ∷ read_address_ops

abbrev pub loco_read_consist_prog : List AckOp
loco_read_consist_prog =
    baseline
    ∷ extended_ops (
        set_cv 19
        ∷ set_byte 0
        ∷ vb
        ∷ wack
        ∷ itc0
        ∷ set_byte 128
        ∷ vb
        ∷ wack
        ∷ itc0
        ∷ start_merge
        ∷ merges 8 (vb ∷ wack ∷ itcb7 ∷ call_fail ∷ []))

-- Clears the consist in CVs 20 and 19.
abbrev pub clear_consist : List AckOp → List AckOp
clear_consist ops = set_cv 20 ∷ set_byte 0 ∷ wb ∷ wack ∷ set_cv 19 ∷ set_byte 0 ∷ wb ∷ wack ∷ ops

abbrev pub short_loco_id_prog : List AckOp
short_loco_id_prog =
    baseline
    ∷ clear_consist (
        set_cv 29
        ∷ set_bit 5
        ∷ w0
        ∷ wack
        ∷ v0
        ∷ wack
        ∷ nak_fail
        ∷ set_cv 1
        ∷ set_byte_l
        ∷ wb
        ∷ wack
        ∷ itc1
        ∷ vb
        ∷ wack
        ∷ itc1
        ∷ call_fail
        ∷ [])

abbrev pub consist_id_prog : List AckOp
consist_id_prog =
    baseline
    ∷ set_cv 20
    ∷ set_byte_h
    ∷ wb
    ∷ wack
    ∷ it_skip
    ∷ fail_if_nonzero_nak
    ∷ skip_target
    ∷ set_cv 19
    ∷ set_byte_l
    ∷ wb
    ∷ wack
    ∷ itc1
    ∷ vb
    ∷ wack
    ∷ itc1
    ∷ call_fail
    ∷ []

abbrev pub long_loco_id_prog : List AckOp
long_loco_id_prog =
    baseline
    ∷ clear_consist (
        set_cv 29
        ∷ set_bit 5
        ∷ w1
        ∷ wack
        ∷ v1
        ∷ wack
        ∷ nak_fail
        ∷ set_cv 17
        ∷ set_byte_h
        ∷ wb
        ∷ wack
        ∷ it_skip
        ∷ vb
        ∷ wack
        ∷ it_skip
        ∷ call_fail
        ∷ skip_target
        ∷ set_cv 18
        ∷ set_byte_l
        ∷ wb
        ∷ wack
        ∷ itc1
        ∷ vb
        ∷ wack
        ∷ itc1
        ∷ call_fail
        ∷ [])

-- CVs 20 and 19 of a consist address.
pub consist_word : ℕ → ℕ → Bool → ℕ
consist_word highest_short id reverse =
    let cv19 = if leb id highest_short then id else id % 100 in
    let cv20 : ℕ = if leb id highest_short then 0 else id / 100 in
    bit_or (cv20 * 256) (if reverse then bit_or cv19 0x80 else cv19)

-- The calls that start them. `joined` and `driver` are as in `setup`.
module _ (joined : Bool) (driver : Option Bool) where
  unfoldable pub write_cv_byte : ℕ → ℕ → Ack → Ack
  write_cv_byte cv value = setup joined driver cv value write_byte_prog

  unfoldable pub write_cv_bit : ℕ → ℕ → Bool → Ack → Ack
  write_cv_bit cv n value st =
      if leb 8 n
      then emit (called (negsuc 0)) st
      else setup joined driver cv n (if value then write_bit1_prog else write_bit0_prog) st

  unfoldable pub verify_cv_byte : ℕ → ℕ → Ack → Ack
  verify_cv_byte cv value = setup joined driver cv value verify_byte_prog

  unfoldable pub verify_cv_bit : ℕ → ℕ → Bool → Ack → Ack
  verify_cv_bit cv n value st =
      if leb 8 n
      then emit (called (negsuc 0)) st
      else setup joined driver cv n (if value then verify_bit1_prog else verify_bit0_prog) st

  unfoldable pub read_cv_bit : ℕ → ℕ → Ack → Ack
  read_cv_bit cv n st =
      if leb 8 n then emit (called (negsuc 0)) st else setup joined driver cv n read_bit_prog st

  unfoldable pub read_cv : ℕ → Ack → Ack
  read_cv cv = setup joined driver cv 0 read_cv_prog

  unfoldable pub get_driveaway_loco_id : Ack → Ack
  get_driveaway_loco_id = setup joined driver 0 0 loco_driveaway_prog

  unfoldable pub get_loco_id : Ack → Ack
  get_loco_id = setup joined driver 0 0 loco_read_id_prog

  unfoldable pub get_consist_id : Ack → Ack
  get_consist_id = setup joined driver 0 0 loco_read_consist_prog

  unfoldable pub set_loco_id : ℕ → ℕ → Ack → Ack
  set_loco_id highest_short id st =
      if ltb id 1 || ltb 10239 id
      then emit (called (negsuc 0)) st
      else if leb id highest_short
      then setup_word joined driver id short_loco_id_prog st
      else setup_word joined driver (bit_or id 0xC000) long_loco_id_prog st

  unfoldable pub set_consist_id : ℕ → ℕ → Bool → Ack → Ack
  set_consist_id highest_short id reverse st =
      if ltb 10239 id
      then emit (called (negsuc 0)) st
      else setup_word joined driver (consist_word highest_short id reverse) consist_id_prog st
