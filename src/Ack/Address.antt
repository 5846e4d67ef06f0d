-- ===== src/Ack/Address.antt =====
-- What the program that reads a loco's address gives, long or short.
use command_station_ex.Base.{
  ℕ, suc, ◌+◌, ◌-◌, ◌*◌, ◌≤◌, ◌≡◌, ◌<◌, refl, ap, ap₂, sym, ◌∙◌, Bool, true, false, not, bit_or,
  bit_and, ltb, passes_below, passes_at, Option, some, List, [], ◌∷◌, arith, ◌==◌, ==_iff,
  if◌then◌else◌, Bool-cases, inl, inr,
}
use command_station_ex.Base.Int.{ℤ, pos, negsuc, FitsInt16}
use command_station_ex.Ack.{
  AckOp, vb, wack, itcb, call_fail, nak_fail, stash_loco_id, combine_loco_id, skip_target,
  start_merge, skip, set_bit, set_cv, bit_message, byte_message, long_loco_id, is_failure,
}
use command_station_ex.Ack.Programs.{merges, loco_read_id_prog}
use command_station_ex.Ack.Decoder.{Core, Turn, ends, goes, ends_if, turn, eval}
use command_station_ex.Ack.Reading.{
  Answers, bit_of, tail_of, triples, read_down_low, merged, merged-Reads, eval-merges, eval-byte,
}

marker_table : passes_below (λ x. bit_or 0x4000 x == 16384 + x) 10240 ≡ true
unfolding passes_below
marker_table = refl

long_loco_id_marked :
    (stash byte : ℕ)
    → 192 ≤ stash
    → stash ≤ 231
    → byte < 256
    → long_loco_id stash byte ≡ pos (16384 + ((stash - 192) * 256 + byte))
unfolding long_loco_id
long_loco_id_marked stash byte from to small =
    let x = byte + (stash - 192) * 256 in
    let in_range : ltb stash 192 ≡ false = ground (arith, from) in
    let marked : bit_or 0x4000 x ≡ 16384 + x =
      (==_iff _ _).0 (passes_at _ 10240 x (omega (arith, from, to, small)) marker_table) in
    ap
      (λ b.
        let k = (192 - stash) * 256 - byte - 1 in
        if b then negsuc (k - bit_and k 0x4000) else pos (bit_or 0x4000 x))
      in_range
    ∙ ap (λ n. pos n) (marked ∙ omega arith)

module _ (answer : List ℕ → Bool) (m : ℕ → ℕ) (a : Answers answer m) where
  abbrev after_wack : Turn → ℕ → Option ℤ
  after_wack t f = elim t [ ends v ↦ some v | goes c' ops' ↦ eval answer f ops' c' ]

  -- CV 29 is asked for its bit 5, which says whether the address is long.
  abbrev asked : Bool → Core → Core
  asked x c = record c { cv = 29; bit_num = 5; received = x; verdict = x }

  -- The short address stands in CV 1, whose highest bit is not read.
  short_address :
      (f : ℕ) (c : Core)
      → m 1 < 128
      → eval answer
          (suc (suc (suc (triples 7 (suc (suc (suc f)))))))
          (set_cv 1 ∷ start_merge ∷ set_bit 6 ∷ merges 7 (vb ∷ wack ∷ itcb ∷ call_fail ∷ []))
          c
        ≡ some (pos (m 1))
  unfolding eval turn
  short_address f c low =
      let c1 : Core = record c { cv = 1; bit_num = 6; byte = 0 } in
      let d = merged answer 7 c1 in
      let r =
        merged-Reads answer m a 7 c1 (omega arith) (omega arith) (omega arith) (omega arith)
          (omega arith) in
      let got : d.byte ≡ m 1 = r.byte_read ∙ read_down_low (m 1) (a.small 1) ∙ omega (arith, low) in
      let known : answer (byte_message 0x74 d.cv d.byte) ≡ true =
        ap₂ (λ k b. answer (byte_message 0x74 k b)) r.cv_same got
        ∙ a.whole 1 (m 1) (omega arith) (omega arith) (a.small 1)
        ∙ (==_iff (m 1) (m 1)).1 refl in
      eval-merges answer 7 (suc (suc (suc f))) (vb ∷ wack ∷ itcb ∷ call_fail ∷ []) c1
      ∙ ap
          (λ (x : Bool).
            after_wack
              (ends_if x (pos d.byte)
                (record d {
                  received = answer (byte_message 0x74 d.cv d.byte);
                  verdict = answer (byte_message 0x74 d.cv d.byte);
                })
                (call_fail ∷ []))
              f)
          known
      ∙ ap (λ b. some (pos b)) got

  -- The long address stands in CVs 17 and 18.
  long_address :
      (f : ℕ) (ops : List AckOp) (c : Core)
      → eval answer
          (suc (
            suc (
              triples 8 (suc (suc (suc (suc (suc (suc (triples 8 (suc (suc (suc (suc f))))))))))))))
          (set_cv 17
            ∷ start_merge
            ∷ merges 8 (
                vb
                ∷ wack
                ∷ nak_fail
                ∷ stash_loco_id
                ∷ set_cv 18
                ∷ start_merge
                ∷ merges 8 (vb ∷ wack ∷ nak_fail ∷ combine_loco_id ∷ ops)))
          c
        ≡ some (long_loco_id (m 17) (m 18))
  unfolding eval turn
  long_address f ops c =
      let last = vb ∷ wack ∷ nak_fail ∷ combine_loco_id ∷ ops in
      let c1 : Core = record c { cv = 17; bit_num = 7; byte = 0 } in
      let (d, runs, got, cv_same, stash_same, known) =
        eval-byte answer m a (suc (suc (suc (suc (triples 8 (suc (suc (suc (suc f)))))))))
          (nak_fail ∷ stash_loco_id ∷ set_cv 18 ∷ start_merge ∷ merges 8 last) c1 (omega arith)
          (omega arith) refl refl in
      let c2 : Core = record d { stash = d.byte; cv = 18; bit_num = 7; byte = 0 } in
      let (d2, runs2, got2, cv_same2, stash_same2, known2) =
        eval-byte answer m a (suc (suc f)) (nak_fail ∷ combine_loco_id ∷ ops) c2 (omega arith)
          (omega arith) refl refl in
      runs
      ∙ ap
          (λ (x : Bool).
            after_wack
              (ends_if (not x) (negsuc 0) d
                (stash_loco_id ∷ set_cv 18 ∷ start_merge ∷ merges 8 last))
              (suc (suc (suc (triples 8 (suc (suc (suc (suc f)))))))))
          known
      ∙ runs2
      ∙ ap
          (λ (x : Bool). after_wack (ends_if (not x) (negsuc 0) d2 (combine_loco_id ∷ ops)) (suc f))
          known2
      ∙ ap₂ (λ s b. some (long_loco_id s b)) (stash_same2 ∙ got) got2

  -- What the program computes of CV 1, or of CVs 17 and 18 if bit 5 of CV 29 is set.
  unfoldable stored_address : ℤ
  stored_address = if bit_of (m 29) 5 == 0 then pos (m 1) else long_loco_id (m 17) (m 18)

  eval-stored_address :
      (c : Core)
      → ((bit_of (m 29) 5 == 0) ≡ true → m 1 < 128)
      → eval answer 65 (tail_of loco_read_id_prog) c ≡ some stored_address
  unfolding eval turn skip stored_address
  eval-stored_address c low =
      let told = a.zero_bit 29 5 (omega arith) (omega arith) (omega arith) in
      let x = answer (bit_message 0xE0 0 29 5) in
      elim (Bool-cases (bit_of (m 29) 5 == 0)) [
        | inl short ↦
            ap
              (λ (y : Bool). eval answer 60 (if y then skip after_skip else after_skip) (asked x c))
              (told ∙ short)
            ∙ short_address 33 (asked x c) (low short)
            ∙ ap (λ (y : Bool). some (if y then pos (m 1) else long_loco_id (m 17) (m 18)))
                (sym short)
        | inr long ↦
            ap
              (λ (y : Bool). eval answer 60 (if y then skip after_skip else after_skip) (asked x c))
              (told ∙ long)
            ∙ long_address 0 short_ops (asked x c)
            ∙ ap (λ (y : Bool). some (if y then pos (m 1) else long_loco_id (m 17) (m 18)))
                (sym long)
      ]
    where
      short_ops : List AckOp
      short_ops =
          skip_target
          ∷ set_cv 1
          ∷ start_merge
          ∷ set_bit 6
          ∷ merges 7 (vb ∷ wack ∷ itcb ∷ call_fail ∷ [])

      after_skip : List AckOp
      after_skip =
          set_cv 17
          ∷ start_merge
          ∷ merges 8 (
              vb
              ∷ wack
              ∷ nak_fail
              ∷ stash_loco_id
              ∷ set_cv 18
              ∷ start_merge
              ∷ merges 8 (vb ∷ wack ∷ nak_fail ∷ combine_loco_id ∷ short_ops))

  -- The address of a loco as its CVs hold it: CV 1, or if bit 5 of CV 29 is set the marker of long
  -- addresses, 16384, and the address in CVs 17 and 18, of which CV 17 counts from 192.
  unfoldable pub reported_address : ℤ
  reported_address =
      if bit_of (m 29) 5 == 0 then pos (m 1) else pos (16384 + ((m 17 - 192) * 256 + m 18))

  pub reported_address-FitsInt16 :
      ((bit_of (m 29) 5 == 0) ≡ true → m 1 < 128)
      → ((bit_of (m 29) 5 == 0) ≡ false → (192 ≤ m 17) × (m 17 ≤ 231))
      → FitsInt16 reported_address × (is_failure reported_address ≡ false)
  unfolding reported_address
  reported_address-FitsInt16 low range = elim (Bool-cases (bit_of (m 29) 5 == 0)) [
    | inl short ↦
        let below = low short in
        let fits : m 1 < 32768 = omega (arith, below) in rw (short, reported_address) (fits, refl)
    | inr long ↦
        let (from, to) = range long in
        let small = a.small 18 in
        let fits : 16384 + ((m 17 - 192) * 256 + m 18) < 32768 = omega (arith, from, to, small) in
        rw (long, reported_address) (fits, refl)
  ]

  -- The program that reads the address of a loco ends with it, if a short one is below 128 and a
  -- long one in its range.
  pub eval-loco_read_id_prog :
      (c : Core)
      → ((bit_of (m 29) 5 == 0) ≡ true → m 1 < 128)
      → ((bit_of (m 29) 5 == 0) ≡ false → (192 ≤ m 17) × (m 17 ≤ 231))
      → eval answer 65 (tail_of loco_read_id_prog) c ≡ some reported_address
  unfolding stored_address reported_address
  eval-loco_read_id_prog c low range = elim (Bool-cases (bit_of (m 29) 5 == 0)) [
    | inl short ↦ eval-stored_address c low ∙ rw (short, stored_address) refl
    | inr long ↦
        let (from, to) = range long in
        eval-stored_address c low
        ∙ rw (long, stored_address)
            (ap (λ v. some v) (long_loco_id_marked (m 17) (m 18) from to (a.small 18)))
  ]
