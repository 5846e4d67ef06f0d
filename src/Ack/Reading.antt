-- ===== src/Ack/Reading.antt =====
-- What the programs that read give for a decoder that answers by the values of its CVs.
use command_station_ex.Base.{
  ℕ, zero, suc, ◌+◌, ◌*◌, ◌/◌, ◌%◌, ◌^◌, ◌≡◌, ◌≤◌, ◌<◌, refl, ap, ap₂, ◌∙◌, Bool, true, false, not,
  Option, some, List, [], ◌∷◌, bit_or, arith, ◌==◌, ==_iff, if◌then◌else◌, Bool-cases, inl, inr,
  passes_below, passes_at,
}
use command_station_ex.Base.Int.{ℤ, pos, negsuc}
use command_station_ex.Ack.{
  AckOp, vb, v1, nak_fail, skip_target, wack, itcb, itcbv, call_fail, skip, set_bit, bit_message,
  byte_message,
}
use command_station_ex.Ack.Programs.{merges, read_byte, read_cv_prog, verify_byte_prog}
use command_station_ex.Ack.Decoder.{Core, ends, goes, ends_if, turn, eval}

-- The bit `n` of a value.
abbrev pub bit_of : ℕ → ℕ → ℕ
bit_of v n = v / 2 ^ n % 2

-- A decoder whose CVs hold `m`: it acknowledges what is true of them.
pub record Answers (answer : List ℕ → Bool) (m : ℕ → ℕ) : Type 0 where
  pub zero_bit :
      (cv n : ℕ)
      → 1 ≤ cv
      → cv ≤ 1024
      → n < 8
      → answer (bit_message 0xE0 0 cv n) ≡ (bit_of (m cv) n == 0)
  pub one_bit :
      (cv n : ℕ)
      → 1 ≤ cv
      → cv ≤ 1024
      → n < 8
      → answer (bit_message 0xE0 0x08 cv n) ≡ (bit_of (m cv) n == 1)
  pub whole :
      (cv b : ℕ) → 1 ≤ cv → cv ≤ 1024 → b < 256 → answer (byte_message 0x74 cv b) ≡ (b == m cv)
  pub small : (cv : ℕ) → m cv < 256

-- A bit that was tested for zero is shifted in.
abbrev pub shift_in : Bool → ℕ → ℕ
shift_in acked b = if acked then b * 2 % 256 else bit_or (b * 2 % 256) 1

-- The bits below `n` of `v` are shifted into `b`, the highest first.
unfoldable pub read_down : ℕ → ℕ → ℕ → ℕ
read_down v zero b = b
read_down v (suc n) b = read_down v n (shift_in (bit_of v n == 0) b)

pub read_down_all : (v : ℕ) → v < 256 → read_down v 8 0 ≡ v
unfolding passes_below read_down
read_down_all v below =
    (==_iff (read_down v 8 0) v).0 (passes_at (λ x. read_down x 8 0 == x) 256 v below refl)

pub read_down_low : (v : ℕ) → v < 256 → read_down v 7 0 ≡ v % 128
unfolding passes_below read_down
read_down_low v below =
    (==_iff (read_down v 7 0) (v % 128)).0
      (passes_at (λ x. read_down x 7 0 == x % 128) 256 v below refl)

-- A program without its first operation.
abbrev pub tail_of : List AckOp → List AckOp
tail_of [] = []
tail_of (op ∷ ops) = ops

-- The fuel of so many triples of operations.
abbrev pub triples : ℕ → ℕ → ℕ
triples zero f = f
triples (suc n) f = suc (suc (suc (triples n f)))

other_bit : (y : ℕ) → (y % 2 == 0) ≡ false → (y % 2 == 1) ≡ true
other_bit y h = ground (arith, h)

module _ (answer : List ℕ → Bool) where
  -- One bit is tested for zero and merged.
  pub one_bit_merged : Core → Core
  one_bit_merged c =
      let a = answer (bit_message 0xE0 0 c.cv c.bit_num) in
      record c {
        byte = shift_in a c.byte;
        bit_num = (c.bit_num + 255) % 256;
        received = a;
        verdict = a;
      }

  pub merged : ℕ → Core → Core
  merged zero c = c
  merged (suc n) c = merged n (one_bit_merged c)

  pub eval-merges :
      (n f : ℕ) (ops : List AckOp) (c : Core)
      → eval answer (triples n f) (merges n ops) c ≡ eval answer f ops (merged n c)
  unfolding eval turn merged one_bit_merged
  eval-merges zero f ops c = refl
  eval-merges (suc n) f ops c = eval-merges n f ops (one_bit_merged c)

  module _ (m : ℕ → ℕ) (a : Answers answer m) where
    -- The bits below `n` of the CV are read.
    pub record Reads (c d : Core) (n : ℕ) : Type 0 where
      pub byte_read : d.byte ≡ read_down (m c.cv) n c.byte
      pub cv_same : d.cv ≡ c.cv
      pub stash_same : d.stash ≡ c.stash

    pub merged-Reads :
        (n : ℕ) (c : Core)
        → 1 ≤ c.cv
        → c.cv ≤ 1024
        → n ≤ 8
        → c.bit_num < 256
        → (c.bit_num + 1) % 256 ≡ n
        → Reads c (merged n c) n
    unfolding merged one_bit_merged read_down
    merged-Reads zero c from to h small e = record {
      byte_read = refl;
      cv_same = refl;
      stash_same = refl;
    }
    merged-Reads (suc n) c from to h small e =
        let rest =
          merged-Reads n (one_bit_merged c) from to (omega (arith, h)) (omega arith)
            (omega (arith, h, e, small)) in
        let at : c.bit_num ≡ n = omega (arith, h, e, small) in
        let told : answer (bit_message 0xE0 0 c.cv c.bit_num) ≡ (bit_of (m c.cv) n == 0) =
          ap (λ k. answer (bit_message 0xE0 0 c.cv k)) at
          ∙ a.zero_bit c.cv n from to (omega (arith, h)) in
        record {
          byte_read = rest.byte_read ∙ ap (λ b. read_down (m c.cv) n (shift_in b c.byte)) told;
          cv_same = rest.cv_same;
          stash_same = rest.stash_same;
        }

    -- All eight bits, and the whole byte is verified.
    pub eval-byte :
        (f : ℕ) (ops : List AckOp) (c : Core)
        → 1 ≤ c.cv
        → c.cv ≤ 1024
        → c.bit_num ≡ 7
        → c.byte ≡ 0
        → (d : Core) × (eval answer (triples 8 (suc (suc f))) (merges 8 (vb ∷ wack ∷ ops)) c
            ≡ eval answer f ops d)
          × (d.byte ≡ m c.cv)
          × (d.cv ≡ c.cv)
          × (d.stash ≡ c.stash)
          × (d.received ≡ true)
    unfolding eval turn
    eval-byte f ops c from to e7 e0 =
        let d = merged 8 c in
        let r = merged-Reads 8 c from to (omega arith) (omega (arith, e7)) (omega (arith, e7)) in
        let got : d.byte ≡ m c.cv =
          r.byte_read ∙ ap (read_down (m c.cv) 8) e0 ∙ read_down_all (m c.cv) (a.small c.cv) in
        let known : answer (byte_message 0x74 d.cv d.byte) ≡ true =
          ap₂ (λ k b. answer (byte_message 0x74 k b)) r.cv_same got
          ∙ a.whole c.cv (m c.cv) from to (a.small c.cv)
          ∙ (==_iff (m c.cv) (m c.cv)).1 refl in
        (
          record d {
            received = answer (byte_message 0x74 d.cv d.byte);
            verdict = answer (byte_message 0x74 d.cv d.byte);
          },
          eval-merges 8 (suc (suc f)) (vb ∷ wack ∷ ops) c,
          got,
          r.cv_same,
          r.stash_same,
          known,
        )

    -- The seven bits below the first, and the whole byte is verified.
    eval_rest :
        (f : ℕ) (ops : List AckOp) (c : Core)
        → 1 ≤ c.cv
        → c.cv ≤ 1024
        → c.bit_num ≡ 6
        → read_down (m c.cv) 7 c.byte ≡ m c.cv
        → (d : Core) × (eval answer (triples 7 (suc (suc f))) (merges 7 (vb ∷ wack ∷ ops)) c
            ≡ eval answer f ops d)
          × (d.byte ≡ m c.cv)
          × (d.received ≡ true)
    unfolding eval turn
    eval_rest f ops c from to e6 whole =
        let d = merged 7 c in
        let r = merged-Reads 7 c from to (omega arith) (omega (arith, e6)) (omega (arith, e6)) in
        let got : d.byte ≡ m c.cv = r.byte_read ∙ whole in
        let known : answer (byte_message 0x74 d.cv d.byte) ≡ true =
          ap₂ (λ k b. answer (byte_message 0x74 k b)) r.cv_same got
          ∙ a.whole c.cv (m c.cv) from to (a.small c.cv)
          ∙ (==_iff (m c.cv) (m c.cv)).1 refl in
        (
          record d {
            received = answer (byte_message 0x74 d.cv d.byte);
            verdict = answer (byte_message 0x74 d.cv d.byte);
          },
          eval-merges 7 (suc (suc f)) (vb ∷ wack ∷ ops) c,
          got,
          known,
        )

    -- The byte is read with the excursion after its first bit, and verified.
    pub eval-read_byte :
        (f : ℕ) (ops : List AckOp) (c : Core)
        → 1 ≤ c.cv
        → c.cv ≤ 1024
        → (d : Core) × (g : ℕ) × (eval answer
              (triples 10 (suc (suc (suc (suc (suc f))))))
              (read_byte (vb ∷ wack ∷ ops))
              c
            ≡ eval answer (suc g) ops d)
          × (d.byte ≡ m c.cv)
          × (d.received ≡ true)
    unfolding eval turn skip one_bit_merged read_down
    eval-read_byte f ops c from to =
        let c0 : Core = record c { bit_num = 7; byte = 0 } in
        let c1 = one_bit_merged c0 in
        let b7 = a.zero_bit c.cv 7 from to (omega arith) in
        let whole : read_down (m c.cv) 7 c1.byte ≡ m c.cv =
          ap (λ (x : Bool). read_down (m c.cv) 7 (shift_in x 0)) b7
          ∙ read_down_all (m c.cv) (a.small c.cv) in
        let after = merges 7 (vb ∷ wack ∷ ops) in
        let back = set_bit 7 ∷ v1 ∷ wack ∷ nak_fail ∷ set_bit 6 ∷ skip_target ∷ after in
        elim (Bool-cases (bit_of (m c.cv) 7 == 0)) [
          | inl low ↦
              let (d, runs, got, known) =
                eval_rest (suc (suc (suc (suc (suc (suc (suc f))))))) ops c1 from to refl whole in
              (
                d,
                suc (suc (suc (suc (suc (suc f))))),
                ap
                      (λ (x : Bool).
                        eval answer (triples 9 (suc (suc (suc f)))) (if x then after else back) c1)
                      (b7 ∙ low)
                    ∙ runs,
                got,
                known,
              )
          | inr high ↦
              let acked : answer (bit_message 0xE0 0x08 c.cv 7) ≡ true =
                a.one_bit c.cv 7 from to (omega arith) ∙ other_bit (m c.cv / 2 ^ 7) high in
              let c2 : Core = record c1 {
                bit_num = 6;
                received = answer (bit_message 0xE0 0x08 c.cv 7);
                verdict = answer (bit_message 0xE0 0x08 c.cv 7);
              } in
              let c3 : Core = record c2 { bit_num = 7 } in
              let (d, runs, got, known) = eval_rest (suc f) ops c2 from to refl whole in
              let abort : Bool → Option ℤ = λ x.
                elim (ends_if (not x) (negsuc 0) c3 (set_bit 6 ∷ skip_target ∷ after)) [
                  | ends v ↦ some v
                  | goes c' ops' ↦ eval answer (triples 8 (suc (suc f))) ops' c'
                ] in
              (
                d,
                f,
                ap
                      (λ (x : Bool).
                        eval answer (triples 9 (suc (suc (suc f)))) (if x then after else back) c1)
                      (b7 ∙ high)
                    ∙ ap abort acked
                    ∙ runs,
                got,
                known,
              )
        ]

    -- The program that reads a CV from 1 to 1024 ends with the value of the CV.
    pub eval-read_cv_prog :
        (c : Core)
        → 1 ≤ c.cv
        → c.cv ≤ 1024
        → eval answer 40 (tail_of read_cv_prog) c ≡ some (pos (m c.cv))
    unfolding eval turn
    eval-read_cv_prog c from to =
        let (d, g, runs, got, known) = eval-read_byte 5 (itcb ∷ call_fail ∷ []) c from to in
        runs ∙ ap (λ (x : Bool). called_or x d g) known ∙ ap (λ b. some (pos b)) got
      where
        called_or : Bool → Core → ℕ → Option ℤ
        called_or x d g = elim (ends_if x (pos d.byte) d (call_fail ∷ [])) [
          | ends v ↦ some v
          | goes c' ops' ↦ eval answer g ops' c'
        ]

    -- The program that verifies a byte ends with the value of the CV, whether it is that byte or not.
    pub eval-verify_byte_prog :
        (c : Core)
        → 1 ≤ c.cv
        → c.cv ≤ 1024
        → c.verify < 256
        → eval answer 50 (tail_of verify_byte_prog) c ≡ some (pos (m c.cv))
    unfolding eval turn
    eval-verify_byte_prog c from to fits = elim (Bool-cases (c.verify == m c.cv)) [
      | inl same ↦
          ap (λ (x : Bool). either x) (a.whole c.cv c.verify from to fits ∙ same)
          ∙ ap (λ b. some (pos b)) ((==_iff c.verify (m c.cv)).0 same)
      | inr other ↦
          let (d, g, runs, got, known) =
            eval-read_byte 11 (itcbv ∷ call_fail ∷ []) (compared false) from to in
          ap (λ (x : Bool). either x) (a.whole c.cv c.verify from to fits ∙ other)
          ∙ runs
          ∙ ap (λ (x : Bool). called_or x d g) known
          ∙ ap (λ b. some (pos b)) got
    ]
      where
        compared : Bool → Core
        compared x = record c { byte = c.verify; received = x; verdict = x }

        either : Bool → Option ℤ
        either x =
            elim (ends_if x (pos c.verify) (compared x)
              (read_byte (vb ∷ wack ∷ itcbv ∷ call_fail ∷ []))) [
                | ends v ↦ some v
                | goes c' ops' ↦ eval answer 46 ops' c'
              ]

        called_or : Bool → Core → ℕ → Option ℤ
        called_or x d g = elim (ends_if x (pos d.byte) d (call_fail ∷ [])) [
          | ends v ↦ some v
          | goes c' ops' ↦ eval answer g ops' c'
        ]
