-- ===== src/Waveform/Packet.antt =====
-- The whole of a packet on the rails: preamble, and each byte behind a zero bit.
use command_station_ex.Base.{
  ℕ, zero, suc, ◌+◌, ◌*◌, ◌/◌, ◌%◌, ◌<◌, ◌≡◌, refl, sym, ap, ap₂, ◌∙◌, Bool, true, false, not, List,
  [], ◌∷◌, ◌++◌, bit_and, arith, get_or, ltb, ◌==◌, if◌then◌else◌, Bool-cases, inl, inr, map,
  append-nil, subst, passes_below, passes_at,
}
use command_station_ex.Waveform.{Wave, wave_mid_1, wave_high_0, interrupt2, packet_bit, bit_mask}
use command_station_ex.Waveform.Bits.{is_one, run_bits}

abbrev odd : ℕ → Bool
odd n = n % 2 == 1

-- NMRA S-9.2: a zero bit, then the byte from its highest bit down.
pub byte_bits : ℕ → List Bool
byte_bits b =
    false
    ∷ odd (b / 128)
    ∷ odd (b / 64)
    ∷ odd (b / 32)
    ∷ odd (b / 16)
    ∷ odd (b / 8)
    ∷ odd (b / 4)
    ∷ odd (b / 2)
    ∷ odd b
    ∷ []

masked : ℕ → ℕ → Bool
masked b m = not (bit_and b m == 0)

-- The bits of the bytes of a packet, one behind the other.
pub packet_bits : List ℕ → List Bool
packet_bits [] = []
packet_bits (b ∷ bs) = byte_bits b ++ packet_bits bs

-- The bits that the nine masks select, the first of them none.
masked_bits : ℕ → List Bool
masked_bits b = map (masked b) bit_mask

agree : List Bool → List Bool → Bool
agree [] [] = true
agree (true ∷ xs) (true ∷ ys) = agree xs ys
agree (false ∷ xs) (false ∷ ys) = agree xs ys
agree _ _ = false

agree-eq : (xs ys : List Bool) → agree xs ys ≡ true → xs ≡ ys
unfolding agree
agree-eq [] [] h = refl
agree-eq [] (y ∷ ys) h = cc
agree-eq (true ∷ xs) (true ∷ ys) h = ap (◌∷◌ true) (agree-eq xs ys h)
agree-eq (false ∷ xs) (false ∷ ys) h = ap (◌∷◌ false) (agree-eq xs ys h)
agree-eq (true ∷ xs) (false ∷ ys) h = cc
agree-eq (false ∷ xs) (true ∷ ys) h = cc
agree-eq (x ∷ xs) [] h = ground arith

mask_table : passes_below (λ b. agree (masked_bits b) (byte_bits b)) 256 ≡ true
unfolding passes_below masked masked_bits byte_bits agree
mask_table = refl

masked_bits-byte_bits : (b : ℕ) → b < 256 → masked_bits b ≡ byte_bits b
masked_bits-byte_bits b h = agree-eq _ _ (passes_at _ 256 b h mask_table)

at_byte : Wave → Wave
at_byte w = record w { bits_sent = 0; remaining_preambles = 0 }

-- The track after the byte at `bytes_sent`: at the next, or at the preamble of the next packet.
after_byte : Wave → Wave
after_byte w =
    let w1 = record w {
      state =
          if masked (get_or w.transmit_packet w.bytes_sent 0) 0x01 then wave_mid_1 else wave_high_0;
      bits_sent = 0;
      remaining_preambles = 0;
    } in
    if ltb (suc w.bytes_sent) w.transmit_length
    then record w1 { bytes_sent = suc w.bytes_sent }
    else record w1 { bytes_sent = 0; remaining_preambles = w.required_preambles }

is_one-if : (b : Bool) → is_one (if b then wave_mid_1 else wave_high_0) ≡ b
unfolding is_one
is_one-if true = refl
is_one-if false = refl

run_bits-masked :
    (w : Wave)
    → run_bits 9 (at_byte w) ≡ (after_byte w, masked_bits (get_or w.transmit_packet w.bytes_sent 0))
unfolding run_bits interrupt2 packet_bit at_byte after_byte masked_bits masked
run_bits-masked w = elim (Bool-cases (ltb (suc w.bytes_sent) w.transmit_length)) [
  | inl more ↦ rw more (simp is_one-if)
  | inr last ↦ rw last (simp is_one-if)
]

run_bits-append :
    (m n : ℕ) (w : Wave)
    → run_bits (m + n) w
      ≡ (let (w1, xs) = run_bits m w in let (w2, ys) = run_bits n w1 in (w2, xs ++ ys))
unfolding run_bits
run_bits-append zero n w = ap (λ k. run_bits k w) {x = 0 + n} {y = n} (omega arith)
run_bits-append (suc m) n w =
    ap (λ k. run_bits k w) {x = suc m + n} {y = suc (m + n)} (omega arith)
    ∙ ap (λ (p : Wave × List Bool). (p.0, is_one (interrupt2 w).state ∷ p.1))
        (run_bits-append m n (interrupt2 w))

pub run_bits_then :
    (m n k : ℕ) (w v u : Wave) (xs ys : List Bool)
    → run_bits m w ≡ (v, xs)
    → run_bits n v ≡ (u, ys)
    → k ≡ m + n
    → run_bits k w ≡ (u, xs ++ ys)
run_bits_then m n k w v u xs ys first second e =
    ap (λ j. run_bits j w) e
    ∙ run_bits-append m n w
    ∙ ap (λ (p : Wave × List Bool). let (w2, zs) = run_bits n p.0 in (w2, p.1 ++ zs)) first
    ∙ ap (λ (p : Wave × List Bool). (p.0, xs ++ p.1)) second

-- What a track has to send, which the sending of bits leaves alone.
pub record SameLoad (w v : Wave) : Type 0 where
  pub packet : v.transmit_packet ≡ w.transmit_packet
  pub length_ : v.transmit_length ≡ w.transmit_length
  pub repeats : v.transmit_repeats ≡ w.transmit_repeats
  pub required : v.required_preambles ≡ w.required_preambles
  pub main : v.is_main_track ≡ w.is_main_track
  pub pending : v.packet_pending ≡ w.packet_pending
  pub pending_packet : v.pending_packet ≡ w.pending_packet
  pub pending_length : v.pending_length ≡ w.pending_length
  pub pending_repeats : v.pending_repeats ≡ w.pending_repeats

pub SameLoad-trans : {u v w : Wave} → SameLoad u v → SameLoad v w → SameLoad u w
SameLoad-trans a b = record {
  packet = b.packet ∙ a.packet;
  length_ = b.length_ ∙ a.length_;
  repeats = b.repeats ∙ a.repeats;
  required = b.required ∙ a.required;
  main = b.main ∙ a.main;
  pending = b.pending ∙ a.pending;
  pending_packet = b.pending_packet ∙ a.pending_packet;
  pending_length = b.pending_length ∙ a.pending_length;
  pending_repeats = b.pending_repeats ∙ a.pending_repeats;
}

-- Before the first preamble bit of a packet.
pub record IsReady (w : Wave) : Type 0 where
  pub no_bits : w.bits_sent ≡ 0
  pub no_bytes : w.bytes_sent ≡ 0
  pub preamble : w.remaining_preambles ≡ w.required_preambles

-- The bytes that the packet still holds from index `i` on.
unfoldable pub payload : List ℕ → ℕ → ℕ → List ℕ
payload tx i zero = []
payload tx i (suc n) = get_or tx i 0 ∷ payload tx (suc i) n

abbrev pub AllBytes : List ℕ → Type 0
AllBytes [] = Unit {0}
AllBytes (b ∷ bs) = (b < 256) × AllBytes bs

at_byte_lem : (w : Wave) → w.bits_sent ≡ 0 → w.remaining_preambles ≡ 0 → at_byte w ≡ w
unfolding at_byte
at_byte_lem w b p = ground arith

one_byte :
    (w : Wave)
    → w.bits_sent ≡ 0
    → w.remaining_preambles ≡ 0
    → get_or w.transmit_packet w.bytes_sent 0 < 256
    → run_bits 9 w ≡ (after_byte w, byte_bits (get_or w.transmit_packet w.bytes_sent 0))
one_byte w b p h =
    ap (run_bits 9) (sym (at_byte_lem w b p))
    ∙ run_bits-masked w
    ∙ ap (λ bs. (after_byte w, bs)) (masked_bits-byte_bits _ h)

pub record Sends (n : ℕ) (w : Wave) (bits : List Bool) : Type 0 where
  pub after : Wave
  pub gives : run_bits n w ≡ (after, bits)
  pub ready : IsReady after
  pub load : SameLoad w after

more_bytes :
    (w : Wave)
    → suc w.bytes_sent < w.transmit_length
    → ((after_byte w).bits_sent ≡ 0)
      × ((after_byte w).remaining_preambles ≡ 0)
      × ((after_byte w).bytes_sent ≡ suc w.bytes_sent)
      × SameLoad w (after_byte w)
unfolding after_byte
more_bytes w h = ground arith

last_byte :
    (w : Wave)
    → suc w.bytes_sent ≡ w.transmit_length
    → IsReady (after_byte w) × SameLoad w (after_byte w)
unfolding after_byte
last_byte w h = ground arith

tail_payload :
    (w : Wave) (n : ℕ)
    → (after_byte w).bytes_sent ≡ suc w.bytes_sent
    → (after_byte w).transmit_packet ≡ w.transmit_packet
    → payload (after_byte w).transmit_packet (after_byte w).bytes_sent (suc n)
      ≡ payload w.transmit_packet (suc w.bytes_sent) (suc n)
tail_payload w n i t = ap₂ (λ tx k. payload tx k (suc n)) t i

-- From the first bit of a byte to the end of the packet.
pub run_bits-payload :
    (n : ℕ) (w : Wave)
    → w.bits_sent ≡ 0
    → w.remaining_preambles ≡ 0
    → w.bytes_sent + suc n ≡ w.transmit_length
    → AllBytes (payload w.transmit_packet w.bytes_sent (suc n))
    → Sends (9 * suc n) w (packet_bits (payload w.transmit_packet w.bytes_sent (suc n)))
unfolding payload packet_bits
run_bits-payload zero w b p e ok =
    let (ready, load) = last_byte w (omega (arith, e)) in
    record {
      after = after_byte w;
      gives = one_byte w b p ok.0 ∙ ap (λ bs. (after_byte w, bs)) (sym (append-nil _));
      ready = ready;
      load = load;
    }
run_bits-payload (suc n) w b p e ok =
    let (b', p', i, load) = more_bytes w (omega (arith, e)) in
    let rest =
      run_bits-payload n (after_byte w) b' p' (omega (arith, e, i, load.length_))
        (subst AllBytes (sym (tail_payload w n i load.packet)) ok.1) in
    record {
      after = rest.after;
      gives =
          run_bits_then 9 (9 * suc n) (9 * suc (suc n)) w (after_byte w) rest.after _ _
            (one_byte w b p ok.0)
            (rest.gives ∙ ap (λ bs. (rest.after, packet_bits bs)) (tail_payload w n i load.packet))
            (omega arith);
      ready = rest.ready;
      load = SameLoad-trans load rest.load;
    }
