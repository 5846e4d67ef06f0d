-- ===== src/Waveform/Preamble.antt =====
-- The preamble, in whose last bits the next packet is taken up, and with it a whole packet.
use command_station_ex.Base.{
  ℕ, zero, suc, ◌+◌, ◌-◌, ◌*◌, ◌≤◌, ◌<◌, ◌≡◌, refl, sym, ap, ap₂, subst, ◌∙◌, Bool, true, List, [],
  ◌∷◌, ◌++◌, arith, length, get_or, replicate, take,
}
use command_station_ex.Waveform.{Wave, interrupt2, preamble_bit, promote_pending_packet}
use command_station_ex.Waveform.Bits.{is_one, run_bits}
use command_station_ex.Waveform.Packet.{
  SameLoad, SameLoad-trans, IsReady, AllBytes, payload, packet_bits, run_bits_then,
  run_bits-payload,
}

promote-SameLoad :
    (w v : Wave) → SameLoad w v → SameLoad (promote_pending_packet w) (promote_pending_packet v)
unfolding promote_pending_packet
promote-SameLoad w v s = ground (arith, s)

promote_keeps :
    (w : Wave)
    → let p = promote_pending_packet w in
      (p.bits_sent ≡ w.bits_sent)
      × (p.bytes_sent ≡ w.bytes_sent)
      × (p.remaining_preambles ≡ w.remaining_preambles)
      × (p.state ≡ w.state)
unfolding promote_pending_packet
promote_keeps w = ground arith

-- Short of the last bit but one a preamble bit only counts down.
early_bit :
    (w : Wave)
    → 2 < w.remaining_preambles
    → let v = interrupt2 w in
      (is_one v.state ≡ true)
      × (v.remaining_preambles ≡ w.remaining_preambles - 1)
      × (v.bits_sent ≡ w.bits_sent)
      × (v.bytes_sent ≡ w.bytes_sent)
      × SameLoad w v
unfolding interrupt2 preamble_bit is_one
early_bit w h = ground arith

record Counted (k : ℕ) (w : Wave) (left : ℕ) : Type 0 where
  after : Wave
  gives : run_bits k w ≡ (after, replicate k true)
  left_ : after.remaining_preambles ≡ left
  bits : after.bits_sent ≡ w.bits_sent
  bytes : after.bytes_sent ≡ w.bytes_sent
  load : SameLoad w after

early_bits :
    (k left : ℕ) (w : Wave) → 2 ≤ left → w.remaining_preambles ≡ k + left → Counted k w left
unfolding run_bits
early_bits zero left w h e = record {
  after = w;
  gives = refl;
  left_ = omega (arith, e);
  bits = refl;
  bytes = refl;
  load = ground arith;
}
early_bits (suc k) left w h e =
    let (one, r, b, y, s) = early_bit w (omega (arith, e)) in
    let rest = early_bits k left (interrupt2 w) h (omega (arith, e, r)) in
    record {
      after = rest.after;
      gives = ap₂ (λ (p : Wave × List Bool) x. (p.0, x ∷ p.1)) rest.gives one;
      left_ = rest.left_;
      bits = rest.bits ∙ b;
      bytes = rest.bytes ∙ y;
      load = SameLoad-trans s rest.load;
    }

-- The last but one takes up the next packet.
promote_bit :
    (w : Wave)
    → w.remaining_preambles ≡ 2
    → let v = interrupt2 w in
      (is_one v.state ≡ true)
      × (v.remaining_preambles ≡ 1)
      × (v.bits_sent ≡ w.bits_sent)
      × (v.bytes_sent ≡ w.bytes_sent)
      × SameLoad (promote_pending_packet w) v
unfolding interrupt2 preamble_bit promote_pending_packet is_one
promote_bit w h = ground arith

last_bit :
    (w : Wave)
    → w.remaining_preambles ≡ 1
    → let v = interrupt2 w in
      (is_one v.state ≡ true)
      × (v.remaining_preambles ≡ 0)
      × (v.bits_sent ≡ w.bits_sent)
      × (v.bytes_sent ≡ w.bytes_sent)
      × SameLoad w v
unfolding interrupt2 preamble_bit is_one
last_bit w h = ground arith

two_bits :
    (w : Wave)
    → is_one (interrupt2 w).state ≡ true
    → is_one (interrupt2 (interrupt2 w)).state ≡ true
    → run_bits 2 w ≡ (interrupt2 (interrupt2 w), true ∷ true ∷ [])
unfolding run_bits
two_bits w a b = ap₂ (λ x y. (interrupt2 (interrupt2 w), x ∷ y ∷ [])) a b

replicate-append : (k : ℕ) → replicate k true ++ true ∷ true ∷ [] ≡ replicate (k + 2) true
replicate-append zero = refl
replicate-append (suc k) = ground (arith, replicate-append k)

-- The preamble is as many ones as the track requires, and ends with the next packet taken up.
preamble :
    (w : Wave)
    → IsReady w
    → 2 ≤ w.required_preambles
    → (v : Wave) × (run_bits w.required_preambles w ≡ (v, replicate w.required_preambles true))
      × (v.remaining_preambles ≡ 0)
      × (v.bits_sent ≡ 0)
      × (v.bytes_sent ≡ 0)
      × SameLoad (promote_pending_packet w) v
preamble w ready h =
    let k = w.required_preambles - 2 in
    let c = early_bits k 2 w (omega arith) (omega (arith, ready.preamble)) in
    let (one, r, b, y, s) = promote_bit c.after c.left_ in
    let (one', r', b', y', s') = last_bit (interrupt2 c.after) r in
    (
      interrupt2 (interrupt2 c.after),
      run_bits_then k 2 w.required_preambles w c.after _ _ _ c.gives (two_bits c.after one one')
            (omega arith)
          ∙ ap (λ bs. (interrupt2 (interrupt2 c.after), bs))
              (replicate-append k ∙ ap (λ n. replicate n true) (omega arith)),
      r',
      b' ∙ b ∙ c.bits ∙ ready.no_bits,
      y' ∙ y ∙ c.bytes ∙ ready.no_bytes,
      SameLoad-trans (promote-SameLoad w c.after c.load) (SameLoad-trans s s'),
    )

payload-cons : (x : ℕ) (tx : List ℕ) (i n : ℕ) → payload (x ∷ tx) (suc i) n ≡ payload tx i n
unfolding payload
payload-cons x tx i zero = refl
payload-cons x tx i (suc n) = ap (◌∷◌ (get_or tx i 0)) (payload-cons x tx (suc i) n)

payload-take : (tx : List ℕ) (n : ℕ) → n ≤ length tx → payload tx 0 n ≡ take n tx
unfolding payload
payload-take tx zero h = refl
payload-take [] (suc n) h = absurd (omega arith)
payload-take (x ∷ tx) (suc n) h =
    ap (◌∷◌ x) (payload-cons x tx 0 n ∙ payload-take tx n (omega arith))

module _ (w : Wave) (ready : IsReady w) (enough : 2 ≤ w.required_preambles) (n : ℕ)
    (len : (promote_pending_packet w).transmit_length ≡ suc n)
    (stored : suc n ≤ length (promote_pending_packet w).transmit_packet)
    (ok : AllBytes (take (suc n) (promote_pending_packet w).transmit_packet)) where
  -- Between two packets, a track that requires at least two preamble bits sends the next whole: as
  -- many ones as it requires, then each byte of the packet that it takes up, high bit first behind a
  -- zero bit; and it stands between two packets again, with the same packet in its buffer.
  pub run_bits-packet :
      let p = promote_pending_packet w in
      (v : Wave) × (run_bits (w.required_preambles + 9 * suc n) w
        ≡ (v, replicate w.required_preambles true ++ packet_bits (take (suc n) p.transmit_packet)))
      × IsReady v
      × SameLoad p v
  run_bits-packet =
      let p = promote_pending_packet w in
      let (v, gives, r, b, y, s) = preamble w ready enough in
      let same : payload v.transmit_packet v.bytes_sent (suc n) ≡ take (suc n) p.transmit_packet =
        ap₂ (λ tx i. payload tx i (suc n)) s.packet y
        ∙ payload-take p.transmit_packet (suc n) stored in
      let rest =
        run_bits-payload n v b r (omega (arith, y, s.length_, len))
          (subst AllBytes (sym same) ok) in
      (
        rest.after,
        run_bits_then w.required_preambles (9 * suc n) _ w v rest.after _ _ gives
            (rest.gives ∙ ap (λ bs. (rest.after, packet_bits bs)) same) refl,
        rest.ready,
        SameLoad-trans s rest.load,
      )
