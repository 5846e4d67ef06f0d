-- ===== src/Ring/Reader.antt =====
-- The reader of a ring on a machine with 16 bit pointers: bytes, and texts out of the flash.
use command_station_ex.Base.{
  ℕ, zero, suc, ◌+◌, ◌*◌, ◌/◌, ◌%◌, ◌<◌, ◌≡◌, ◌≢◌, refl, ap, ◌∙◌, inl, inr, false, Option, none,
  some, List, [], ◌∷◌, ◌++◌, arith, length,
}
use command_station_ex.Ring.{RingStream, read_raw_byte, read, read_buffer, flash_insert_marker}
use command_station_ex.Ring.Frame.{Holds}
use command_station_ex.Ring.Receive.{
  ne_ends, Holds-flash, read_raw_byte-Holds, Item, byte, text, encode, decode, IsItem, AllItems,
  Reading,
}

module _ (flash : ℕ → ℕ) (strlen : ℕ → ℕ) (print : RingStream → ℕ → RingStream × ℕ) where
  -- `n` calls of `read()`, on a machine with 16 bit pointers; `none` if one finds nothing.
  pub read_n : ℕ → RingStream → Option (RingStream × List ℕ)
  read_n zero r = some (r, [])
  read_n (suc n) r = elim (read false flash strlen print 2 r) [
    | some (r', some b) ↦ elim (read_n n r') [ some (r2, bs) ↦ some (r2, b ∷ bs) | none ↦ none ]
    | _ ↦ none
  ]

  read_text :
      (f a c : ℕ) (r : RingStream)
      → r.flash_insert ≡ some a
      → flash a ≡ c
      → c ≢ 0
      → read false flash strlen print (suc f) r
        ≡ some (record r { flash_insert = some (suc a) }, some c)
  unfolding read
  read_text f a c r e ea nz = ground arith

  -- At no flash string, or at the end of one, the next byte is the buffer's.
  read_idle :
      (f : ℕ) (r : RingStream)
      → Reading flash r []
      → read false flash strlen print (suc f) r
        ≡ read_buffer false flash strlen print
            (read false flash strlen print f)
            (record r { flash_insert = none })
  unfolding read
  read_idle f r (inl (e, _)) = ground arith
  read_idle f r (inr (a, e, z)) = ground arith

  read_byte :
      (again : RingStream → Option (RingStream × Option ℕ)) (r : RingStream) (b : ℕ) (xs : List ℕ)
      → Holds r (b ∷ xs)
      → b ≢ flash_insert_marker
      → read_buffer false flash strlen print again r ≡ some ((read_raw_byte r).0, some b)
  unfolding read_buffer
  read_byte again r b xs h ne =
      let apart = ne_ends r b xs h in let (_, got, _) = read_raw_byte-Holds r b xs h in ground arith

  read_marker :
      (again : RingStream → Option (RingStream × Option ℕ)) (r : RingStream) (lo hi : ℕ)
      (xs : List ℕ)
      → Holds r (flash_insert_marker ∷ lo ∷ hi ∷ xs)
      → 0 < lo + 256 * hi
      → let r3 = (read_raw_byte (read_raw_byte (read_raw_byte r).0).0).0 in
        read_buffer false flash strlen print again r
        ≡ again (record r3 { flash_insert = some (lo + 256 * hi) })
  unfolding read_buffer
  read_marker again r lo hi xs h pos =
      let apart = ne_ends r flash_insert_marker (lo ∷ hi ∷ xs) h in
      let (h1, got, _) = read_raw_byte-Holds r flash_insert_marker (lo ∷ hi ∷ xs) h in
      let (h2, low, _) = read_raw_byte-Holds (read_raw_byte r).0 lo (hi ∷ xs) h1 in
      let (_, high, _) = read_raw_byte-Holds (read_raw_byte (read_raw_byte r).0).0 hi xs h2 in
      ground arith

  -- What one `read()` does when byte `b` is next.
  pub record Next (r : RingStream) (b : ℕ) (s : List ℕ) (xs : List ℕ) : Type 0 where
    pub after : RingStream
    pub gives : read false flash strlen print 2 r ≡ some (after, some b)
    pub place : Reading flash after s
    pub holds : Holds after xs

  text_step :
      (r : RingStream) (c : ℕ) (s xs : List ℕ)
      → Reading flash r (c ∷ s)
      → Holds r xs
      → Next r c s xs
  text_step r c s xs (inl (_, e)) h = cc
  text_step r c s xs (inr (a, e, (ea, nz, more))) h = record {
    after = record r { flash_insert = some (suc a) };
    gives = read_text 1 a c r e ea nz;
    place = inr (suc a, refl, more);
    holds = Holds-flash (some (suc a)) h;
  }

  pub byte_step :
      (r : RingStream) (b : ℕ) (xs : List ℕ)
      → Reading flash r []
      → Holds r (b ∷ xs)
      → b ≢ flash_insert_marker
      → Next r b [] xs
  byte_step r b xs at h ne = record {
    after = (read_raw_byte (record r { flash_insert = none })).0;
    gives =
        read_idle 1 r at
        ∙ read_byte _ (record r { flash_insert = none }) b xs (Holds-flash none h) ne;
    place = inl (taken.2, refl);
    holds = taken.0;
  }
    where
      taken :
          let q = read_raw_byte (record r { flash_insert = none }) in
          Holds q.0 xs × (q.1 ≡ b) × (q.0.flash_insert ≡ none)
      taken = read_raw_byte-Holds (record r { flash_insert = none }) b xs (Holds-flash none h)

  marker_step :
      (r : RingStream) (a c : ℕ) (s xs : List ℕ)
      → Reading flash r []
      → Holds r (flash_insert_marker ∷ a % 256 ∷ a / 256 % 256 ∷ xs)
      → IsItem flash (text a (c ∷ s))
      → Next r c s xs
  marker_step r a c s xs at h (lo, hi, _, (ea, nz, more)) = record {
    after = record r3 { flash_insert = some (suc a) };
    gives =
        read_idle 1 r at
        ∙ read_marker (read false flash strlen print 1) r0 (a % 256) (a / 256 % 256) xs h0
            (omega arith)
        ∙ ap (λ n. read false flash strlen print 1 (record r3 { flash_insert = some n }))
            (omega arith)
        ∙ read_text 0 a c (record r3 { flash_insert = some a }) refl ea nz;
    place = inr (suc a, refl, more);
    holds = Holds-flash (some (suc a)) h3;
  }
    where
      r0 : RingStream
      r0 = record r { flash_insert = none }

      r3 : RingStream
      r3 = (read_raw_byte (read_raw_byte (read_raw_byte r0).0).0).0

      h0 : Holds r0 (flash_insert_marker ∷ a % 256 ∷ a / 256 % 256 ∷ xs)
      h0 = Holds-flash none h

      h3 : Holds r3 xs
      h3 =
          (read_raw_byte-Holds _ (a / 256 % 256) xs
            (read_raw_byte-Holds _ (a % 256) _
              (read_raw_byte-Holds r0 flash_insert_marker _ h0).0).0).0

  nothing : (r : RingStream) → read_n 0 r ≡ some (r, [])
  unfolding read_n
  nothing r = refl

  read_n-some :
      (n : ℕ) (r q r' : RingStream) (b : ℕ) (bs : List ℕ)
      → read false flash strlen print 2 r ≡ some (q, some b)
      → read_n n q ≡ some (r', bs)
      → read_n (suc n) r ≡ some (r', b ∷ bs)
  unfolding read_n
  read_n-some n r q r' b bs e rest = ground arith

  -- Reading flash as many bytes as the items stand for gives those bytes, and empties the ring.
  pub read_n-decode :
      (items : List Item) (s : List ℕ) (r : RingStream)
      → AllItems flash items
      → Reading flash r s
      → Holds r (encode items)
      → (r' : RingStream) × (read_n (length (s ++ decode items)) r ≡ some (r', s ++ decode items))
        × Holds r' []
  unfolding encode decode
  read_n-decode [] [] r ok at h = (r, nothing r, h)
  read_n-decode (byte b ∷ items) [] r ok at h =
      let n = byte_step r b (encode items) at h ok.0 in
      let (r', e, h') = read_n-decode items [] n.after ok.1 n.place n.holds in
      (r', read_n-some _ r n.after r' _ _ n.gives e, h')
  read_n-decode (text a [] ∷ items) [] r ok at h = absurd (omega (arith, ok.0))
  read_n-decode (text a (c ∷ t) ∷ items) [] r ok at h =
      let n = marker_step r a c t (encode items) at h ok.0 in
      let (r', e, h') = read_n-decode items t n.after ok.1 n.place n.holds in
      (r', read_n-some _ r n.after r' _ _ n.gives e, h')
  read_n-decode items (c ∷ t) r ok at h =
      let n = text_step r c t (encode items) at h in
      let (r', e, h') = read_n-decode items t n.after ok n.place n.holds in
      (r', read_n-some _ r n.after r' _ _ n.gives e, h')
