-- ===== src/Ring/RoundTrip.antt =====
-- One message through the ring and out again, and how many bytes a message may have.
use command_station_ex.Base.{
  ℕ, suc, ◌+◌, ◌<◌, ◌≡◌, ◌≢◌, ◌↔◌, refl, sym, ap, subst, ◌∙◌, inl, inr, true, false, Option, none,
  some, List, [], ◌∷◌, arith, length, lt→ltb, high_byte, low_byte,
}
use command_station_ex.Base.Int.{pos, ◌≤ℤ◌}
use command_station_ex.Ring.{RingStream, read, read_count, free_space, flash_insert_marker}
use command_station_ex.Ring.Frame.{Holds}
use command_station_ex.Ring.Send.{send, framed, appended, send-framed, send-flash}
use command_station_ex.Ring.Receive.{
  Item, byte, encode, decode, AllItems, Reading, read_count-Holds,
}
use command_station_ex.Ring.Reader.{read_n, read_n-decode, byte_step}

-- A message is accepted exactly if it is shorter than what `freeSpace` says.
pub free_space-send :
    (r : RingStream) (old bs : List ℕ) (c : ℕ)
    → Holds r old
    → ((send c bs r).1 ≡ true) ↔ (pos (suc (length bs)) ≤ℤ free_space r)
unfolding free_space framed
free_space-send r old bs c h = ground (arith, (send-framed r old bs c h).1, h.ends, h.valid.read_in)

framed_room :
    (len : ℕ) (old : List ℕ) (c : ℕ) (bs : List ℕ)
    → length old + 3 + length bs < len
    → framed len old c bs ≡ (appended old c bs, true)
unfolding framed
framed_room len old c bs room = rw (lt→ltb _ _ room)

abbrev pub AllPlain : List ℕ → Type 0
AllPlain [] = Unit {0}
AllPlain (b ∷ bs) = (b ≢ flash_insert_marker) × AllPlain bs

bytes : List ℕ → List Item
bytes [] = []
bytes (b ∷ bs) = byte b ∷ bytes bs

module _ (flash : ℕ → ℕ) (strlen : ℕ → ℕ) (print : RingStream → ℕ → RingStream × ℕ) where
  -- How the interfaces take a message: the client, the count, and as many bytes.
  pub receive : RingStream → Option (RingStream × ℕ × List ℕ)
  receive r = elim (read false flash strlen print 2 r) [
    | some (r1, some c) ↦
        let (r2, n) = read_count r1 in
        elim (read_n flash strlen print n r2) [ some (r3, bs) ↦ some (r3, c, bs) | none ↦ none ]
    | _ ↦ none
  ]

  encode-bytes : (bs : List ℕ) → encode (bytes bs) ≡ bs
  unfolding encode bytes
  encode-bytes [] = refl
  encode-bytes (b ∷ bs) = ap (◌∷◌ b) (encode-bytes bs)

  decode-bytes : (bs : List ℕ) → decode (bytes bs) ≡ bs
  unfolding decode bytes
  decode-bytes [] = refl
  decode-bytes (b ∷ bs) = ap (◌∷◌ b) (decode-bytes bs)

  AllItems-bytes : (bs : List ℕ) → AllPlain bs → AllItems flash (bytes bs)
  unfolding bytes
  AllItems-bytes [] ok = tt
  AllItems-bytes (b ∷ bs) ok = (ok.0, AllItems-bytes bs ok.1)

  receive-some :
      (r r1 r3 : RingStream) (c n : ℕ) (bs : List ℕ)
      → read false flash strlen print 2 r ≡ some (r1, some c)
      → (read_count r1).1 ≡ n
      → read_n flash strlen print n (read_count r1).0 ≡ some (r3, bs)
      → receive r ≡ some (r3, c, bs)
  unfolding receive
  receive-some r r1 r3 c n bs a b d = ground arith

  sent_room :
      (r : RingStream) (c b : ℕ) (bs : List ℕ)
      → Holds r []
      → length bs + 4 < r.len
      → let n = suc (length bs) in
        Holds (send c (b ∷ bs) r).0 (c ∷ high_byte n ∷ low_byte n ∷ b ∷ bs)
        × ((send c (b ∷ bs) r).1 ≡ true)
  unfolding appended
  sent_room r c b bs h room =
      rw (framed_room r.len [] c (b ∷ bs) (omega arith)) at (send-framed r [] (b ∷ bs) c h)

  -- On an empty ring, a message of at least one byte that leaves a free cell is accepted, and read
  -- again it is the same client and bytes, and the ring is empty. Neither the client nor a byte is
  -- the flash marker, for which the stream has no escape.
  pub receive-send :
      (r : RingStream) (c b : ℕ) (bs : List ℕ)
      → Holds r []
      → c ≢ flash_insert_marker
      → AllPlain (b ∷ bs)
      → length bs + 4 < r.len
      → ((send c (b ∷ bs) r).1 ≡ true)
        × ((r' : RingStream) × (receive (send c (b ∷ bs) r).0 ≡ some (r', c, b ∷ bs)) × Holds r' [])
  receive-send r c b bs h nc plain room =
      let (held, done) = sent_room r c b bs h room in
      let start = (send c (b ∷ bs) r).0 in
      let n = suc (length bs) in
      let frame : List ℕ = high_byte n ∷ low_byte n ∷ b ∷ bs in
      let client =
        byte_step flash strlen print start c frame (inl (send-flash c (b ∷ bs) r, refl)) held nc in
      let next = client.after in
      let (h2, count, f2) =
        read_count-Holds next (high_byte n) (low_byte n) (b ∷ bs) client.holds in
      let place : Reading flash (read_count next).0 [] = elim client.place [
        | inl (e, _) ↦ inl (f2 ∙ e, refl)
        | inr (a, e, z) ↦ inr (a, f2 ∙ e, z)
      ] in
      let (r', e, h') =
        read_n-decode flash strlen print (bytes (b ∷ bs)) [] (read_count next).0
          (AllItems-bytes (b ∷ bs) plain) place
          (subst (Holds (read_count next).0) (sym (encode-bytes (b ∷ bs))) h2) in
      let counted : (read_count next).1 ≡ n = count ∙ omega (arith, h.valid.small) in
      let whole : read_n flash strlen print n (read_count next).0 ≡ some (r', b ∷ bs) =
        subst (λ ys. read_n flash strlen print (length ys) (read_count next).0 ≡ some (r', ys))
          (decode-bytes (b ∷ bs)) e in
      (done, (r', receive-some start next r' c n (b ∷ bs) client.gives counted whole, h'))
