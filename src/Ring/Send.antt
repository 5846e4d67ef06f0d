-- ===== src/Ring/Send.antt =====
-- A whole message: it is appended with its header, or the ring is as before.
use command_station_ex.Base.{
  ℕ, suc, ◌+◌, ◌≤◌, ◌<◌, ◌≡◌, refl, ◌∙◌, Bool, true, false, none, List, [], ◌∷◌, ◌++◌, arith,
  length, append-nil, high_byte, low_byte, ltb, lt→ltb, le→ltb, if◌then◌else◌,
}
use native.Mathlib.Decide.{dec_lt}
use command_station_ex.Ring.{RingStream, mark, commit}
use command_station_ex.Ring.Frame.{Holds}
use command_station_ex.Ring.Message.{
  Live-count, Dead-count, Live, Dead, write_all, write_all-over, write_all-Live, write_all-Dead,
}
use command_station_ex.Ring.Commit.{commit-flash, commit-Dead, commit_empty, commit-Live}

-- One message for client `c`.
unfoldable pub send : ℕ → List ℕ → RingStream → RingStream × Bool
send c bs r = commit (write_all bs (mark r c))

-- `mark` writes the client and two place markers, as the loop over three bytes does.
mark_lem :
    (r : RingStream) (c : ℕ)
    → mark r c ≡ (
        let r3 =
          write_all (c ∷ 0 ∷ 0 ∷ []) (record r { ring_client = c; mark_pos = r.pos_write }) in
        record r3 { count = 0 })
unfolding mark write_all
mark_lem r c = refl

started :
    {r : RingStream} {old : List ℕ} (c : ℕ)
    → Holds r old
    → Live (record r { ring_client = c; mark_pos = r.pos_write }) old []
started {r} {old} c h = record {
  holds = rw (append-nil old) (record {
    valid = omega (arith, h.valid);
    fits = h.fits;
    ends = h.ends;
    bytes = h.bytes;
    clear = h.clear;
  });
  mark_at = h.ends;
}

module _ (r : RingStream) (old bs : List ℕ) (c : ℕ) (h : Holds r old) where
  abbrev opened : RingStream
  opened = record r { ring_client = c; mark_pos = r.pos_write }

  abbrev marked : RingStream
  marked = record (write_all (c ∷ 0 ∷ 0 ∷ []) opened) { count = 0 }

  -- All that is written fits.
  sent_fits :
      length old + 3 + length bs < r.len
      → Live (write_all bs (mark r c)) old (c ∷ 0 ∷ 0 ∷ bs)
        × ((write_all bs (mark r c)).count ≡ length bs)
  sent_fits room =
      let (m, _, n) = write_all-Live (c ∷ 0 ∷ 0 ∷ []) opened old [] (started c h) (omega arith) in
      let (l, k, _) =
        write_all-Live bs marked old (c ∷ 0 ∷ 0 ∷ []) (Live-count 0 m) (omega (arith, n)) in
      rw (mark_lem r c) (l, k ∙ omega arith)

  -- Or a byte of it takes the last free cell, in `mark` or after it.
  sent_spills : r.len ≤ length old + 3 + length bs → Dead (write_all bs (mark r c)) old
  sent_spills full = elim (dec_lt (length old + 3) r.len) [
    | yes room ↦
        let (m, _, n) = write_all-Live (c ∷ 0 ∷ 0 ∷ []) opened old [] (started c h) (omega arith) in
        rw (mark_lem r c)
          (write_all-Dead bs marked old (c ∷ 0 ∷ 0 ∷ []) (Live-count 0 m) (omega (arith, n)))
    | no last ↦
        let d =
          Dead-count 0
            (write_all-Dead (c ∷ 0 ∷ 0 ∷ []) opened old [] (started c h) (omega arith)) in
        rw (mark_lem r c) (rw (write_all-over bs marked d.spilt.over) d)
  ]

-- An empty message leaves no trace.
unfoldable pub appended : List ℕ → ℕ → List ℕ → List ℕ
appended old c [] = old
appended old c (b ∷ bs) = let n = suc (length bs) in old ++ c ∷ high_byte n ∷ low_byte n ∷ b ∷ bs

-- What a ring of `len` cells makes of a message: append it whole, or refuse it if it would leave
-- no free cell.
unfoldable pub framed : ℕ → List ℕ → ℕ → List ℕ → List ℕ × Bool
framed len old c bs =
    if ltb (length old + 3 + length bs) len then (appended old c bs, true) else (old, false)

-- A ring that holds `old` makes of a message exactly what `framed` says, and is valid again.
pub send-framed :
    (r : RingStream) (old bs : List ℕ) (c : ℕ)
    → Holds r old
    → Holds (send c bs r).0 (framed r.len old c bs).0
      × ((send c bs r).1 ≡ (framed r.len old c bs).1)
unfolding send framed appended
send-framed r old bs c h = elim (dec_lt (length old + 3 + length bs) r.len) [
  | yes room ↦ rw (lt→ltb _ _ room) (fits bs (sent_fits r old bs c h room))
  | no full ↦
      rw (le→ltb (length old + 3 + length bs) r.len (omega arith))
        (commit-Dead _ old (sent_spills r old bs c h (omega arith)))
]
  where
    fits :
        (bs : List ℕ)
        → Live (write_all bs (mark r c)) old (c ∷ 0 ∷ 0 ∷ bs)
          × ((write_all bs (mark r c)).count ≡ length bs)
        → Holds (commit (write_all bs (mark r c))).0 (appended old c bs)
          × ((commit (write_all bs (mark r c))).1 ≡ true)
    fits [] (l, k) = commit_empty _ old (c ∷ 0 ∷ 0 ∷ []) l k
    fits (b ∷ bs) (l, k) = commit-Live _ old (b ∷ bs) c l k (omega arith)

pub send-flash : (c : ℕ) (bs : List ℕ) (r : RingStream) → (send c bs r).0.flash_insert ≡ none
unfolding send
send-flash c bs r = commit-flash (write_all bs (mark r c))
