-- ===== src/Ring/Commit.antt =====
-- `commit` of a message that fitted, of an empty one, and of one that overflowed the ring.
use command_station_ex.Base.{
  ℕ, ◌+◌, ◌<◌, ◌≡◌, refl, sym, ap, ◌∙◌, true, false, none, List, ◌∷◌, ◌++◌, arith, length,
  length-append, set, set-append, length-set, high_byte, low_byte,
}
use command_station_ex.Ring.{RingStream, advance, commit, no_client}
use command_station_ex.Ring.Window.{
  index, window, index-lt, advance-index, window-set, window-prefix,
}
use command_station_ex.Ring.Frame.{Holds}
use command_station_ex.Ring.Message.{Live, Dead}

pub commit-Dead :
    (r : RingStream) (old : List ℕ) → Dead r old → Holds (commit r).0 old × ((commit r).1 ≡ false)
unfolding commit
commit-Dead r old d = rw d.spilt.over (
  record {
    valid = omega (arith, d.spilt.valid);
    fits = d.spilt.fits;
    ends = d.mark_at;
    bytes = d.spilt.bytes;
    clear = refl;
  },
  refl,
)

commit_zero :
    (r : RingStream)
    → r.overflow ≡ false
    → r.count ≡ 0
    → commit r
      ≡ (record r { flash_insert = none; pos_write = r.mark_pos; ring_client = no_client }, true)
unfolding commit
commit_zero r o c = ground arith

commit_some :
    (r : RingStream)
    → r.overflow ≡ false
    → 0 < r.count
    → let m1 = advance r.len r.mark_pos in
      let m2 = advance r.len m1 in
      commit r ≡ (
        record r {
          flash_insert = none;
          mark_pos = m2;
          buffer = set (set r.buffer m1 (high_byte r.count)) m2 (low_byte r.count);
          ring_client = no_client;
        },
        true,
      )
unfolding commit
commit_some r o c = ground arith

pub commit_empty :
    (r : RingStream) (old msg : List ℕ)
    → Live r old msg
    → r.count ≡ 0
    → Holds (commit r).0 old × ((commit r).1 ≡ true)
commit_empty r old msg l c = rw (commit_zero r l.holds.clear c) (
  record {
    valid = omega (arith, l.holds.valid);
    fits = omega (arith, l.holds.fits, length-append old msg);
    ends = l.mark_at;
    bytes = window-prefix r.buffer r.len r.pos_read old msg l.holds.bytes;
    clear = l.holds.clear;
  },
  refl,
)

-- The two count bytes are written over the place markers.
patch_count :
    (old msg : List ℕ) (c hi lo : ℕ)
    → set (set (old ++ c ∷ 0 ∷ 0 ∷ msg) (length old + 1) hi) (length old + 2) lo
      ≡ old ++ c ∷ hi ∷ lo ∷ msg
patch_count old msg c hi lo =
    ap (λ xs. set xs (length old + 2) lo) (set-append old (c ∷ 0 ∷ 0 ∷ msg) 1 hi)
    ∙ set-append old (c ∷ hi ∷ 0 ∷ msg) 2 lo

module _ (r : RingStream) (old msg : List ℕ) (c : ℕ) (l : Live r old (c ∷ 0 ∷ 0 ∷ msg))
    (counted : r.count ≡ length msg) where
  abbrev all : List ℕ
  all = old ++ c ∷ 0 ∷ 0 ∷ msg

  length-all : length all ≡ length old + 3 + length msg
  length-all = omega (arith, length-append old (c ∷ 0 ∷ 0 ∷ msg))

  first : advance r.len r.mark_pos ≡ index r.len r.pos_read (length old + 1)
  first =
      ap (advance r.len) l.mark_at
      ∙ advance-index r.len r.pos_read (length old) l.holds.valid.read_in
          (omega (arith, length-all, l.holds.fits))
      ∙ ap (index r.len r.pos_read) (omega arith)

  second : advance r.len (advance r.len r.mark_pos) ≡ index r.len r.pos_read (length old + 2)
  second =
      ap (advance r.len) first
      ∙ advance-index r.len r.pos_read (length old + 1) l.holds.valid.read_in
          (omega (arith, length-all, l.holds.fits))
      ∙ ap (index r.len r.pos_read) (omega arith)

  pub commit-Live :
      0 < length msg
      → Holds (commit r).0 (old ++ c ∷ high_byte (length msg) ∷ low_byte (length msg) ∷ msg)
        × ((commit r).1 ≡ true)
  commit-Live nz = rw (commit_some r l.holds.clear (omega (arith, counted))) (held, refl)
    where
      bytes : List ℕ
      bytes = high_byte (length msg) ∷ low_byte (length msg) ∷ msg

      m1 : ℕ
      m1 = advance r.len r.mark_pos

      once : List ℕ
      once = set r.buffer m1 (high_byte r.count)

      twice : List ℕ
      twice = set once (advance r.len m1) (low_byte r.count)

      same : length (old ++ c ∷ bytes) ≡ length all
      same = omega (arith, length-append old (c ∷ bytes), length-all)

      shown : window twice r.len r.pos_read (length all) ≡ old ++ c ∷ bytes
      shown =
          window-set once r.len r.pos_read (length all) (length old + 2) (advance r.len m1)
            (low_byte r.count) l.holds.valid.read_in (omega (arith, length-all))
            (omega (arith, l.holds.fits))
            (omega (arith, length-set r.buffer m1 (high_byte r.count), l.holds.valid.storage))
            second
          ∙ ap (λ xs. set xs (length old + 2) (low_byte r.count))
              (window-set r.buffer r.len r.pos_read (length all) (length old + 1) m1
                  (high_byte r.count) l.holds.valid.read_in (omega (arith, length-all))
                  (omega (arith, l.holds.fits)) l.holds.valid.storage first
                ∙ ap (λ xs. set xs (length old + 1) (high_byte r.count)) l.holds.bytes)
          ∙ patch_count old msg c (high_byte r.count) (low_byte r.count)
          ∙ ap (λ n. old ++ c ∷ high_byte n ∷ low_byte n ∷ msg) counted

      held :
          Holds
            (record r {
              flash_insert = none;
              mark_pos = advance r.len m1;
              buffer = twice;
              ring_client = no_client;
            })
            (old ++ c ∷ bytes)
      held = record {
        valid = record {
          storage = omega (
            arith,
            length-set r.buffer m1 (high_byte r.count),
            length-set once (advance r.len m1) (low_byte r.count),
            l.holds.valid.storage,
          );
          small = l.holds.valid.small;
          read_in = l.holds.valid.read_in;
          write_in = l.holds.valid.write_in;
          mark_in = omega (
            arith,
            second,
            length-all,
            l.holds.fits,
            index-lt r.len r.pos_read (length old + 2) l.holds.valid.read_in,
          );
        };
        fits = omega (arith, same, l.holds.fits);
        ends = l.holds.ends ∙ ap (index r.len r.pos_read) (sym same);
        bytes = ap (window twice r.len r.pos_read) same ∙ shown;
        clear = l.holds.clear;
      }

pub commit-flash : (r : RingStream) → (commit r).0.flash_insert ≡ none
unfolding commit
commit-flash r = ground arith
