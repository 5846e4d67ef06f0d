-- ===== src/Ring/Frame.antt =====
-- What `mark`, `write` and `commit` do to the messages that the ring holds.
use command_station_ex.Base.{
  ℕ, suc, ◌≤◌, ◌<◌, ◌≡◌, refl, sym, ap, ◌∙◌, ◌≢◌, true, false, List, [], ◌∷◌, ◌++◌, arith, length,
  length-append, set, length-set,
}
use command_station_ex.Ring.{RingStream, advance, write}
use command_station_ex.Ring.Window.{
  index, window, index-lt, advance-index, window-set_past, index-ne, window-push,
  advance-index_full,
}

-- The positions lie in the buffer, and a C int holds the length.
pub record IsValid (r : RingStream) : Type 0 where
  pub storage : r.len ≤ length r.buffer
  pub small : r.len < 32768
  pub read_in : r.pos_read < r.len
  pub write_in : r.pos_write < r.len
  pub mark_in : r.mark_pos < r.len

-- From `h` on the ring holds `xs`, with at least one cell to spare.
pub record Holds (r : RingStream) (xs : List ℕ) : Type 0 where
  pub valid : IsValid r
  pub fits : length xs < r.len
  pub ends : r.pos_write ≡ index r.len r.pos_read (length xs)
  pub bytes : window r.buffer r.len r.pos_read (length xs) ≡ xs
  pub clear : r.overflow ≡ false

-- The same ring with room for nothing more: what was written since `old` does not count.
pub record Spilt (r : RingStream) (old : List ℕ) : Type 0 where
  pub valid : IsValid r
  pub fits : length old < r.len
  pub bytes : window r.buffer r.len r.pos_read (length old) ≡ old
  pub over : r.overflow ≡ true

module _ (r : RingStream) (b : ℕ) where
  write_room :
      r.overflow ≡ false
      → advance r.len r.pos_write ≢ r.pos_read
      → write r b ≡ (
        record r {
          buffer = set r.buffer r.pos_write b;
          pos_write = advance r.len r.pos_write;
          count = suc r.count;
        },
        1,
      )
  unfolding write
  write_room o ne = ground arith

  write_last :
      r.overflow ≡ false
      → advance r.len r.pos_write ≡ r.pos_read
      → write r b ≡ (
        record r {
          buffer = set r.buffer r.pos_write b;
          pos_write = advance r.len r.pos_write;
          overflow = true;
        },
        0,
      )
  unfolding write
  write_last o e = ground arith

  pub write_over : r.overflow ≡ true → write r b ≡ (r, 0)
  unfolding write
  write_over o = rw o

  module _ (xs : List ℕ) (h : Holds r xs) (room : suc (length xs) < r.len) where
    next_write : advance r.len r.pos_write ≡ index r.len r.pos_read (suc (length xs))
    next_write =
        ap (advance r.len) h.ends
        ∙ advance-index r.len r.pos_read (length xs) h.valid.read_in h.fits

    -- A byte that fits is appended, and counted.
    pub write-Holds :
        Holds (write r b).0 (xs ++ b ∷ [])
        × ((write r b).1 ≡ 1)
        × ((write r b).0.count ≡ suc r.count)
        × ((write r b).0.mark_pos ≡ r.mark_pos)
        × ((write r b).0.pos_read ≡ r.pos_read)
        × ((write r b).0.len ≡ r.len)
    write-Holds =
        rw
          (write_room h.clear
            (index-ne r.len r.pos_read (length xs) _ h.valid.read_in room next_write))
          (pushed, refl, refl, refl, refl, refl)
      where
        longer : length (xs ++ b ∷ []) ≡ suc (length xs)
        longer = omega (arith, length-append xs (b ∷ []))

        grown :
            window (set r.buffer r.pos_write b) r.len r.pos_read (suc (length xs)) ≡ xs ++ b ∷ []
        grown =
            window-push r.buffer r.len r.pos_read (length xs) r.pos_write b h.valid.read_in h.fits
              h.valid.storage h.ends
            ∙ ap (λ ys. ys ++ b ∷ []) h.bytes

        pushed :
            Holds
              (record r {
                buffer = set r.buffer r.pos_write b;
                pos_write = advance r.len r.pos_write;
                count = suc r.count;
              })
              (xs ++ b ∷ [])
        pushed = record {
          valid = record {
            storage = omega (arith, length-set r.buffer r.pos_write b, h.valid.storage);
            small = h.valid.small;
            read_in = h.valid.read_in;
            write_in = omega (
              arith,
              next_write,
              index-lt r.len r.pos_read (suc (length xs)) h.valid.read_in room,
            );
            mark_in = h.valid.mark_in;
          };
          fits = omega (arith, longer);
          ends = next_write ∙ ap (index r.len r.pos_read) (sym longer);
          bytes = ap (window _ r.len r.pos_read) longer ∙ grown;
          clear = h.clear;
        }

  -- The byte that fills the last cell is the overflow.
  pub write-Spilt :
      (xs old : List ℕ)
      → Holds r xs
      → length old ≤ length xs
      → window r.buffer r.len r.pos_read (length old) ≡ old
      → suc (length xs) ≡ r.len
      → Spilt (write r b).0 old
        × ((write r b).0.mark_pos ≡ r.mark_pos)
        × ((write r b).0.pos_read ≡ r.pos_read)
        × ((write r b).0.len ≡ r.len)
  write-Spilt xs old h le kept full = rw (write_last h.clear wraps) (spilt, refl, refl, refl)
    where
      wraps : advance r.len r.pos_write ≡ r.pos_read
      wraps =
          advance-index_full r.len r.pos_read (length xs) r.pos_write h.valid.read_in full h.ends

      spilt :
          Spilt
            (record r {
              buffer = set r.buffer r.pos_write b;
              pos_write = advance r.len r.pos_write;
              overflow = true;
            })
            old
      spilt = record {
        valid = record {
          storage = omega (arith, length-set r.buffer r.pos_write b, h.valid.storage);
          small = h.valid.small;
          read_in = h.valid.read_in;
          write_in = omega (arith, wraps, h.valid.read_in);
          mark_in = h.valid.mark_in;
        };
        fits = omega (arith, h.fits, le);
        bytes =
            window-set_past r.buffer r.len r.pos_read (length old) (length xs) r.pos_write b
              h.valid.read_in le h.fits h.ends
            ∙ kept;
        over = refl;
      }
