-- ===== src/Ring/Message.antt =====
-- The bytes between `mark` and `commit`: they are appended, or one of them overflows the ring.
use command_station_ex.Base.{
  ℕ, suc, ◌+◌, ◌≤◌, ◌<◌, ◌≡◌, refl, sym, ap, ap₂, subst, ◌∙◌, true, List, [], ◌∷◌, ◌++◌, arith,
  length, length-append, append_assoc, append-nil,
}
use native.Mathlib.Decide.{dec_lt}
use command_station_ex.Ring.{RingStream, write}
use command_station_ex.Ring.Window.{index, window-prefix}
use command_station_ex.Ring.Frame.{Holds, Spilt, write-Holds, write-Spilt, write_over}

-- The callers' `for` loops and `Print::write` of a buffer: one byte after the other.
unfoldable pub write_all : List ℕ → RingStream → RingStream
write_all [] r = r
write_all (b ∷ bs) r = write_all bs (write r b).0

-- `old` is committed, `msg` is being written.
pub record Live (r : RingStream) (old msg : List ℕ) : Type 0 where
  pub holds : Holds r (old ++ msg)
  pub mark_at : r.mark_pos ≡ index r.len r.pos_read (length old)

pub record Dead (r : RingStream) (old : List ℕ) : Type 0 where
  pub spilt : Spilt r old
  pub mark_at : r.mark_pos ≡ index r.len r.pos_read (length old)

pub write_all-over : (bs : List ℕ) (r : RingStream) → r.overflow ≡ true → write_all bs r ≡ r
unfolding write_all
write_all-over [] r o = refl
write_all-over (b ∷ bs) r o =
    ap (λ (p : RingStream × ℕ). write_all bs p.0) (write_over r b o) ∙ write_all-over bs r o

pub write-Live :
    (r : RingStream) (b : ℕ) (old msg : List ℕ)
    → Live r old msg
    → length old + length msg + 1 < r.len
    → Live (write r b).0 old (msg ++ b ∷ [])
      × ((write r b).0.count ≡ suc r.count)
      × ((write r b).0.len ≡ r.len)
write-Live r b old msg l room =
    let (h, _, c, m, p, n) =
      write-Holds r b (old ++ msg) l.holds (omega (arith, length-append old msg, room)) in
    (
      record {
        holds = subst (Holds (write r b).0) (append_assoc old msg (b ∷ [])) h;
        mark_at = m ∙ l.mark_at ∙ ap₂ (λ k q. index k q (length old)) (sym n) (sym p);
      },
      c,
      n,
    )

pub write_all-Live :
    (bs : List ℕ) (r : RingStream) (old msg : List ℕ)
    → Live r old msg
    → length old + length msg + length bs < r.len
    → Live (write_all bs r) old (msg ++ bs)
      × ((write_all bs r).count ≡ r.count + length bs)
      × ((write_all bs r).len ≡ r.len)
unfolding write_all
write_all-Live [] r old msg l room = (rw (append-nil msg) l, omega arith, refl)
write_all-Live (b ∷ bs) r old msg l room =
    let (next, c, n) = write-Live r b old msg l (omega arith) in
    let (rest, c', n') =
      write_all-Live bs (write r b).0 old (msg ++ b ∷ []) next
        (omega (arith, length-append msg (b ∷ []), n)) in
    (
      subst (Live (write_all bs (write r b).0) old) (append_assoc msg (b ∷ []) bs) rest,
      omega (arith, c, c'),
      n' ∙ n,
    )

pub write_all-Dead :
    (bs : List ℕ) (r : RingStream) (old msg : List ℕ)
    → Live r old msg
    → r.len ≤ length old + length msg + length bs
    → Dead (write_all bs r) old
unfolding write_all
write_all-Dead [] r old msg l full = absurd (omega (arith, l.holds.fits, length-append old msg))
write_all-Dead (b ∷ bs) r old msg l full = elim (dec_lt (length old + length msg + 1) r.len) [
  | yes room ↦
      let (next, _, n) = write-Live r b old msg l room in
      write_all-Dead bs (write r b).0 old (msg ++ b ∷ []) next
        (omega (arith, length-append msg (b ∷ []), n))
  | no last ↦
      let (s, m, p, n) =
        write-Spilt r b (old ++ msg) old l.holds (omega (arith, length-append old msg))
          (window-prefix r.buffer r.len r.pos_read old msg l.holds.bytes)
          (omega (arith, length-append old msg, l.holds.fits)) in
      rw (write_all-over bs (write r b).0 s.over) (record {
        spilt = s;
        mark_at = m ∙ l.mark_at ∙ ap₂ (λ k q. index k q (length old)) (sym n) (sym p);
      })
]

pub Live-count :
    {r : RingStream} {old msg : List ℕ} (n : ℕ)
    → Live r old msg
    → Live (record r { count = n }) old msg
Live-count n l = record {
  holds = record {
    valid = omega (arith, l.holds.valid);
    fits = l.holds.fits;
    ends = l.holds.ends;
    bytes = l.holds.bytes;
    clear = l.holds.clear;
  };
  mark_at = l.mark_at;
}

pub Dead-count :
    {r : RingStream} {old : List ℕ} (n : ℕ) → Dead r old → Dead (record r { count = n }) old
Dead-count n d = record {
  spilt = record {
    valid = omega (arith, d.spilt.valid);
    fits = d.spilt.fits;
    bytes = d.spilt.bytes;
    over = d.spilt.over;
  };
  mark_at = d.mark_at;
}
