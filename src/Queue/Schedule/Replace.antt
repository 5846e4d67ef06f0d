-- ===== src/Queue/Schedule/Replace.antt =====
-- One slot of a queue gets a new packet in place.
use command_station_ex.Base.{
  ℕ, ◌+◌, ◌≤◌, ◌<◌, ◌≡◌, ◌≢◌, refl, sym, ap, ap₂, ◌∙◌, Bool, none, some, List, [], ◌∷◌, ◌++◌, arith,
  length, take, overlay, Bool-cases, inl, inr,
}
use command_station_ex.Chain.{count, ne_of_count}
use command_station_ex.Chain.Loops.{first}
use command_station_ex.Queue.{Slot, Queues, set_slot}
use command_station_ex.Queue.Spec.{Entry, entry, change_or_add}
use command_station_ex.Queue.Schedule.Rep.{Rep, small}
use command_station_ex.Queue.Schedule.Refine.{
  Shows, entries, IsPacket, entries_same, take_all, take-overlay,
}

pub at_changed :
    (slot : ℕ → Slot) (s : Slot → Slot) (p x : ℕ)
    → x ≡ p
    → set_slot slot p (s (slot p)) x ≡ s (slot x)
at_changed slot s p x e = ground (arith, e)

pub at_other :
    (slot : ℕ → Slot) (s : Slot → Slot) (p x : ℕ) → x ≢ p → set_slot slot p (s (slot p)) x ≡ slot x
at_other slot s p x ne = ground (arith, ne)

-- The first slot of a chain that passes a test, and the entries once it is changed.
module _ (slot : ℕ → Slot) (s : Slot → Slot) (test : Entry → Bool) (change : Entry → Entry)
    (new : Entry) (changed : (x : Slot) → entry (s x) ≡ change (entry x)) where
  pub first_misses :
      (xs : List ℕ)
      → first (λ a. test (entry (slot a))) xs ≡ none
      → change_or_add test change new (entries slot xs) ≡ entries slot xs ++ new ∷ []
  unfolding first change_or_add
  first_misses [] e = refl
  first_misses (x ∷ xs) e = ground (arith, e, first_misses xs)

  pub first_hits :
      (xs : List ℕ) (p : ℕ)
      → ((a : ℕ) → count a xs ≤ 1)
      → first (λ a. test (entry (slot a))) xs ≡ some p
      → (0 < count p xs)
        × (change_or_add test change new (entries slot xs)
            ≡ entries (set_slot slot p (s (slot p))) xs)
  unfolding first change_or_add
  first_hits [] p d e = cc
  first_hits (x ∷ xs) p d e = elim (Bool-cases (test (entry (slot x)))) [
    | inl hit ↦
        let eq : x ≡ p = ground (arith, e, hit) in
        let out : count p xs ≡ 0 = ground (arith, eq, d p) in
        rw hit (
          ground (arith, eq),
          ap₂ ◌∷◌ (sym (changed (slot x)) ∙ ap entry (sym (at_changed slot s p x eq)))
              (sym (entries_same slot _ xs λ a i. at_other slot s p a (ne_of_count a p xs i out))),
        )
    | inr miss ↦
        let (i, ih) = first_hits xs p (λ a. omega (arith, d a)) (ground (arith, e, miss)) in
        let ne : x ≢ p = λ q. ground (arith, q, i, d p) in
        rw miss (omega (arith, i), ap₂ ◌∷◌ (ap entry (sym (at_other slot s p x ne))) ih)
  ]

-- A store with other contents of its slots is as sound.
pub Rep-slot :
    (st : Queues) (slot' : ℕ → Slot) (hs ls rs hand : List ℕ)
    → Rep st hs ls rs hand
    → Rep (record st { slot = slot' }) hs ls rs hand
Rep-slot st slot' hs ls rs hand r = record {
  high = r.high;
  low = r.low;
  recycled = r.recycled;
  once = r.once;
  total = r.total;
}

-- Entries are the same packet to the same loco with other bytes and repeats.
unfoldable pub replaced : List ℕ → ℕ → Entry → Entry
replaced packet repeats e = record e { bytes = packet; repeats = repeats }

abbrev pub write_packet : List ℕ → ℕ → ℕ → Slot → Slot
write_packet packet n repeats s = record s {
  packet = overlay (take n packet) s.packet;
  packet_length = n;
  packet_repeat = repeats;
}

pub replaced_lem :
    (packet : List ℕ) (n repeats : ℕ) (s : Slot)
    → IsPacket packet n
    → entry (write_packet packet n repeats s) ≡ replaced packet repeats (entry s)
unfolding replaced
replaced_lem packet n repeats s (e, fits) =
    ap
      (λ (bytes : List ℕ).
        let x : Entry = record (entry s) { bytes = bytes; repeats = repeats } in x)
      (ap (λ k. take k (overlay (take k packet) s.packet)) e
        ∙ ap (λ xs. take (length packet) (overlay xs s.packet)) (take_all packet)
        ∙ take-overlay packet s.packet)

-- A slot of one queue is changed; the other queue does not see it.
module _ (st : Queues) (highs lows : List Entry) (sh : Shows st highs lows) (s : Slot → Slot)
    (p : ℕ) where
  pub one_each : (a : ℕ) → count a sh.hs + count a sh.ls ≤ 1
  one_each a = omega (arith, small st sh.hs sh.ls sh.rs [] sh.rep a)

  unseen :
      (xs : List ℕ)
      → count p xs ≡ 0
      → entries (set_slot st.slot p (s (st.slot p))) xs ≡ entries st.slot xs
  unseen xs out = entries_same st.slot _ xs λ a i. at_other st.slot s p a (ne_of_count a p xs i out)

  pub change_high :
      (highs' : List Entry)
      → 0 < count p sh.hs
      → highs' ≡ entries (set_slot st.slot p (s (st.slot p))) sh.hs
      → Shows (record st { slot = set_slot st.slot p (s (st.slot p)) }) highs' lows
  change_high highs' i e = record {
    hs = sh.hs;
    ls = sh.ls;
    rs = sh.rs;
    rep = Rep-slot st _ sh.hs sh.ls sh.rs [] sh.rep;
    high_entries = sym e;
    low_entries = unseen sh.ls (omega (arith, one_each p, i)) ∙ sh.low_entries;
  }

  pub change_low :
      (lows' : List Entry)
      → 0 < count p sh.ls
      → lows' ≡ entries (set_slot st.slot p (s (st.slot p))) sh.ls
      → Shows (record st { slot = set_slot st.slot p (s (st.slot p)) }) highs lows'
  change_low lows' i e = record {
    hs = sh.hs;
    ls = sh.ls;
    rs = sh.rs;
    rep = Rep-slot st _ sh.hs sh.ls sh.rs [] sh.rep;
    high_entries = unseen sh.hs (omega (arith, one_each p, i)) ∙ sh.high_entries;
    low_entries = sym e;
  }
