-- ===== src/Queue/Schedule/Refine.antt =====
-- The store as two lists of entries, and a taken slot that joins one of them.
use command_station_ex.Base.{
  ℕ, ◌+◌, ◌%◌, ◌≤◌, ◌<◌, ◌≡◌, ◌≢◌, refl, ap, ap₂, ◌∙◌, List, [], ◌∷◌, ◌++◌, map, arith, length,
  le→ltb, take, overlay,
}
use command_station_ex.Chain.{count, count_self, ne_of_count}
use command_station_ex.Queue.{
  PendingType, Slot, Queues, set_slot, max_packet_size, add_low, add_high, jump_high,
}
use command_station_ex.Queue.Spec.{Entry, entry}
use command_station_ex.Queue.Schedule.Rep.{Rep, small, add_low-Rep, add_high-Rep, jump_high-Rep}
use command_station_ex.Queue.Schedule.Take.{made, Took}

-- The store is sound, and its queues show `highs` and `lows`.
pub record Shows (st : Queues) (highs lows : List Entry) : Type 0 where
  pub hs : List ℕ
  pub ls : List ℕ
  pub rs : List ℕ
  pub rep : Rep st hs ls rs []
  pub high_entries : map (λ a. entry (st.slot a)) hs ≡ highs
  pub low_entries : map (λ a. entry (st.slot a)) ls ≡ lows

abbrev pub entries : (ℕ → Slot) → List ℕ → List Entry
entries slot = map (λ a. entry (slot a))

-- A packet of its stated length that fits the array.
abbrev pub IsPacket : List ℕ → ℕ → Type 0
IsPacket packet n = (n ≡ length packet) × (n ≤ max_packet_size)

unfoldable pub fresh : PendingType → List ℕ → ℕ → ℕ → Entry
fresh type packet repeats loco = record {
  type = type;
  bytes = packet;
  repeats = repeats;
  shared = loco % 65536;
}

pub take_all : (xs : List ℕ) → take (length xs) xs ≡ xs
take_all [] = refl
take_all (x ∷ xs) = ap (◌∷◌ x) (take_all xs)

pub take-overlay : (xs old : List ℕ) → take (length xs) (overlay xs old) ≡ xs
take-overlay [] old = refl
take-overlay (x ∷ xs) [] = ap (◌∷◌ x) (take_all xs)
take-overlay (x ∷ xs) (o ∷ old) = ap (◌∷◌ x) (take-overlay xs old)

pub entry-made :
    (type : PendingType) (packet : List ℕ) (n repeats loco : ℕ) (old : List ℕ)
    → IsPacket packet n
    → entry (made type packet n repeats loco old) ≡ fresh type packet repeats loco
unfolding made fresh
entry-made type packet n repeats loco old (e, fits) = rw (le→ltb max_packet_size n fits) (
    ap₂
      (λ (bytes : List ℕ) (word : ℕ).
        let x : Entry = record { type = type; bytes = bytes; repeats = repeats; shared = word } in
        x)
      (ap (λ k. take k (overlay (take k packet) old)) e
        ∙ ap (λ xs. take (length packet) (overlay xs old)) (take_all packet)
        ∙ take-overlay packet old)
      (omega arith))

pub entries_same :
    (slot slot' : ℕ → Slot) (xs : List ℕ)
    → ((a : ℕ) → 0 < count a xs → slot' a ≡ slot a)
    → entries slot' xs ≡ entries slot xs
entries_same slot slot' [] same = refl
entries_same slot slot' (x ∷ xs) same =
    ap₂ ◌∷◌ (ap entry (same x (count_self x xs)))
      (entries_same slot slot' xs (λ a i. same a (omega (arith, i))))

entries-append :
    (slot : ℕ → Slot) (xs : List ℕ) (p : ℕ)
    → entries slot (xs ++ p ∷ []) ≡ entries slot xs ++ entry (slot p) ∷ []
entries-append slot [] p = refl
entries-append slot (x ∷ xs) p = ap (◌∷◌ (entry (slot x))) (entries-append slot xs p)

-- A taken slot joins a queue; the entries before it are those that were there.
module _ (st : Queues) (hs ls : List ℕ) (s : ℕ → Slot) (res : Queues × ℕ)
    (t : Took st hs ls s res) where
  kept_by :
      (xs : List ℕ)
      → ((a : ℕ) → count a xs + count a (res.1 ∷ []) ≤ 1)
      → entries res.0.slot xs ≡ entries st.slot xs
  kept_by xs apart = entries_same st.slot res.0.slot xs λ a inside.
      t.slots a
      ∙ other a (ne_of_count a res.1 xs inside (omega (arith, apart res.1, count_self res.1 [])))
    where
      other : (a : ℕ) → a ≢ res.1 → set_slot st.slot res.1 (s res.1) a ≡ st.slot a
      other a ne = ground (arith, ne)

  own_entry : entry (res.0.slot res.1) ≡ entry (s res.1)
  own_entry = ap entry (t.slots res.1 ∙ self)
    where
      self : set_slot st.slot res.1 (s res.1) res.1 ≡ s res.1
      self = ground arith

  pub join_low :
      (highs lows : List Entry)
      → entries st.slot hs ≡ highs
      → entries st.slot ls ≡ lows
      → Shows (add_low res.0 res.1) highs (lows ++ entry (s res.1) ∷ [])
  unfolding add_low
  join_low highs lows eh el =
      let one = small res.0 hs ls t.rest (res.1 ∷ []) t.rep in
      record {
        hs = hs;
        ls = ls ++ res.1 ∷ [];
        rs = t.rest;
        rep = add_low-Rep res.0 hs ls t.rest res.1 t.rep;
        high_entries = kept_by hs (λ a. omega (arith, one a)) ∙ eh;
        low_entries =
            entries-append res.0.slot ls res.1
            ∙ ap₂ (λ es e. es ++ e ∷ []) (kept_by ls (λ a. omega (arith, one a)) ∙ el) own_entry;
      }

  pub join_high :
      (highs lows : List Entry)
      → entries st.slot hs ≡ highs
      → entries st.slot ls ≡ lows
      → Shows (add_high res.0 res.1) (highs ++ entry (s res.1) ∷ []) lows
  unfolding add_high
  join_high highs lows eh el =
      let one = small res.0 hs ls t.rest (res.1 ∷ []) t.rep in
      record {
        hs = hs ++ res.1 ∷ [];
        ls = ls;
        rs = t.rest;
        rep = add_high-Rep res.0 hs ls t.rest res.1 t.rep;
        high_entries =
            entries-append res.0.slot hs res.1
            ∙ ap₂ (λ es e. es ++ e ∷ []) (kept_by hs (λ a. omega (arith, one a)) ∙ eh) own_entry;
        low_entries = kept_by ls (λ a. omega (arith, one a)) ∙ el;
      }

  pub jump_front :
      (highs lows : List Entry)
      → entries st.slot hs ≡ highs
      → entries st.slot ls ≡ lows
      → Shows (jump_high res.0 res.1) (entry (s res.1) ∷ highs) lows
  unfolding jump_high
  jump_front highs lows eh el =
      let one = small res.0 hs ls t.rest (res.1 ∷ []) t.rep in
      record {
        hs = res.1 ∷ hs;
        ls = ls;
        rs = t.rest;
        rep = jump_high-Rep res.0 hs ls t.rest res.1 t.rep;
        high_entries = ap₂ ◌∷◌ own_entry (kept_by hs (λ a. omega (arith, one a)) ∙ eh);
        low_entries = kept_by ls (λ a. omega (arith, one a)) ∙ el;
      }
