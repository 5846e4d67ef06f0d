-- ===== src/Queue/Schedule/Turns.antt =====
-- One slot of a queue goes out: the entries before and after.
use command_station_ex.Base.{
  ℕ, zero, suc, ◌+◌, ◌-◌, ◌%◌, ◌^◌, ◌≤◌, ◌<◌, ◌≡◌, ◌≢◌, refl, sym, ap, ap₂, subst, ◌∙◌, Bool, true,
  false, Option, none, some, List, [], ◌∷◌, arith, ◌==◌, ==_iff, take, set, get_or, bit_and,
  Bool-cases, inl, inr, ◌⊎◌,
}
use command_station_ex.Chain.{count, without, ne_of_count}
use command_station_ex.Chain.Loops.{first}
use command_station_ex.Queue.{Slot, Queues, set_slot, loco_id, acc_off_packet}
use command_station_ex.Queue.Spec.{Entry, entry, change_first, pick, used, turned_off, sent_repeats}
use command_station_ex.Queue.Schedule.{retire, send, dispatch}
use command_station_ex.Queue.Schedule.Refine.{entries, entries_same}

-- The first slot that passes a test, its entry, and the entries once it is changed or taken out.
module _ (slot : ℕ → Slot) (test : Entry → Bool) (change : Entry → Option Entry) where
  pub pick_misses :
      (xs : List ℕ)
      → first (λ a. test (entry (slot a))) xs ≡ none
      → pick test (entries slot xs) ≡ none
  unfolding first pick
  pick_misses [] e = refl
  pick_misses (x ∷ xs) e = ground (arith, e, pick_misses xs)

  pub pick_hits :
      (xs : List ℕ) (p : ℕ)
      → first (λ a. test (entry (slot a))) xs ≡ some p
      → (0 < count p xs)
        × (test (entry (slot p)) ≡ true)
        × (pick test (entries slot xs) ≡ some (entry (slot p)))
  unfolding first pick
  pick_hits [] p e = cc
  pick_hits (x ∷ xs) p e = elim (Bool-cases (test (entry (slot x)))) [
    | inl hit ↦
        let eq : x ≡ p = ground (arith, e, hit) in
        (
          ground (arith, eq),
          ap (λ a. test (entry (slot a))) (sym eq) ∙ hit,
          rw hit (ap (λ a. some (entry (slot a))) eq),
        )
    | inr miss ↦
        let (i, holds, ih) = pick_hits xs p (ground (arith, e, miss)) in
        (omega (arith, i), holds, rw miss ih)
  ]

  pub first_out :
      (xs : List ℕ) (p : ℕ)
      → first (λ a. test (entry (slot a))) xs ≡ some p
      → change (entry (slot p)) ≡ none
      → change_first test change (entries slot xs) ≡ entries slot (without p xs)
  unfolding first change_first
  first_out [] p e c = cc
  first_out (x ∷ xs) p e c = elim (Bool-cases (test (entry (slot x)))) [
    | inl hit ↦
        let eq : p ≡ x = ground (arith, e, hit) in
        let same : (p == x) ≡ true = (==_iff p x).1 eq in
        let c' : change (entry (slot x)) ≡ none =
          subst (λ a. change (entry (slot a)) ≡ none) eq c in
        rw (hit, same, c', change_first) refl
    | inr miss ↦
        let e' : first (λ a. test (entry (slot a))) xs ≡ some p = ground (arith, e, miss) in
        let ne : (p == x) ≡ false = other x p miss (pick_hits xs p e').1 in
        rw (miss, ne, change_first) (ap (◌∷◌ (entry (slot x))) (first_out xs p e' c))
  ]
    where
      other :
          (a b : ℕ)
          → test (entry (slot a)) ≡ false
          → test (entry (slot b)) ≡ true
          → (b == a) ≡ false
      other a b miss holds = elim (Bool-cases (b == a)) [
        | inl eq ↦
            let back : test (entry (slot b)) ≡ test (entry (slot a)) =
              ap (λ c. test (entry (slot c))) ((==_iff b a).0 eq) in
            cc
        | inr apart ↦ apart
      ]

  pub first_changed :
      (xs : List ℕ) (p : ℕ) (s : Slot)
      → ((a : ℕ) → count a xs ≤ 1)
      → first (λ a. test (entry (slot a))) xs ≡ some p
      → change (entry (slot p)) ≡ some (entry s)
      → change_first test change (entries slot xs) ≡ entries (set_slot slot p s) xs
  unfolding first change_first
  first_changed [] p s d e c = cc
  first_changed (x ∷ xs) p s d e c = elim (Bool-cases (test (entry (slot x)))) [
    | inl hit ↦
        let eq : p ≡ x = ground (arith, e, hit) in
        let c' : change (entry (slot x)) ≡ some (entry s) =
          subst (λ a. change (entry (slot a)) ≡ some (entry s)) eq c in
        let out : count p xs ≡ 0 = ground (arith, eq, d p) in
        rw (hit, c', change_first)
          (ap₂ ◌∷◌ (ap entry (sym (written x (sym eq))))
            (sym (entries_same slot _ xs λ a i. kept a (ne_of_count a p xs i out))))
    | inr miss ↦
        let e' : first (λ a. test (entry (slot a))) xs ≡ some p = ground (arith, e, miss) in
        let i = (pick_hits xs p e').0 in
        let ne : x ≢ p = λ q. ground (arith, q, i, d p) in
        rw (miss, change_first)
          (ap₂ ◌∷◌ (ap entry (sym (kept x ne)))
            (first_changed xs p s (λ a. omega (arith, d a)) e' c))
  ]
    where
      written : (a : ℕ) → a ≡ p → set_slot slot p s a ≡ s
      written a eq = ground (arith, eq)

      kept : (a : ℕ) → a ≢ p → set_slot slot p s a ≡ slot a
      kept a ne = ground (arith, ne)

take-set : (n : ℕ) (xs : List ℕ) (i v : ℕ) → take n (set xs i v) ≡ set (take n xs) i v
take-set zero xs i v = refl
take-set (suc n) [] i v = refl
take-set (suc n) (x ∷ xs) zero v = refl
take-set (suc n) (x ∷ xs) (suc i) v = ap (◌∷◌ x) (take-set n xs i v)

-- A byte of a prefix is changed, or is not there.
take_change :
    (n : ℕ) (xs : List ℕ) (f : ℕ → ℕ)
    → take n (set xs 1 (f (get_or xs 1 0))) ≡ set (take n xs) 1 (f (get_or (take n xs) 1 0))
take_change zero xs f = refl
take_change (suc zero) [] f = refl
take_change (suc zero) (x ∷ xs) f = refl
take_change (suc (suc n)) [] f = refl
take_change (suc (suc n)) (x ∷ []) f = refl
take_change (suc (suc n)) (x ∷ y ∷ xs) f = refl

-- The slot whose accessory is to be turned off, as `retire` writes it.
abbrev pub off_slot : ℕ → Slot → Slot
off_slot now s = record s {
  type = acc_off_packet;
  packet = set s.packet 1 (bit_and (get_or s.packet 1 0) 0xF7);
  shared = (now + loco_id s) % 2 ^ 32;
}

pub off_slot-entry : (now : ℕ) (s : Slot) → entry (off_slot now s) ≡ turned_off now (entry s)
unfolding turned_off
off_slot-entry now s =
    ap
      (λ (bytes : List ℕ).
        let x : Entry = record {
          type = acc_off_packet;
          bytes = bytes;
          repeats = s.packet_repeat;
          shared = (now + loco_id s) % 2 ^ 32;
        } in
        x)
      (take_change s.packet_length s.packet (λ b. bit_and b 0xF7))

-- A slot with one repeat less.
abbrev pub again : Slot → Slot
again s = record s { packet_repeat = s.packet_repeat - 1 }

-- What a packet that went out leaves behind, read off its entry.
pub dispatch-cases :
    (out : Queues → ℕ → Queues) (st : Queues) (now p : ℕ)
    → ((used (entry (st.slot p)) ≡ none)
        × (dispatch out st now p
            ≡ retire (out (send st p (sent_repeats (entry (st.slot p)))) p) p now))
      ⊎ ((used (entry (st.slot p)) ≡ some (entry (again (st.slot p))))
          × (sent_repeats (entry (st.slot p)) ≡ 0)
          × (dispatch out st now p
              ≡ record (send st p 0) { slot = set_slot st.slot p (again (st.slot p)) }))
unfolding dispatch used sent_repeats send
dispatch-cases out st now p = elim (Bool-cases (loco_id (st.slot p) == 0)) [
  | inl all ↦ inl (rw (all, used) refl, rw (all, dispatch, sent_repeats) refl)
  | inr one ↦ elim (Bool-cases ((st.slot p).packet_repeat == 0)) [
    | inl done ↦ inl (rw (one, done, used) refl, rw (one, done, dispatch, sent_repeats) refl)
    | inr more ↦
        inr (rw (one, more, used) refl, rw (one, sent_repeats) refl, rw (one, more, dispatch) refl)
  ]
]
