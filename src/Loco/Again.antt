-- ===== src/Loco/Again.antt =====
-- A slot that `getSlot` gave is the one that a search for its loco finds.
use command_station_ex.Base.{
  ℕ, zero, suc, ◌≡◌, ◌≤◌, ◌<◌, refl, ap, sym, ◌∙◌, subst, Bool, true, false, ◌&&◌, Option, none,
  some, List, [], ◌∷◌, arith, length, ltb, ◌==◌, ==_iff, if◌then◌else◌, Bool-cases, inl, inr,
}
use command_station_ex.Chain.{Links, Chain}
use command_station_ex.Chain.Loops.{find_slot}
use command_station_ex.Loco.{LocoSlot, Locos, get_slot, find_loco, prepare, new_loco, set_loco}
use command_station_ex.Loco.Table.{Table}
use command_station_ex.Loco.After.{get_slot_known, get_slot_again, get_slot_new, get_slot_full}

find_slot_head :
    (fuel : ℕ) (next : Links) (test : ℕ → Bool) (p : ℕ)
    → 0 < fuel
    → test p ≡ true
    → find_slot fuel next test (some p) ≡ some p
unfolding find_slot
find_slot_head zero next test p h e = absurd (omega (arith, h))
find_slot_head (suc fuel) next test p h e =
    ap (λ b. if b then some p else find_slot fuel next test (next p)) e

-- The functions of a loco, all off if it has no slot.
abbrev pub functions_of : Locos → Option ℕ → ℕ
functions_of st none = 0
functions_of st (some p) = (st.slot p).functions

prepare_found :
    (st : Locos) (p cab : ℕ)
    → 0 < st.created
    → (find_loco (prepare st p cab) cab ≡ some p) × (((prepare st p cab).slot p).functions ≡ 0)
unfolding find_loco prepare
prepare_found st p cab h =
    let st1 = prepare st p cab in
    let (for_cab, off) = own (p == p) (ground arith) in
    (find_slot_head st.created st1.next (λ a. (st1.slot a).loco == cab) p h for_cab, off)
  where
    own :
        (b : Bool)
        → b ≡ true
        → (((if b then new_loco cab else st.slot p).loco == cab) ≡ true)
          × ((if b then new_loco cab else st.slot p).functions ≡ 0)
    own true e = (ground arith, refl)
    own false e = absurd (no_path e)
      where
        no_path : false ≡ true → ⊥
        no_path f = cc

module _ (max_locos : ℕ) (alloc : Bool) (st : Locos) (t : List LocoSlot) (spare cab : ℕ)
    (h : Table st t spare) (real : (cab == 0) ≡ false) where
  -- The request gives the slot `p` in the store `st'`.
  abbrev Gives : Locos × Option ℕ → Locos → ℕ → Type 0
  Gives r st' p = r ≡ (st', some p)

  spare_created : (r : ℕ) → st.recycler ≡ some r → 0 < st.created
  spare_created r e = by_list h.rs h.recycled (omega (arith, h.room))
    where
      by_list :
          (rs : List ℕ) → Chain st.next st.recycler rs → length rs ≤ st.created → 0 < st.created
      by_list [] c room = cc
      by_list (x ∷ rs) c room = omega (arith, room)

  nothing_given : {p : ℕ} → none ≡ some p → ⊥
  nothing_given f = cc

  -- The slot that is given is found again, with the functions that the loco had.
  pub get_slot-find_loco :
      (st' : Locos) (p : ℕ)
      → Gives (get_slot max_locos alloc st cab true) st' p
      → (find_loco st' cab ≡ some p) × ((st'.slot p).functions ≡ functions_of st (find_loco st cab))
  get_slot-find_loco st' p e = by_find (find_loco st cab) refl
    where
      Found : Option ℕ → Type 0
      Found o = (find_loco st' cab ≡ some p) × ((st'.slot p).functions ≡ functions_of st o)

      gives : (r : Locos × Option ℕ) → get_slot max_locos alloc st cab true ≡ r → r ≡ (st', some p)
      gives r f = sym f ∙ e

      found :
          (o : Option ℕ) (l : Locos) (q : ℕ)
          → Gives (l, some q) st' p
          → (find_loco l cab ≡ some q) × (functions_of l (some q) ≡ functions_of st o)
          → Found o
      found o l q same f =
          subst
            (λ (r : Locos × Option ℕ).
              (find_loco r.0 cab ≡ r.1) × (functions_of r.0 r.1 ≡ functions_of st o))
            same f

      by_find : (o : Option ℕ) → find_loco st cab ≡ o → Found o
      by_find (some q) known =
          found (some q) st q (gives _ (get_slot_known max_locos alloc st cab real true q known))
            (known, refl)
      by_find none unknown = by_recycler st.recycler refl
        where
          by_recycler : (o : Option ℕ) → st.recycler ≡ o → Found none
          by_recycler (some r) again =
              found none (prepare (record st { recycler = st.next r }) r cab) r
                (gives _ (get_slot_again max_locos alloc st cab real unknown r again))
                (prepare_found (record st { recycler = st.next r }) r cab (spare_created r again))
          by_recycler none nothing = elim (Bool-cases (ltb st.slot_count max_locos && alloc)) [
            | inl fits ↦
                let st1 : Locos = record st {
                  slot_count = suc st.slot_count;
                  created = suc st.created;
                } in
                found none (prepare st1 st.created cab) st.created
                  (gives _ (get_slot_new max_locos alloc st cab real unknown nothing fits))
                  (prepare_found st1 st.created cab (omega arith))
            | inr full ↦
                let no_slot =
                  gives _ (get_slot_full max_locos alloc st cab real unknown nothing full) in
                absurd (nothing_given (ap (λ (r : Locos × Option ℕ). r.1) no_slot))
          ]

-- A slot may change, as long as it stays with its loco.
pub find_loco_changed :
    (st : Locos) (cab : ℕ) (s : LocoSlot) (p : ℕ)
    → s.loco ≡ (st.slot p).loco
    → find_loco (record st { slot = set_loco st.slot p s }) cab ≡ find_loco st cab
unfolding find_loco
find_loco_changed st cab s p same =
    ap (λ (test : ℕ → Bool). find_slot st.created st.next test st.first_slot)
      (λ i a. (by_hit (a == p) a (==_iff a p).0) i == cab)
  where
    by_hit :
        (b : Bool) (a : ℕ)
        → (b ≡ true → a ≡ p)
        → (if b then s else st.slot a).loco ≡ (st.slot a).loco
    by_hit true a at = same ∙ ap (λ q. (st.slot q).loco) (sym (at refl))
    by_hit false a at = refl
