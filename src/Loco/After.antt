-- ===== src/Loco/After.antt =====
-- The branches of a request for a slot, in the store and on the table.
use command_station_ex.Base.{
  ℕ, suc, ◌-◌, ◌<◌, ◌≡◌, refl, sym, ap, ◌∙◌, Bool, true, false, not, ◌&&◌, Option, none, some, List,
  [], ◌∷◌, map, arith, length, ltb, ◌==◌, if◌then◌else◌, Bool-cases, inl, inr,
}
use command_station_ex.Chain.Loops.{first, find_slot-first}
use command_station_ex.Loco.{LocoSlot, Locos, new_loco, prepare, find_loco, get_slot}
use command_station_ex.Loco.Table.{Table, table_get, table_get_misses, table_get_hits}

-- What a request for a loco makes of the table and of the number of spare slots.
unfoldable pub table_after : ℕ → Bool → ℕ → ℕ → Bool → List LocoSlot → List LocoSlot × ℕ
table_after max_locos alloc loco spare auto_create t =
    if loco == 0 then (t, spare) else elim (table_get loco t) [
      | some s ↦ (t, spare)
      | none ↦
          if not auto_create
          then (t, spare)
          else if ltb 0 spare
          then (new_loco loco ∷ t, spare - 1)
          else if ltb (length t) max_locos && alloc
          then (new_loco loco ∷ t, 0)
          else (t, spare)
    ]

abbrev pub slot_at : Locos → Option ℕ → Option LocoSlot
slot_at st none = none
slot_at st (some p) = some (st.slot p)

pub length-map : (slot : ℕ → LocoSlot) (xs : List ℕ) → length (map slot xs) ≡ length xs
length-map slot [] = refl
length-map slot (x ∷ xs) = ap suc (length-map slot xs)

module _ (st : Locos) (t : List LocoSlot) (spare loco : ℕ) (h : Table st t spare) where
  pub find_loco_chain : find_loco st loco ≡ first (λ a. (st.slot a).loco == loco) h.xs
  unfolding find_loco
  find_loco_chain =
      find_slot-first st.created st.next (λ a. (st.slot a).loco == loco) st.first_slot h.xs h.chain
        (omega (arith, h.room))

  pub find_loco_misses : find_loco st loco ≡ none → table_get loco t ≡ none
  find_loco_misses e =
      ap (table_get loco) (sym h.shows)
      ∙ table_get_misses st.slot loco h.xs (sym find_loco_chain ∙ e)

  pub find_loco_hits : (p : ℕ) → find_loco st loco ≡ some p → table_get loco t ≡ some (st.slot p)
  find_loco_hits p e =
      ap (table_get loco) (sym h.shows)
      ∙ (table_get_hits st.slot loco h.xs p (sym find_loco_chain ∙ e)).2

-- The branches of a request.
module _ (max_locos : ℕ) (alloc : Bool) (st : Locos) (loco : ℕ) (real : (loco == 0) ≡ false) where
  pub get_slot_known :
      (auto_create : Bool) (p : ℕ)
      → find_loco st loco ≡ some p
      → get_slot max_locos alloc st loco auto_create ≡ (st, some p)
  unfolding get_slot
  get_slot_known auto_create p e = rw (real, e, get_slot) refl

  module _ (unknown : find_loco st loco ≡ none) where
    pub get_slot_only : get_slot max_locos alloc st loco false ≡ (st, none)
    unfolding get_slot
    get_slot_only = rw (real, unknown, get_slot) refl

    pub get_slot_again :
        (r : ℕ)
        → st.recycler ≡ some r
        → get_slot max_locos alloc st loco true
          ≡ (prepare (record st { recycler = st.next r }) r loco, some r)
    unfolding get_slot
    get_slot_again r e = rw (real, unknown, e, get_slot) refl

    pub get_slot_new :
        st.recycler ≡ none
        → (ltb st.slot_count max_locos && alloc) ≡ true
        → get_slot max_locos alloc st loco true ≡ (
          prepare
              (record st { slot_count = suc st.slot_count; created = suc st.created })
              st.created
              loco,
          some st.created,
        )
    unfolding get_slot
    get_slot_new e fits =
        let below : ltb st.slot_count max_locos ≡ true = ground (arith, fits) in
        let given : alloc ≡ true = ground (arith, fits) in
        simp (real, unknown, e, below, given, get_slot)

    pub get_slot_full :
        st.recycler ≡ none
        → (ltb st.slot_count max_locos && alloc) ≡ false
        → get_slot max_locos alloc st loco true ≡ (st, none)
    unfolding get_slot
    get_slot_full e full = elim (Bool-cases (ltb st.slot_count max_locos)) [
      | inl below ↦
          let refused : alloc ≡ false = ground (arith, full, below) in
          simp (real, unknown, e, below, refused, get_slot)
      | inr at_limit ↦ simp (real, unknown, e, at_limit, get_slot)
    ]

-- The branches of the table.
module _ (max_locos : ℕ) (alloc : Bool) (loco spare : ℕ) (t : List LocoSlot)
    (real : (loco == 0) ≡ false) where
  pub after_known :
      (auto_create : Bool) (s : LocoSlot)
      → table_get loco t ≡ some s
      → table_after max_locos alloc loco spare auto_create t ≡ (t, spare)
  unfolding table_after
  after_known auto_create s e = rw (real, e, table_after) refl

  module _ (absent : table_get loco t ≡ none) where
    pub after_only : table_after max_locos alloc loco spare false t ≡ (t, spare)
    unfolding table_after
    after_only = rw (real, absent, table_after) refl

    pub after_again :
        0 < spare → table_after max_locos alloc loco spare true t ≡ (new_loco loco ∷ t, spare - 1)
    unfolding table_after
    after_again more =
        let test : ltb 0 spare ≡ true = ground (arith, more) in
        rw (real, absent, test, table_after) refl

    pub after_new :
        spare ≡ 0
        → (ltb (length t) max_locos && alloc) ≡ true
        → table_after max_locos alloc loco spare true t ≡ (new_loco loco ∷ t, 0)
    unfolding table_after
    after_new zero' fits =
        let test : ltb 0 spare ≡ false = ground (arith, zero') in
        rw (real, absent, test, fits, table_after) refl

    pub after_full :
        spare ≡ 0
        → (ltb (length t) max_locos && alloc) ≡ false
        → table_after max_locos alloc loco spare true t ≡ (t, spare)
    unfolding table_after
    after_full zero' full =
        let test : ltb 0 spare ≡ false = ground (arith, zero') in
        rw (real, absent, test, full, table_after) refl
