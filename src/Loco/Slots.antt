-- ===== src/Loco/Slots.antt =====
-- `getSlot` on the table of locos.
use command_station_ex.Base.{
  ℕ, suc, ◌+◌, ◌≤◌, ◌≡◌, ◌≢◌, refl, sym, ap, ap₂, subst, ◌∙◌, Bool, true, false, ◌&&◌, Option, none,
  some, List, [], ◌∷◌, map, arith, length, ltb, ◌==◌, ==_iff, if◌then◌else◌, Bool-cases,
  Option-cases, inl, inr,
}
use command_station_ex.Chain.{link, link_self, Chain, Chain-link, count, count_self, ne_of_count}
use command_station_ex.Loco.{LocoSlot, Locos, set_loco, new_loco, prepare, find_loco, get_slot}
use command_station_ex.Loco.Table.{Table, table_get, slots_of, table_get-slots_of, map-frame}
use command_station_ex.Loco.After.{
  table_after, slot_at, length-map, find_loco_misses, find_loco_hits, get_slot_known, get_slot_only,
  get_slot_again, get_slot_new, get_slot_full, after_known, after_only, after_again, after_new,
  after_full,
}

-- A slot that is in no chain is made ready for a loco that has none.
module _ (st : Locos) (t : List LocoSlot) (xs rs : List ℕ) (p loco : ℕ)
    (chain : Chain st.next st.first_slot xs) (recycled : Chain st.next st.recycler rs)
    (once : (a : ℕ)
      → count a xs + count a rs + count a (p ∷ []) ≤ (if ltb a st.created then 1 else 0)) where
  prepare-Table :
      (total : st.slot_count ≡ suc (length xs + length rs))
      → (room : suc (length xs + length rs) ≤ st.created) → (shows : map st.slot xs ≡ t)
      → (apart : (other : ℕ) → slots_of other t ≤ 1) → (no_zero : slots_of 0 t ≡ 0)
      → (unknown : slots_of loco t ≡ 0) → loco ≢ 0
      → Table (prepare st p loco) (new_loco loco ∷ t) (length rs)
  unfolding prepare
  prepare-Table total room shows apart no_zero unknown real =
      let one : (a : ℕ) → count a xs + count a rs + count a (p ∷ []) ≤ 1 =
        λ a. ground (arith, once a) in
      let own = count_self p [] in
      let kept : (a : ℕ) → a ≢ p → set_loco st.slot p (new_loco loco) a ≡ st.slot a =
        λ a ne. ground (arith, ne) in
      let out : count p xs ≡ 0 = omega (arith, one p, own) in
      record {
        xs = p ∷ xs;
        rs = rs;
        chain = (
          refl,
          subst (λ o. Chain (link st.next p st.first_slot) o xs)
              (sym (link_self st.next p st.first_slot))
              (Chain-link st.next p st.first_slot st.first_slot xs out chain),
        );
        recycled =
            Chain-link st.next p st.first_slot st.recycler rs (omega (arith, one p, own)) recycled;
        once = λ a. omega (arith, once a);
        spares = refl;
        total = omega (arith, total);
        room = omega (arith, room);
        shows =
            ap₂ ◌∷◌ (ground arith)
              (map-frame st.slot _ xs (λ a i. kept a (ne_of_count a p xs i out)) ∙ shows);
        apart = λ other. elim (Bool-cases (loco == other)) [
          | inl same ↦
              let e : slots_of other t ≡ 0 =
                subst (λ l. slots_of l t ≡ 0) ((==_iff loco other).0 same) unknown in
              ground (arith, e)
          | inr differs ↦ ground (arith, differs, apart other)
        ];
        no_zero = ground (arith, real, no_zero);
      }

-- What a request promises: the table and the spare slots after it, and the slot that it returns.
unfoldable pub Served : ℕ → Locos × Option ℕ → List LocoSlot × ℕ → Type 0
Served loco res after = Table res.0 after.0 after.1 × (slot_at res.0 res.1 ≡ table_get loco after.0)

module _ (st : Locos) (t : List LocoSlot) (spare loco max_locos : ℕ) (alloc : Bool)
    (h : Table st t spare) (real : (loco == 0) ≡ false) where
  abbrev Promise : Bool → Type 0
  Promise auto_create =
      Served loco (get_slot max_locos alloc st loco auto_create)
        (table_after max_locos alloc loco spare auto_create t)

  length-xs : length h.xs ≡ length t
  length-xs = sym (length-map st.slot h.xs) ∙ ap length h.shows

  nonzero : loco ≢ 0
  nonzero q = ground (arith, q, real)

  served_known : (auto_create : Bool) (p : ℕ) → find_loco st loco ≡ some p → Promise auto_create
  unfolding Served
  served_known auto_create p e =
      let found = find_loco_hits st t spare loco h p e in
      rw
        (
          get_slot_known max_locos alloc st loco real auto_create p e,
          after_known max_locos alloc loco spare t real auto_create (st.slot p) found,
        )
        (h, sym found)

  module _ (unknown : find_loco st loco ≡ none) where
    absent : table_get loco t ≡ none
    absent = find_loco_misses st t spare loco h unknown

    -- The slot that was made ready for the loco is found.
    own :
        (st1 : Locos) (p : ℕ)
        → some ((prepare st1 p loco).slot p) ≡ table_get loco (new_loco loco ∷ t)
    unfolding table_get prepare
    own st1 p =
        let self : set_loco st1.slot p (new_loco loco) p ≡ new_loco loco = ground arith in
        let same : (loco == loco) ≡ true = ground arith in ap some self ∙ rw (same, table_get) refl

    served_only : Promise false
    unfolding Served
    served_only =
        rw
          (
            get_slot_only max_locos alloc st loco real unknown,
            after_only max_locos alloc loco spare t real absent,
          )
          (h, sym absent)

    served_again : (r : ℕ) (rs : List ℕ) → r ∷ rs ≡ h.rs → Promise true
    unfolding Served
    served_again r rs same =
        let rec' : Chain st.next st.recycler (r ∷ rs) =
          subst (Chain st.next st.recycler) (sym same) h.recycled in
        let size : suc (length rs) ≡ length h.rs = ap length same in
        let st1 : Locos = record st { recycler = st.next r } in
        let tb =
          prepare-Table st1 t h.xs rs r loco h.chain rec'.1
            (λ a. omega (arith, h.once a, ap (count a) same)) (omega (arith, h.total, size))
            (omega (arith, h.room, size)) h.shows h.apart h.no_zero
            (table_get-slots_of loco t absent) nonzero in
        rw
          (
            get_slot_again max_locos alloc st loco real unknown r rec'.0,
            after_again max_locos alloc loco spare t real absent (omega (arith, h.spares, size)),
          )
          (
            subst (Table (prepare st1 r loco) (new_loco loco ∷ t)) (omega (arith, h.spares, size))
                tb,
            own st1 r,
          )

    module _ (none_left : [] ≡ h.rs) where
      no_recycler : st.recycler ≡ none
      no_recycler = subst (Chain st.next st.recycler) (sym none_left) h.recycled

      no_spare : spare ≡ 0
      no_spare = sym h.spares ∙ ap length (sym none_left)

      used_slots : st.slot_count ≡ length t
      used_slots = omega (arith, h.total, length-xs, no_spare, h.spares)

      served_new : (ltb st.slot_count max_locos && alloc) ≡ true → Promise true
      unfolding Served
      served_new fits =
          let st1 : Locos = record st {
            slot_count = suc st.slot_count;
            created = suc st.created;
          } in
          let size : length h.rs ≡ 0 = ap length (sym none_left) in
          let tb =
            prepare-Table st1 t h.xs [] st.created loco h.chain no_recycler
              (λ a. ground (arith, h.once a)) (omega (arith, h.total, size))
              (omega (arith, h.room, size)) h.shows h.apart h.no_zero
              (table_get-slots_of loco t absent) nonzero in
          rw
            (
              get_slot_new max_locos alloc st loco real unknown no_recycler fits,
              after_new max_locos alloc loco spare t real absent no_spare
                  (ap (λ n. ltb n max_locos && alloc) (sym used_slots) ∙ fits),
            )
            (tb, own st1 st.created)

      served_full : (ltb st.slot_count max_locos && alloc) ≡ false → Promise true
      unfolding Served
      served_full full =
          rw
            (
              get_slot_full max_locos alloc st loco real unknown no_recycler full,
              after_full max_locos alloc loco spare t real absent no_spare
                  (ap (λ n. ltb n max_locos && alloc) (sym used_slots) ∙ full),
            )
            (h, sym absent)

-- A request for a loco other than 0 gives the slot of the loco, if it has one or one is made for
-- it: out of the spare slots, or newly if there are fewer than the limit and memory is given. Only
-- a request that may create changes the table, and then by one slot at its front.
pub get_slot-Served :
    (st : Locos) (t : List LocoSlot) (spare loco max_locos : ℕ) (alloc auto_create : Bool)
    → Table st t spare
    → loco ≢ 0
    → Served loco
        (get_slot max_locos alloc st loco auto_create)
        (table_after max_locos alloc loco spare auto_create t)
get_slot-Served st t spare loco max_locos alloc auto_create h ne =
    elim (Option-cases (find_loco st loco)) [
      | inr (p, e) ↦ served_known st t spare loco max_locos alloc h real auto_create p e
      | inl unknown ↦ create unknown auto_create
    ]
  where
    real : (loco == 0) ≡ false
    real = ground (arith, ne)

    spare_or_new :
        find_loco st loco ≡ none
        → (rs : List ℕ) → rs ≡ h.rs
        → Served loco
            (get_slot max_locos alloc st loco true)
            (table_after max_locos alloc loco spare true t)
    spare_or_new unknown (r ∷ rs) same =
        served_again st t spare loco max_locos alloc h real unknown r rs same
    spare_or_new unknown [] same = elim (Bool-cases (ltb st.slot_count max_locos && alloc)) [
      | inl fits ↦ served_new st t spare loco max_locos alloc h real unknown same fits
      | inr full ↦ served_full st t spare loco max_locos alloc h real unknown same full
    ]

    create :
        find_loco st loco ≡ none
        → (auto : Bool)
        → Served loco
            (get_slot max_locos alloc st loco auto)
            (table_after max_locos alloc loco spare auto t)
    create unknown false = served_only st t spare loco max_locos alloc h real unknown
    create unknown true = spare_or_new unknown h.rs refl
