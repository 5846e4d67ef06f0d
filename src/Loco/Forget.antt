-- ===== src/Loco/Forget.antt =====
-- `forget` on the table of locos.
use command_station_ex.Base.{
  ℕ, suc, ◌+◌, ◌≤◌, ◌<◌, ◌≡◌, refl, sym, ap, subst, ◌∙◌, true, false, none, some, List, [], ◌∷◌,
  map, arith, length, ◌==◌, ==_iff, Bool-cases, inl, inr,
}
use command_station_ex.Chain.{
  link, link_self, link_ne, Chain, Chain-link, Chain-frame, Chain-unlink, Distinct, count,
  count-before, count-without, length-without, ne_of_count, without, before,
}
use command_station_ex.Chain.Loops.{find_slot, find_slot-first}
use command_station_ex.Loco.{LocoSlot, Locos, points_to, find_loco, unchain, forget}
use command_station_ex.Loco.Table.{
  Table, table_get, table_drop, slots_of-table_get, slots_of-table_drop, table_get_hits, one_before,
}
use command_station_ex.Loco.After.{find_loco_chain}

-- The store with `p`, which is out of the chain, to be used again.
recycled_at : Locos → ℕ → Locos
recycled_at st p = record st {
  next = link st.next p st.recycler;
  recycler = some p;
  chain_modified = true;
}

forget_by : (st st1 : Locos) (p : ℕ) → unchain st p ≡ st1 → forget st p ≡ recycled_at st1 p
unfolding forget recycled_at
forget_by st st1 p e = ap (λ s. recycled_at s p) e

-- What taking `p` out of the chain leaves.
record Unchained (st st1 : Locos) (p : ℕ) (xs : List ℕ) : Type 0 where
  chain : Chain st1.next st1.first_slot (without p xs)
  outside : (a : ℕ) → count a xs ≡ 0 → st1.next a ≡ st.next a
  recycler_same : st1.recycler ≡ st.recycler
  slot_same : st1.slot ≡ st.slot
  count_same : st1.slot_count ≡ st.slot_count
  created_same : st1.created ≡ st.created

unchain-Unchained :
    (st : Locos) (p : ℕ) (xs : List ℕ)
    → Chain st.next st.first_slot xs
    → Distinct xs
    → 0 < count p xs
    → length xs ≤ st.created
    → (st1 : Locos) × (unchain st p ≡ st1) × Unchained st st1 p xs
unfolding unchain
unchain-Unchained st p [] c d i room = absurd (omega (arith, i))
unchain-Unchained st p (x ∷ xs) (e, c) d i room = elim (Bool-cases (x == p)) [
  | inl hit ↦
      let eq : x ≡ p = (==_iff x p).0 hit in
      let self : (p == x) ≡ true = (==_iff p x).1 (sym eq) in
      let st1 : Locos = record st { first_slot = st.next p } in
      let at_head : points_to st.first_slot p ≡ true = rw e hit in
      (
        st1,
        rw (at_head, unchain) refl,
        record {
          chain = rw self (subst (λ a. Chain st.next (st.next a) xs) eq c);
          outside = λ a o. refl;
          recycler_same = refl;
          slot_same = refl;
          count_same = refl;
          created_same = refl;
        },
      )
  | inr miss ↦
      let inside : 0 < count p xs = ground (arith, i, miss) in
      let ne : (p == x) ≡ false = ground (arith, miss) in
      let b = before x p xs in
      let st1 : Locos = record st { next = link st.next b (st.next p) } in
      let elsewhere : points_to st.first_slot p ≡ false = rw e miss in
      let found : find_slot st.created st.next (λ a. points_to (st.next a) p) st.first_slot
          ≡ some b =
        find_slot-first st.created st.next (λ a. points_to (st.next a) p) st.first_slot (x ∷ xs)
          (e, c) room
        ∙ one_before st.next x p xs c inside in
      (
        st1,
        rw (elsewhere, found, unchain) refl,
        record {
          chain = rw ne (e, Chain-unlink st.next x p xs d inside c);
          outside = λ a o.
              link_ne st.next b a (st.next p)
                (λ q. ne_of_count b a (x ∷ xs) (count-before x p xs) o (sym q));
          recycler_same = refl;
          slot_same = refl;
          count_same = refl;
          created_same = refl;
        },
      )
]

-- A loco that is forgotten leaves the table, which has no slot for it then, and its slot waits to
-- be used again. The slots of the other locos stay as they are.
pub forget-Table :
    (st : Locos) (t : List LocoSlot) (spare loco p : ℕ)
    → Table st t spare
    → find_loco st loco ≡ some p
    → Table (forget st p) (table_drop loco t) (suc spare)
      × (table_get loco (table_drop loco t) ≡ none)
unfolding recycled_at
forget-Table st t spare loco p h e =
    let (i, own, found, dropped) =
      table_get_hits st.slot loco h.xs p (sym (find_loco_chain st t spare loco h) ∙ e) in
    let one : (a : ℕ) → count a h.xs + count a h.rs ≤ 1 = λ a. ground (arith, h.once a) in
    let (st1, runs, u) =
      unchain-Unchained st p h.xs h.chain (λ a. omega (arith, one a)) i (omega (arith, h.room)) in
    let left : table_drop loco t ≡ map st.slot (without p h.xs) =
      ap (table_drop loco) (sym h.shows) ∙ dropped in
    let size = length-without p h.xs i in
    let fewer = count-without p p h.xs i in
    let out : count p (without p h.xs) ≡ 0 = ground (arith, one p, fewer) in
    let recycled1 : Chain st1.next st1.recycler h.rs =
      subst (λ o. Chain st1.next o h.rs) (sym u.recycler_same)
        (Chain-frame st.next st1.next st.recycler h.rs
          (λ a inside. u.outside a (omega (arith, one a, inside))) h.recycled) in
    let table : Table (recycled_at st1 p) (table_drop loco t) (suc spare) = record {
      xs = without p h.xs;
      rs = p ∷ h.rs;
      chain = Chain-link st1.next p st1.recycler st1.first_slot (without p h.xs) out u.chain;
      recycled = (
        refl,
        subst (λ o. Chain (link st1.next p st1.recycler) o h.rs)
            (sym (link_self st1.next p st1.recycler))
            (Chain-link st1.next p st1.recycler st1.recycler h.rs (omega (arith, one p, i))
              recycled1),
      );
      once = λ a. rw u.created_same (omega (arith, h.once a, count-without a p h.xs i));
      spares = ap suc h.spares;
      total = omega (arith, u.count_same, h.total, size);
      room = omega (arith, u.created_same, h.room, size);
      shows = ap (λ s. map s (without p h.xs)) u.slot_same ∙ sym left;
      apart = λ other. ground (arith, slots_of-table_drop loco other t, h.apart other);
      no_zero = ground (arith, slots_of-table_drop loco 0 t, h.no_zero);
    } in
    (
      subst (λ s. Table s (table_drop loco t) (suc spare)) (sym (forget_by st st1 p runs)) table,
      slots_of-table_get loco (table_drop loco t)
          (ground (arith, slots_of-table_drop loco loco t, h.apart loco)),
    )
