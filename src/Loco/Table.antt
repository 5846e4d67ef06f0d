-- ===== src/Loco/Table.antt =====
-- The slots as a table of locos, with no store; the slots of the store as such a table.
use command_station_ex.Base.{
  ℕ, ◌+◌, ◌-◌, ◌≤◌, ◌<◌, ◌≡◌, refl, sym, ap, ap₂, ◌∙◌, true, false, Option, none, some, List, [],
  ◌∷◌, map, arith, length, ltb, ◌==◌, ==_iff, if◌then◌else◌, Bool-cases, inl, inr,
}
use command_station_ex.Chain.{Links, Chain, count, count_self, without, before}
use command_station_ex.Chain.Loops.{first}
use command_station_ex.Loco.{LocoSlot, Locos, points_to}

unfoldable pub table_get : ℕ → List LocoSlot → Option LocoSlot
table_get loco [] = none
table_get loco (s ∷ t) = if s.loco == loco then some s else table_get loco t

unfoldable pub table_drop : ℕ → List LocoSlot → List LocoSlot
table_drop loco [] = []
table_drop loco (s ∷ t) = if s.loco == loco then t else s ∷ table_drop loco t

-- How many slots are for a loco.
abbrev pub slots_of : ℕ → List LocoSlot → ℕ
slots_of loco [] = 0
slots_of loco (s ∷ t) = (if s.loco == loco then 1 else 0) + slots_of loco t

-- The store is sound, `t` is what its chain shows from the first slot on, and `spare` slots wait
-- to be used again. No loco has two slots, and none is loco 0.
pub record Table (st : Locos) (t : List LocoSlot) (spare : ℕ) : Type 0 where
  pub xs : List ℕ
  pub rs : List ℕ
  pub chain : Chain st.next st.first_slot xs
  pub recycled : Chain st.next st.recycler rs
  pub once : (a : ℕ) → count a xs + count a rs ≤ (if ltb a st.created then 1 else 0)
  pub spares : length rs ≡ spare
  pub total : st.slot_count ≡ length xs + length rs
  pub room : length xs + length rs ≤ st.created
  pub shows : map st.slot xs ≡ t
  pub apart : (loco : ℕ) → slots_of loco t ≤ 1
  pub no_zero : slots_of 0 t ≡ 0

pub table_get-slots_of :
    (loco : ℕ) (t : List LocoSlot) → table_get loco t ≡ none → slots_of loco t ≡ 0
unfolding table_get
table_get-slots_of loco [] e = refl
table_get-slots_of loco (s ∷ t) e = ground (arith, e, table_get-slots_of loco t)

pub slots_of-table_get :
    (loco : ℕ) (t : List LocoSlot) → slots_of loco t ≡ 0 → table_get loco t ≡ none
unfolding table_get
slots_of-table_get loco [] e = refl
slots_of-table_get loco (s ∷ t) e = ground (arith, e, slots_of-table_get loco t)

pub slots_of-table_drop :
    (loco other : ℕ) (t : List LocoSlot)
    → slots_of other (table_drop loco t)
      ≡ (if loco == other then slots_of other t - 1 else slots_of other t)
unfolding table_drop
slots_of-table_drop loco other [] = ground arith
slots_of-table_drop loco other (s ∷ t) = ground (arith, slots_of-table_drop loco other t)

-- The first slot of a chain that is for a loco.
module _ (slot : ℕ → LocoSlot) (loco : ℕ) where
  pub table_get_misses :
      (xs : List ℕ)
      → first (λ a. (slot a).loco == loco) xs ≡ none
      → table_get loco (map slot xs) ≡ none
  unfolding first table_get
  table_get_misses [] e = refl
  table_get_misses (x ∷ xs) e = ground (arith, e, table_get_misses xs)

  pub table_get_hits :
      (xs : List ℕ) (p : ℕ)
      → first (λ a. (slot a).loco == loco) xs ≡ some p
      → (0 < count p xs)
        × ((slot p).loco ≡ loco)
        × (table_get loco (map slot xs) ≡ some (slot p))
        × (table_drop loco (map slot xs) ≡ map slot (without p xs))
  unfolding first table_get table_drop
  table_get_hits [] p e = cc
  table_get_hits (x ∷ xs) p e = elim (Bool-cases ((slot x).loco == loco)) [
    | inl hit ↦
        let eq : x ≡ p = ground (arith, e, hit) in
        let self : (p == x) ≡ true = (==_iff p x).1 (sym eq) in
        let own : (slot x).loco ≡ loco = (==_iff (slot x).loco loco).0 hit in
        (
          ground (arith, eq),
          ap (λ a. (slot a).loco) (sym eq) ∙ own,
          rw hit (ap (λ a. some (slot a)) eq),
          rw (hit, self) refl,
        )
    | inr miss ↦
        let (i, own, found, dropped) = table_get_hits xs p (ground (arith, e, miss)) in
        let ne : (p == x) ≡ false = other x p own miss in
        (omega (arith, i), own, rw miss found, rw (miss, ne) (ap (◌∷◌ (slot x)) dropped))
  ]
    where
      other : (a b : ℕ) → (slot b).loco ≡ loco → ((slot a).loco == loco) ≡ false → (b == a) ≡ false
      other a b own miss = elim (Bool-cases (b == a)) [
        | inl eq ↦
            let e' : (slot a).loco ≡ loco =
              ap (λ c. (slot c).loco) (sym ((==_iff b a).0 eq)) ∙ own in
            let hit : ((slot a).loco == loco) ≡ true = (==_iff (slot a).loco loco).1 e' in cc
        | inr ne ↦ ne
      ]

pub map-frame :
    (slot slot' : ℕ → LocoSlot) (xs : List ℕ)
    → ((a : ℕ) → 0 < count a xs → slot' a ≡ slot a)
    → map slot' xs ≡ map slot xs
map-frame slot slot' [] same = refl
map-frame slot slot' (x ∷ xs) same =
    ap₂ ◌∷◌ (same x (count_self x xs)) (map-frame slot slot' xs (λ a i. same a (omega (arith, i))))

-- The loop of `forget` finds the slot before.
pub one_before :
    (next : Links) (x p : ℕ) (ys : List ℕ)
    → Chain next (next x) ys
    → 0 < count p ys
    → first (λ a. points_to (next a) p) (x ∷ ys) ≡ some (before x p ys)
unfolding first
one_before next x p [] c i = absurd (omega (arith, i))
one_before next x p (y ∷ ys) (e, c) i = elim (Bool-cases (p == y)) [
  | inl hit ↦ rw (e, hit) (ground (arith, hit))
  | inr miss ↦
      let ih = one_before next y p ys c (ground (arith, i, miss)) in
      let skip : points_to (next x) p ≡ false = rw e (ground (arith, miss)) in rw (skip, miss) ih
]
