-- ===== src/Loco.antt =====
-- LocoSlot.cpp and LocoSlot.h: the chain of slots with what is known of each loco, and the chain of
-- slots to use again. The store is the `next` of each slot and its other fields; an address is
-- the number of the slot in the order of allocation, so that `created` of them were ever made, and
-- `alloc` says whether `new` gives one. A loop takes `created` as its fuel.
use command_station_ex.Base.{
  ℕ, zero, suc, ◌+◌, ◌≡◌, Bool, true, false, Option, none, some, List, [], ◌∷◌, ltb, ◌==◌,
  if◌then◌else◌,
}
use command_station_ex.Chain.{Links, link}
use command_station_ex.Chain.Loops.{find_slot}
pub mod Table
pub mod After
pub mod Slots
pub mod Forget
pub mod Again
mod Tests

abbrev pub momentum_use_default : ℕ
momentum_use_default = 255

pub record LocoSlot : Type 0 where
  pub functions : ℕ
  pub sniffer_functions : ℕ
  pub momentum_base : ℕ
  pub consist_lead : Option ℕ
  pub consist_next : Option ℕ
  pub loco : ℕ
  pub target_speed : ℕ
  pub speed_code : ℕ
  pub sniffer_speed_code : ℕ
  pub saved_speed_code : ℕ
  pub momentum_a : ℕ
  pub momentum_d : ℕ
  pub group_flags : ℕ
  pub consist_reverse : Bool

pub record Locos : Type 0 where
  pub next : Links
  pub slot : ℕ → LocoSlot
  pub first_slot : Option ℕ
  pub recycler : Option ℕ
  pub slot_count : ℕ
  pub chain_modified : Bool
  pub created : ℕ

abbrev pub set_loco : (ℕ → LocoSlot) → ℕ → LocoSlot → ℕ → LocoSlot
set_loco slot p s a = if a == p then s else slot a

-- What `prepare` stores for a loco.
abbrev pub new_loco : ℕ → LocoSlot
new_loco loco = record {
  functions = 0;
  sniffer_functions = 0;
  momentum_base = 0;
  consist_lead = none;
  consist_next = none;
  loco = loco;
  target_speed = 128;
  speed_code = 128;
  sniffer_speed_code = 128;
  saved_speed_code = 0;
  momentum_a = momentum_use_default;
  momentum_d = momentum_use_default;
  group_flags = 0;
  consist_reverse = false;
}

pub prepare : Locos → ℕ → ℕ → Locos
prepare st p loco = record st {
  slot = set_loco st.slot p (new_loco loco);
  next = link st.next p st.first_slot;
  first_slot = some p;
  chain_modified = true;
}

unfoldable pub find_loco : Locos → ℕ → Option ℕ
find_loco st loco = find_slot st.created st.next (λ a. (st.slot a).loco == loco) st.first_slot

unfoldable pub get_slot : ℕ → Bool → Locos → ℕ → Bool → Locos × Option ℕ
get_slot max_locos alloc st loco auto_create =
    if loco == 0 then (st, none) else elim (find_loco st loco) [
      | some p ↦ (st, some p)
      | none ↦
          if auto_create
          then elim st.recycler [
            | some p ↦ (prepare (record st { recycler = st.next p }) p loco, some p)
            | none ↦
                if ltb st.slot_count max_locos
                then (if alloc
                    then (
                      prepare
                          (record st { slot_count = suc st.slot_count; created = suc st.created })
                          st.created loco,
                      some st.created,
                    )
                    else (st, none))
                else (st, none)
          ]
          else (st, none)
    ]

abbrev pub points_to : Option ℕ → ℕ → Bool
points_to none p = false
points_to (some a) p = a == p

-- The slot is taken out of the chain. The search goes from the first slot on for the one before.
pub unchain : Locos → ℕ → Locos
unchain st p =
    if points_to st.first_slot p
    then record st { first_slot = st.next p }
    else elim (find_slot st.created st.next (λ a. points_to (st.next a) p) st.first_slot) [
      | some b ↦ record st { next = link st.next b (st.next p) }
      | none ↦ st
    ]

unfoldable pub forget : Locos → ℕ → Locos
forget st p =
    let st1 = unchain st p in
    record st1 { next = link st1.next p st1.recycler; recycler = some p; chain_modified = true }

-- `delete` of every slot; what they held is not looked at again.
unfoldable pub forget_all : Locos → Locos
forget_all st = record st {
  first_slot = none;
  recycler = none;
  chain_modified = true;
  slot_count = 0;
}
