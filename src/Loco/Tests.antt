-- ===== src/Loco/Tests.antt =====
-- The slots from empty on, with the locos 3 and 10239.
use command_station_ex.Base.{◌≡◌, refl, true, false, none, some, [], ◌∷◌, arith}
use command_station_ex.Chain.Loops.{find_slot}
use command_station_ex.Loco.{Locos, new_loco, prepare, find_loco, get_slot, unchain, forget}
use command_station_ex.Loco.Table.{Table, table_get, table_drop}
use command_station_ex.Loco.After.{table_after}
use command_station_ex.Loco.Slots.{Served, get_slot-Served}
use command_station_ex.Loco.Forget.{forget-Table}

abbrev empty : Locos
empty = record {
  next = λ a. none;
  slot = λ a. new_loco 0;
  first_slot = none;
  recycler = none;
  slot_count = 0;
  chain_modified = false;
  created = 0;
}

empty-Table : Table empty [] 0
empty-Table = record {
  xs = [];
  rs = [];
  chain = refl;
  recycled = refl;
  once = λ a. ground arith;
  spares = refl;
  total = refl;
  room = omega arith;
  shows = refl;
  apart = λ loco. omega arith;
  no_zero = refl;
}

abbrev one_loco : Locos
one_loco = (get_slot 50 true empty 3 true).0

one_loco-Table : Table one_loco (new_loco 3 ∷ []) 0
unfolding Served table_after table_get
one_loco-Table = (get_slot-Served empty [] 0 3 50 true true empty-Table (omega arith)).0

-- A slot is used again for the next loco.
runs :
    ((get_slot 50 true one_loco 3 false).1 ≡ some 0)
    × ((get_slot 1 true one_loco 10239 true).1 ≡ none)
    × ((get_slot 1 true (forget one_loco 0) 10239 true).1 ≡ some 0)
    × ((get_slot 1 true (forget one_loco 0) 3 false).1 ≡ none)
unfolding get_slot prepare forget unchain find_loco find_slot
runs = (refl, refl, refl, refl)

get_slot-Served_example :
    Served 10239
      (get_slot 50 true one_loco 10239 true)
      (table_after 50 true 10239 0 true (new_loco 3 ∷ []))
get_slot-Served_example =
    get_slot-Served one_loco (new_loco 3 ∷ []) 0 10239 50 true true one_loco-Table (omega arith)

found : find_loco one_loco 3 ≡ some 0
unfolding get_slot prepare find_loco find_slot
found = refl

forget-Table_example :
    Table (forget one_loco 0) (table_drop 3 (new_loco 3 ∷ [])) 1
    × (table_get 3 (table_drop 3 (new_loco 3 ∷ [])) ≡ none)
forget-Table_example = forget-Table one_loco (new_loco 3 ∷ []) 0 3 0 one_loco-Table found
