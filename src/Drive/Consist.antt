-- ===== src/Drive/Consist.antt =====
-- DCCConsist.cpp: the links between the locos of a consist, and the calls of DCC.cpp that take a loco
-- out of the table. `abs` of the loco is left to the caller.
use command_station_ex.Base.{
  ℕ, zero, suc, Bool, true, false, not, ◌&&◌, ◌||◌, Option, none, some, ltb, ◌==◌, if◌then◌else◌,
}
use command_station_ex.Loco.{LocoSlot, Locos, get_slot, set_loco, forget, forget_all}
use command_station_ex.Drive.{Station, slot_of, tell, broadcast_forget_loco, throttle_dcc, find}

abbrev pub is_null : Option ℕ → Bool
is_null none = true
is_null (some p) = false

abbrev pub is_consist_lead : LocoSlot → Bool
is_consist_lead s = not (is_null s.consist_next) && is_null s.consist_lead

abbrev pub is_consist_follower : LocoSlot → Bool
is_consist_follower s = not (is_null s.consist_lead)

abbrev pub put : ℕ → LocoSlot → Locos → Locos
put p s l = record l { slot = set_loco l.slot p s }

-- The loop of `deleteAnyConsist`.
unfoldable pub unlink : ℕ → Option ℕ → Locos → Locos
unlink zero o l = l
unlink (suc fuel) none l = l
unlink (suc fuel) (some p) l =
    let s = l.slot p in
    unlink fuel s.consist_next
      (put p (record s { consist_lead = none; consist_next = none; consist_reverse = false }) l)

-- The loop back to the lead of a consist, and the one on to its tail.
unfoldable pub lead_of : ℕ → Locos → ℕ → ℕ
lead_of zero l p = p
lead_of (suc fuel) l p = elim (l.slot p).consist_lead [ none ↦ p | some q ↦ lead_of fuel l q ]

unfoldable pub tail_of : ℕ → Locos → ℕ → ℕ
tail_of zero l p = p
tail_of (suc fuel) l p = elim (l.slot p).consist_next [ none ↦ p | some q ↦ tail_of fuel l q ]

-- The slot is chained in behind the tail.
unfoldable pub chain_in : ℕ → ℕ → ℕ → Bool → Locos → Locos
chain_in lead last p reversed l =
    let l1 = put p (record (l.slot p) { consist_reverse = reversed }) l in
    let l2 = if p == lead then l1 else put p (record (l1.slot p) { consist_lead = some lead }) l1 in
    if last == p then l2 else put last (record (l2.slot last) { consist_next = some p }) l2

module _ (max_locos : ℕ) (alloc : Bool) where
  unfoldable pub delete_any_consist : ℕ → Locos → Locos
  delete_any_consist loco l0 =
      let (l, o) = get_slot max_locos alloc l0 loco false in
      elim o [
        | none ↦ l
        | some p ↦
            let s = l.slot p in
            unlink l.created (if is_consist_lead s then some p else s.consist_lead) l
      ]

  unfoldable pub add_loco_to_consist : ℕ → ℕ → Bool → Locos → Locos × Bool
  add_loco_to_consist consist loco reversed l =
      if ltb consist 1 || ltb 10239 consist
      then (l, false)
      else if ltb loco 1 || ltb 10239 loco
      then (l, false)
      else if loco == consist
      then (l, true)
      else let (l1, o1) = get_slot max_locos alloc l consist true in
        elim o1 [
          | none ↦ (l1, false)
          | some first ↦
              let lead = lead_of l1.created l1 first in
              let last = tail_of l1.created l1 lead in
              let (l2, o2) = get_slot max_locos alloc l1 loco true in
              elim o2 [
                | none ↦ (l2, false)
                | some p ↦
                    let s = l2.slot p in
                    if is_consist_lead s || is_consist_follower s
                    then (l2, false)
                    else (chain_in lead last p reversed l2, true)
              ]
        ]

  module _ (highest_short : ℕ) where
    unfoldable pub forget_loco : ℕ → Station → Station
    forget_loco cab st0 =
        let (st, o) = find highest_short max_locos alloc cab false st0 in
        elim o [
          | none ↦ st
          | some p ↦
              let st1 = throttle_dcc highest_short (some (slot_of st p)) 1 st in
              let st2 : Station = record st1 {
                next_loco_reminder = elim st1.next_loco_reminder [
                  | none ↦ none
                  | some r ↦ if r == p then st1.locos.next p else some r
                ];
              } in
              let s = slot_of st2 p in
              let l =
                if is_consist_lead s || is_consist_follower s
                then delete_any_consist cab st2.locos
                else st2.locos in
              tell (broadcast_forget_loco cab) (record st2 { locos = forget l p })
        ]

    -- The throttles are told of each slot of the chain.
    unfoldable pub tell_forgotten : ℕ → Option ℕ → Station → Station
    tell_forgotten zero o st = st
    tell_forgotten (suc fuel) none st = st
    tell_forgotten (suc fuel) (some p) st =
        tell_forgotten fuel (st.locos.next p) (tell (broadcast_forget_loco (slot_of st p).loco) st)

    unfoldable pub forget_all_locos : Station → Station
    forget_all_locos st =
        let st1 = throttle_dcc highest_short none 1 st in
        let st2 = tell_forgotten st1.locos.created st1.locos.first_slot st1 in
        record st2 { locos = forget_all st2.locos; next_loco_reminder = none }
