-- ===== src/Drive/Switched.antt =====
-- A function that is set is read back.
use command_station_ex.Base.{
  ℕ, ◌^◌, ◌≡◌, ◌≤◌, refl, ap, sym, ◌∙◌, Bool, true, false, ◌||◌, Option, none, some, List, arith,
  length, ltb, leb, ◌==◌, ==_iff, if◌then◌else◌,
}
use native.Mathlib.Nat.{zero-div}
use command_station_ex.Loco.{LocoSlot, Locos, get_slot, find_loco}
use command_station_ex.Loco.Table.{Table}
use command_station_ex.Loco.After.{get_slot_known, get_slot_only}
use command_station_ex.Loco.Again.{functions_of, get_slot-find_loco, find_loco_changed}
use command_station_ex.Queue.Schedule.{schedule_dcc_packet}
use command_station_ex.Drive.{Station, slot_of, put_slot, tell, broadcast_loco, find}
use command_station_ex.Drive.Functions.{
  has_function, with_function, update_group_flags, set_functions, set_fn, get_fn,
  binary_state_packet,
}
use command_station_ex.Drive.Bits.{has_function-with_function}

module _ (highest_short max_locos : ℕ) (alloc : Bool) (cab : ℕ) (real : (cab == 0) ≡ false) where
  -- What is read of a loco whose slot is known.
  get_fn_known :
      (m p : ℕ) (st : Station)
      → m ≤ 31
      → find_loco st.locos cab ≡ some p
      → get_fn highest_short max_locos alloc cab m st
        ≡ some (has_function (slot_of st p).functions m)
  unfolding get_fn
  get_fn_known m p st h e =
      let test : ((cab == 0) || ltb 31 m) ≡ false = ground (arith, real, h) in
      let told : Option ℕ → Option Bool =
        λ o. elim o [ none ↦ none | some q ↦ some (has_function (slot_of st q).functions m) ] in
      ap (λ b. if b then none else told (find highest_short max_locos alloc cab false st).1) test
      ∙ ap (λ (r : Locos × Option ℕ). told r.1)
          (get_slot_known max_locos alloc st.locos cab real false p e)

  get_fn_unknown :
      (m : ℕ) (st : Station)
      → m ≤ 31
      → find_loco st.locos cab ≡ none
      → get_fn highest_short max_locos alloc cab m st ≡ none
  unfolding get_fn
  get_fn_unknown m st h e =
      let test : ((cab == 0) || ltb 31 m) ≡ false = ground (arith, real, h) in
      let told : Option ℕ → Option Bool =
        λ o. elim o [ none ↦ none | some q ↦ some (has_function (slot_of st q).functions m) ] in
      ap (λ b. if b then none else told (find highest_short max_locos alloc cab false st).1) test
      ∙ ap (λ (r : Locos × Option ℕ). told r.1) (get_slot_only max_locos alloc st.locos cab real e)

  -- What is stored in the slot.
  set_functions_stored :
      (p n : ℕ) (on : Bool) (st : Station)
      → find_loco st.locos cab ≡ some p
      → (find_loco (set_functions highest_short max_locos alloc p n on st).locos cab ≡ some p)
        × ((slot_of (set_functions highest_short max_locos alloc p n on st) p).functions
            ≡ with_function (slot_of st p).functions n on)
  unfolding set_functions
  set_functions_stored p n on st e = by_change (with_function s.functions n on == s.functions) refl
    where
      s : LocoSlot
      s = slot_of st p

      s1 : LocoSlot
      s1 = record s { functions = with_function s.functions n on }

      s2 : LocoSlot
      s2 = if leb n 28 then update_group_flags s1 n else s1

      after : Bool → Station
      after b = if b then st else tell (broadcast_loco p) (put_slot p s2 st)

      kept :
          (b : Bool)
          → ((if b then update_group_flags s1 n else s1).loco ≡ s.loco)
            × ((if b then update_group_flags s1 n else s1).functions
                ≡ with_function s.functions n on)
      kept true = (refl, refl)
      kept false = (refl, refl)

      own : (b : Bool) → b ≡ true → (if b then s2 else s).functions ≡ with_function s.functions n on
      own true e' = (kept (leb n 28)).1
      own false e' = cc

      by_change :
          (b : Bool)
          → (with_function s.functions n on == s.functions) ≡ b
          → (find_loco (after b).locos cab ≡ some p)
            × ((slot_of (after b) p).functions ≡ with_function s.functions n on)
      by_change true same = (e, sym ((==_iff (with_function s.functions n on) s.functions).0 same))
      by_change false differs =
          (find_loco_changed st.locos cab s2 p (kept (leb n 28)).0 ∙ e, own (p == p) (ground arith))

  -- What was known of a function before, off for a loco without a slot.
  abbrev pub was_on : ℕ → Station → Bool
  was_on m st = elim (get_fn highest_short max_locos alloc cab m st) [ none ↦ false | some b ↦ b ]

  -- Nothing is on for a loco without a slot.
  zero_off : (m : ℕ) → has_function 0 m ≡ false
  zero_off m = ground (arith, zero-div (2 ^ m))

  get_fn_before :
      (m : ℕ) (st : Station)
      → m ≤ 31
      → was_on m st ≡ has_function (functions_of st.locos (find_loco st.locos cab)) m
  get_fn_before m st h = by_find (find_loco st.locos cab) refl
    where
      by_find :
          (o : Option ℕ)
          → find_loco st.locos cab ≡ o
          → was_on m st ≡ has_function (functions_of st.locos o) m
      by_find (some p) e = ap (λ r. elim r [ none ↦ false | some b ↦ b ]) (get_fn_known m p st h e)
      by_find none e =
          ap (λ r. elim r [ none ↦ false | some b ↦ b ]) (get_fn_unknown m st h e)
          ∙ sym (zero_off m)

  -- In a sound table, a call that sets a function from 0 to 31 and returns true sets it: it is read
  -- back, and none of the others changes, whether the loco had a slot before or not.
  pub set_fn-get_fn :
      (n m spare : ℕ) (on : Bool) (st : Station) (t : List LocoSlot)
      → Table st.locos t spare
      → n ≤ 31
      → m ≤ 31
      → (set_fn highest_short max_locos alloc cab n on st).1 ≡ true
      → get_fn highest_short max_locos alloc cab m
          (set_fn highest_short max_locos alloc cab n on st).0
        ≡ some (if m == n then on else was_on m st)
  unfolding set_fn
  set_fn-get_fn n m spare on st t h hn hm done =
      let small : ltb 31 n ≡ false = ground (arith, hn) in
      let st1 = queued (ltb 28 n) in
      let runs : set_fn highest_short max_locos alloc cab n on st
          ≡ served st1 (get_slot max_locos alloc st1.locos cab true) =
        ap
          (λ b.
            if b
            then (st, false)
            else if ltb 31 n
            then (st1, true)
            else served st1 (get_slot max_locos alloc st1.locos cab true))
          real
        ∙ ap
            (λ b.
              if b then (st1, true) else served st1 (get_slot max_locos alloc st1.locos cab true))
            small in
      ap (λ (r : Station × Bool). get_fn highest_short max_locos alloc cab m r.0) runs
      ∙ by_queue (ltb 28 n) (ap (λ (r : Station × Bool). r.1) (sym runs) ∙ done)
    where
      b : List ℕ
      b = binary_state_packet highest_short cab n on

      queued : Bool → Station
      queued c =
          if c then record st { queues = schedule_dcc_packet st.queues b (length b) 4 cab } else st

      served : Station → Locos × Option ℕ → Station × Bool
      served st1 r =
          let st2 : Station = record st1 { locos = r.0 } in
          elim r.1 [
            | none ↦ (st2, false)
            | some p ↦ (set_functions highest_short max_locos alloc p n on st2, true)
          ]

      Reads : Station → Type 0
      Reads st' =
          get_fn highest_short max_locos alloc cab m st' ≡ some (if m == n then on else was_on m st)

      by_slot :
          (st1 : Station) (r : Locos × Option ℕ)
          → get_slot max_locos alloc st.locos cab true ≡ r
          → (served st1 r).1 ≡ true
          → Reads (served st1 r).0
      by_slot st1 (l, none) e ok = cc
      by_slot st1 (l, some p) e ok =
          let (found, funs) =
            get_slot-find_loco max_locos alloc st.locos t spare cab h real l p e in
          let st2 : Station = record st1 { locos = l } in
          let (found', stored) = set_functions_stored p n on st2 found in
          get_fn_known m p (set_functions highest_short max_locos alloc p n on st2) hm found'
          ∙ ap some (
              ap (λ f. has_function f m) stored
              ∙ has_function-with_function (l.slot p).functions n m on
              ∙ ap (λ x. if m == n then on else x)
                  (ap (λ f. has_function f m) funs ∙ sym (get_fn_before m st hm)))

      by_queue :
          (c : Bool)
          → (served (queued c) (get_slot max_locos alloc (queued c).locos cab true)).1 ≡ true
          → Reads (served (queued c) (get_slot max_locos alloc (queued c).locos cab true)).0
      by_queue true = by_slot (queued true) (get_slot max_locos alloc st.locos cab true) refl
      by_queue false = by_slot (queued false) (get_slot max_locos alloc st.locos cab true) refl
