-- ===== src/Drive/Forgetting.antt =====
-- Locos that are taken out of the table, with their consists.
use command_station_ex.Base.{
  ℕ, ◌≡◌, refl, sym, ◌∙◌, subst, Bool, true, false, ◌||◌, Option, none, some, [], arith, ◌==◌,
  if◌then◌else◌,
}
use command_station_ex.Chain.Loops.{find_slot}
use command_station_ex.Loco.{Locos, get_slot, find_loco, forget, forget_all}
use command_station_ex.Loco.Forget.{forget-Table}
use command_station_ex.Drive.{Station, slot_of, tell, broadcast_forget_loco, throttle_dcc}
use command_station_ex.Drive.Moved.{Moved, unmoved, unlink-Moved}
use command_station_ex.Drive.Consist.{
  forget_loco, forget_all_locos, delete_any_consist, unlink, is_consist_lead, is_consist_follower,
}
use command_station_ex.Drive.Sound.{Sound, Moved-Sound}

module _ (highest_short max_locos : ℕ) (alloc : Bool) where
  pub forget_all-Sound :
      (st : Station) → Sound (forget_all_locos max_locos alloc highest_short st).locos
  unfolding forget_all_locos forget_all Sound
  forget_all-Sound st = (
    [],
    0,
    record {
      xs = [];
      rs = [];
      chain = refl;
      recycled = refl;
      once = λ a. ground arith;
      spares = refl;
      total = refl;
      room = omega arith;
      shows = refl;
      apart = λ loco. omega arith;
      no_zero = refl;
    },
  )

  find_loco-Moved : (l l' : Locos) (cab : ℕ) → Moved l l' → find_loco l' cab ≡ find_loco l cab
  unfolding find_loco
  find_loco-Moved l l' cab k =
      λ i. find_slot (k.created i) (k.next i) (λ a. k.loco a i == cab) (k.first i)

  -- A request that makes no slot is a search.
  get_slot_search :
      (l : Locos) (cab : ℕ)
      → get_slot max_locos alloc l cab false ≡ (l, if cab == 0 then none else find_loco l cab)
  unfolding get_slot
  get_slot_search l cab = by_zero (cab == 0) (find_loco l cab)
    where
      by_zero :
          (b : Bool) (o : Option ℕ)
          → (if b
              then (l, none)
              else elim o as (λ x. Locos × Option ℕ) [ some p ↦ (l, some p) | none ↦ (l, none) ])
            ≡ (l, if b then none else o)
      by_zero true o = refl
      by_zero false none = refl
      by_zero false (some p) = refl

  delete_any_consist-Moved :
      (cab : ℕ) (l : Locos) → Moved l (delete_any_consist max_locos alloc cab l)
  unfolding delete_any_consist
  delete_any_consist-Moved cab l =
      subst (λ (r : Locos × Option ℕ). Moved l (taken r)) (sym (get_slot_search l cab))
        (by_slot (if cab == 0 then none else find_loco l cab))
    where
      taken : Locos × Option ℕ → Locos
      taken r = elim r.1 [
        | none ↦ r.0
        | some p ↦
            let s = r.0.slot p in
            unlink r.0.created (if is_consist_lead s then some p else s.consist_lead) r.0
      ]

      by_slot : (o : Option ℕ) → Moved l (taken (l, o))
      by_slot none = unmoved l
      by_slot (some p) = unlink-Moved l.created _ l

  forget-Sound :
      (l l' : Locos) (cab p : ℕ)
      → Sound l
      → Moved l l'
      → (if cab == 0 then none else find_loco l cab) ≡ some p
      → Sound (forget l' p)
  unfolding Sound
  forget-Sound l l' cab p h k e =
      let (t, spare, tb) = Moved-Sound l l' k h in
      (
        _,
        _,
        (forget-Table l' t spare cab p tb
            (find_loco-Moved l l' cab k ∙ real (cab == 0) (find_loco l cab) e)).0,
      )
    where
      real : (b : Bool) (o : Option ℕ) → (if b then none else o) ≡ some p → o ≡ some p
      real true o e' = absurd (no_slot e')
        where
          no_slot : none ≡ some p → ⊥
          no_slot f = cc
      real false o e' = e'

  pub forget_loco-Sound :
      (cab : ℕ) (st : Station)
      → Sound st.locos
      → Sound (forget_loco max_locos alloc highest_short cab st).locos
  unfolding forget_loco
  forget_loco-Sound cab st h =
      subst (λ (r : Locos × Option ℕ). Sound (forgotten r).locos)
        (sym (get_slot_search st.locos cab))
        (by_slot (if cab == 0 then none else find_loco st.locos cab) refl)
    where
      parted : Locos → ℕ → Locos
      parted l p =
          let s = l.slot p in
          if is_consist_lead s || is_consist_follower s
          then delete_any_consist max_locos alloc cab l
          else l

      forgotten : Locos × Option ℕ → Station
      forgotten r =
          let st0 : Station = record st { locos = r.0 } in
          elim r.1 [
            | none ↦ st0
            | some p ↦
                let st1 = throttle_dcc highest_short (some (slot_of st0 p)) 1 st0 in
                let st2 : Station = record st1 {
                  next_loco_reminder = elim st1.next_loco_reminder [
                    | none ↦ none
                    | some r' ↦ if r' == p then st1.locos.next p else some r'
                  ];
                } in
                tell (broadcast_forget_loco cab)
                  (record st2 { locos = forget (parted st2.locos p) p })
          ]

      parted-Moved :
          (l : Locos) (b : Bool)
          → Moved l (if b then delete_any_consist max_locos alloc cab l else l)
      parted-Moved l true = delete_any_consist-Moved cab l
      parted-Moved l false = unmoved l

      by_slot :
          (o : Option ℕ)
          → (if cab == 0 then none else find_loco st.locos cab) ≡ o
          → Sound (forgotten (st.locos, o)).locos
      by_slot none e = h
      by_slot (some p) e = forget-Sound st.locos _ cab p h (parted-Moved st.locos _) e
