-- ===== src/Drive/Sound.antt =====
-- The table of slots, which the operations of DCC.cpp keep sound.
use command_station_ex.Base.{
  ℕ, ◌+◌, ◌%◌, ◌^◌, ◌≡◌, ◌≤◌, refl, ap, ap₂, sym, ◌∙◌, subst, Bool, true, false, not, ◌&&◌, ◌||◌,
  Option, none, some, List, [], ◌∷◌, map, length, arith, bit_and, ltb, ◌==◌, if◌then◌else◌,
  Bool-cases, inl, inr,
}
use command_station_ex.Base.Int.{ℤ}
use command_station_ex.Chain.{Chain, count}
use command_station_ex.Loco.{LocoSlot, Locos, get_slot}
use command_station_ex.Loco.Table.{Table, slots_of}
use command_station_ex.Loco.Slots.{Served, get_slot-Served}
use command_station_ex.Drive.{
  Station, slot_of, put_slot, tell, find, broadcast_loco, dc_signal, broadcast_estop_lock,
  throttle_dcc, set_throttle, set_throttle_at, estop_all, estop_lock,
}
use command_station_ex.Drive.Moved.{
  Moved, unmoved, put-Moved, if-Moved, estop_all-Moved, set_functions-Moved, set_throttle_at-Moved,
}
use command_station_ex.Queue.Schedule.{schedule_dcc_packet}
use command_station_ex.Drive.Functions.{
  binary_state_packet, set_fn, set_functions, set_dc_freq, save_speed, restore_speed,
}
use command_station_ex.Drive.Momentum.{set_momentum, momentum_of, is_negative, below_default}

-- The slots are a table of locos.
unfoldable pub Sound : Locos → Type 0
Sound l = (t : List LocoSlot) × (spare : ℕ) × Table l t spare

slots_of-map :
    (slot slot' : ℕ → LocoSlot) (loco : ℕ) (xs : List ℕ)
    → ((a : ℕ) → (slot' a).loco ≡ (slot a).loco)
    → slots_of loco (map slot' xs) ≡ slots_of loco (map slot xs)
slots_of-map slot slot' loco [] same = refl
slots_of-map slot slot' loco (x ∷ xs) same =
    ap₂ (λ a b. (if a == loco then 1 else 0) + b) (same x) (slots_of-map slot slot' loco xs same)

-- A change within the slots keeps the table.
pub Moved-Sound : (l l' : Locos) → Moved l l' → Sound l → Sound l'
unfolding Sound
Moved-Sound l l' k (t, spare, h) =
    let counts : (loco : ℕ) → slots_of loco (map l'.slot h.xs) ≡ slots_of loco t =
      λ loco. slots_of-map l.slot l'.slot loco h.xs k.loco ∙ ap (slots_of loco) h.shows in
    (
      map l'.slot h.xs,
      spare,
      record {
        xs = h.xs;
        rs = h.rs;
        chain =
            subst (λ n. Chain n l'.first_slot h.xs) (sym k.next)
              (subst (λ o. Chain l.next o h.xs) (sym k.first) h.chain);
        recycled =
            subst (λ n. Chain n l'.recycler h.rs) (sym k.next)
              (subst (λ o. Chain l.next o h.rs) (sym k.recycled) h.recycled);
        once = λ a.
            subst (λ n. count a h.xs + count a h.rs ≤ (if ltb a n then 1 else 0)) (sym k.created)
              (h.once a);
        spares = h.spares;
        total = k.counted ∙ h.total;
        room = omega (arith, h.room, k.created);
        shows = refl;
        apart = λ loco. omega (arith, h.apart loco, counts loco);
        no_zero = counts 0 ∙ h.no_zero;
      },
    )

module _ (highest_short max_locos : ℕ) (alloc : Bool) where
  get_slot-Sound :
      (l : Locos) (cab : ℕ) (create : Bool)
      → Sound l
      → Sound (get_slot max_locos alloc l cab create).0
  unfolding Sound Served get_slot
  get_slot-Sound l cab create (t, spare, h) = elim (Bool-cases (cab == 0)) [
    | inl zero_cab ↦
        let none_given : get_slot max_locos alloc l cab create ≡ (l, none) = zero_slot zero_cab in
        subst (λ (r : Locos × Option ℕ). Sound r.0) (sym none_given) (t, spare, h)
    | inr real ↦
        let served =
          get_slot-Served l t spare cab max_locos alloc create h (λ e. ground (arith, real, e)) in
        (_, _, served.0)
  ]
    where
      zero_slot : (cab == 0) ≡ true → get_slot max_locos alloc l cab create ≡ (l, none)
      zero_slot e = rw (e, get_slot) refl

  -- A request for a slot and what is done at it.
  at_slot-Sound :
      (act : ℕ → Station → Station) (st : Station) (r : Locos × Option ℕ)
      → ((p : ℕ) (st1 : Station) → Moved st1.locos (act p st1).locos)
      → Sound r.0
      → Sound
          (elim r.1 as (λ x. Station) [
            | none ↦ record st { locos = r.0 }
            | some p ↦ act p (record st { locos = r.0 })
          ]).locos
  at_slot-Sound act st (l, none) keeps h = h
  at_slot-Sound act st (l, some p) keeps h = Moved-Sound l _ (keeps p (record st { locos = l })) h

  at_slot_told-Sound :
      (act : ℕ → Station → Station) (st : Station) (r : Locos × Option ℕ)
      → ((p : ℕ) (st1 : Station) → Moved st1.locos (act p st1).locos)
      → Sound r.0
      → Sound
          (elim r.1 as (λ x. Station × Bool) [
            | none ↦ (record st { locos = r.0 }, false)
            | some p ↦ (act p (record st { locos = r.0 }), true)
          ]).0.locos
  at_slot_told-Sound act st (l, none) keeps h = h
  at_slot_told-Sound act st (l, some p) keeps h =
      Moved-Sound l _ (keeps p (record st { locos = l })) h

  if-Sound :
      (b : Bool) (x y : Station × Bool)
      → Sound x.0.locos
      → Sound y.0.locos
      → Sound (if b then x else y).0.locos
  if-Sound true x y h k = h
  if-Sound false x y h k = k

  if_plain-Sound :
      (b : Bool) (x y : Station) → Sound x.locos → Sound y.locos → Sound (if b then x else y).locos
  if_plain-Sound true x y h k = h
  if_plain-Sound false x y h k = k

  pub set_throttle-Sound :
      (now cab t_speed : ℕ) (t_direction : Bool) (st : Station)
      → Sound st.locos
      → Sound (set_throttle highest_short max_locos alloc now cab t_speed t_direction st).0.locos
  unfolding set_throttle
  set_throttle-Sound now cab t_speed t_direction st h =
      let code = (bit_and t_speed 0x7F + (if t_direction then 128 else 0)) % 256 in
      let act = set_throttle_at highest_short max_locos alloc now cab t_speed code in
      let r = get_slot max_locos alloc st.locos cab true in
      if-Sound ((t_speed == 1) && (cab == 0)) (estop_all highest_short st, true)
        (elim r.1 as (λ x. Station × Bool) [
          | none ↦ (record st { locos = r.0 }, false)
          | some p ↦ (act p (record st { locos = r.0 }), true)
        ])
        (Moved-Sound st.locos _ (estop_all-Moved highest_short st) h)
        (at_slot_told-Sound act st r
          (set_throttle_at-Moved highest_short max_locos alloc now cab t_speed code)
          (get_slot-Sound st.locos cab true h))

  pub set_fn-Sound :
      (cab n : ℕ) (on : Bool) (st : Station)
      → Sound st.locos
      → Sound (set_fn highest_short max_locos alloc cab n on st).0.locos
  unfolding set_fn
  set_fn-Sound cab n on st h =
      let b = binary_state_packet highest_short cab n on in
      let st1 : Station =
        if ltb 28 n
        then record st { queues = schedule_dcc_packet st.queues b (length b) 4 cab }
        else st in
      let h1 : Sound st1.locos =
        if_plain-Sound (ltb 28 n)
          (record st { queues = schedule_dcc_packet st.queues b (length b) 4 cab }) st h h in
      let r = get_slot max_locos alloc st1.locos cab true in
      let act : ℕ → Station → Station = λ p. set_functions highest_short max_locos alloc p n on in
      let served : Station × Bool = elim r.1 [
        | none ↦ (record st1 { locos = r.0 }, false)
        | some p ↦ (act p (record st1 { locos = r.0 }), true)
      ] in
      if-Sound (cab == 0) (st, false) (if ltb 31 n then (st1, true) else served) h
        (if-Sound (ltb 31 n) (st1, true) served h1
          (at_slot_told-Sound act st1 r
            (λ p. set_functions-Moved highest_short max_locos alloc p n on)
            (get_slot-Sound st1.locos cab true h1)))

  pub set_dc_freq-Sound :
      (cab freq : ℕ) (st : Station)
      → Sound st.locos
      → Sound (set_dc_freq highest_short max_locos alloc cab freq st).locos
  unfolding set_dc_freq
  set_dc_freq-Sound cab freq st h =
      let r = get_slot max_locos alloc st.locos cab true in
      if_plain-Sound ((cab == 0) || ltb 3 freq) st
        (elim r.1 as (λ x. Station) [
          | none ↦ record st { locos = r.0 }
          | some p ↦ act p (record st { locos = r.0 })
        ])
        h (at_slot-Sound act st r act-Moved (get_slot-Sound st.locos cab true h))
    where
      newset : ℕ → Station → ℕ
      newset p st1 = (slot_of st1 p).functions % 2 ^ 29 + (if freq == 0 then 0 else 2 ^ (28 + freq))

      act : ℕ → Station → Station
      act p st1 =
          let s = slot_of st1 p in
          if newset p st1 == s.functions
          then st1
          else tell (broadcast_loco p) (put_slot p (record s { functions = newset p st1 }) st1)

      act-Moved : (p : ℕ) (st1 : Station) → Moved st1.locos (act p st1).locos
      act-Moved p st1 =
          if-Moved (newset p st1 == (slot_of st1 p).functions) st1.locos st1
            (tell (broadcast_loco p)
              (put_slot p (record (slot_of st1 p) { functions = newset p st1 }) st1))
            (unmoved st1.locos) (put-Moved p _ st1.locos refl)

  pub set_momentum-Sound :
      (cab : ℕ) (a d : ℤ) (st : Station)
      → Sound st.locos
      → Sound (set_momentum highest_short max_locos alloc cab a d st).0.locos
  unfolding set_momentum
  set_momentum-Sound cab a d st h =
      let r = get_slot max_locos alloc st.locos cab true in
      let defaults : Station = record st {
        default_momentum_a = momentum_of a % 256;
        default_momentum_d = momentum_of d % 256;
      } in
      let for_all : Station × Bool =
        if is_negative a || is_negative d then (st, false) else (defaults, true) in
      let for_one : Station × Bool = elim r.1 [
        | none ↦ (record st { locos = r.0 }, false)
        | some p ↦ (act p (record st { locos = r.0 }), true)
      ] in
      let refused = not (below_default a && below_default d) in
      if-Sound (cab == 0) for_all (if refused then (st, false) else for_one)
        (if-Sound (is_negative a || is_negative d) (st, false) (defaults, true) h h)
        (if-Sound refused (st, false) for_one h
          (at_slot_told-Sound act st r (λ p st1. put-Moved p _ st1.locos refl)
            (get_slot-Sound st.locos cab true h)))
    where
      act : ℕ → Station → Station
      act p st1 =
          put_slot p
            (record (slot_of st1 p) { momentum_a = momentum_of a; momentum_d = momentum_of d }) st1

  pub save_speed-Sound :
      (cab : ℕ) (st : Station)
      → Sound st.locos
      → Sound (save_speed highest_short max_locos alloc cab st).locos
  unfolding save_speed
  save_speed-Sound cab st h = by_slot (find highest_short max_locos alloc cab false st).1
    where
      by_slot :
          (o : Option ℕ)
          → Sound
              (elim o as (λ x. Station) [
                | none ↦ st
                | some p ↦
                    let s = slot_of st p in
                    put_slot p (record s { saved_speed_code = s.target_speed }) st
              ]).locos
      by_slot none = h
      by_slot (some p) = Moved-Sound st.locos _ (put-Moved p _ st.locos refl) h

  pub restore_speed-Sound :
      (now cab : ℕ) (st : Station)
      → Sound st.locos
      → Sound (restore_speed highest_short max_locos alloc now cab st).locos
  unfolding restore_speed
  restore_speed-Sound now cab st h = by_slot (find highest_short max_locos alloc cab false st).1
    where
      by_slot :
          (o : Option ℕ)
          → Sound
              (elim o as (λ x. Station) [
                | none ↦ st
                | some p ↦
                    let code = (slot_of st p).saved_speed_code in
                    (set_throttle highest_short max_locos alloc now cab
                      (bit_and code 0x7F)
                      (not (bit_and code 0x80 == 0))
                      st).0
              ]).locos
      by_slot none = h
      by_slot (some p) = set_throttle-Sound now cab _ _ st h

  pub estop_lock-Sound :
      (lock : Bool) (st : Station) → Sound st.locos → Sound (estop_lock highest_short lock st).locos
  unfolding estop_lock
  estop_lock-Sound lock st h =
      let st1 : Station = record st { estop_is_locked = lock } in
      let st2 =
        if lock then tell (dc_signal 0 1) (throttle_dcc highest_short none 1 st1) else st1 in
      if_plain-Sound (if lock then st.estop_is_locked else not st.estop_is_locked) st
        (tell (broadcast_estop_lock lock) st2) h
        (if_plain-Sound lock (tell (dc_signal 0 1) (throttle_dcc highest_short none 1 st1)) st1 h h)
