-- ===== src/Drive/Stop.antt =====
-- The emergency stop of all locos.
use command_station_ex.Base.{
  ℕ, zero, suc, ◌+◌, ◌≡◌, ◌≤◌, refl, ap, sym, ◌∙◌, Bool, true, false, Option, none, some, List, [],
  ◌∷◌, length, arith, bit_or, bit_and, ltb, ◌==◌, ==_iff, if◌then◌else◌,
}
use command_station_ex.Chain.{Chain, count, Distinct}
use command_station_ex.Loco.{LocoSlot}
use command_station_ex.Drive.{
  Station, slot_of, put_slot, tell, broadcast_loco, stop_slots, estop_all, throttle_dcc, dc_signal,
}

-- A slot that stopped, in the direction of its target.
abbrev pub stopped : LocoSlot → LocoSlot
stopped s =
    let code = bit_or (bit_and s.target_speed 0x80) 1 in
    record s { speed_code = code; target_speed = code }

stop_slots_queues :
    (highest_short fuel : ℕ) (o : Option ℕ) (st : Station)
    → (stop_slots highest_short fuel o st).queues ≡ st.queues
unfolding stop_slots
stop_slots_queues highest_short zero o st = refl
stop_slots_queues highest_short (suc fuel) none st = refl
stop_slots_queues highest_short (suc fuel) (some p) st =
    stop_slots_queues highest_short fuel (st.locos.next p)
      (tell (broadcast_loco p) (put_slot p (stopped (slot_of st p)) st))

stop_slots-stopped :
    (highest_short fuel : ℕ) (o : Option ℕ) (xs : List ℕ) (st : Station) (a : ℕ)
    → Chain st.locos.next o xs
    → length xs ≤ fuel
    → Distinct xs
    → slot_of (stop_slots highest_short fuel o st) a
      ≡ (if ltb 0 (count a xs) then stopped (slot_of st a) else slot_of st a)
unfolding stop_slots
stop_slots-stopped highest_short fuel o [] st a c room once =
    ap (λ o'. slot_of o' a) (stop_slots_end fuel)
  where
    stop_slots_end : (n : ℕ) → stop_slots highest_short n o st ≡ st
    stop_slots_end zero = refl
    stop_slots_end (suc n) = ap (λ q. stop_slots highest_short (suc n) q st) c
stop_slots-stopped highest_short zero o (x ∷ xs) st a c room once = absurd (omega (arith, room))
stop_slots-stopped highest_short (suc fuel) o (x ∷ xs) st a (e, c) room once =
    let st1 = tell (broadcast_loco x) (put_slot x (stopped (slot_of st x)) st) in
    ap (λ q. slot_of (stop_slots highest_short (suc fuel) q st) a) e
    ∙ stop_slots-stopped highest_short fuel (st.locos.next x) xs st1 a c (omega (arith, room))
        (λ b. omega (arith, once b))
    ∙ by_hit (a == x) (count a xs) (slot_of st x) (slot_of st a) (λ h. omega (arith, once a, hit h))
        (λ h. ap (slot_of st) (sym ((==_iff a x).0 h)))
  where
    hit : (a == x) ≡ true → count a (x ∷ xs) ≡ suc (count a xs)
    hit h = ground (arith, h)

    by_hit :
        (b : Bool) (k : ℕ) (u v : LocoSlot)
        → (b ≡ true → k ≡ 0)
        → (b ≡ true → u ≡ v)
        → (if ltb 0 k then stopped (if b then stopped u else v) else (if b then stopped u else v))
          ≡ (if ltb 0 ((if b then 1 else 0) + k) then stopped v else v)
    by_hit true k u v none_left same =
        ap (λ n. if ltb 0 n then stopped (stopped u) else stopped u) (none_left refl)
        ∙ ap stopped (same refl)
        ∙ ap (λ (t : Bool). if t then stopped v else v) (sym (some_hit k))
      where
        some_hit : (n : ℕ) → ltb 0 (1 + n) ≡ true
        some_hit n = ground arith
    by_hit false k u v none_left same =
        ap (λ n. if ltb 0 n then stopped v else v) (sym (plus_none k))
      where
        plus_none : (n : ℕ) → 0 + n ≡ n
        plus_none n = omega arith

-- After an emergency stop every slot of the chain has as its speed and as its target an emergency stop
-- in the direction of its target before; no other slot is changed, and the broadcast stop is sent.
-- The chain has no slot twice and no more slots than were created.
pub estop_all-stopped :
    (highest_short : ℕ) (xs : List ℕ) (st : Station)
    → Chain st.locos.next st.locos.first_slot xs
    → length xs ≤ st.locos.created
    → Distinct xs
    → ((a : ℕ)
        → slot_of (estop_all highest_short st) a
          ≡ (if ltb 0 (count a xs) then stopped (slot_of st a) else slot_of st a))
      × ((estop_all highest_short st).queues ≡ (throttle_dcc highest_short none 1 st).queues)
unfolding estop_all
estop_all-stopped highest_short xs st c room once =
    let st1 = tell (dc_signal 0 1) (throttle_dcc highest_short none 1 st) in
    (
      λ a.
          stop_slots-stopped highest_short st1.locos.created st1.locos.first_slot xs st1 a c room
            once,
      stop_slots_queues highest_short st1.locos.created st1.locos.first_slot st1,
    )
