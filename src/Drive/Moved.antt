-- ===== src/Drive/Moved.antt =====
-- What the operations of a station leave of its slots: the links, and which slot is for which loco.
use command_station_ex.Base.{
  ℕ, zero, suc, ◌≡◌, refl, ap, sym, ◌∙◌, Bool, true, false, not, ◌&&◌, ◌||◌, Option, none, some,
  bit_and, bit_or, bit_xor, leb, ◌==◌, ==_iff, if◌then◌else◌,
}
use command_station_ex.Loco.{LocoSlot, Locos}
use command_station_ex.Drive.{
  Station, slot_of, put_slot, tell, signal, broadcast_loco, dc_signal, throttle_dcc, copy_target,
  throttle_all, set_throttle2, stop_slots, estop_all, set_throttle_at, get_momentum,
}
use command_station_ex.Drive.Consist.{unlink, put}
use command_station_ex.Drive.Functions.{set_functions, with_function, update_group_flags}

-- Only what is in the slots has changed, and no slot went to another loco.
pub record Moved (l l' : Locos) : Type 0 where
  pub next : l'.next ≡ l.next
  pub first : l'.first_slot ≡ l.first_slot
  pub recycled : l'.recycler ≡ l.recycler
  pub counted : l'.slot_count ≡ l.slot_count
  pub created : l'.created ≡ l.created
  pub loco : (a : ℕ) → (l'.slot a).loco ≡ (l.slot a).loco

pub unmoved : (l : Locos) → Moved l l
unmoved l = record {
  next = refl;
  first = refl;
  recycled = refl;
  counted = refl;
  created = refl;
  loco = λ a. refl;
}

pub Moved-trans : (a b c : Locos) → Moved a b → Moved b c → Moved a c
Moved-trans a b c h k = record {
  next = k.next ∙ h.next;
  first = k.first ∙ h.first;
  recycled = k.recycled ∙ h.recycled;
  counted = k.counted ∙ h.counted;
  created = k.created ∙ h.created;
  loco = λ x. k.loco x ∙ h.loco x;
}

pub put-Moved : (p : ℕ) (s : LocoSlot) (l : Locos) → s.loco ≡ (l.slot p).loco → Moved l (put p s l)
put-Moved p s l same = record {
  next = refl;
  first = refl;
  recycled = refl;
  counted = refl;
  created = refl;
  loco = λ a. by_hit (a == p) a (==_iff a p).0;
}
  where
    by_hit :
        (b : Bool) (a : ℕ) → (b ≡ true → a ≡ p) → (if b then s else l.slot a).loco ≡ (l.slot a).loco
    by_hit true a at = same ∙ ap (λ q. (l.slot q).loco) (sym (at refl))
    by_hit false a at = refl

pub if-Moved :
    (b : Bool) (l : Locos) (x y : Station)
    → Moved l x.locos
    → Moved l y.locos
    → Moved l (if b then x else y).locos
if-Moved true l x y h k = h
if-Moved false l x y h k = k

pub unlink-Moved : (fuel : ℕ) (o : Option ℕ) (l : Locos) → Moved l (unlink fuel o l)
unfolding unlink
unlink-Moved zero o l = unmoved l
unlink-Moved (suc fuel) none l = unmoved l
unlink-Moved (suc fuel) (some p) l =
    let s = l.slot p in
    let l1 =
      put p (record s { consist_lead = none; consist_next = none; consist_reverse = false }) l in
    Moved-trans l l1 _ (put-Moved p _ l refl) (unlink-Moved fuel s.consist_next l1)

pub copy_target-Moved :
    (fuel code : ℕ) (o : Option ℕ) (st : Station)
    → Moved st.locos (copy_target fuel code o st).locos
unfolding copy_target
copy_target-Moved zero code o st = unmoved st.locos
copy_target-Moved (suc fuel) code none st = unmoved st.locos
copy_target-Moved (suc fuel) code (some p) st =
    let s = slot_of st p in
    let s1 : LocoSlot = record s {
      target_speed = bit_xor code (if s.consist_reverse then 0x80 else 0);
    } in
    Moved-trans st.locos (put p s1 st.locos) _ (put-Moved p s1 st.locos refl)
      (copy_target-Moved fuel code s.consist_next (put_slot p s1 st))

module _ (highest_short : ℕ) where
  throttle_all-Moved :
      (fuel code : ℕ) (o : Option ℕ) (st : Station)
      → Moved st.locos (throttle_all highest_short fuel code o st).locos
  unfolding throttle_all
  throttle_all-Moved zero code o st = unmoved st.locos
  throttle_all-Moved (suc fuel) code none st = unmoved st.locos
  throttle_all-Moved (suc fuel) code (some p) st =
      let s : LocoSlot = record (slot_of st p) { speed_code = code } in
      Moved-trans st.locos (put p s st.locos) _ (put-Moved p s st.locos refl) (
        throttle_all-Moved fuel code s.consist_next
          (throttle_dcc highest_short (some s) code (put_slot p s st)))

  pub set_throttle2-Moved :
      (p code : ℕ) (st : Station) → Moved st.locos (set_throttle2 highest_short p code st).locos
  unfolding set_throttle2
  set_throttle2-Moved p code st = throttle_all-Moved st.locos.created code (some p) st

  stop_slots-Moved :
      (fuel : ℕ) (o : Option ℕ) (st : Station)
      → Moved st.locos (stop_slots highest_short fuel o st).locos
  unfolding stop_slots
  stop_slots-Moved zero o st = unmoved st.locos
  stop_slots-Moved (suc fuel) none st = unmoved st.locos
  stop_slots-Moved (suc fuel) (some p) st =
      let s = slot_of st p in
      let code = bit_or (bit_and s.target_speed 0x80) 1 in
      let s1 : LocoSlot = record s { speed_code = code; target_speed = code } in
      Moved-trans st.locos (put p s1 st.locos) _ (put-Moved p s1 st.locos refl)
        (stop_slots-Moved fuel (st.locos.next p) (tell (broadcast_loco p) (put_slot p s1 st)))

  pub estop_all-Moved : (st : Station) → Moved st.locos (estop_all highest_short st).locos
  unfolding estop_all
  estop_all-Moved st =
      stop_slots-Moved st.locos.created st.locos.first_slot
        (tell (dc_signal 0 1) (throttle_dcc highest_short none 1 st))

  pub signal-Moved :
      (l : Locos) (cab code : ℕ) (st : Station)
      → Moved l st.locos
      → Moved l (signal cab code st).locos
  signal-Moved l cab code st h = if-Moved st.estop_is_locked l st (tell (dc_signal cab code) st) h h

  module _ (max_locos : ℕ) (alloc : Bool) where
    pub set_functions-Moved :
        (p n : ℕ) (on : Bool) (st : Station)
        → Moved st.locos (set_functions highest_short max_locos alloc p n on st).locos
    unfolding set_functions
    set_functions-Moved p n on st =
        let s = slot_of st p in
        let newset = with_function s.functions n on in
        let s1 : LocoSlot = record s { functions = newset } in
        let s2 : LocoSlot = if leb n 28 then update_group_flags s1 n else s1 in
        if-Moved (newset == s.functions) st.locos st (tell (broadcast_loco p) (put_slot p s2 st))
          (unmoved st.locos) (put-Moved p s2 st.locos (same (leb n 28) s1))
      where
        same :
            (b : Bool) (s1 : LocoSlot) → (if b then update_group_flags s1 n else s1).loco ≡ s1.loco
        same true s1 = refl
        same false s1 = refl

    pub set_throttle_at-Moved :
        (now cab t_speed code p : ℕ) (st : Station)
        → Moved st.locos
            (set_throttle_at highest_short max_locos alloc now cab t_speed code p st).locos
    unfolding set_throttle_at
    set_throttle_at-Moved now cab t_speed code p st =
        let s = slot_of st p in
        let follows : Bool = elim s.consist_lead [ none ↦ false | some lead ↦ true ] in
        let s1 : LocoSlot = record s { target_speed = code } in
        let st1 = put_slot p s1 st in
        let st2 = copy_target st1.locos.created code (slot_of st1 p).consist_next st1 in
        let s2 = slot_of st2 p in
        let st3 = put_slot p (record s2 { momentum_base = now }) st2 in
        let st4 = signal cab code (set_throttle2 highest_short p code st2) in
        let momentum = not (get_momentum st2 s2 == 0) && not (t_speed == 1) in
        let to2 =
          Moved-trans st.locos st1.locos st2.locos (put-Moved p s1 st.locos refl)
            (copy_target-Moved st1.locos.created code (slot_of st1 p).consist_next st1) in
        if-Moved (follows || (s.target_speed == code)) st.locos st
          (tell (broadcast_loco p) (if momentum then st3 else st4)) (unmoved st.locos)
          (if-Moved momentum st.locos st3 st4
            (Moved-trans st.locos st2.locos st3.locos to2 (put-Moved p _ st2.locos refl))
            (signal-Moved st.locos cab code (set_throttle2 highest_short p code st2)
              (Moved-trans st.locos st2.locos _ to2 (set_throttle2-Moved p code st2))))
