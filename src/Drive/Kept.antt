-- ===== src/Drive/Kept.antt =====
-- What the reminders leave of the slots: the links of the chain.
use command_station_ex.Base.{
  ℕ, zero, suc, ◌≡◌, refl, ◌∙◌, Bool, true, false, ◌&&◌, ◌||◌, Option, none, some, leb, ◌==◌,
  if◌then◌else◌, bit_and, bit_or, ◌/◌, ◌%◌, ◌*◌, ◌^◌,
}
use command_station_ex.Loco.{LocoSlot}
use command_station_ex.Dcc.{set_function_internal}
use command_station_ex.Drive.{
  Station, slot_of, put_slot, throttle_dcc, throttle_all, set_throttle2, signal, get_momentum, tell,
  dc_signal,
}
use command_station_ex.Drive.Consist.{is_consist_follower}
use command_station_ex.Drive.Momentum.{next_code, ticks_since}
use command_station_ex.Drive.Reminders.{
  move_speed, remind_speed, remind_group, remind_at, issue_reminder,
}

-- The chain of slots is the same.
pub record Kept (st st' : Station) : Type 0 where
  pub next : st'.locos.next ≡ st.locos.next
  pub modified : st'.locos.chain_modified ≡ st.locos.chain_modified
  pub created : st'.locos.created ≡ st.locos.created

pub kept : (st : Station) → Kept st st
kept st = record { next = refl; modified = refl; created = refl }

pub Kept-trans : (a b c : Station) → Kept a b → Kept b c → Kept a c
Kept-trans a b c h k = record {
  next = k.next ∙ h.next;
  modified = k.modified ∙ h.modified;
  created = k.created ∙ h.created;
}

module _ (highest_short : ℕ) where
  throttle_all-Kept :
      (fuel code : ℕ) (o : Option ℕ) (st : Station)
      → Kept st (throttle_all highest_short fuel code o st)
  unfolding throttle_all
  throttle_all-Kept zero code o st = kept st
  throttle_all-Kept (suc fuel) code none st = kept st
  throttle_all-Kept (suc fuel) code (some p) st =
      let s : LocoSlot = record (slot_of st p) { speed_code = code } in
      let st1 = throttle_dcc highest_short (some s) code (put_slot p s st) in
      let rest = throttle_all-Kept fuel code s.consist_next st1 in
      record { next = rest.next; modified = rest.modified; created = rest.created }

  signal-Kept : (cab code : ℕ) (st : Station) → Kept st (signal cab code st)
  signal-Kept cab code st = either st.estop_is_locked
    where
      either : (b : Bool) → Kept st (if b then st else tell (dc_signal cab code) st)
      either true = kept st
      either false = record { next = refl; modified = refl; created = refl }

  if_Kept :
      (b : Bool) (st : Station) (x y : Station × Bool)
      → Kept st x.0
      → Kept st y.0
      → Kept st (if b then x else y).0
  if_Kept true st x y h k = h
  if_Kept false st x y h k = k

  if_same_Kept :
      (b : Bool) (st : Station) (x y : Station × ℕ)
      → Kept st x.0
      → Kept st y.0
      → Kept st (if b then x else y).0
  if_same_Kept true st x y h k = h
  if_same_Kept false st x y h k = k

  move_speed-Kept : (now p : ℕ) (st : Station) → Kept st (move_speed now p st).0
  unfolding move_speed
  move_speed-Kept now p st =
      let s = slot_of st p in
      let ticks = ticks_since now s.momentum_base (get_momentum st s) in
      let code = next_code s.speed_code s.target_speed ticks in
      let s1 : LocoSlot = record s { speed_code = code } in
      let st2 = signal s.loco code (put_slot p s1 st) in
      let k = signal-Kept s.loco code (put_slot p s1 st) in
      if_same_Kept ((s.target_speed == s.speed_code) || (ticks == 0)) st (st, s.speed_code)
        (put_slot p (record (slot_of st2 p) { momentum_base = now }) st2, code) (kept st)
        (record { next = k.next; modified = k.modified; created = k.created })

  remind_speed-Kept : (now p : ℕ) (st : Station) → Kept st (remind_speed highest_short now p st).0
  unfolding remind_speed set_throttle2
  remind_speed-Kept now p st =
      let st1 = (move_speed now p st).0 in
      let code = (move_speed now p st).1 in
      if_Kept (is_consist_follower (slot_of st p)) st (st, false)
        (set_throttle2 highest_short p code st1, true) (kept st)
        (Kept-trans st st1 _ (move_speed-Kept now p st)
          (throttle_all-Kept st1.locos.created code (some p) st1))

  remind_group-Kept :
      (mask group byte1 byte2 p : ℕ) (st : Station)
      → Kept st (remind_group highest_short mask group byte1 byte2 p st).0
  unfolding remind_group
  remind_group-Kept mask group byte1 byte2 p st =
      let s = slot_of st p in
      let st1 : Station = record st {
        queues = set_function_internal highest_short st.queues s.loco group byte1 byte2;
      } in
      if_Kept (bit_and s.group_flags mask == 0) st (st, false) (st1, true) (kept st)
        (record { next = refl; modified = refl; created = refl })

  pub issue_reminder-Kept :
      (now p : ℕ) (st : Station) → Kept st (issue_reminder highest_short now p st).0
  unfolding issue_reminder remind_at
  issue_reminder-Kept now p st =
      let f = (slot_of st p).functions in
      let n = st.loop_status in
      let group = remind_group highest_short in
      let r1 = group 0x01 1 0 (bit_or (bit_or 128 (f / 2 % 16)) (f % 2 * 16)) p st in
      let r2 = group 0x02 2 0 (bit_or 176 (f / 2 ^ 5 % 16)) p st in
      let r3 = group 0x04 3 0 (bit_or 160 (f / 2 ^ 9 % 16)) p st in
      let r4 = group 0x08 4 222 (f / 2 ^ 13 % 256) p st in
      let r5 = group 0x10 5 223 (f / 2 ^ 21 % 256) p st in
      let none_left : Station × Bool = (st, false) in
      let from5 = if n == 9 then r5 else none_left in
      let from4 = if n == 7 then r4 else from5 in
      let from3 = if n == 5 then r3 else from4 in
      let from2 = if n == 3 then r2 else from3 in
      if_Kept (n % 2 == 0 && leb n 8) st (remind_speed highest_short now p st)
        (if n == 1 then r1 else from2) (remind_speed-Kept now p st)
        (if_Kept (n == 1) st r1 from2 (remind_group-Kept 0x01 1 0 _ p st) (
          if_Kept (n == 3) st r2 from3 (remind_group-Kept 0x02 2 0 _ p st) (
            if_Kept (n == 5) st r3 from4 (remind_group-Kept 0x04 3 0 _ p st) (
              if_Kept (n == 7) st r4 from5 (remind_group-Kept 0x08 4 222 _ p st) (
                if_Kept (n == 9) st r5 none_left (remind_group-Kept 0x10 5 223 _ p st)
                  (kept st))))))
