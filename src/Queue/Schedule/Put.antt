-- ===== src/Queue/Schedule/Put.antt =====
-- What `scheduleDCCPacket`, `scheduleDCCSpeedPacket`, `scheduleDCCFunctionPacket` and
-- `scheduleAccOnOffPacket` do to the lists of entries.
use command_station_ex.Base.{
  ℕ, ◌%◌, ◌≡◌, sym, ap, ap₂, subst, ◌∙◌, Bool, ◌&&◌, Option, none, some, List, [], ◌∷◌, ◌++◌, arith,
  ◌==◌, Option-cases, inl, inr,
}
use command_station_ex.Chain.Loops.{find_slot, first, find_slot-first}
use command_station_ex.Queue.{
  PendingType, Slot, Queues, loco_id, get_slot, add_low, add_high, normal_packet, speed_packet,
}
use command_station_ex.Queue.Spec.{Entry, entry, change_or_add}
use command_station_ex.Queue.Schedule.{
  schedule_dcc_packet, schedule_dcc_speed_packet, replace_packet,
}
use command_station_ex.Queue.{is_type}
use command_station_ex.Queue.Schedule.Take.{made, get_slot-Took}
use command_station_ex.Queue.Schedule.Refine.{
  Shows, IsPacket, fresh, entry-made, join_low, join_high,
}
use command_station_ex.Queue.Schedule.Replace.{
  replaced, replaced_lem, write_packet, first_misses, first_hits, one_each, change_high,
}

-- A packet that fits joins the low queue, and nothing else changes.
pub schedule_dcc_packet-Shows :
    (st : Queues) (highs lows : List Entry) (packet : List ℕ) (n repeats loco : ℕ)
    → Shows st highs lows
    → IsPacket packet n
    → Shows
        (schedule_dcc_packet st packet n repeats loco)
        highs
        (lows ++ fresh normal_packet packet repeats loco ∷ [])
unfolding schedule_dcc_packet
schedule_dcc_packet-Shows st highs lows packet n repeats loco sh ok =
    let res = get_slot st normal_packet packet n repeats loco in
    let t = get_slot-Took st sh.hs sh.ls normal_packet packet n repeats loco sh.rs sh.rep in
    subst (λ e. Shows (add_low res.0 res.1) highs (lows ++ e ∷ []))
      (entry-made normal_packet packet n repeats loco (st.slot res.1).packet ok)
      (join_low st sh.hs sh.ls _ res t highs lows sh.high_entries sh.low_entries)

-- A speed packet takes the place of the first entry of the high queue whose word has the loco in
-- its low half, of whatever type it is, or joins the end of that queue. The low queue stays.
pub schedule_dcc_speed_packet-Shows :
    (st : Queues) (highs lows : List Entry) (packet : List ℕ) (n repeats loco : ℕ)
    → Shows st highs lows
    → IsPacket packet n
    → Shows
        (schedule_dcc_speed_packet st packet n repeats loco)
        (change_or_add
          (λ e. e.shared % 65536 == loco)
          (replaced packet repeats)
          (fresh speed_packet packet repeats loco)
          highs)
        lows
unfolding schedule_dcc_speed_packet replace_packet
schedule_dcc_speed_packet-Shows st highs lows packet n repeats loco sh ok =
    elim (Option-cases (first test sh.hs)) [
      | inl e ↦
          rw (loop ∙ e, schedule_dcc_speed_packet)
            (subst (λ es. Shows (add_high res.0 res.1) es lows)
              (sym (
                ap change (sym sh.high_entries)
                ∙ first_misses st.slot write goal (replaced packet repeats) new is_replaced sh.hs e
                ∙ ap₂ (λ es x. es ++ x ∷ []) sh.high_entries (sym new_entry)))
              (join_high st sh.hs sh.ls _ res
                (get_slot-Took st sh.hs sh.ls speed_packet packet n repeats loco sh.rs sh.rep) highs
                lows sh.high_entries sh.low_entries))
      | inr (p, e) ↦
          let (i, changed) =
            first_hits st.slot write goal (replaced packet repeats) new is_replaced sh.hs p
              (λ a. omega (arith, one_each st highs lows sh write p a)) e in
          rw (loop ∙ e, schedule_dcc_speed_packet)
            (change_high st highs lows sh write p _ i (ap change (sym sh.high_entries) ∙ changed))
    ]
  where
    goal : Entry → Bool
    goal e = e.shared % 65536 == loco

    test : ℕ → Bool
    test a = loco_id (st.slot a) == loco

    new : Entry
    new = fresh speed_packet packet repeats loco

    change : List Entry → List Entry
    change = change_or_add goal (replaced packet repeats) new

    write : Slot → Slot
    write = write_packet packet n repeats

    is_replaced : (x : Slot) → entry (write x) ≡ replaced packet repeats (entry x)
    is_replaced x = replaced_lem packet n repeats x ok

    res : Queues × ℕ
    res = get_slot st speed_packet packet n repeats loco

    new_entry : entry (made speed_packet packet n repeats loco (st.slot res.1).packet) ≡ new
    new_entry = entry-made speed_packet packet n repeats loco (st.slot res.1).packet ok

    loop : find_slot st.created st.next test st.high.head ≡ first test sh.hs
    loop =
        find_slot-first st.created st.next test st.high.head sh.hs sh.rep.high.chain
          (omega (arith, sh.rep.total))

-- What a function packet of a group does to the entries of the low queue.
unfoldable pub put_function : Option PendingType → List ℕ → ℕ → List Entry → List Entry
put_function none packet loco lows = lows
put_function (some type) packet loco lows =
    change_or_add (λ e. (e.shared % 65536 == loco) && is_type e.type type) (replaced packet 0)
      (fresh type packet 0 loco) lows
