-- ===== src/Queue/Schedule/Accessory.antt =====
-- What `scheduleAccOnOffPacket` does to the lists of entries.
use command_station_ex.Base.{
  ℕ, ◌≡◌, refl, ap, subst, ◌∙◌, false, List, [], ◌∷◌, ◌++◌, arith, ◌==◌, Bool-cases, inl, inr,
}
use command_station_ex.Queue.{Slot, Queues, set_slot, low_half, get_slot, acc_on_packet}
use command_station_ex.Queue.Spec.{Entry, entry}
use command_station_ex.Queue.Schedule.{schedule_acc_on_off_packet}
use command_station_ex.Queue.Schedule.Take.{made, Took, get_slot-Took}
use command_station_ex.Queue.Schedule.Refine.{Shows, IsPacket, fresh, entry-made, join_low}
use command_station_ex.Queue.Schedule.Replace.{Rep-slot}

-- The slot in hand, with the word that holds its delay.
abbrev with_delay : ℕ → Slot → Slot
with_delay delay s = record s { shared = low_half delay s.shared }

abbrev delayed : ℕ → Queues × ℕ → Queues × ℕ
delayed delay res =
    (record res.0 { slot = set_slot res.0.slot res.1 (with_delay delay (res.0.slot res.1)) }, res.1)

delayed-Took :
    (st : Queues) (hs ls : List ℕ) (s : ℕ → Slot) (res : Queues × ℕ) (delay : ℕ)
    → Took st hs ls s res
    → Took st hs ls (λ p. with_delay delay (s p)) (delayed delay res)
delayed-Took st hs ls s res delay t = record {
  rest = t.rest;
  rep = Rep-slot res.0 _ hs ls t.rest (res.1 ∷ []) t.rep;
  slots = λ a. elim (Bool-cases (a == res.1)) [
    | inl hit ↦ rw hit (ap (with_delay delay) (t.slots res.1 ∙ self))
    | inr miss ↦ rw miss (t.slots a ∙ other a miss)
  ];
  last_same = t.last_same;
  sent_same = t.sent_same;
}
  where
    self : set_slot st.slot res.1 (s res.1) res.1 ≡ s res.1
    self = ground arith

    other : (a : ℕ) → (a == res.1) ≡ false → set_slot st.slot res.1 (s res.1) a ≡ st.slot a
    other a miss = rw miss refl

-- A timed accessory packet joins the low queue with its delay, and nothing else changes.
pub schedule_acc_on_off_packet-Shows :
    (st : Queues) (highs lows : List Entry) (packet : List ℕ) (n repeats delay : ℕ)
    → Shows st highs lows
    → IsPacket packet n
    → Shows
        (schedule_acc_on_off_packet st packet n repeats delay)
        highs
        (lows ++ fresh acc_on_packet packet repeats delay ∷ [])
unfolding schedule_acc_on_off_packet fresh made
schedule_acc_on_off_packet-Shows st highs lows packet n repeats delay sh ok =
    let res = get_slot st acc_on_packet packet n repeats 0 in
    let t =
      delayed-Took st sh.hs sh.ls _ res delay
        (get_slot-Took st sh.hs sh.ls acc_on_packet packet n repeats 0 sh.rs sh.rep) in
    subst (λ e. Shows (schedule_acc_on_off_packet st packet n repeats delay) highs (lows ++ e ∷ []))
      (timed res.1)
      (join_low st sh.hs sh.ls _ (delayed delay res) t highs lows sh.high_entries sh.low_entries)
  where
    set_word : Entry → Entry
    set_word e = record e { shared = low_half delay e.shared }

    timed :
        (p : ℕ)
        → entry (with_delay delay (made acc_on_packet packet n repeats 0 (st.slot p).packet))
          ≡ fresh acc_on_packet packet repeats delay
    timed p =
        ap set_word (entry-made acc_on_packet packet n repeats 0 (st.slot p).packet ok)
        ∙ ap
            (λ (word : ℕ).
              let x : Entry = record {
                type = acc_on_packet;
                bytes = packet;
                repeats = repeats;
                shared = word;
              } in
              x)
            (omega arith)
