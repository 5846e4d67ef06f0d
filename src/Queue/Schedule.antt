-- ===== src/Queue/Schedule.antt =====
-- The operations of the class: what puts a packet into the queues, and what sends the next.
use command_station_ex.Base.{
  ℕ, zero, suc, ◌+◌, ◌-◌, ◌*◌, ◌/◌, ◌%◌, ◌^◌, ◌≡◌, Bool, true, false, not, ◌&&◌, ◌||◌, Option, none,
  some, List, [], ◌∷◌, bit_and, length, take, get_or, set, overlay, ltb, leb, ◌==◌, if◌then◌else◌,
}
use command_station_ex.Chain.{link}
use command_station_ex.Chain.Loops.{find_slot}
use command_station_ex.Queue.{
  PendingType, normal_packet, function1_packet, function2_packet, function3_packet,
  function4_packet, is_type, function5_packet, speed_packet, acc_on_packet, acc_off_packet,
  dead_packet, Slot, loco_id, start_time, low_half, Queue, Sent, Queues, set_slot, get_slot,
  add_low, add_high, jump_high, recycle_slot, remove_high, remove_low,
}
pub mod Rep
pub mod Take
pub mod Refine
pub mod Replace
pub mod Put
pub mod Accessory
pub mod Estop
pub mod Turns
pub mod Dispatch
pub mod Next
pub mod Urgent
pub mod Apart
mod Tests

pub schedule_dcc_packet : Queues → List ℕ → ℕ → ℕ → ℕ → Queues
schedule_dcc_packet st packet length' repeats loco =
    let (st', p) = get_slot st normal_packet packet length' repeats loco in add_low st' p

-- The packet of slot `p` is replaced.
pub replace_packet : Queues → ℕ → List ℕ → ℕ → ℕ → Queues
replace_packet st p packet length' repeats =
    let s = st.slot p in
    record st {
      slot = set_slot st.slot p (record s {
        packet = overlay (take length' packet) s.packet;
        packet_length = length';
        packet_repeat = repeats;
      });
    }

pub schedule_dcc_speed_packet : Queues → List ℕ → ℕ → ℕ → ℕ → Queues
schedule_dcc_speed_packet st packet length' repeats loco =
    elim (find_slot st.created st.next (λ a. loco_id (st.slot a) == loco) st.high.head) [
      | some p ↦ replace_packet st p packet length' repeats
      | none ↦ let (st', p) = get_slot st speed_packet packet length' repeats loco in add_high st' p
    ]

pub function_type : ℕ → Option PendingType
function_type group =
    if group == 1
    then some function1_packet
    else if group == 2
    then some function2_packet
    else if group == 3
    then some function3_packet
    else if group == 4
    then some function4_packet
    else if group == 5
    then some function5_packet
    else none

pub schedule_dcc_function_packet : Queues → List ℕ → ℕ → ℕ → ℕ → Queues
schedule_dcc_function_packet st packet length' loco group = elim (function_type group) [
  | none ↦ st
  | some type ↦
      elim (find_slot st.created st.next
        (λ a. (loco_id (st.slot a) == loco) && is_type (st.slot a).type type) st.low.head) [
          | some p ↦ replace_packet st p packet length' 0
          | none ↦ let (st', p) = get_slot st type packet length' 0 loco in add_low st' p
        ]
]

-- Whether an emergency stop of `loco`, 0 for all, discards a slot.
pub is_stopped : ℕ → Slot → Bool
is_stopped loco s = not (is_type s.type acc_off_packet) && ((loco == 0) || (loco_id s == loco))

pub discard_stopped : ℕ → ℕ → Queues → Option ℕ → Queues
discard_stopped zero loco st o = st
discard_stopped (suc fuel) loco st none = st
discard_stopped (suc fuel) loco st (some p) =
    let st' = if is_stopped loco (st.slot p) then recycle_slot (remove_high st p) p else st in
    discard_stopped fuel loco st' (st.next p)

pub schedule_estop_packet : Queues → List ℕ → ℕ → ℕ → ℕ → Queues
schedule_estop_packet st packet length' repeats loco =
    let st1 = discard_stopped st.created loco st st.high.head in
    let (st2, p) = get_slot st1 speed_packet packet length' repeats 0 in jump_high st2 p

pub schedule_acc_on_off_packet : Queues → List ℕ → ℕ → ℕ → ℕ → Queues
schedule_acc_on_off_packet st packet length' repeats delay =
    let (st1, p) = get_slot st acc_on_packet packet length' repeats 0 in
    let s = st1.slot p in
    add_low
      (record st1 { slot = set_slot st1.slot p (record s { shared = low_half delay s.shared }) }) p

-- Whether the loop of `scheduleNextInternal` passes over a slot.
pub is_skipped : ℕ → ℕ → Slot → Bool
is_skipped now last s =
    (is_type s.type acc_off_packet && ltb now (start_time s))
    || (not (loco_id s == 0) && (loco_id s == last))

-- What is done with a slot after it went out for the last time; it is in no queue now.
pub retire : Queues → ℕ → ℕ → Queues
retire st p now =
    let s = st.slot p in
    if is_type s.type acc_on_packet
    then jump_high
        (record st {
          slot = set_slot st.slot p (record s {
            type = acc_off_packet;
            packet = set s.packet 1 (bit_and (get_or s.packet 1 0) 0xF7);
            shared = (now + loco_id s) % 2 ^ 32;
          });
        })
        p
    else recycle_slot st p

pub send : Queues → ℕ → ℕ → Queues
send st p repeats =
    let s = st.slot p in
    record st {
      sent = record { bytes = take s.packet_length s.packet; repeats = repeats } ∷ st.sent;
      last_sent = loco_id s;
    }

-- The first slot that is not passed over goes out. `out` removes it from its queue.
pub dispatch : (Queues → ℕ → Queues) → Queues → ℕ → ℕ → Queues
dispatch out st now p =
    let s = st.slot p in
    if loco_id s == 0
    then retire (out (send st p s.packet_repeat) p) p now
    else if s.packet_repeat == 0
    then retire (out (send st p 0) p) p now
    else let st' = send st p 0 in
      record st' { slot = set_slot st'.slot p (record s { packet_repeat = s.packet_repeat - 1 }) }

pub schedule_next_internal : (Queues → ℕ → Queues) → Queues → Option ℕ → ℕ → Queues × Bool
schedule_next_internal out st head now =
    elim (find_slot st.created st.next (λ a. not (is_skipped now st.last_sent (st.slot a))) head) [
      | some p ↦ (dispatch out st now p, true)
      | none ↦ (st, false)
    ]

abbrev pub idle_packet : List ℕ
idle_packet = 0xFF ∷ 0x00 ∷ []

pub schedule_next : Queues → Bool → ℕ → Queues × Bool
schedule_next st force now =
    let (st1, done1) = schedule_next_internal remove_high st st.high.head now in
    let (st2, done2) = schedule_next_internal remove_low st1 st1.low.head now in
    if done1
    then (st1, true)
    else if done2
    then (st2, true)
    else if force
    then (
      record st2 { sent = record { bytes = idle_packet; repeats = 0 } ∷ st2.sent; last_sent = 0 },
      true,
    )
    else (st2, false)
