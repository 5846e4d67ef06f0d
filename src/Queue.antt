-- ===== src/Queue.antt =====
-- DCCQueue.cpp and DCCQueue.h: the packets that wait for the main track, in two queues of slots and
-- a list of slots to use again. The store is the `next` of each slot and its other fields. A loop
-- over a queue takes as its fuel the count of slots that were ever made. `millis()` is an argument,
-- the same throughout one call, and DIAG output is left out.
use command_station_ex.Base.{
  ℕ, zero, suc, ◌+◌, ◌-◌, ◌*◌, ◌/◌, ◌%◌, ◌^◌, ◌≡◌, Bool, true, false, not, ◌&&◌, ◌||◌, Option, none,
  some, List, [], ◌∷◌, bit_and, length, take, get_or, set, overlay, ltb, leb, ◌==◌, if◌then◌else◌,
}
use command_station_ex.Chain.{Links, link}
use command_station_ex.Chain.Loops.{find_slot, find_previous}
pub mod Primitives
pub mod Spec
pub mod Schedule

pub data PendingType : Type 0 where
  normal_packet function1_packet function2_packet function3_packet function4_packet function5_packet
        speed_packet acc_on_packet acc_off_packet dead_packet :
      PendingType

-- The number of a constant of `PendingType`, by which C compares them.
pub type_number : PendingType → ℕ
type_number normal_packet = 0
type_number function1_packet = 1
type_number function2_packet = 2
type_number function3_packet = 3
type_number function4_packet = 4
type_number function5_packet = 5
type_number speed_packet = 6
type_number acc_on_packet = 7
type_number acc_off_packet = 8
type_number dead_packet = 9

pub is_type : PendingType → PendingType → Bool
is_type a b = type_number a == type_number b

-- The union of `locoId`, `delayOff` and `startTime` is one word of 32 bits; the first two are its
-- low half, as on the little-endian processors that the code runs on.
pub record Slot : Type 0 where
  pub type : PendingType
  pub packet_length : ℕ
  pub packet_repeat : ℕ
  pub packet : List ℕ
  pub shared : ℕ

abbrev pub loco_id : Slot → ℕ
loco_id s = s.shared % 65536

abbrev pub start_time : Slot → ℕ
start_time s = s.shared

-- A write of the low half.
abbrev pub low_half : ℕ → ℕ → ℕ
low_half v word = word / 65536 * 65536 + v % 65536

pub record Queue : Type 0 where
  pub head : Option ℕ
  pub tail : Option ℕ

-- A call of `mainTrack.schedulePacket`: the bytes and the repeats.
pub record Sent : Type 0 where
  pub bytes : List ℕ
  pub repeats : ℕ

pub record Queues : Type 0 where
  pub next : Links
  pub slot : ℕ → Slot
  pub high : Queue
  pub low : Queue
  pub recycle_list : Option ℕ
  pub created : ℕ
  pub last_sent : ℕ
  -- What went to the track, the newest first.
  pub sent : List Sent

pub add_queue : Links → Queue → ℕ → Links × Queue
add_queue next q p = elim q.tail [
  | some t ↦ (link (link next t (some p)) p none, record q { tail = some p })
  | none ↦ (link next p none, record q { head = some p; tail = some p })
]

pub jump_queue : Links → Queue → ℕ → Links × Queue
jump_queue next q p = (
  link next p q.head,
  record q { head = some p; tail = elim q.tail [ none ↦ some p | some t ↦ some t ] },
)

pub recycle : Links → Option ℕ → ℕ → Links × Option ℕ
recycle next recycle_list p = (link next p recycle_list, some p)

abbrev pub points_at : Option ℕ → ℕ → Bool
points_at none p = false
points_at (some t) p = t == p

pub remove : ℕ → Links → Queue → ℕ → Links × Queue
remove fuel next q p = elim (find_previous fuel next p none q.head) [
  | none ↦ (next, q)
  | some none ↦
      (next, record q { head = next p; tail = if points_at q.tail p then none else q.tail })
  | some (some b) ↦
      (link next b (next p), record q { tail = if points_at q.tail p then some b else q.tail })
]

abbrev pub max_packet_size : ℕ
max_packet_size = 5

abbrev pub set_slot : (ℕ → Slot) → ℕ → Slot → ℕ → Slot
set_slot slot p s a = if a == p then s else slot a

-- A slot to use again, or `new PendingSlot`, whose fields hold what `slot` says. The length is
-- stored as given; the copy stops at the size of the array.
pub get_slot : Queues → PendingType → List ℕ → ℕ → ℕ → ℕ → Queues × ℕ
get_slot st type packet length' repeats loco =
    let p : ℕ = elim st.recycle_list [ some r ↦ r | none ↦ st.created ] in
    let recycle_list' : Option ℕ = elim st.recycle_list [ some r ↦ st.next r | none ↦ none ] in
    let created' : ℕ = elim st.recycle_list [ some r ↦ st.created | none ↦ suc st.created ] in
    let n = if ltb max_packet_size length' then max_packet_size else length' in
    let s : Slot = record {
      type = type;
      packet_length = length';
      packet_repeat = repeats;
      packet = overlay (take n packet) (st.slot p).packet;
      shared = low_half loco 0;
    } in
    (
      record st {
        next = link st.next p none;
        slot = set_slot st.slot p s;
        recycle_list = recycle_list';
        created = created';
      },
      p,
    )

-- `lowPriorityQueue->addQueue(p)` and `highPriorityQueue->addQueue(p)`.
pub add_low : Queues → ℕ → Queues
add_low st p = let (next', q) = add_queue st.next st.low p in record st { next = next'; low = q }

pub add_high : Queues → ℕ → Queues
add_high st p = let (next', q) = add_queue st.next st.high p in record st { next = next'; high = q }

pub jump_high : Queues → ℕ → Queues
jump_high st p =
    let (next', q) = jump_queue st.next st.high p in record st { next = next'; high = q }

-- `recycle(p)`.
pub recycle_slot : Queues → ℕ → Queues
recycle_slot st p =
    let (next', o) = recycle st.next st.recycle_list p in
    record st { next = next'; recycle_list = o }

pub remove_high : Queues → ℕ → Queues
remove_high st p =
    let (next', q) = remove st.created st.next st.high p in record st { next = next'; high = q }

pub remove_low : Queues → ℕ → Queues
remove_low st p =
    let (next', q) = remove st.created st.next st.low p in record st { next = next'; low = q }
