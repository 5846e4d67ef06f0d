-- ===== src/Queue/Spec.antt =====
-- The two queues as lists of what waits in them, with no store and no slots.
use command_station_ex.Base.{
  ℕ, ◌+◌, ◌-◌, ◌%◌, ◌^◌, Bool, not, ◌&&◌, Option, none, some, List, [], ◌∷◌, take, set, get_or,
  bit_and, ltb, ◌||◌, ◌==◌, if◌then◌else◌,
}
use command_station_ex.Queue.{PendingType, acc_on_packet, acc_off_packet, Slot, Sent, is_type}

-- What a slot stands for: the bytes that will be sent, without the rest of the array.
pub record Entry : Type 0 where
  pub type : PendingType
  pub bytes : List ℕ
  pub repeats : ℕ
  pub shared : ℕ

abbrev pub entry : Slot → Entry
entry s = record {
  type = s.type;
  bytes = take s.packet_length s.packet;
  repeats = s.packet_repeat;
  shared = s.shared;
}

-- The first entry that passes the test is changed, or a new one joins the end.
unfoldable pub change_or_add : (Entry → Bool) → (Entry → Entry) → Entry → List Entry → List Entry
change_or_add test change new [] = new ∷ []
change_or_add test change new (e ∷ es) =
    if test e then change e ∷ es else e ∷ change_or_add test change new es

unfoldable pub keep : (Entry → Bool) → List Entry → List Entry
keep test [] = []
keep test (e ∷ es) = if test e then e ∷ keep test es else keep test es

-- The first entry that passes the test is changed, or taken out.
unfoldable pub change_first : (Entry → Bool) → (Entry → Option Entry) → List Entry → List Entry
change_first test change [] = []
change_first test change (e ∷ es) =
    if test e
    then elim (change e) [ some e' ↦ e' ∷ es | none ↦ es ]
    else e ∷ change_first test change es

unfoldable pub pick : (Entry → Bool) → List Entry → Option Entry
pick test [] = none
pick test (e ∷ es) = if test e then some e else pick test es

-- An entry goes out unless its time is to come or its loco got the last packet.
unfoldable pub is_ready : ℕ → ℕ → Entry → Bool
is_ready now last e = not (
    (is_type e.type acc_off_packet && ltb now e.shared)
    || (not (e.shared % 65536 == 0) && (e.shared % 65536 == last)))

-- What stays of an entry that went out: a packet to a loco stays until its repeats are used up, one
-- to no loco has its repeats made by the waveform.
unfoldable pub used : Entry → Option Entry
used e =
    if e.shared % 65536 == 0
    then none
    else if e.repeats == 0
    then none
    else some (record e { repeats = e.repeats - 1 })

unfoldable pub sent_repeats : Entry → ℕ
sent_repeats e = if e.shared % 65536 == 0 then e.repeats else 0

-- The packet that turns an accessory off, once its delay has passed.
unfoldable pub turned_off : ℕ → Entry → Entry
turned_off now e = record {
  type = acc_off_packet;
  bytes = set e.bytes 1 (bit_and (get_or e.bytes 1 0) 0xF7);
  repeats = e.repeats;
  shared = (now + e.shared % 65536) % 2 ^ 32;
}

unfoldable pub after : ℕ → Entry → List Entry → List Entry
after now e highs = if is_type e.type acc_on_packet then turned_off now e ∷ highs else highs

-- A turn of the queues: what waits then, what went out, and the loco that it was for.
pub record Turn : Type 0 where
  pub highs : List Entry
  pub lows : List Entry
  pub sent : Option Sent
  pub last : ℕ

-- `e` went out, and the queues without it are `highs` and `lows`.
unfoldable pub turn : ℕ → Entry → List Entry → List Entry → Turn
turn now e highs lows = record {
  highs = elim (used e) [ none ↦ after now e highs | some e' ↦ highs ];
  lows = lows;
  sent = some (record { bytes = e.bytes; repeats = sent_repeats e });
  last = e.shared % 65536;
}

-- The first ready entry of the high queue goes out, or else that of the low queue, or else an idle
-- packet if it is forced.
unfoldable pub next_turn : ℕ → ℕ → Bool → List Entry → List Entry → Turn
next_turn now last force highs lows = elim (pick (is_ready now last) highs) [
  | some e ↦ turn now e (change_first (is_ready now last) used highs) lows
  | none ↦ elim (pick (is_ready now last) lows) [
    | some e ↦ turn now e highs (change_first (is_ready now last) used lows)
    | none ↦ record {
      highs = highs;
      lows = lows;
      sent = if force then some (record { bytes = 0xFF ∷ 0 ∷ []; repeats = 0 }) else none;
      last = if force then 0 else last;
    }
  ]
]
