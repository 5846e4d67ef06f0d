-- ===== src/Dcc/Cv.antt =====
-- A decoder's view of a packet that writes a CV on the main track.
use command_station_ex.Base.{
  ℕ, ◌+◌, ◌-◌, ◌*◌, ◌/◌, ◌%◌, ◌≡◌, ◌≤◌, ◌<◌, refl, ap₂, ◌∙◌, Bool, true, Option, none, some, List,
  [], ◌∷◌, ◌++◌, bit_or, bit_and, length, length-append, high_byte, ◌==◌, ==_iff, if◌then◌else◌,
  passes_below, passes_at, arith,
}
use command_station_ex.Queue.{Queues, normal_packet}
use command_station_ex.Queue.Spec.{Entry}
use command_station_ex.Queue.Schedule.Refine.{Shows, fresh}
use command_station_ex.Queue.Schedule.Put.{schedule_dcc_packet-Shows}
use command_station_ex.Dcc.{address_bytes, cv1, cv2, cv_byte_packet, write_cv_byte_main}
use command_station_ex.Dcc.Address.{read_address, read_address-address_bytes, length-address_bytes}

-- An instruction on a CV: what it is to do, which CV, and its data byte.
pub record Instruction : Type 0 where
  pub loco : ℕ
  pub action : ℕ
  pub cv : ℕ
  pub data_byte : ℕ

unfoldable pub read_cv : List ℕ → Option Instruction
read_cv bytes = elim (read_address bytes) [
  | none ↦ none
  | some (cab, []) ↦ none
  | some (cab, _ ∷ []) ↦ none
  | some (cab, _ ∷ _ ∷ []) ↦ none
  | some (cab, b ∷ c ∷ d ∷ _) ↦
      some (record { loco = cab; action = b / 4 * 4; cv = b % 4 * 256 + c + 1; data_byte = d })
]

module _ (action : ℕ) where
  -- The action has no bit where the high bits of the CV stand.
  IsAction : Type 0
  IsAction = passes_below (λ x. bit_or (bit_and x 3) action == x + action) 4 ≡ true

  cv1-sum : (cv : ℕ) → IsAction → 1 ≤ cv → cv ≤ 1024 → cv1 action cv ≡ (cv - 1) / 256 + action
  unfolding cv1 IsAction
  cv1-sum cv free from to =
      let small : high_byte (cv - 1) < 4 = omega (arith, to) in
      (==_iff (cv1 action cv) (high_byte (cv - 1) + action)).0 (
        passes_at (λ x. bit_or (bit_and x 3) action == x + action) 4 (high_byte (cv - 1)) small
          free)
      ∙ omega (arith, to)

  -- The address, the action and the CV of a packet are read back, with the data byte.
  read_cv-packet :
      (highest_short cab cv d : ℕ)
      → IsAction
      → action % 4 ≡ 0
      → highest_short ≤ 127
      → cab < 10240
      → 1 ≤ cv
      → cv ≤ 1024
      → read_cv (address_bytes highest_short cab ++ cv1 action cv ∷ cv2 cv ∷ d ∷ [])
        ≡ some (record { loco = cab; action = action; cv = cv; data_byte = d })
  unfolding read_cv cv2
  read_cv-packet highest_short cab cv d free even short fits from to =
      let e = cv1-sum cv free from to in
      rw
        (
          read_address-address_bytes highest_short cab (cv1 action cv) (cv2 cv ∷ d ∷ []) short fits,
          e,
          read_cv,
        )
        (ap₂
          (λ (a v : ℕ).
            let x : Instruction = record { loco = cab; action = a; cv = v; data_byte = d } in
            some x)
          (omega (arith, even, to, from)) (omega (arith, even, to, from)))

length-packet :
    (highest_short cab a b c : ℕ) → length (address_bytes highest_short cab ++ a ∷ b ∷ c ∷ []) ≤ 5
length-packet highest_short cab a b c = omega (
  arith,
  length-append (address_bytes highest_short cab) (a ∷ b ∷ c ∷ []),
  length-address_bytes highest_short cab,
)

-- A write of a byte to a CV from 1 to 1024 of a loco below 10240 joins the low queue, to be sent
-- with four repeats, and a decoder reads that loco, the action to write, that CV and that byte.
pub write_cv_byte_main-Shows :
    (st : Queues) (highs lows : List Entry) (highest_short cab cv value : ℕ)
    → Shows st highs lows
    → highest_short ≤ 127
    → cab < 10240
    → 1 ≤ cv
    → cv ≤ 1024
    → Shows
        (write_cv_byte_main highest_short st cab cv value)
        highs
        (lows ++ fresh normal_packet (cv_byte_packet highest_short cab cv value) 4 cab ∷ [])
      × (read_cv (cv_byte_packet highest_short cab cv value)
          ≡ some (record { loco = cab; action = 0xEC; cv = cv; data_byte = value }))
unfolding write_cv_byte_main cv_byte_packet IsAction passes_below
write_cv_byte_main-Shows st highs lows highest_short cab cv value sh short fits from to =
    let b = cv_byte_packet highest_short cab cv value in
    (
      schedule_dcc_packet-Shows st highs lows b (length b) 4 cab sh
          (refl, length-packet highest_short cab (cv1 0xEC cv) (cv2 cv) value),
      read_cv-packet 0xEC highest_short cab cv value refl refl short fits from to,
    )

-- The data byte of a write of one bit: the bit's number and its value.
unfoldable pub read_bit : ℕ → ℕ × Bool
read_bit d = (d % 8, d / 8 % 2 == 1)

abbrev bit_data : ℕ → Bool → ℕ
bit_data n value = bit_or (bit_or 0xF0 (if value then 0x08 else 0x00)) n
