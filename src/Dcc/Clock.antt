-- ===== src/Dcc/Clock.antt =====
-- A decoder's view of the packet that tells the model time.
use command_station_ex.Base.{
  ℕ, ◌+◌, ◌*◌, ◌/◌, ◌%◌, ◌≡◌, ◌≤◌, ◌<◌, refl, ap, ap₂, ◌∙◌, Bool, true, false, ◌||◌, Option, none,
  some, List, [], ◌∷◌, ◌++◌, bit_or, ltb, leb, ◌==◌, ==_iff, if◌then◌else◌, passes_below, passes_at,
  arith,
}
use command_station_ex.Queue.{Queues, normal_packet}
use command_station_ex.Queue.Spec.{Entry}
use command_station_ex.Queue.Schedule.Refine.{Shows, fresh}
use command_station_ex.Queue.Schedule.Put.{schedule_dcc_packet-Shows}
use command_station_ex.Dcc.{time_packet, set_time}

pub record ModelTime : Type 0 where
  pub minutes : ℕ
  pub speed : ℕ
  pub sudden : ℕ

-- `00MMMMMM WWWHHHHH U0BBBBBB`, the minutes counted from midnight.
unfoldable pub read_time : List ℕ → Option ModelTime
read_time (b ∷ c ∷ m ∷ h ∷ s ∷ []) =
    if b == 0
    then (if c == 0xC1
        then some (record { minutes = h % 32 * 60 + m % 64; speed = s % 64; sudden = s / 128 })
        else none)
    else none
read_time _ = none

hour_byte : (h : ℕ) → h < 24 → bit_or 0xE0 h ≡ 0xE0 + h
unfolding passes_below
hour_byte h below =
    (==_iff (bit_or 0xE0 h) (0xE0 + h)).0
      (passes_at (λ x. bit_or 0xE0 x == 0xE0 + x) 24 h below refl)

speed_byte :
    (sudden : Bool) (s : ℕ)
    → s < 64
    → bit_or (if sudden then 0x80 else 0) s ≡ (if sudden then 128 else 0) + s
unfolding passes_below
speed_byte true s below =
    (==_iff (bit_or 0x80 s) (128 + s)).0 (passes_at (λ x. bit_or 0x80 x == 128 + x) 64 s below refl)
speed_byte false s below =
    (==_iff (bit_or 0 s) (0 + s)).0 (passes_at (λ x. bit_or 0 x == 0 + x) 64 s below refl)

abbrev told : ℕ → ℕ → ℕ → Option ModelTime
told m s u = some (record { minutes = m; speed = s; sudden = u })

told_same : (m m' s s' u u' : ℕ) → m ≡ m' → s ≡ s' → u ≡ u' → told m s u ≡ told m' s' u'
told_same m m' s s' u u' em es eu = ap₂ (λ a b. told a b u) em es ∙ ap (λ b. told m' s' b) eu

read_time-time_packet :
    (minutes speed : ℕ) (sudden : Bool)
    → minutes < 1440
    → speed < 64
    → read_time (time_packet minutes speed sudden) ≡ told minutes speed (if sudden then 1 else 0)
unfolding read_time time_packet
read_time-time_packet minutes speed true day fits =
    rw (hour_byte (minutes / 60) (omega (arith, day)), speed_byte true speed fits)
      (told_same _ minutes _ speed _ 1 (omega (arith, day)) (omega (arith, fits))
        (omega (arith, fits)))
read_time-time_packet minutes speed false day fits =
    rw (hour_byte (minutes / 60) (omega (arith, day)), speed_byte false speed fits)
      (told_same _ minutes _ speed _ 0 (omega (arith, day)) (omega (arith, fits))
        (omega (arith, fits)))

-- A time of day with a factor up to 63 joins the low queue as a packet for all locos, to be sent
-- with two repeats, and a decoder reads that time, that factor and whether the change is sudden.
pub set_time-Shows :
    (st : Queues) (highs lows : List Entry) (minutes speed : ℕ) (sudden : Bool)
    → Shows st highs lows
    → minutes < 1440
    → speed ≤ 63
    → ((set_time st minutes speed sudden).1 ≡ true)
      × Shows
          (set_time st minutes speed sudden).0
          highs
          (lows ++ fresh normal_packet (time_packet minutes speed sudden) 2 0 ∷ [])
      × (read_time (time_packet minutes speed sudden)
          ≡ some (record { minutes = minutes; speed = speed; sudden = if sudden then 1 else 0 }))
unfolding set_time time_packet
set_time-Shows st highs lows minutes speed sudden sh day fits =
    let b = time_packet minutes speed sudden in
    let ok : (leb 1440 minutes || ltb 63 speed) ≡ false = ground (arith, day, fits) in
    (
      rw (ok, set_time) refl,
      rw (ok, set_time) (schedule_dcc_packet-Shows st highs lows b 5 2 0 sh (refl, omega arith)),
      read_time-time_packet minutes speed sudden day (omega (arith, fits)),
    )
