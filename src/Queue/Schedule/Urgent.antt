-- ===== src/Queue/Schedule/Urgent.antt =====
-- What the operations promise together: the stop is sent next, and of two speeds the first never.
use command_station_ex.Base.{
  ℕ, ◌%◌, ◌<◌, ◌≡◌, refl, ap, subst, ◌∙◌, Bool, true, not, some, List, [], ◌∷◌, arith, ◌==◌, ==_iff,
  Bool-cases, inl, inr,
}
use command_station_ex.Queue.{Queues, speed_packet, is_type, type_number}
use command_station_ex.Queue.Spec.{
  Entry, change_or_add, keep, pick, is_ready, sent_repeats, turn, next_turn,
}
use command_station_ex.Queue.Schedule.{
  schedule_dcc_speed_packet, schedule_estop_packet, schedule_next,
}
use command_station_ex.Queue.Schedule.Refine.{Shows, IsPacket, fresh}
use command_station_ex.Queue.Schedule.Replace.{replaced}
use command_station_ex.Queue.Schedule.Put.{schedule_dcc_speed_packet-Shows}
use command_station_ex.Queue.Schedule.Estop.{stops, schedule_estop_packet-Shows}
use command_station_ex.Queue.Schedule.Dispatch.{add_sent}
use command_station_ex.Queue.Schedule.Next.{schedule_next-Turned, is_some}

first_turn :
    (now last : ℕ) (force : Bool) (packet : List ℕ) (repeats : ℕ) (es lows : List Entry)
    → (next_turn now last force (fresh speed_packet packet repeats 0 ∷ es) lows).sent
      ≡ some (record { bytes = packet; repeats = repeats })
unfolding next_turn fresh pick is_ready is_type type_number turn sent_repeats
first_turn now last force packet repeats es lows = refl

-- After an emergency stop the next packet to the track is that of the stop, with its repeats,
-- whatever waits.
pub schedule_next-schedule_estop_packet :
    (st : Queues) (highs lows : List Entry) (packet : List ℕ) (n repeats loco now : ℕ)
    (force : Bool)
    → Shows st highs lows
    → IsPacket packet n
    → let st' = schedule_estop_packet st packet n repeats loco in
      ((schedule_next st' force now).1 ≡ true)
      × ((schedule_next st' force now).0.sent
          ≡ record { bytes = packet; repeats = repeats } ∷ st'.sent)
unfolding add_sent is_some
schedule_next-schedule_estop_packet st highs lows packet n repeats loco now force sh ok =
    let st' = schedule_estop_packet st packet n repeats loco in
    let es = keep (λ e. not (stops loco e)) highs in
    let (t, b) =
      schedule_next-Turned st' (fresh speed_packet packet repeats 0 ∷ es) lows force now
        (schedule_estop_packet-Shows st highs lows packet n repeats loco sh ok) in
    let first = first_turn now st'.last_sent force packet repeats es lows in
    (b ∙ ap is_some first, t.sent_now ∙ ap (λ o. add_sent o st'.sent) first)

-- A change that passes the test again hides the one before.
change_or_add_again :
    (test : Entry → Bool) (f g : Entry → Entry) (new new' : Entry)
    → ((e : Entry) → test (f e) ≡ test e)
    → ((e : Entry) → g (f e) ≡ g e)
    → test new ≡ true
    → g new ≡ new'
    → (es : List Entry)
    → change_or_add test g new' (change_or_add test f new es) ≡ change_or_add test g new' es
unfolding change_or_add
change_or_add_again test f g new new' keeps hides hits gives [] =
    rw (hits, gives, change_or_add) refl
change_or_add_again test f g new new' keeps hides hits gives (e ∷ es) = elim (Bool-cases (test e)) [
  | inl hit ↦ rw (hit, keeps e ∙ hit, hides e, change_or_add) refl
  | inr miss ↦
      rw (miss, change_or_add)
        (rw miss
          (ap (λ xs. e ∷ xs) (change_or_add_again test f g new new' keeps hides hits gives es)))
]

-- Of two speed packets for a loco, nothing sent between them, only the second is left: the queues
-- show the same as if the first had never been.
pub schedule_dcc_speed_packet_again :
    (st : Queues) (highs lows : List Entry) (packet packet' : List ℕ)
    (n n' repeats repeats' loco : ℕ)
    → Shows st highs lows
    → IsPacket packet n
    → IsPacket packet' n'
    → loco < 65536
    → Shows
        (schedule_dcc_speed_packet
          (schedule_dcc_speed_packet st packet n repeats loco)
          packet'
          n'
          repeats'
          loco)
        (change_or_add
          (λ e. e.shared % 65536 == loco)
          (replaced packet' repeats')
          (fresh speed_packet packet' repeats' loco)
          highs)
        lows
unfolding fresh replaced
schedule_dcc_speed_packet_again st highs lows packet packet' n n' repeats repeats' loco sh ok ok'
      fits =
    subst (λ es. Shows (schedule_dcc_speed_packet st1 packet' n' repeats' loco) es lows)
      (change_or_add_again goal (replaced packet repeats) (replaced packet' repeats')
        (fresh speed_packet packet repeats loco) (fresh speed_packet packet' repeats' loco)
        (λ e. refl) (λ e. refl) ((==_iff (loco % 65536 % 65536) loco).1 (omega (arith, fits))) refl
        highs)
      (schedule_dcc_speed_packet-Shows st1
        (change_or_add goal (replaced packet repeats) (fresh speed_packet packet repeats loco)
          highs)
        lows packet' n' repeats' loco
        (schedule_dcc_speed_packet-Shows st highs lows packet n repeats loco sh ok) ok')
  where
    goal : Entry → Bool
    goal e = e.shared % 65536 == loco

    st1 : Queues
    st1 = schedule_dcc_speed_packet st packet n repeats loco
