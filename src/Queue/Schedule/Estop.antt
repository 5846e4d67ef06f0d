-- ===== src/Queue/Schedule/Estop.antt =====
-- What `scheduleEstopPacket` does to the lists of entries.
use command_station_ex.Base.{
  ℕ, zero, suc, ◌%◌, ◌≤◌, ◌<◌, ◌≡◌, refl, sym, ap, subst, ◌∙◌, Bool, not, ◌&&◌, ◌||◌, Option, none,
  some, List, [], ◌∷◌, ◌++◌, arith, length, ◌==◌, if◌then◌else◌, Bool-cases, inl, inr,
}
use command_station_ex.Chain.{Links, Chain, count, count-append, count_self, without}
use command_station_ex.Queue.{
  Slot, Queues, get_slot, jump_high, recycle_slot, remove_high, speed_packet, acc_off_packet,
}
use command_station_ex.Queue.Spec.{Entry, entry, keep}
use command_station_ex.Queue.Schedule.{schedule_estop_packet, discard_stopped, is_stopped}
use command_station_ex.Queue.{is_type}
use command_station_ex.Queue.Schedule.Rep.{Rep, small, recycle_slot-Rep, remove_high-Rep}
use command_station_ex.Queue.Schedule.Take.{get_slot-Took}
use command_station_ex.Queue.Schedule.Refine.{
  Shows, entries, IsPacket, fresh, entry-made, jump_front,
}

-- What an emergency stop of `loco`, 0 for all, takes out of the high queue.
pub stops : ℕ → Entry → Bool
stops loco e = not (is_type e.type acc_off_packet) && ((loco == 0) || (e.shared % 65536 == loco))

start : List ℕ → Option ℕ
start [] = none
start (x ∷ xs) = some x

Chain-start : (next : Links) (o : Option ℕ) (xs : List ℕ) → Chain next o xs → o ≡ start xs
unfolding start
Chain-start next o [] c = c
Chain-start next o (x ∷ xs) c = c.0

Chain-end :
    (next : Links) (o : Option ℕ) (xs ys : List ℕ)
    → Chain next o (xs ++ ys)
    → Chain next (start ys) ys
Chain-end next o [] ys c = subst (λ q. Chain next q ys) (Chain-start next o ys c) c
Chain-end next o (x ∷ xs) ys c = Chain-end next (next x) xs ys c.1

without-append : (p : ℕ) (xs ys : List ℕ) → count p xs ≡ 0 → without p (xs ++ p ∷ ys) ≡ xs ++ ys
without-append p [] ys h = ground arith
without-append p (x ∷ xs) ys h = ground (arith, h, without-append p xs ys)

append_step : (xs : List ℕ) (p : ℕ) (ys : List ℕ) → xs ++ p ∷ ys ≡ (xs ++ p ∷ []) ++ ys
append_step [] p ys = refl
append_step (x ∷ xs) p ys = ap (◌∷◌ x) (append_step xs p ys)

-- The slots that the loop leaves.
left : ℕ → (ℕ → Slot) → List ℕ → List ℕ
left loco slot [] = []
left loco slot (p ∷ ps) =
    if is_stopped loco (slot p) then left loco slot ps else p ∷ left loco slot ps

left-keep :
    (loco : ℕ) (slot : ℕ → Slot) (xs : List ℕ)
    → entries slot (left loco slot xs) ≡ keep (λ e. not (stops loco e)) (entries slot xs)
unfolding left keep stops is_stopped
left-keep loco slot [] = refl
left-keep loco slot (x ∷ xs) = elim (Bool-cases (is_stopped loco (slot x))) [
  | inl hit ↦ rw (hit, left, keep) (left-keep loco slot xs)
  | inr miss ↦ rw (miss, left, keep) (ap (◌∷◌ (entry (slot x))) (left-keep loco slot xs))
]

-- A store in which the loop has left `kept`.
record Left (st st' : Queues) (kept ls : List ℕ) : Type 0 where
  rs : List ℕ
  rep : Rep st' kept ls rs []
  slots : st'.slot ≡ st.slot

discard-Left :
    (fuel loco : ℕ) (st : Queues) (kept zs ls rs : List ℕ)
    → length zs ≤ fuel
    → Rep st (kept ++ zs) ls rs []
    → Left st (discard_stopped fuel loco st (start zs)) (kept ++ left loco st.slot zs) ls
unfolding discard_stopped start left remove_high recycle_slot
discard-Left zero loco st kept [] ls rs h r = record { rs = rs; rep = r; slots = refl }
discard-Left (suc fuel) loco st kept [] ls rs h r = record { rs = rs; rep = r; slots = refl }
discard-Left zero loco st kept (z ∷ zs) ls rs h r = absurd (omega arith)
discard-Left (suc fuel) loco st kept (z ∷ zs) ls rs h r =
    elim (Bool-cases (is_stopped loco (st.slot z))) [
      | inl hit ↦
          let st' = recycle_slot (remove_high st z) z in
          let rep' : Rep st' (kept ++ zs) ls (z ∷ rs) [] =
            subst (λ xs. Rep st' xs ls (z ∷ rs) []) (without-append z kept zs outside)
              (recycle_slot-Rep (remove_high st z) (without z (kept ++ z ∷ zs)) ls rs z
                (remove_high-Rep st (kept ++ z ∷ zs) ls rs z r inside)) in
          let ih = discard-Left fuel loco st' kept zs ls (z ∷ rs) (omega (arith, h)) rep' in
          rw (hit, goes_on, discard_stopped, left)
            (record { rs = ih.rs; rep = ih.rep; slots = ih.slots })
      | inr miss ↦
          let ih =
            discard-Left fuel loco st (kept ++ z ∷ []) zs ls rs (omega (arith, h))
              (subst (λ xs. Rep st xs ls rs []) (append_step kept z zs) r) in
          rw (miss, goes_on, discard_stopped, left)
            (subst (λ xs. Left st (discard_stopped fuel loco st (start zs)) xs ls)
              (sym (append_step kept z (left loco st.slot zs))) ih)
    ]
  where
    goes_on : st.next z ≡ start zs
    goes_on =
        Chain-start st.next (st.next z) zs
          (Chain-end st.next st.high.head kept (z ∷ zs) r.high.chain).1

    inside : 0 < count z (kept ++ z ∷ zs)
    inside = omega (arith, count-append z kept (z ∷ zs), count_self z zs)

    outside : count z kept ≡ 0
    outside = omega (
      arith,
      small st (kept ++ z ∷ zs) ls rs [] r z,
      count-append z kept (z ∷ zs),
      count_self z zs,
    )

-- An emergency stop takes out of the high queue all that waits for its loco, or for all locos, but
-- accessory packets to be turned off, and puts its packet at the front. The low queue stays.
pub schedule_estop_packet-Shows :
    (st : Queues) (highs lows : List Entry) (packet : List ℕ) (n repeats loco : ℕ)
    → Shows st highs lows
    → IsPacket packet n
    → Shows
        (schedule_estop_packet st packet n repeats loco)
        (fresh speed_packet packet repeats 0 ∷ keep (λ e. not (stops loco e)) highs)
        lows
unfolding schedule_estop_packet
schedule_estop_packet-Shows st highs lows packet n repeats loco sh ok =
    let st1 = discard_stopped st.created loco st st.high.head in
    let l : Left st st1 (left loco st.slot sh.hs) sh.ls =
      subst (λ o. Left st (discard_stopped st.created loco st o) (left loco st.slot sh.hs) sh.ls)
        (sym (Chain-start st.next st.high.head sh.hs sh.rep.high.chain))
        (discard-Left st.created loco st [] sh.hs sh.ls sh.rs (omega (arith, sh.rep.total))
          sh.rep) in
    let res = get_slot st1 speed_packet packet n repeats 0 in
    subst (λ e. Shows (jump_high res.0 res.1) (e ∷ keep (λ x. not (stops loco x)) highs) lows)
      (entry-made speed_packet packet n repeats 0 (st1.slot res.1).packet ok)
      (jump_front st1 (left loco st.slot sh.hs) sh.ls _ res
        (get_slot-Took st1 (left loco st.slot sh.hs) sh.ls speed_packet packet n repeats 0 l.rs
          l.rep)
        (keep (λ x. not (stops loco x)) highs) lows
        (ap (λ s. entries s (left loco st.slot sh.hs)) l.slots
          ∙ left-keep loco st.slot sh.hs
          ∙ ap (keep (λ x. not (stops loco x))) sh.high_entries)
        (ap (λ s. entries s sh.ls) l.slots ∙ sh.low_entries))
