-- ===== src/Queue/Schedule/Next.antt =====
-- What `scheduleNext` sends, and what waits afterwards.
use command_station_ex.Base.{
  ℕ, ◌≡◌, refl, sym, ap, subst, ◌∙◌, Bool, true, false, not, Option, none, some, List, arith,
  Bool-cases, Option-cases, inl, inr,
}
use command_station_ex.Chain.Loops.{find_slot, first, find_slot-first}
use command_station_ex.Queue.{Sent, Queues, remove_high, remove_low}
use command_station_ex.Queue.Spec.{
  Entry, entry, change_first, pick, is_ready, used, Turn, turn, next_turn,
}
use command_station_ex.Queue.Schedule.{is_skipped, schedule_next_internal, schedule_next, dispatch}
use command_station_ex.Queue.Schedule.Refine.{Shows, entries}
use command_station_ex.Queue.Schedule.Turns.{pick_misses, pick_hits}
use command_station_ex.Queue.Schedule.Dispatch.{Turned, add_sent, dispatch_high, dispatch_low}

unfoldable pub is_some : Option Sent → Bool
is_some none = false
is_some (some s) = true

module _ (st : Queues) (highs lows : List Entry) (force : Bool) (now : ℕ)
    (sh : Shows st highs lows) where
  ready : Entry → Bool
  ready = is_ready now st.last_sent

  test : ℕ → Bool
  test a = ready (entry (st.slot a))

  high_loop :
      find_slot st.created st.next (λ a. not (is_skipped now st.last_sent (st.slot a))) st.high.head
      ≡ first test sh.hs
  unfolding test ready is_ready is_skipped
  high_loop =
      find_slot-first st.created st.next test st.high.head sh.hs sh.rep.high.chain
        (omega (arith, sh.rep.total))

  low_loop :
      find_slot st.created st.next (λ a. not (is_skipped now st.last_sent (st.slot a))) st.low.head
      ≡ first test sh.ls
  unfolding test ready is_ready is_skipped
  low_loop =
      find_slot-first st.created st.next test st.low.head sh.ls sh.rep.low.chain
        (omega (arith, sh.rep.total))

  -- The outcome of a call, and the turn that the lists of entries take.
  Outcome : Queues × Bool → Turn → Type 0
  Outcome res t = Turned res.0 t st.sent × (res.1 ≡ is_some t.sent)

  from_high :
      (p : ℕ)
      → first test sh.hs ≡ some p
      → Outcome (schedule_next st force now) (next_turn now st.last_sent force highs lows)
  unfolding schedule_next schedule_next_internal next_turn Outcome is_some turn ready test
  from_high p e =
      let picked : pick ready highs ≡ some (entry (st.slot p)) =
        ap (pick ready) (sym sh.high_entries) ∙ (pick_hits st.slot ready used sh.hs p e).2 in
      let t =
        subst
          (λ es.
            Turned (dispatch remove_high st now p)
              (turn now (entry (st.slot p)) (change_first ready used es) lows) st.sent)
          sh.high_entries
          (subst
            (λ es.
              Turned (dispatch remove_high st now p)
                (turn now (entry (st.slot p)) (change_first ready used (entries st.slot sh.hs)) es)
                st.sent)
            sh.low_entries (dispatch_high st sh.hs sh.ls sh.rs now p ready sh.rep e)) in
      rw (high_loop ∙ e, picked, schedule_next, schedule_next_internal, next_turn) (t, refl)

  no_high : first test sh.hs ≡ none → pick ready highs ≡ none
  unfolding ready test
  no_high e = ap (pick ready) (sym sh.high_entries) ∙ pick_misses st.slot ready used sh.hs e

  high_missing :
      first test sh.hs ≡ none → schedule_next_internal remove_high st st.high.head now ≡ (st, false)
  unfolding schedule_next_internal test ready
  high_missing e = rw (high_loop ∙ e, schedule_next_internal) refl

  low_missing :
      first test sh.ls ≡ none → schedule_next_internal remove_low st st.low.head now ≡ (st, false)
  unfolding schedule_next_internal test ready
  low_missing e = rw (low_loop ∙ e, schedule_next_internal) refl

  low_goes :
      (p : ℕ)
      → first test sh.ls ≡ some p
      → schedule_next_internal remove_low st st.low.head now ≡ (dispatch remove_low st now p, true)
  unfolding schedule_next_internal test ready
  low_goes p e = rw (low_loop ∙ e, schedule_next_internal) refl

  from_low :
      (p : ℕ)
      → first test sh.hs ≡ none
      → first test sh.ls ≡ some p
      → Outcome (schedule_next st force now) (next_turn now st.last_sent force highs lows)
  unfolding schedule_next next_turn Outcome is_some turn ready test
  from_low p e0 e =
      let picked : pick ready lows ≡ some (entry (st.slot p)) =
        ap (pick ready) (sym sh.low_entries) ∙ (pick_hits st.slot ready used sh.ls p e).2 in
      let t =
        subst
          (λ es.
            Turned (dispatch remove_low st now p)
              (turn now (entry (st.slot p)) highs (change_first ready used es)) st.sent)
          sh.low_entries
          (subst
            (λ es.
              Turned (dispatch remove_low st now p)
                (turn now (entry (st.slot p)) es (change_first ready used (entries st.slot sh.ls)))
                st.sent)
            sh.high_entries (dispatch_low st sh.hs sh.ls sh.rs now p ready sh.rep e)) in
      rw (no_high e0, picked, next_turn)
        (rw (high_missing e0, schedule_next) (rw (low_goes p e) (t, refl)))

  from_none :
      first test sh.hs ≡ none
      → first test sh.ls ≡ none
      → Outcome (schedule_next st force now) (next_turn now st.last_sent force highs lows)
  unfolding schedule_next next_turn Outcome is_some ready test add_sent
  from_none e0 e =
      let nothing : pick ready lows ≡ none =
        ap (pick ready) (sym sh.low_entries) ∙ pick_misses st.slot ready used sh.ls e in
      let rep' : (old : List Sent)
          → (l : ℕ) → Shows (record st { sent = old; last_sent = l }) highs lows =
        λ old l. record {
          hs = sh.hs;
          ls = sh.ls;
          rs = sh.rs;
          rep = record {
            high = sh.rep.high;
            low = sh.rep.low;
            recycled = sh.rep.recycled;
            once = sh.rep.once;
            total = sh.rep.total;
          };
          high_entries = sh.high_entries;
          low_entries = sh.low_entries;
        } in
      elim (Bool-cases force) [
        | inl idle ↦
            rw (no_high e0, nothing, idle, next_turn)
              (rw (high_missing e0, schedule_next)
                (rw (low_missing e)
                  (record { shows = rep' _ _; sent_now = refl; last_now = refl }, refl)))
        | inr quiet ↦
            rw (no_high e0, nothing, quiet, next_turn)
              (rw (high_missing e0, schedule_next)
                (rw (low_missing e)
                  (record { shows = sh; sent_now = refl; last_now = refl }, refl)))
      ]

-- A call sends what the turn of the lists says: the first entry of the high queue that is ready, or
-- else of the low queue, or else an idle packet if it is forced. The store then shows the lists
-- after that turn, and the result tells whether anything was sent.
pub schedule_next-Turned :
    (st : Queues) (highs lows : List Entry) (force : Bool) (now : ℕ)
    → Shows st highs lows
    → Turned (schedule_next st force now).0 (next_turn now st.last_sent force highs lows) st.sent
      × ((schedule_next st force now).1
          ≡ is_some (next_turn now st.last_sent force highs lows).sent)
unfolding Outcome
schedule_next-Turned st highs lows force now sh =
    elim (Option-cases (first (test st highs lows force now sh) sh.hs)) [
      | inr (p, e) ↦ from_high st highs lows force now sh p e
      | inl e0 ↦ elim (Option-cases (first (test st highs lows force now sh) sh.ls)) [
        | inr (p, e) ↦ from_low st highs lows force now sh p e0 e
        | inl e ↦ from_none st highs lows force now sh e0 e
      ]
    ]
