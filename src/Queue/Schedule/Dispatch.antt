-- ===== src/Queue/Schedule/Dispatch.antt =====
-- A slot that goes out of one of the queues: `dispatch` and `retire`.
use command_station_ex.Base.{
  ℕ, ◌+◌, ◌≤◌, ◌<◌, ◌≡◌, ◌≢◌, refl, sym, ap, ap₂, subst, ◌∙◌, Bool, Option, none, some, List, [],
  ◌∷◌, arith, Bool-cases, inl, inr,
}
use command_station_ex.Chain.{count, count_self, without, ne_of_count}
use command_station_ex.Chain.Loops.{first}
use command_station_ex.Queue.{
  Sent, Queues, set_slot, acc_on_packet, is_type, remove_high, remove_low, jump_high, recycle_slot,
}
use command_station_ex.Queue.Spec.{
  Entry, entry, change_first, used, turned_off, after, sent_repeats, Turn, turn,
}
use command_station_ex.Queue.Schedule.{retire, send, dispatch}
use command_station_ex.Queue.Schedule.Rep.{
  Rep, small, jump_high-Rep, recycle_slot-Rep, remove_high-Rep, remove_low-Rep,
}
use command_station_ex.Queue.Schedule.Refine.{Shows, entries, entries_same}
use command_station_ex.Queue.Schedule.Replace.{Rep-slot}
use command_station_ex.Queue.Schedule.Turns.{
  pick_hits, first_out, first_changed, off_slot, off_slot-entry, again, dispatch-cases,
}

unfoldable pub add_sent : Option Sent → List Sent → List Sent
add_sent none old = old
add_sent (some s) old = s ∷ old

-- The store `st'` shows the turn `t`, after what had been sent.
pub record Turned (st' : Queues) (t : Turn) (old : List Sent) : Type 0 where
  pub shows : Shows st' t.highs t.lows
  pub sent_now : st'.sent ≡ add_sent t.sent old
  pub last_now : st'.last_sent ≡ t.last

-- A slot in hand is used again, or waits at the front of the high queue to be turned off.
retire-Shows :
    (st : Queues) (hs ls rs : List ℕ) (p now : ℕ)
    → Rep st hs ls rs (p ∷ [])
    → Shows
        (retire st p now)
        (after now (entry (st.slot p)) (entries st.slot hs))
        (entries st.slot ls)
      × ((retire st p now).sent ≡ st.sent)
      × ((retire st p now).last_sent ≡ st.last_sent)
unfolding retire after recycle_slot jump_high
retire-Shows st hs ls rs p now r = elim (Bool-cases (is_type (st.slot p).type acc_on_packet)) [
  | inl on ↦
      let slot' = set_slot st.slot p (off_slot now (st.slot p)) in
      let st1 : Queues = record st { slot = slot' } in
      let shown : Shows (jump_high st1 p) (turned_off now (entry (st.slot p)) ∷ entries st.slot hs)
          (entries st.slot ls) =
        record {
          hs = p ∷ hs;
          ls = ls;
          rs = rs;
          rep = jump_high-Rep st1 hs ls rs p (Rep-slot st slot' hs ls rs (p ∷ []) r);
          high_entries =
              ap₂ ◌∷◌ (ap entry written ∙ off_slot-entry now (st.slot p))
                (unseen hs (λ a. omega (arith, one a)));
          low_entries = unseen ls (λ a. omega (arith, one a));
        } in
      rw (on, retire, after) (shown, refl, refl)
  | inr off ↦
      let shown : Shows (recycle_slot st p) (entries st.slot hs) (entries st.slot ls) = record {
        hs = hs;
        ls = ls;
        rs = p ∷ rs;
        rep = recycle_slot-Rep st hs ls rs p r;
        high_entries = refl;
        low_entries = refl;
      } in
      rw (off, retire, after) (shown, refl, refl)
]
  where
    one : (a : ℕ) → count a hs + count a ls + count a rs + count a (p ∷ []) ≤ 1
    one = small st hs ls rs (p ∷ []) r

    written : set_slot st.slot p (off_slot now (st.slot p)) p ≡ off_slot now (st.slot p)
    written = ground arith

    kept : (a : ℕ) → a ≢ p → set_slot st.slot p (off_slot now (st.slot p)) a ≡ st.slot a
    kept a ne = ground (arith, ne)

    unseen :
        (xs : List ℕ)
        → ((a : ℕ) → count a xs + count a (p ∷ []) ≤ 1)
        → entries (set_slot st.slot p (off_slot now (st.slot p))) xs ≡ entries st.slot xs
    unseen xs apart =
        entries_same st.slot _ xs
          λ a i. kept a (ne_of_count a p xs i (omega (arith, apart p, count_self p [])))

send-Rep :
    (st : Queues) (p repeats : ℕ) (hs ls rs hand : List ℕ)
    → Rep st hs ls rs hand
    → Rep (send st p repeats) hs ls rs hand
unfolding send
send-Rep st p repeats hs ls rs hand r = record {
  high = r.high;
  low = r.low;
  recycled = r.recycled;
  once = r.once;
  total = r.total;
}

module _ (st : Queues) (hs ls rs : List ℕ) (now p : ℕ) (ready : Entry → Bool)
    (r : Rep st hs ls rs []) where
  one_each : (a : ℕ) → count a hs + count a ls ≤ 1
  one_each a = omega (arith, small st hs ls rs [] r a)

  abbrev e : Entry
  e = entry (st.slot p)

  -- The store with one repeat less of `p`.
  abbrev less : Queues
  less = record (send st p 0) { slot = set_slot st.slot p (again (st.slot p)) }

  less-Rep : Rep less hs ls rs []
  less-Rep =
      Rep-slot (send st p 0) (set_slot st.slot p (again (st.slot p))) hs ls rs []
        (send-Rep st p 0 hs ls rs [] r)

  unchanged :
      (xs : List ℕ)
      → count p xs ≡ 0
      → entries (set_slot st.slot p (again (st.slot p))) xs ≡ entries st.slot xs
  unchanged xs outside = entries_same st.slot _ xs λ a i. kept a (ne_of_count a p xs i outside)
    where
      kept : (a : ℕ) → a ≢ p → set_slot st.slot p (again (st.slot p)) a ≡ st.slot a
      kept a ne = ground (arith, ne)

  pub dispatch_high :
      first (λ a. ready (entry (st.slot a))) hs ≡ some p
      → Turned
          (dispatch remove_high st now p)
          (turn now e (change_first ready used (entries st.slot hs)) (entries st.slot ls))
          st.sent
  unfolding turn send remove_high add_sent
  dispatch_high found = elim (dispatch-cases remove_high st now p) [
    | inl (u, runs) ↦
        let st1 = remove_high (send st p (sent_repeats e)) p in
        let (shown, sent_now, last_now) = retire-Shows st1 (without p hs) ls rs p now (
          remove_high-Rep (send st p (sent_repeats e)) hs ls rs p
            (send-Rep st p (sent_repeats e) hs ls rs [] r) i) in
        rw (u, runs, turn)
          (record {
            shows =
                subst (λ es. Shows (retire st1 p now) (after now e es) (entries st.slot ls))
                  (sym (first_out st.slot ready used hs p found u)) shown;
            sent_now = sent_now;
            last_now = last_now;
          })
    | inr (u, none_more, runs) ↦
        rw (u, runs, none_more, turn)
          (record {
            shows = record {
              hs = hs;
              ls = ls;
              rs = rs;
              rep = less-Rep;
              high_entries = sym (
                  first_changed st.slot ready used hs p (again (st.slot p))
                    (λ a. omega (arith, one_each a)) found u);
              low_entries = unchanged ls (omega (arith, one_each p, i));
            };
            sent_now = refl;
            last_now = refl;
          })
  ]
    where
      i : 0 < count p hs
      i = (pick_hits st.slot ready used hs p found).0

  pub dispatch_low :
      first (λ a. ready (entry (st.slot a))) ls ≡ some p
      → Turned
          (dispatch remove_low st now p)
          (turn now e (entries st.slot hs) (change_first ready used (entries st.slot ls)))
          st.sent
  unfolding turn send remove_low add_sent
  dispatch_low found = elim (dispatch-cases remove_low st now p) [
    | inl (u, runs) ↦
        let st1 = remove_low (send st p (sent_repeats e)) p in
        let (shown, sent_now, last_now) = retire-Shows st1 hs (without p ls) rs p now (
          remove_low-Rep (send st p (sent_repeats e)) hs ls rs p
            (send-Rep st p (sent_repeats e) hs ls rs [] r) i) in
        rw (u, runs, turn)
          (record {
            shows =
                subst (λ es. Shows (retire st1 p now) (after now e (entries st.slot hs)) es)
                  (sym (first_out st.slot ready used ls p found u)) shown;
            sent_now = sent_now;
            last_now = last_now;
          })
    | inr (u, none_more, runs) ↦
        rw (u, runs, none_more, turn)
          (record {
            shows = record {
              hs = hs;
              ls = ls;
              rs = rs;
              rep = less-Rep;
              high_entries = unchanged hs (omega (arith, one_each p, i));
              low_entries = sym (
                  first_changed st.slot ready used ls p (again (st.slot p))
                    (λ a. omega (arith, one_each a)) found u);
            };
            sent_now = refl;
            last_now = refl;
          })
  ]
    where
      i : 0 < count p ls
      i = (pick_hits st.slot ready used ls p found).0
