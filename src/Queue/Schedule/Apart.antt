-- ===== src/Queue/Schedule/Apart.antt =====
-- Two packets in a row: for whom they are.
use command_station_ex.Base.{
  ℕ, ◌%◌, ◌≡◌, ◌≢◌, refl, sym, ap, subst, ◌∙◌, Bool, true, false, some, List, [], ◌∷◌, ◌++◌,
  append_assoc, ◌==◌, ==_iff, Bool-cases, Option-cases, inl, inr, ◌⊎◌, arith,
}
use command_station_ex.Queue.{Queues, Sent}
use command_station_ex.Queue.Spec.{Entry, pick, is_ready, sent_repeats, turn, next_turn}
use command_station_ex.Queue.Schedule.{schedule_next}
use command_station_ex.Queue.Schedule.Refine.{Shows}
use command_station_ex.Queue.Schedule.Dispatch.{add_sent}
use command_station_ex.Queue.Schedule.Next.{schedule_next-Turned, is_some}

-- One packet more was sent: that of an entry that waited, for the loco in the low half of its word, or
-- the idle packet, which is for none.
pub data Sends (waiting : List Entry) (old : List Sent) : List Sent → ℕ → Type 0 where
  entry_sent :
      (e : Entry) (before behind : List Entry) (repeats : ℕ)
      → waiting ≡ before ++ e ∷ behind
      → Sends waiting old (record { bytes = e.bytes; repeats = repeats } ∷ old) (e.shared % 65536)
  idle_sent : Sends waiting old (record { bytes = 0xFF ∷ 0 ∷ []; repeats = 0 } ∷ old) 0

is_ready-apart :
    (now last : ℕ) (e : Entry)
    → is_ready now last e ≡ true
    → (e.shared % 65536 ≡ 0) ⊎ (e.shared % 65536 ≢ last)
unfolding is_ready
is_ready-apart now last e h = elim (Bool-cases (e.shared % 65536 == 0)) [
  | inl z ↦ inl ((==_iff (e.shared % 65536) 0).0 z)
  | inr nz ↦ inr (λ q. ground (arith, h, nz, (==_iff (e.shared % 65536) last).1 q))
]

-- A picked entry waits, and passes the test.
record Picked (f : Entry → Bool) (es : List Entry) (e : Entry) : Type 0 where
  pub passes : f e ≡ true
  pub before : List Entry
  pub behind : List Entry
  pub waits : es ≡ before ++ e ∷ behind

pick-Picked : (f : Entry → Bool) (es : List Entry) (e : Entry) → pick f es ≡ some e → Picked f es e
unfolding pick
pick-Picked f [] e h = cc
pick-Picked f (x ∷ es) e h = elim (Bool-cases (f x)) [
  | inl hit ↦
      let same : x ≡ e = ground (arith, h, hit) in
      record {
        passes = ap f (sym same) ∙ hit;
        before = [];
        behind = es;
        waits = ap (λ y. y ∷ es) same;
      }
  | inr miss ↦
      let p = pick-Picked f es e (ground (arith, h, miss)) in
      record {
        passes = p.passes;
        before = x ∷ p.before;
        behind = p.behind;
        waits = ap (λ ys. x ∷ ys) p.waits;
      }
]

-- A turn that sends something.
next_turn-Sends :
    (now last : ℕ) (force : Bool) (highs lows : List Entry) (old : List Sent)
    → is_some (next_turn now last force highs lows).sent ≡ true
    → let t = next_turn now last force highs lows in
      Sends (highs ++ lows) old (add_sent t.sent old) t.last × ((t.last ≡ 0) ⊎ (t.last ≢ last))
unfolding next_turn turn is_some add_sent
next_turn-Sends now last force highs lows old b =
    elim (Option-cases (pick (is_ready now last) highs)) [
      | inr (e, h) ↦
          let p = pick-Picked (is_ready now last) highs e h in
          rw (h, next_turn)
            (
              entry_sent e p.before (p.behind ++ lows) (sent_repeats e)
                  (ap (λ xs. xs ++ lows) p.waits ∙ append_assoc p.before (e ∷ p.behind) lows),
              is_ready-apart now last e p.passes,
            )
      | inl h ↦ elim (Option-cases (pick (is_ready now last) lows)) [
        | inr (e, l) ↦
            let p = pick-Picked (is_ready now last) lows e l in
            rw (h, l, next_turn)
              (
                entry_sent e (highs ++ p.before) p.behind (sent_repeats e) (
                    ap (λ xs. highs ++ xs) p.waits
                    ∙ sym (append_assoc highs p.before (e ∷ p.behind))),
                is_ready-apart now last e p.passes,
              )
        | inl l ↦ elim (Bool-cases force) [
          | inl idle ↦ rw (h, l, idle, next_turn) (idle_sent, inl refl)
          | inr quiet ↦
              let no_turn : is_some (next_turn now last force highs lows).sent ≡ false =
                rw (h, l, quiet, next_turn) refl in
              cc
        ]
      ]
    ]

-- Two calls that both send, one after the other: each sends a packet that waits then, or an idle
-- packet, and the second is for no loco, or for another one than the first. A packet is for the loco in
-- the low half of its entry's word, where an emergency stop has 0.
pub schedule_next_apart :
    (st : Queues) (highs lows : List Entry) (force force' : Bool) (now now' : ℕ)
    → Shows st highs lows
    → (schedule_next st force now).1 ≡ true
    → (schedule_next (schedule_next st force now).0 force' now').1 ≡ true
    → let st1 = (schedule_next st force now).0 in
      let st2 = (schedule_next st1 force' now').0 in
      (loco loco' : ℕ) × (highs' lows' : List Entry) × Sends (highs ++ lows) st.sent st1.sent loco
      × Shows st1 highs' lows'
      × Sends (highs' ++ lows') st1.sent st2.sent loco'
      × ((loco' ≡ 0) ⊎ (loco' ≢ loco))
schedule_next_apart st highs lows force force' now now' sh b b' =
    let st1 = (schedule_next st force now).0 in
    let t = next_turn now st.last_sent force highs lows in
    let (turned, told) = schedule_next-Turned st highs lows force now sh in
    let (sends, _) = next_turn-Sends now st.last_sent force highs lows st.sent (sym told ∙ b) in
    let t' = next_turn now' st1.last_sent force' t.highs t.lows in
    let (turned', told') = schedule_next-Turned st1 t.highs t.lows force' now' turned.shows in
    let (sends', apart) =
      next_turn-Sends now' st1.last_sent force' t.highs t.lows st1.sent (sym told' ∙ b') in
    (
      t.last,
      t'.last,
      t.highs,
      t.lows,
      subst (λ sent. Sends (highs ++ lows) st.sent sent t.last) (sym turned.sent_now) sends,
      turned.shows,
      subst (λ sent. Sends (t.highs ++ t.lows) st1.sent sent t'.last) (sym turned'.sent_now) sends',
      subst (λ l. (t'.last ≡ 0) ⊎ (t'.last ≢ l)) turned.last_now apart,
    )
