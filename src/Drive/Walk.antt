-- ===== src/Drive/Walk.antt =====
-- One call of the reminders on its way along the chain of slots.
use command_station_ex.Base.{
  ℕ, zero, suc, ◌≡◌, ◌<◌, refl, ap, sym, subst, Bool, true, false, Option, none, some, List, [],
  ◌∷◌, length, arith,
}
use command_station_ex.Chain.{Links, Chain}
use command_station_ex.Drive.{Station}
use command_station_ex.Drive.Reminders.{issue_reminder, remind_from}
use command_station_ex.Drive.Kept.{Kept, Kept-trans, issue_reminder-Kept}

module _ (highest_short : ℕ) where
  -- Reminders to the slots of a list, each at its time; between them only the place to go on changes.
  pub data Pass : List ℕ → Station → Station → Type 0 where
    over : (st : Station) → Pass [] st (record st { next_loco_reminder = none })
    silent :
        (now p : ℕ) (xs : List ℕ) (st st1 st' : Station)
        → issue_reminder highest_short now p st ≡ (st1, false)
        → Pass xs st1 st'
        → Pass (p ∷ xs) st st'
    reminded :
        (now p : ℕ) (xs : List ℕ) (st st1 st' : Station)
        → issue_reminder highest_short now p st ≡ (st1, true)
        → Pass xs (record st1 { next_loco_reminder = st1.locos.next p }) st'
        → Pass (p ∷ xs) st st'

  -- One call sends at most one reminder and leaves the rest of the chain to the next.
  pub record Left (xs : List ℕ) (st r : Station) : Type 0 where
    pub rest : List ℕ
    pub shorter : length rest < length xs
    pub chain : Chain r.locos.next r.next_loco_reminder rest
    pub same : Kept st r
    pub before : (st' : Station) → Pass rest r st' → Pass xs st st'
    pub through : rest ≡ [] → Pass xs st r

  -- A call that sends a reminder.
  sent-Left :
      (now p : ℕ) (xs : List ℕ) (st st1 : Station)
      → issue_reminder highest_short now p st ≡ (st1, true)
      → Kept st st1
      → Chain st.locos.next (st.locos.next p) xs
      → Left (p ∷ xs) st (record st1 { next_loco_reminder = st1.locos.next p })
  sent-Left now p xs st st1 e k c =
      let r : Station = record st1 { next_loco_reminder = st1.locos.next p } in
      let chain : Chain st1.locos.next (st1.locos.next p) xs =
        subst (λ (l : Links). Chain l (l p) xs) (sym k.next) c in
      record {
        rest = xs;
        shorter = omega arith;
        chain = chain;
        same = record { next = k.next; modified = k.modified; created = k.created };
        before = λ st' b. reminded now p xs st st1 st' e b;
        through = λ nothing.
            let last : st1.locos.next p ≡ none =
              subst (Chain st1.locos.next (st1.locos.next p)) nothing chain in
            subst (λ x. Pass (p ∷ x) st r) (sym nothing)
              (reminded now p [] st st1 r e (
                subst (Pass [] r)
                  (ap (λ (o : Option ℕ). let x : Station = record r { next_loco_reminder = o } in x)
                    (sym last))
                  (over r)));
      }

  -- A call that sends nothing at the last slot.
  ended-Left :
      (fuel now p : ℕ) (st st1 : Station)
      → issue_reminder highest_short now p st ≡ (st1, false)
      → Kept st st1
      → Left (p ∷ []) st (remind_from highest_short fuel now none st1)
  unfolding remind_from
  ended-Left fuel now p st st1 e k = by_fuel fuel
    where
      r : Station
      r = record st1 { next_loco_reminder = none }

      left : Left (p ∷ []) st r
      left = record {
        rest = [];
        shorter = omega arith;
        chain = refl;
        same = record { next = k.next; modified = k.modified; created = k.created };
        before = λ st' b. silent now p [] st st1 st' e (ends_here st' b);
        through = λ nothing. silent now p [] st st1 r e (over st1);
      }
        where
          ends_here : (st' : Station) → Pass [] r st' → Pass [] st1 st'
          ends_here st' (over _) = over st1

      by_fuel : (n : ℕ) → Left (p ∷ []) st (remind_from highest_short n now none st1)
      by_fuel zero = left
      by_fuel (suc n) = left

  pub remind_from-Left :
      (fuel now p : ℕ) (xs : List ℕ) (st : Station)
      → Chain st.locos.next (st.locos.next p) xs
      → length xs < fuel
      → Left (p ∷ xs) st (remind_from highest_short fuel now (some p) st)
  unfolding remind_from
  remind_from-Left zero now p xs st c h = absurd (omega (arith, h))
  remind_from-Left (suc fuel) now p xs st c h =
      by_flag (issue_reminder highest_short now p st) refl xs c
        (λ x xs' st1 c' h'. remind_from-Left fuel now x xs' st1 c' (omega (arith, h, h')))
    where
      by_flag :
          (r : Station × Bool)
          → issue_reminder highest_short now p st ≡ r
          → (xs : List ℕ) → Chain st.locos.next (st.locos.next p) xs
          → ((x : ℕ) (xs' : List ℕ) (st1 : Station)
              → Chain st1.locos.next (st1.locos.next x) xs'
              → length xs' < length xs
              → Left (x ∷ xs') st1 (remind_from highest_short fuel now (some x) st1))
          → Left (p ∷ xs) st (elim r.1 [
            | true ↦ let st1 = r.0 in record st1 { next_loco_reminder = st1.locos.next p }
            | false ↦ remind_from highest_short fuel now (r.0.locos.next p) r.0
          ])
      by_flag (st1, true) e xs c go =
          sent-Left now p xs st st1 e
            (subst (λ (x : Station × Bool). Kept st x.0) e
              (issue_reminder-Kept highest_short now p st))
            c
      by_flag (st1, false) e [] c go =
          let k =
            subst (λ (x : Station × Bool). Kept st x.0) e
              (issue_reminder-Kept highest_short now p st) in
          let last : st1.locos.next p ≡ none = subst (λ (l : Links). l p ≡ none) (sym k.next) c in
          subst (λ o. Left (p ∷ []) st (remind_from highest_short fuel now o st1)) (sym last)
            (ended-Left fuel now p st st1 e k)
      by_flag (st1, false) e (x ∷ xs') (at, c) go =
          let k =
            subst (λ (y : Station × Bool). Kept st y.0) e
              (issue_reminder-Kept highest_short now p st) in
          let at' : st1.locos.next p ≡ some x =
            subst (λ (l : Links). l p ≡ some x) (sym k.next) at in
          let rest =
            go x xs' st1 (subst (λ (l : Links). Chain l (l x) xs') (sym k.next) c) (omega arith) in
          subst (λ o. Left (p ∷ x ∷ xs') st (remind_from highest_short fuel now o st1)) (sym at')
            (record {
              rest = rest.rest;
              shorter = omega (arith, rest.shorter);
              chain = rest.chain;
              same = Kept-trans st st1 _ k rest.same;
              before = λ st' b. silent now p (x ∷ xs') st st1 st' e (rest.before st' b);
              through = λ nothing. silent now p (x ∷ xs') st st1 _ e (rest.through nothing);
            })
