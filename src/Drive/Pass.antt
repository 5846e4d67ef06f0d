-- ===== src/Drive/Pass.antt =====
-- A pass of the reminders over the chain of slots.
use command_station_ex.Base.{
  ℕ, ◌+◌, ◌⊎◌, inl, inr, ltb, ◌≡◌, ◌<◌, refl, ap, sym, ◌∙◌, subst, Bool, true, false, ◌||◌, Option,
  none, some, List, [], ◌∷◌, ◌++◌, length, arith, if◌then◌else◌,
}
use command_station_ex.Chain.{Chain}
use command_station_ex.Drive.{Station}
use command_station_ex.Drive.Reminders.{remind_from, issue_reminders, restart, next_status}
use command_station_ex.Drive.Walk.{Pass, Left, remind_from-Left}

module _ (highest_short : ℕ) where
  -- Calls of `issueReminders`, each at its time.
  pub reminders : List ℕ → Station → Station
  reminders [] st = st
  reminders (now ∷ times) st = reminders times (issue_reminders highest_short now st)

  -- A pass goes on from a slot.
  goes_on :
      (now p : ℕ) (st : Station)
      → st.next_loco_reminder ≡ some p
      → st.locos.chain_modified ≡ false
      → issue_reminders highest_short now st
        ≡ remind_from highest_short st.locos.created now (some p) st
  unfolding issue_reminders
  goes_on now p st e same =
      let at_end : Bool = elim st.next_loco_reminder [ none ↦ true | some q ↦ false ] in
      let here : (if st.locos.chain_modified || at_end then restart highest_short st else st) ≡ st =
        ap (λ m. if m || at_end then restart highest_short st else st) same
        ∙ ap
            (λ (o : Option ℕ).
              if (elim o [ none ↦ true | some q ↦ false ]) then restart highest_short st else st)
            e in
      ap
        (λ (s : Station).
          let r : Station = elim s.next_loco_reminder [
            | none ↦ s
            | some q ↦ remind_from highest_short s.locos.created now (some q) s
          ] in
          r)
        here
      ∙ ap
          (λ (o : Option ℕ).
            let r : Station = elim o [
              | none ↦ st
              | some q ↦ remind_from highest_short st.locos.created now (some q) st
            ] in
            r)
          e

  -- The first of the calls at the given times end a pass over the slots of a list.
  abbrev pub Finishes : List ℕ → List ℕ → Station → Station → Type 0
  Finishes times xs st0 st =
      (early : List ℕ) × (late : List ℕ) × (times ≡ early ++ late)
      × Pass highest_short xs st0 (reminders early st)
      × ((reminders early st).next_loco_reminder ≡ none)

  after_call :
      (now : ℕ) (times xs : List ℕ) (st0 st : Station)
      → Left highest_short xs st0 (issue_reminders highest_short now st)
      → (let r = issue_reminders highest_short now st in
          (q : ℕ) (ys : List ℕ)
          → Chain r.locos.next r.next_loco_reminder (q ∷ ys)
          → length (q ∷ ys) < length xs
          → Finishes times (q ∷ ys) r r)
      → Finishes (now ∷ times) xs st0 st
  unfolding reminders
  after_call now times xs st0 st l go = by_rest l.rest l.chain l.shorter l.before l.through
    where
      by_rest :
          (let r = issue_reminders highest_short now st in
            (rest : List ℕ)
            → Chain r.locos.next r.next_loco_reminder rest
            → length rest < length xs
            → ((st' : Station) → Pass highest_short rest r st' → Pass highest_short xs st0 st')
            → (rest ≡ [] → Pass highest_short xs st0 r)
            → Finishes (now ∷ times) xs st0 st)
      by_rest [] c h before through = (now ∷ [], times, refl, through refl, c)
      by_rest (q ∷ ys) c h before through =
          let (early, late, e, pass, done) = go q ys c h in
          (
            now ∷ early,
            late,
            ap (λ ts. now ∷ ts) e,
            before (reminders early (issue_reminders highest_short now st)) pass,
            done,
          )

  -- The rest of a pass, from the place to go on.
  rest-Finishes :
      (times : List ℕ) (p : ℕ) (xs : List ℕ) (st : Station)
      → Chain st.locos.next st.next_loco_reminder (p ∷ xs)
      → st.locos.chain_modified ≡ false
      → length xs < st.locos.created
      → length xs < length times
      → Finishes times (p ∷ xs) st st
  rest-Finishes [] p xs st c same room enough = absurd (omega (arith, enough))
  rest-Finishes (now ∷ times) p xs st (e, c) same room enough =
      let r = issue_reminders highest_short now st in
      let l =
        subst (Left highest_short (p ∷ xs) st) (sym (goes_on now p st e same))
          (remind_from-Left highest_short st.locos.created now p xs st c room) in
      after_call now times (p ∷ xs) st st l (λ q ys c' h'.
        rest-Finishes times q ys r c' (l.same.modified ∙ same)
          (omega (arith, room, l.same.created, h')) (omega (arith, enough, h')))

  -- The state in which a pass begins: at its first slot, with the next of the ten statuses.
  abbrev pub begun : ℕ → Station → Station
  begun p st =
      let l = st.locos in
      record st {
        locos = record l { chain_modified = false };
        next_loco_reminder = some p;
        loop_status = if ltb st.loop_status 9 then st.loop_status + 1 else 0;
      }

  abbrev at_end : Option ℕ → Bool
  at_end none = true
  at_end (some p) = false

  starts_anew :
      (st : Station)
      → (st.locos.chain_modified ≡ true) ⊎ (st.next_loco_reminder ≡ none)
      → (st.locos.chain_modified || at_end st.next_loco_reminder) ≡ true
  starts_anew st (inl modified) = ap (λ m. m || at_end st.next_loco_reminder) modified
  starts_anew st (inr e) =
      ap (λ o. st.locos.chain_modified || at_end o) e ∙ or_true st.locos.chain_modified
    where
      or_true : (b : Bool) → (b || true) ≡ true
      or_true true = refl
      or_true false = refl

  -- A call that starts a pass.
  starts :
      (now p : ℕ) (st : Station)
      → (st.locos.chain_modified ≡ true) ⊎ (st.next_loco_reminder ≡ none)
      → st.locos.first_slot ≡ some p
      → issue_reminders highest_short now st
        ≡ remind_from highest_short st.locos.created now (some p) (begun p st)
  unfolding issue_reminders restart
  starts now p st idle first =
      let l = st.locos in
      let goes : Station → Station = λ s. elim s.next_loco_reminder [
        | none ↦ s
        | some q ↦ remind_from highest_short s.locos.created now (some q) s
      ] in
      let status : next_status highest_short st.loop_status
          ≡ (if ltb st.loop_status 9 then st.loop_status + 1 else 0) =
        ground arith in
      ap (λ b. goes (if b then restart highest_short st else st)) (starts_anew st idle)
      ∙ ap
          (λ (o : Option ℕ).
            let s : Station = record st {
              locos = record l { chain_modified = false };
              next_loco_reminder = o;
            } in
            goes (elim o [
              | none ↦ s
              | some q ↦ record s { loop_status = next_status highest_short st.loop_status }
            ]))
          first
      ∙ ap
          (λ n. remind_from highest_short l.created now (some p) (record st {
            locos = record l { chain_modified = false };
            next_loco_reminder = some p;
            loop_status = n;
          }))
          status

  -- When the chain was modified, or the last pass reached its end, the calls of `issueReminders` start a
  -- pass at the first slot with the status after the last, 0 after 9: every slot of the chain has its
  -- reminder issued, in the order of the chain and once, after at most as many calls as it has slots.
  -- This is for a chain that is not empty and has no more slots than were created.
  pub reminders-Pass :
      (times : List ℕ) (p : ℕ) (xs : List ℕ) (st : Station)
      → (st.locos.chain_modified ≡ true) ⊎ (st.next_loco_reminder ≡ none)
      → Chain st.locos.next st.locos.first_slot (p ∷ xs)
      → length xs < st.locos.created
      → length xs < length times
      → (early : List ℕ) × (late : List ℕ) × (times ≡ early ++ late)
        × Pass highest_short (p ∷ xs) (begun p st) (reminders early st)
        × ((reminders early st).next_loco_reminder ≡ none)
  reminders-Pass [] p xs st idle c room enough = absurd (omega (arith, enough))
  reminders-Pass (now ∷ times) p xs st idle (first, c) room enough =
      let r = issue_reminders highest_short now st in
      let l =
        subst (Left highest_short (p ∷ xs) (begun p st)) (sym (starts now p st idle first))
          (remind_from-Left highest_short st.locos.created now p xs (begun p st) c room) in
      after_call now times (p ∷ xs) (begun p st) st l (λ q ys c' h'.
        rest-Finishes times q ys r c' l.same.modified (omega (arith, room, l.same.created, h'))
          (omega (arith, enough, h')))
