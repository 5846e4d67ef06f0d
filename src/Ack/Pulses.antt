-- ===== src/Ack/Pulses.antt =====
-- The pulse of an acknowledgement, sample by sample.
use command_station_ex.Base.{
  ℕ, ◌+◌, ◌%◌, ◌≡◌, ◌≤◌, ◌<◌, refl, ap, ◌∙◌, subst, Bool, true, false, not, ◌&&◌, ◌||◌, List, [],
  ◌∷◌, ◌++◌, arith, ltb, leb, ◌==◌, if◌then◌else◌,
}
use command_station_ex.Ack.{Pulse, elapsed}
use command_station_ex.Ack.Check.{check_ack, trail}

-- What an interrupt reads.
pub record Sample : Type 0 where
  pub resets : ℕ
  pub current : ℕ
  pub now : ℕ
  pub micros : ℕ

-- The pulse waits for a verdict, with the given threshold, verdict so far, start, and low samples
-- since its end.
abbrev pub waiting : ℕ → Bool → ℕ → ℕ → Pulse → Pulse
waiting threshold d start edge p = record p {
  pending = true;
  threshold = threshold;
  detected = d;
  pulse_start = start;
  trailing_edge = edge;
}

-- The duration lies in the limits; an upper limit of 0 is none.
abbrev pub fits : ℕ → ℕ → ℕ → Bool
fits min_pulse max_pulse d = leb min_pulse d && (leb d max_pulse || (max_pulse == 0))

module _ (min_pulse max_pulse : ℕ) where
  abbrev check : Sample → Pulse → Pulse
  check s = check_ack min_pulse max_pulse s.resets s.current s.now s.micros

  pub check_acks : List Sample → Pulse → Pulse
  check_acks [] p = p
  check_acks (s ∷ ss) p = check_acks ss (check s p)

  -- Samples before the track has sent seven resets, at or below the threshold and above it.
  pub record Low (threshold : ℕ) (s : Sample) : Type 0 where
    pub early : s.resets ≤ 6
    pub low : s.current ≤ threshold

  pub record High (threshold : ℕ) (s : Sample) : Type 0 where
    pub early : s.resets ≤ 6
    pub high : threshold < s.current

  few : (n : ℕ) → n ≤ 6 → ltb 6 n ≡ false
  few n h = ground (arith, h)

  not_above : (n m : ℕ) → n ≤ m → ltb m n ≡ false
  not_above n m h = ground (arith, h)

  above : (n m : ℕ) → m < n → ltb m n ≡ true
  above n m h = ground (arith, h)

  -- The rest of a pulse: high samples, and gaps of one or two low ones before a high one.
  pub data Body (threshold : ℕ) : List Sample → Type 0 where
    over : Body threshold []
    more :
        {s : Sample}
        → {ss : List Sample} → High threshold s
        → Body threshold ss
        → Body threshold (s ∷ ss)
    gap :
        {l h : Sample}
        → {ss : List Sample} → Low threshold l
        → High threshold h
        → Body threshold ss
        → Body threshold (l ∷ h ∷ ss)
    wide_gap :
        {l l' h : Sample}
        → {ss : List Sample} → Low threshold l
        → Low threshold l'
        → High threshold h
        → Body threshold ss
        → Body threshold (l ∷ l' ∷ h ∷ ss)

  pub data Quiet (threshold : ℕ) : List Sample → Type 0 where
    silent : Quiet threshold []
    still :
        {s : Sample}
        → {ss : List Sample} → Low threshold s
        → Quiet threshold ss
        → Quiet threshold (s ∷ ss)

  -- The sample is counted, and the greatest current kept.
  abbrev counted : Sample → Pulse → Pulse
  counted s p = record p {
    samples = (p.samples + 1) % 256;
    max_current = if ltb p.max_current s.current then s.current else p.max_current;
  }

  -- What a check does with a low sample, or with a high one.
  abbrev at_low : Sample → Pulse → Pulse
  at_low s p0 =
      let p = counted s p0 in
      if p.pulse_start == 0
      then p
      else trail min_pulse max_pulse s.now (
          if p.trailing_edge == 0
          then record p { pulse_duration = elapsed s.micros p.pulse_start }
          else p)

  abbrev at_high : Sample → Pulse → Pulse
  at_high s p0 =
      let p = counted s p0 in
      record p {
        gaps = if ltb 0 p.trailing_edge then (p.gaps + 1) % 256 else p.gaps;
        trailing_edge = 0;
        pulse_start = if p.pulse_start == 0 then s.micros else p.pulse_start;
      }

  abbrev chosen : Sample → Bool → Bool → Bool → Pulse → Pulse
  chosen s wait late above p =
      if not wait
      then p
      else if late
      then record p { check_duration = elapsed s.now p.check_start; pending = false }
      else if above
      then at_high s p
      else at_low s p

  checks :
      (s : Sample) (p : Pulse) (late over_threshold : Bool)
      → ltb 6 s.resets ≡ late
      → ltb p.threshold s.current ≡ over_threshold
      → check s p ≡ chosen s p.pending late over_threshold p
  unfolding check_ack
  checks s p late over_threshold e f =
      ap (λ b. chosen s p.pending b (ltb p.threshold s.current) p) e
      ∙ ap (λ b. chosen s p.pending late b p) f

  module _ (threshold : ℕ) (d : Bool) where
    abbrev At : ℕ → ℕ → Pulse → Type 0
    At start edge p = (q : Pulse) × (p ≡ waiting threshold d start edge q)

    quiet_check : (s : Sample) (k : ℕ) (p : Pulse) → Low threshold s → At 0 k p → At 0 k (check s p)
    quiet_check s k p l (q, e) = (
      counted s q,
      ap (check s) e
          ∙ checks s (waiting threshold d 0 k q) false false (few s.resets l.early)
              (not_above s.current threshold l.low),
    )

    rise_check :
        (s : Sample) (n k : ℕ) (p : Pulse)
        → High threshold s
        → At n k p
        → At (if n == 0 then s.micros else n) 0 (check s p)
    rise_check s n k p l (q, e) = (
      record (counted s q) { gaps = if ltb 0 k then (q.gaps + 1) % 256 else q.gaps },
      ap (check s) e
          ∙ checks s (waiting threshold d n k q) false true (few s.resets l.early)
              (above s.current threshold l.high),
    )

    started : (n : ℕ) → 0 < n → (n == 0) ≡ false
    started n h = ground (arith, h)

    again :
        (s : Sample) (n k : ℕ) (p : Pulse)
        → High threshold s
        → 0 < n
        → At n k p
        → At n 0 (check s p)
    again s n k p l h a =
        subst (λ b. At (if b then s.micros else n) 0 (check s p)) (started n h)
          (rise_check s n k p l a)

    -- A low sample in a pulse.
    abbrev dips : Sample → Bool → Bool → Pulse → Pulse
    dips s none first p =
        if none
        then p
        else trail min_pulse max_pulse s.now
            (if first then record p { pulse_duration = elapsed s.micros p.pulse_start } else p)

    dip_check :
        (s : Sample) (n k : ℕ) (q : Pulse)
        → Low threshold s
        → 0 < n
        → check s (waiting threshold d n k q)
          ≡ dips s false (k == 0) (waiting threshold d n k (counted s q))
    dip_check s n k q l h =
        checks s (waiting threshold d n k q) false false (few s.resets l.early)
          (not_above s.current threshold l.low)
        ∙ ap (λ b. dips s b (k == 0) (waiting threshold d n k (counted s q))) (started n h)

    first_dip :
        (s : Sample) (n : ℕ) (p : Pulse)
        → Low threshold s
        → 0 < n
        → At n 0 p
        → (q : Pulse) × (check s p ≡ waiting threshold d n 1 q)
          × (q.pulse_duration ≡ elapsed s.micros n)
    unfolding trail
    first_dip s n p l h (q, e) = (
      record (counted s q) { pulse_duration = elapsed s.micros n },
      ap (check s) e ∙ dip_check s n 0 q l h,
      refl,
    )

    second_dip :
        (s : Sample) (n : ℕ) (q : Pulse)
        → Low threshold s
        → 0 < n
        → check s (waiting threshold d n 1 q) ≡ waiting threshold d n 2 (counted s q)
    unfolding trail
    second_dip s n q l h = dip_check s n 1 q l h

    -- The verdict.
    abbrev verdict : Sample → ℕ → Bool → Pulse → Pulse
    verdict s n fit q =
        if fit
        then record (waiting threshold d n 0 q) {
          check_duration = elapsed s.now q.check_start;
          detected = true;
          pending = false;
          clears = q.clears + 1;
        }
        else waiting threshold d 0 0 q

    third_dip :
        (s : Sample) (n : ℕ) (q : Pulse)
        → Low threshold s
        → 0 < n
        → check s (waiting threshold d n 2 q)
          ≡ verdict s n (fits min_pulse max_pulse q.pulse_duration) (counted s q)
    unfolding trail
    third_dip s n q l h = dip_check s n 2 q l h

    check_acks-append :
        (ss ts : List Sample) (p : Pulse)
        → check_acks (ss ++ ts) p ≡ check_acks ts (check_acks ss p)
    unfolding check_acks
    check_acks-append [] ts p = refl
    check_acks-append (s ∷ ss) ts p = check_acks-append ss ts (check s p)

    quiets :
        (ss : List Sample) (k : ℕ) (p : Pulse)
        → Quiet threshold ss
        → At 0 k p
        → At 0 k (check_acks ss p)
    unfolding check_acks
    quiets [] k p silent a = a
    quiets (s ∷ ss) k p (still l q) a = quiets ss k (check s p) q (quiet_check s k p l a)

    -- A pulse goes on, whatever its gaps.
    bodies :
        (ss : List Sample) (n : ℕ) (p : Pulse)
        → 0 < n
        → Body threshold ss
        → At n 0 p
        → At n 0 (check_acks ss p)
    unfolding check_acks
    bodies [] n p h over a = a
    bodies (s ∷ ss) n p h (more l b) a = bodies ss n (check s p) h b (again s n 0 p l h a)
    bodies (s ∷ s' ∷ ss) n p h (gap l l' b) a =
        let (q, e, timed) = first_dip s n p l h a in
        bodies ss n (check s' (check s p)) h b (again s' n 1 (check s p) l' h (q, e))
    bodies (s ∷ s' ∷ s'' ∷ ss) n p h (wide_gap l l' l'' b) a =
        let (q, e, timed) = first_dip s n p l h a in
        bodies ss n (check s'' (check s' (check s p))) h b (
          again s'' n 2 (check s' (check s p)) l'' h
            (counted s' q, ap (check s') e ∙ second_dip s' n q l' h))

    -- Low samples, a pulse from `first` on, and three low samples: the verdict.
    ended :
        (before body : List Sample) (first l1 l2 l3 : Sample) (k : ℕ) (p : Pulse)
        → At 0 k p
        → Quiet threshold before
        → High threshold first
        → 0 < first.micros
        → Body threshold body
        → Low threshold l1
        → Low threshold l2
        → Low threshold l3
        → (q : Pulse) × (check_acks (before ++ (first ∷ (body ++ (l1 ∷ l2 ∷ l3 ∷ [])))) p
            ≡ verdict l3 first.micros (fits min_pulse max_pulse (elapsed l1.micros first.micros)) q)
    unfolding check_acks
    ended before body first l1 l2 l3 k p a quiet up h b d1 d2 d3 =
        let p1 = check_acks before p in
        let p2 = check first p1 in
        let p3 = check_acks body p2 in
        let n = first.micros in
        let (q, e, timed) =
          first_dip l1 n p3 d1 h
            (bodies body n p2 h b (rise_check first 0 k p1 up (quiets before k p quiet a))) in
        (
          counted l3 (counted l2 q),
          check_acks-append before (first ∷ (body ++ (l1 ∷ l2 ∷ l3 ∷ []))) p
              ∙ check_acks-append body (l1 ∷ l2 ∷ l3 ∷ []) p2
              ∙ ap (λ x. check l3 (check l2 x)) e
              ∙ ap (check l3) (second_dip l2 n q d2 h)
              ∙ third_dip l3 n (counted l2 q) d3 h
              ∙ ap (λ x. verdict l3 n (fits min_pulse max_pulse x) (counted l3 (counted l2 q)))
                  timed,
        )

  -- The verdict on a pulse, as long as at most six resets were sent and the pulse does not start at
  -- microsecond 0: a wait in which no pulse has started sees low samples, a pulse with gaps of one or
  -- two low samples, and three low samples. It ends with an acknowledgement exactly if the time from
  -- the first sample of the pulse to the first of these three lies in the limits; else the pulse is
  -- forgotten, and the wait goes on.
  pub check_acks-verdict :
      (before body : List Sample) (first l1 l2 l3 : Sample) (p : Pulse)
      → p.pending ≡ true
      → p.pulse_start ≡ 0
      → Quiet p.threshold before
      → High p.threshold first
      → 0 < first.micros
      → Body p.threshold body
      → Low p.threshold l1
      → Low p.threshold l2
      → Low p.threshold l3
      → let good = fits min_pulse max_pulse (elapsed l1.micros first.micros) in
        let after = check_acks (before ++ (first ∷ (body ++ (l1 ∷ l2 ∷ l3 ∷ [])))) p in
        (after.pending ≡ not good)
        × (after.detected ≡ (good || p.detected))
        × (after.trailing_edge ≡ 0)
        × (after.pulse_start ≡ (if good then first.micros else 0))
  check_acks-verdict before body first l1 l2 l3 p wait start quiet up h b d1 d2 d3 =
      let here : p ≡ waiting p.threshold p.detected 0 p.trailing_edge p =
        λ i. record p { pending = wait i; pulse_start = start i } in
      let (q, e) =
        ended p.threshold p.detected before body first l1 l2 l3 p.trailing_edge p (p, here) quiet up
          h b d1 d2 d3 in
      said (fits min_pulse max_pulse (elapsed l1.micros first.micros)) q _ e
    where
      said :
          (good : Bool) (q after : Pulse)
          → after ≡ verdict p.threshold p.detected l3 first.micros good q
          → (after.pending ≡ not good)
            × (after.detected ≡ (good || p.detected))
            × (after.trailing_edge ≡ 0)
            × (after.pulse_start ≡ (if good then first.micros else 0))
      said true q after e = (
        ap (λ (x : Pulse). x.pending) e,
        ap (λ (x : Pulse). x.detected) e,
        ap (λ (x : Pulse). x.trailing_edge) e,
        ap (λ (x : Pulse). x.pulse_start) e,
      )
      said false q after e = (
        ap (λ (x : Pulse). x.pending) e,
        ap (λ (x : Pulse). x.detected) e,
        ap (λ (x : Pulse). x.trailing_edge) e,
        ap (λ (x : Pulse). x.pulse_start) e,
      )
