-- ===== src/Queue/Primitives.antt =====
-- The four operations on slots and links, against operations on lists.
use command_station_ex.Base.{
  ℕ, zero, suc, ◌≤◌, ◌<◌, ◌≡◌, ◌≢◌, refl, sym, ap, subst, ◌∙◌, true, false, Option, none, some,
  List, [], ◌∷◌, ◌++◌, arith, length, ◌==◌, ==_iff, Bool-cases, inl, inr, if◌then◌else◌,
}
use command_station_ex.Chain.{
  Links, link, link_self, link_ne, Chain, Chain-link, Chain-snoc, Chain-unlink, count, Distinct,
  Distinct-head, last, last-without, count_last, count-append, count-before, ne_of_count, without,
  before,
}
use command_station_ex.Chain.Loops.{find_previous, find_previous-before}
use command_station_ex.Queue.{Queue, add_queue, jump_queue, recycle, remove, points_at}

-- The queue holds the slots `xs`, from its head to its tail.
pub record Holds (next : Links) (q : Queue) (xs : List ℕ) : Type 0 where
  pub chain : Chain next q.head xs
  pub ends : q.tail ≡ last xs

-- Links that are not in `xs` stay.
abbrev pub SameOutside : List ℕ → Links → Links → Type 0
SameOutside xs next next' = (a : ℕ) → count a xs ≡ 0 → next' a ≡ next a

last-snoc : (xs : List ℕ) (p : ℕ) → last (xs ++ p ∷ []) ≡ some p
last-snoc [] p = refl
last-snoc (x ∷ []) p = refl
last-snoc (x ∷ y ∷ xs) p = last-snoc (y ∷ xs) p

last-cons : (x : ℕ) (xs : List ℕ) → (t : ℕ) × (last (x ∷ xs) ≡ some t)
last-cons x [] = (x, refl)
last-cons x (y ∷ xs) = last-cons y xs

ne_head : (a x : ℕ) (xs : List ℕ) → count a (x ∷ xs) ≡ 0 → a ≢ x
ne_head a x xs h = ground (arith, h)

module _ (next : Links) (q : Queue) (p : ℕ) where
  add_queue_empty :
      q.tail ≡ none
      → add_queue next q p ≡ (link next p none, record { head = some p; tail = some p })
  unfolding add_queue
  add_queue_empty e = ground arith

  add_queue_more :
      (t : ℕ)
      → q.tail ≡ some t
      → add_queue next q p
        ≡ (link (link next t (some p)) p none, record { head = q.head; tail = some p })
  unfolding add_queue
  add_queue_more t e = ground arith

  -- A slot that joins a queue is its last.
  pub add_queue-Holds :
      (xs : List ℕ)
      → Holds next q xs
      → Distinct xs
      → count p xs ≡ 0
      → let (next', q') = add_queue next q p in
        Holds next' q' (xs ++ p ∷ []) × SameOutside (xs ++ p ∷ []) next next'
  add_queue-Holds [] h d out = rw (add_queue_empty h.ends) (
    record { chain = (refl, link_self next p none); ends = refl },
    λ a o. link_ne next p a none (ne_head a p [] o),
  )
  add_queue-Holds (x ∷ xs) h d out =
      let (t, e) = last-cons x xs in
      rw (add_queue_more t (h.ends ∙ e)) (
        record {
          chain = Chain-snoc next q.head (x ∷ xs) t p d out e h.chain;
          ends = sym (last-snoc (x ∷ xs) p);
        },
        λ a o.
            let split = count-append a (x ∷ xs) (p ∷ []) in
            let ne : a ≢ p = ne_head a p [] (omega (arith, split, o)) in
            let ne' : a ≢ t = λ eq.
              ne_of_count t a (x ∷ xs) (count_last (x ∷ xs) t e) (omega (arith, split, o))
                (sym eq) in
            link_ne (link next t (some p)) p a none ne ∙ link_ne next t a (some p) ne',
      )

  jump_tail : (xs : List ℕ) → q.tail ≡ last xs → (jump_queue next q p).1.tail ≡ last (p ∷ xs)
  unfolding jump_queue
  jump_tail [] e = ground (arith, e)
  jump_tail (x ∷ xs) e = let (t, l) = last-cons x xs in ground (arith, e, l)

  -- A slot that jumps a queue is its first.
  pub jump_queue-Holds :
      (xs : List ℕ)
      → Holds next q xs
      → count p xs ≡ 0
      → let (next', q') = jump_queue next q p in
        Holds next' q' (p ∷ xs) × SameOutside (p ∷ xs) next next'
  unfolding jump_queue
  jump_queue-Holds xs h out = (
    record {
      chain = (
        refl,
        subst (λ o. Chain (link next p q.head) o xs) (sym (link_self next p q.head))
            (Chain-link next p q.head q.head xs out h.chain),
      );
      ends = jump_tail xs h.ends;
    },
    λ a o. link_ne next p a q.head (ne_head a p xs o),
  )

  -- A slot that is recycled is the first to be used again.
  pub recycle-Chain :
      (o : Option ℕ) (xs : List ℕ)
      → Chain next o xs
      → count p xs ≡ 0
      → let (next', o') = recycle next o p in
        Chain next' o' (p ∷ xs) × SameOutside (p ∷ xs) next next'
  unfolding recycle
  recycle-Chain o xs c out = (
    (
      refl,
      subst (λ v. Chain (link next p o) v xs) (sym (link_self next p o))
          (Chain-link next p o o xs out c),
    ),
    λ a h. link_ne next p a o (ne_head a p xs h),
  )

module _ (fuel : ℕ) (next : Links) (q : Queue) (p : ℕ) where
  remove_first :
      find_previous fuel next p none q.head ≡ some none
      → remove fuel next q p
        ≡ (next, record { head = next p; tail = if points_at q.tail p then none else q.tail })
  unfolding remove
  remove_first e = rw (e, remove)

  remove_inner :
      (b : ℕ)
      → find_previous fuel next p none q.head ≡ some (some b)
      → remove fuel next q p ≡ (
        link next b (next p),
        record { head = q.head; tail = if points_at q.tail p then some b else q.tail },
      )
  unfolding remove
  remove_inner b e = rw (e, remove)

-- The loop's first round.
previous_first :
    (fuel : ℕ) (next : Links) (p x : ℕ) (o : Option ℕ)
    → o ≡ some x
    → (p == x) ≡ true
    → find_previous (suc fuel) next p none o ≡ some none
unfolding find_previous
previous_first fuel next p x o e hit = rw (e, find_previous) (ground (arith, hit))

previous_inner :
    (fuel : ℕ) (next : Links) (p x : ℕ) (o : Option ℕ) (xs : List ℕ)
    → o ≡ some x
    → (p == x) ≡ false
    → Chain next (next x) xs
    → length xs ≤ fuel
    → 0 < count p xs
    → find_previous (suc fuel) next p none o ≡ some (some (before x p xs))
unfolding find_previous
previous_inner fuel next p x o xs e miss c f i =
    rw (e, find_previous)
      (ground (arith, miss, find_previous-before fuel next x p (next x) xs c f i))

tail_first :
    (p x : ℕ) (xs : List ℕ) (o : Option ℕ)
    → o ≡ last (x ∷ xs)
    → p ≡ x
    → count x xs ≡ 0
    → (if points_at o p then none else o) ≡ last xs
tail_first p x [] o e eq out = ground (arith, e, eq)
tail_first p x (y ∷ ys) o e eq out =
    let (t, l) = last-cons y ys in
    let ne = ne_of_count t x (y ∷ ys) (count_last (y ∷ ys) t l) out in ground (arith, e, eq, l, ne)

tail_inner :
    (p x t : ℕ) (xs : List ℕ) (o : Option ℕ)
    → o ≡ some t
    → last (x ∷ xs) ≡ some t
    → Distinct (x ∷ xs)
    → 0 < count p xs
    → (if points_at o p then some (before x p xs) else o) ≡ last (x ∷ without p xs)
tail_inner p x t xs o e l d i =
    let (hit, miss) = last-without x p xs d i in
    elim (Bool-cases (t == p)) [
      | inl same ↦ rw (e, same) (sym (hit (l ∙ ap some ((==_iff t p).0 same))))
      | inr other ↦
          let apart : t ≢ p = ground (arith, other) in
          rw (e, other) (sym (miss (λ z. apart (ground (arith, z, l))) ∙ l))
    ]

pub remove-Holds :
    (fuel : ℕ) (next : Links) (q : Queue) (p : ℕ) (xs : List ℕ)
    → Holds next q xs
    → Distinct xs
    → 0 < count p xs
    → length xs ≤ fuel
    → let (next', q') = remove fuel next q p in
      Holds next' q' (without p xs) × SameOutside xs next next'
remove-Holds fuel next q p [] h d i f = absurd (omega arith)
remove-Holds zero next q p (x ∷ xs) h d i f = absurd (omega arith)
remove-Holds (suc fuel) next q p (x ∷ xs) h d i f = elim (Bool-cases (p == x)) [
  | inl hit ↦
      let eq : p ≡ x = (==_iff p x).0 hit in
      rw (remove_first (suc fuel) next q p (previous_first fuel next p x q.head h.chain.0 hit)) (
        rw hit (
          record {
            chain = subst (λ y. Chain next (next y) xs) (sym eq) h.chain.1;
            ends = tail_first p x xs q.tail h.ends eq (Distinct-head x xs d);
          },
          λ a o. refl,
        ))
  | inr miss ↦
      let i' : 0 < count p xs = ground (arith, i) in
      let b = before x p xs in
      let (t, l) = last-cons x xs in
      rw
        (remove_inner (suc fuel) next q p b
          (previous_inner fuel next p x q.head xs h.chain.0 miss h.chain.1 (omega arith) i'))
        (rw miss (
          record {
            chain = (h.chain.0, Chain-unlink next x p xs d i' h.chain.1);
            ends = tail_inner p x t xs q.tail (h.ends ∙ l) l d i';
          },
          λ a o.
              link_ne next b a (next p)
                (λ e. ne_of_count b a (x ∷ xs) (count-before x p xs) o (sym e)),
        ))
]
