-- ===== src/Chain.antt =====
-- Chains of structures that a `next` pointer links: LocoSlot.h and DCCQueue.h keep their objects so.
-- The store is a function from addresses to the `next` of each, `none` for a null pointer.
use command_station_ex.Base.{
  ℕ, zero, suc, ◌+◌, ◌≤◌, ◌<◌, ◌≡◌, ◌≢◌, refl, sym, ap, subst, ◌∙◌, Bool, true, false, Option, none,
  some, List, [], ◌∷◌, ◌++◌, arith, length, ◌==◌, ==_iff, Bool-cases, ◌⊎◌, inl, inr, if◌then◌else◌,
}
pub mod Loops

abbrev pub Links : Type 0
Links = ℕ → Option ℕ

-- `p->next = v`.
abbrev pub link : Links → ℕ → Option ℕ → Links
link next p v a = if a == p then v else next a

-- From `o` on, the pointers lead through `xs` to null.
abbrev pub Chain : Links → Option ℕ → List ℕ → Type 0
Chain next o [] = o ≡ none
Chain next o (x ∷ xs) = (o ≡ some x) × Chain next (next x) xs

abbrev pub count : ℕ → List ℕ → ℕ
count a [] = 0
count a (x ∷ xs) = (if a == x then 1 else 0) + count a xs

abbrev pub Distinct : List ℕ → Type 0
Distinct xs = (a : ℕ) → count a xs ≤ 1

pub count-append :
    (slot : ℕ) (front back : List ℕ)
    → count slot (front ++ back) ≡ count slot front + count slot back
count-append slot [] back = omega arith
count-append slot (p ∷ front) back = let rest = count-append slot front back in omega (arith, rest)

pub count_self : (x : ℕ) (xs : List ℕ) → 0 < count x (x ∷ xs)
count_self x xs = ground arith

pub link_self : (next : Links) (p : ℕ) (v : Option ℕ) → link next p v p ≡ v
link_self next p v = ground arith

pub link_ne : (next : Links) (p a : ℕ) (v : Option ℕ) → a ≢ p → link next p v a ≡ next a
link_ne next p a v h = ground arith

-- What is in a list is not what is not in it.
pub ne_of_count : (a p : ℕ) (xs : List ℕ) → 0 < count a xs → count p xs ≡ 0 → a ≢ p
ne_of_count a p xs inside out e =
    let inside' : 0 < count p xs = subst (λ b. 0 < count b xs) e inside in omega arith

-- A chain does not see a change of links that are not its own.
pub Chain-frame :
    (next next' : Links) (o : Option ℕ) (xs : List ℕ)
    → ((a : ℕ) → 0 < count a xs → next' a ≡ next a)
    → Chain next o xs
    → Chain next' o xs
Chain-frame next next' o [] same c = c
Chain-frame next next' o (x ∷ xs) same (e, c) = (
  e,
  Chain-frame next next' (next' x) xs (λ a h. same a (omega arith))
      (subst (λ q. Chain next q xs) (sym (same x (count_self x xs))) c),
)

pub Chain-link :
    (next : Links) (p : ℕ) (v o : Option ℕ) (xs : List ℕ)
    → count p xs ≡ 0
    → Chain next o xs
    → Chain (link next p v) o xs
Chain-link next p v o xs h c =
    Chain-frame next (link next p v) o xs
      (λ a inside. link_ne next p a v (ne_of_count a p xs inside h)) c

abbrev pub last : List ℕ → Option ℕ
last [] = none
last (x ∷ []) = some x
last (x ∷ y ∷ ys) = last (y ∷ ys)

pub count_last : (xs : List ℕ) (t : ℕ) → last xs ≡ some t → 0 < count t xs
count_last [] t l = cc
count_last (x ∷ []) t l = ground arith
count_last (x ∷ y ∷ xs) t l = omega (arith, count_last (y ∷ xs) t l)

pub Distinct-tail : (x : ℕ) (xs : List ℕ) → Distinct (x ∷ xs) → Distinct xs
Distinct-tail x xs d a = omega (arith, d a)

pub Distinct-head : (x : ℕ) (xs : List ℕ) → Distinct (x ∷ xs) → count x xs ≡ 0
Distinct-head x xs d = ground (arith, d x)

-- The last of a chain is linked to one more.
pub Chain-snoc :
    (next : Links) (o : Option ℕ) (xs : List ℕ) (t p : ℕ)
    → Distinct xs
    → count p xs ≡ 0
    → last xs ≡ some t
    → Chain next o xs
    → Chain (link (link next t (some p)) p none) o (xs ++ p ∷ [])
Chain-snoc next o [] t p d h l c = cc
Chain-snoc next o (x ∷ []) t p d h l c = (c.0, (ground arith, ground arith))
Chain-snoc next o (x ∷ y ∷ xs) t p d h l (e, c) =
    let ne_last = ne_of_count t x (y ∷ xs) (count_last (y ∷ xs) t l) (Distinct-head x (y ∷ xs) d) in
    let rest =
      Chain-snoc next (next x) (y ∷ xs) t p (Distinct-tail x (y ∷ xs) d) (omega arith) l c in
    let same : link (link next t (some p)) p none x ≡ next x = ground (arith, ne_last) in
    (
      e,
      subst (λ q. Chain (link (link next t (some p)) p none) q (y ∷ xs ++ p ∷ [])) (sym same) rest,
    )

-- What is taken out of a chain.
abbrev pub without : ℕ → List ℕ → List ℕ
without p [] = []
without p (x ∷ xs) = if p == x then xs else x ∷ without p xs

-- The one before `p` in a chain that `x` leads to.
abbrev pub before : ℕ → ℕ → List ℕ → ℕ
before x p [] = x
before x p (y ∷ ys) = if p == y then x else before y p ys

pub count-without :
    (a p : ℕ) (xs : List ℕ)
    → 0 < count p xs
    → count a xs ≡ count a (without p xs) + (if a == p then 1 else 0)
count-without a p [] h = absurd (omega arith)
count-without a p (x ∷ xs) h = ground (arith, count-without a p xs)

pub length-without :
    (p : ℕ) (xs : List ℕ) → 0 < count p xs → length xs ≡ suc (length (without p xs))
length-without p [] h = absurd (omega arith)
length-without p (x ∷ xs) h = ground (arith, length-without p xs)

pub count-before : (x p : ℕ) (ys : List ℕ) → 0 < count (before x p ys) (x ∷ ys)
count-before x p [] = ground arith
count-before x p (y ∷ ys) = ground (arith, count-before y p ys, count_self x (y ∷ ys))

-- A chain that `x` leads to, with `p` taken out of it.
pub Chain-unlink :
    (next : Links) (x p : ℕ) (ys : List ℕ)
    → Distinct (x ∷ ys)
    → 0 < count p ys
    → Chain next (next x) ys
    → let next' = link next (before x p ys) (next p) in Chain next' (next' x) (without p ys)
Chain-unlink next x p [] d h c = absurd (omega arith)
Chain-unlink next x p (y ∷ ys) d h (e, c) = elim (Bool-cases (p == y)) [
  | inl hit ↦
      let same : next y ≡ link next x (next p) x =
        ap next (sym ((==_iff p y).0 hit)) ∙ sym (link_self next x (next p)) in
      rw hit (
        subst (λ q. Chain (link next x (next p)) q ys) same
          (Chain-link next x (next p) (next y) ys (omega (arith, Distinct-head x (y ∷ ys) d)) c))
  | inr miss ↦
      let b = before y p ys in
      let ne = ne_of_count b x (y ∷ ys) (count-before y p ys) (Distinct-head x (y ∷ ys) d) in
      rw miss (
        link_ne next b x (next p) (λ q. ne (sym q)) ∙ e,
        Chain-unlink next y p ys (Distinct-tail x (y ∷ ys) d) (ground (arith, h)) c,
      )
]

last_hit :
    (x p : ℕ) (ys : List ℕ)
    → count p ys ≡ 0
    → (last (p ∷ ys) ≡ some p → last (x ∷ ys) ≡ some x)
      × (last (p ∷ ys) ≢ some p → last (x ∷ ys) ≡ last (p ∷ ys))
last_hit x p [] h = (λ e. refl, λ ne. absurd (ne refl))
last_hit x p (z ∷ zs) h = (λ e. absurd (omega (arith, count_last (z ∷ zs) p e)), λ ne. refl)

-- The last of a chain with `p` taken out.
pub last-without :
    (x p : ℕ) (ys : List ℕ)
    → Distinct (x ∷ ys)
    → 0 < count p ys
    → (last (x ∷ ys) ≡ some p → last (x ∷ without p ys) ≡ some (before x p ys))
      × (last (x ∷ ys) ≢ some p → last (x ∷ without p ys) ≡ last (x ∷ ys))
last-without x p [] d h = absurd (omega arith)
last-without x p (y ∷ ys) d h = elim (Bool-cases (p == y)) [
  | inl hit ↦ rw hit (
      subst
        (λ q.
          (last (q ∷ ys) ≡ some p → last (x ∷ ys) ≡ some x)
          × (last (q ∷ ys) ≢ some p → last (x ∷ ys) ≡ last (q ∷ ys)))
        ((==_iff p y).0 hit)
        (last_hit x p ys (
          subst (λ q. count q ys ≡ 0) (sym ((==_iff p y).0 hit))
            (Distinct-head y ys (Distinct-tail x (y ∷ ys) d)))))
  | inr miss ↦ rw miss (last-without y p ys (Distinct-tail x (y ∷ ys) d) (ground (arith, h)))
]
