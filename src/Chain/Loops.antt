-- ===== src/Chain/Loops.antt =====
-- The loops `for (p=head; p; p=p->next)` over a chain. Each takes a fuel, which a chain no longer
-- than it does not use up.
use command_station_ex.Base.{
  ℕ, zero, suc, ◌≤◌, ◌<◌, ◌≡◌, refl, Bool, Option, none, some, List, [], ◌∷◌, arith, length, ◌==◌,
  if◌then◌else◌,
}
use command_station_ex.Chain.{Links, Chain, count, before}

-- The first slot that passes a test.
unfoldable pub find_slot : ℕ → Links → (ℕ → Bool) → Option ℕ → Option ℕ
find_slot zero next test o = none
find_slot (suc fuel) next test none = none
find_slot (suc fuel) next test (some p) =
    let rest = find_slot fuel next test (next p) in if test p then some p else rest

unfoldable pub first : (ℕ → Bool) → List ℕ → Option ℕ
first test [] = none
first test (x ∷ xs) = if test x then some x else first test xs

pub find_slot-first :
    (fuel : ℕ) (next : Links) (test : ℕ → Bool) (o : Option ℕ) (xs : List ℕ)
    → Chain next o xs
    → length xs ≤ fuel
    → find_slot fuel next test o ≡ first test xs
unfolding find_slot first
find_slot-first zero next test o [] c h = refl
find_slot-first zero next test o (x ∷ xs) c h = absurd (omega arith)
find_slot-first (suc fuel) next test o [] c h = rw c
find_slot-first (suc fuel) next test o (x ∷ xs) (e, c) h =
    rw (e, find_slot) (ground (arith, find_slot-first fuel next test (next x) xs c))

-- The slot before `p`: `none` if the loop does not find `p`, else the value of `previous` there.
unfoldable pub find_previous : ℕ → Links → ℕ → Option ℕ → Option ℕ → Option (Option ℕ)
find_previous zero next p previous o = none
find_previous (suc fuel) next p previous none = none
find_previous (suc fuel) next p previous (some q) =
    let rest = find_previous fuel next p (some q) (next q) in if p == q then some previous else rest

pub find_previous-before :
    (fuel : ℕ) (next : Links) (x p : ℕ) (o : Option ℕ) (ys : List ℕ)
    → Chain next o ys
    → length ys ≤ fuel
    → 0 < count p ys
    → find_previous fuel next p (some x) o ≡ some (some (before x p ys))
unfolding find_previous
find_previous-before fuel next x p o [] c h i = absurd (omega arith)
find_previous-before zero next x p o (y ∷ ys) c h i = absurd (omega arith)
find_previous-before (suc fuel) next x p o (y ∷ ys) (e, c) h i =
    rw (e, find_previous) (ground (arith, find_previous-before fuel next y p (next y) ys c))

pub find_previous_missing :
    (fuel : ℕ) (next : Links) (p : ℕ) (previous o : Option ℕ) (ys : List ℕ)
    → Chain next o ys
    → count p ys ≡ 0
    → find_previous fuel next p previous o ≡ none
unfolding find_previous
find_previous_missing zero next p previous o ys c i = refl
find_previous_missing (suc fuel) next p previous o [] c i = rw c
find_previous_missing (suc fuel) next p previous o (y ∷ ys) (e, c) i =
    rw (e, find_previous) (ground (arith, find_previous_missing fuel next p (some y) (next y) ys c))
