-- ===== src/Drive/Bits.antt =====
-- The functions of a loco as bits: what is set is read back.
use command_station_ex.Base.{
  ℕ, zero, suc, ◌+◌, ◌-◌, ◌*◌, ◌/◌, ◌%◌, ◌^◌, ◌≡◌, ◌≤◌, refl, ap, ap₂, sym, ◌∙◌, Bool, true, false,
  arith, ◌==◌, if◌then◌else◌,
}
use native.Mathlib.Nat.{div-div-eq-div-mul, pow-succ'}
use command_station_ex.Drive.Functions.{has_function, with_function}

halved : (f m : ℕ) → f / 2 ^ suc m ≡ f / 2 / 2 ^ m
halved f m = ap (λ x. f / x) (pow-succ' 2 m) ∙ sym (div-div-eq-div-mul f 2 (2 ^ m))

has_function_halved : (f m : ℕ) → has_function f (suc m) ≡ has_function (f / 2) m
has_function_halved f m = ap (λ x. x % 2 == 1) (halved f m)

-- A bit of weight `p` changes; `b` says whether it was set.
abbrev changed : ℕ → ℕ → Bool → Bool → ℕ
changed f p b on = if on then (if b then f else f + p) else if b then f - p else f

changed_halved :
    (f p q : ℕ) (b on : Bool) → p ≡ 2 * q → changed f p b on / 2 ≡ changed (f / 2) q b on
changed_halved f p q true true e = refl
changed_halved f p q true false e = omega (arith, e)
changed_halved f p q false true e = omega (arith, e)
changed_halved f p q false false e = refl

-- A change of a higher bit, seen in half.
with_function_halved :
    (f n : ℕ) (on : Bool) → with_function f (suc n) on / 2 ≡ with_function (f / 2) n on
unfolding with_function
with_function_halved f n on =
    ap (λ b. changed f (2 ^ suc n) b on / 2) (has_function_halved f n)
    ∙ changed_halved f (2 ^ suc n) (2 ^ n) (has_function (f / 2) n) on (pow-succ' 2 n)

changed_parity :
    (f p q : ℕ) (b on : Bool) → p ≡ 2 * q → (b ≡ true → p ≤ f) → changed f p b on % 2 ≡ f % 2
changed_parity f p q true true e h = refl
changed_parity f p q true false e h = omega (arith, e, h refl)
changed_parity f p q false true e h = omega (arith, e)
changed_parity f p q false false e h = refl

weight_below : (f n : ℕ) → has_function f n ≡ true → 2 ^ n ≤ f
weight_below f zero h = ground (arith, h)
weight_below f (suc n) h =
    omega (arith, weight_below (f / 2) n (sym (has_function_halved f n) ∙ h), pow-succ' 2 n)

lowest_changed :
    (f : ℕ) (on : Bool)
    → (changed f 1 (f / 1 % 2 == 1) on / 2 ≡ f / 2)
      × ((changed f 1 (f / 1 % 2 == 1) on / 1 % 2 == 1) ≡ on)
lowest_changed f true = (ground arith, ground arith)
lowest_changed f false = (ground arith, ground arith)

-- Of the functions only the one that is set changes.
pub has_function-with_function :
    (f n m : ℕ) (on : Bool)
    → has_function (with_function f n on) m ≡ (if m == n then on else has_function f m)
unfolding with_function
has_function-with_function f zero zero on = (lowest_changed f on).1
has_function-with_function f zero (suc m) on =
    has_function_halved (with_function f zero on) m
    ∙ ap (λ x. has_function x m) (lowest_changed f on).0
    ∙ sym (has_function_halved f m)
    ∙ ap (λ (b : Bool). if b then on else has_function f (suc m)) (sym (apart m))
  where
    apart : (k : ℕ) → (suc k == 0) ≡ false
    apart k = ground arith
has_function-with_function f (suc n) zero on =
    ap (λ x. x == 1)
      (omega (
        arith,
        changed_parity f (2 ^ suc n) (2 ^ n) (has_function f (suc n)) on (pow-succ' 2 n)
            (weight_below f (suc n)),
      ))
    ∙ ap (λ (b : Bool). if b then on else has_function f 0) (sym (apart n))
  where
    apart : (k : ℕ) → (0 == suc k) ≡ false
    apart k = ground arith
has_function-with_function f (suc n) (suc m) on =
    has_function_halved (with_function f (suc n) on) m
    ∙ ap (λ x. has_function x m) (with_function_halved f n on)
    ∙ has_function-with_function (f / 2) n m on
    ∙ ap₂ (λ (b c : Bool). if b then on else c) (same m n) (sym (has_function_halved f m))
  where
    same : (j k : ℕ) → (j == k) ≡ (suc j == suc k)
    same j k = ground arith
