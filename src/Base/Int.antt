-- ===== src/Base/Int.antt =====
-- Signed integers over the native numbers. `negsuc n` is -(n + 1).
use Prim.Native.Nat.{ℕ, suc, ◌+◌, ◌-◌, ◌%◌, ◌≤◌, ◌<◌}
use mathlib.Core.Path.{◌≡◌, ap, ◌∙◌}
use mathlib.Core.Bool.{true}
use native.Mathlib.Omega.{arith}
use command_station_ex.Base.Tests.{ltb, leb, if◌then◌else◌}

pub data ℤ : Type 0 where
  pos : ℕ → ℤ
  negsuc : ℕ → ℤ

abbrev pub pos_part : ℤ → ℕ
pos_part (pos n) = n
pos_part (negsuc n) = 0

abbrev pub neg_part : ℤ → ℕ
neg_part (pos n) = 0
neg_part (negsuc n) = suc n

-- a - b, as an integer.
abbrev pub sub_ℕ : ℕ → ℕ → ℤ
sub_ℕ a b = if leb b a then pos (a - b) else negsuc (b - a - 1)

infixl 65 ◌+ℤ◌
abbrev pub ◌+ℤ◌ : ℤ → ℤ → ℤ
a +ℤ b = sub_ℕ (pos_part a + pos_part b) (neg_part a + neg_part b)

infixl 65 ◌-ℤ◌
abbrev pub ◌-ℤ◌ : ℤ → ℤ → ℤ
a -ℤ b = sub_ℕ (pos_part a + neg_part b) (neg_part a + pos_part b)

infix 50 ◌≤ℤ◌
abbrev pub ◌≤ℤ◌ : ℤ → ℤ → Type 0
a ≤ℤ b = pos_part a + neg_part b ≤ pos_part b + neg_part a

-- A conversion to int16_t: the low 16 bits, in two's complement.
unfoldable pub int16 : ℤ → ℤ
int16 (pos n) = let r = n % 65536 in if ltb r 32768 then pos r else negsuc (65535 - r)
int16 (negsuc n) = let r = n % 65536 in if ltb r 32768 then negsuc r else pos (65535 - r)

abbrev pub FitsInt16 : ℤ → Type 0
FitsInt16 (pos n) = n < 32768
FitsInt16 (negsuc n) = n < 32768

pub int16-FitsInt16 : (v : ℤ) → FitsInt16 v → int16 v ≡ v
unfolding int16
int16-FitsInt16 (pos n) h =
    let low : n % 65536 ≡ n = omega (arith, h) in
    let test : ltb n 32768 ≡ true = ground (arith, h) in
    ap (λ r. if ltb r 32768 then pos r else negsuc (65535 - r)) low
    ∙ ap (λ b. if b then pos n else negsuc (65535 - n)) test
int16-FitsInt16 (negsuc n) h =
    let low : n % 65536 ≡ n = omega (arith, h) in
    let test : ltb n 32768 ≡ true = ground (arith, h) in
    ap (λ r. if ltb r 32768 then negsuc r else pos (65535 - r)) low
    ∙ ap (λ b. if b then negsuc n else pos (65535 - n)) test
