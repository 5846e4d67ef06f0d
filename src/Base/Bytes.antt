-- ===== src/Base/Bytes.antt =====
-- Facts over a small range, checked value by value, and the bytes of a word.
use Prim.Native.Nat.{ℕ, zero, suc, ◌/◌, ◌%◌, ◌<◌}
use mathlib.Core.Path.{◌≡◌}
use mathlib.Core.Bool.{Bool, true, ◌&&◌}
use native.Mathlib.Omega.{arith}

-- Whether a test passes at every number under a bound.
unfoldable pub passes_below : (ℕ → Bool) → ℕ → Bool
passes_below test zero = true
passes_below test (suc top) = passes_below test top && test top

pub passes_at :
    (test : ℕ → Bool) (bound at : ℕ) → at < bound → passes_below test bound ≡ true → test at ≡ true
unfolding passes_below
passes_at test zero at below all = elim below [ ]
passes_at test (suc top) at below all = ground (arith, passes_at test top at)

-- Arduino's `lowByte` and `highByte` of a 16 bit value.
abbrev pub low_byte : ℕ → ℕ
low_byte w = w % 256

abbrev pub high_byte : ℕ → ℕ
high_byte w = w / 256 % 256
