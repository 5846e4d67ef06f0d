-- ===== src/Dcc/Address.antt =====
-- A decoder's view of the address at the front of a packet.
use command_station_ex.Base.{
  ℕ, ◌+◌, ◌-◌, ◌*◌, ◌≡◌, ◌≤◌, ◌<◌, refl, ap, true, false, Option, none, some, List, [], ◌∷◌, ◌++◌,
  bit_or, length, low_byte, high_byte, ltb, ◌==◌, ==_iff, if◌then◌else◌, passes_below, passes_at,
  Bool-cases, inl, inr, arith,
}
use command_station_ex.Dcc.{address_bytes}

-- A first byte from 192 on holds the high bits of an address of two bytes.
unfoldable pub read_address : List ℕ → Option (ℕ × List ℕ)
read_address [] = none
read_address (b ∷ []) = if ltb b 192 then some (b, []) else none
read_address (b ∷ c ∷ bs) = if ltb b 192 then some (b, c ∷ bs) else some ((b - 192) * 256 + c, bs)

prefixed : (h : ℕ) → h < 64 → bit_or h 0xC0 ≡ h + 192
unfolding passes_below
prefixed h below =
    (==_iff (bit_or h 0xC0) (h + 192)).0 (passes_at (λ x. bit_or x 0xC0 == x + 192) 64 h below refl)

-- The first byte of a longer packet after the address is no part of it.
pub read_address-address_bytes :
    (highest_short cab b : ℕ) (bs : List ℕ)
    → highest_short ≤ 127
    → cab < 10240
    → read_address (address_bytes highest_short cab ++ b ∷ bs) ≡ some (cab, b ∷ bs)
unfolding read_address address_bytes
read_address-address_bytes highest_short cab b bs short fits =
    elim (Bool-cases (ltb highest_short cab)) [
      | inl long ↦
          let e : bit_or (high_byte cab) 0xC0 ≡ high_byte cab + 192 =
            prefixed (high_byte cab) (omega (arith, fits)) in
          let test : ltb (high_byte cab + 192) 192 ≡ false = ground arith in
          let value : (high_byte cab + 192 - 192) * 256 + low_byte cab ≡ cab =
            omega (arith, fits) in
          rw (long, address_bytes)
            (rw e (rw (test, read_address) (ap (λ n. some (n, b ∷ bs)) value)))
      | inr near ↦
          let low : cab ≤ 127 = ground (arith, near, short) in
          let test : ltb (low_byte cab) 192 ≡ true = ground (arith, low) in
          let value : low_byte cab ≡ cab = omega (arith, low) in
          rw (near, address_bytes) (rw (test, read_address) (ap (λ n. some (n, b ∷ bs)) value))
    ]

pub length-address_bytes : (highest_short cab : ℕ) → length (address_bytes highest_short cab) ≤ 2
unfolding address_bytes
length-address_bytes highest_short cab = elim (Bool-cases (ltb highest_short cab)) [
  | inl long ↦ rw (long, address_bytes) (omega arith)
  | inr near ↦ rw (near, address_bytes) (omega arith)
]
