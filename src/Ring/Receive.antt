-- ===== src/Ring/Receive.antt =====
-- Reading the ring: its bytes in order, the count of a message, and the flash strings that
-- `printFlash` left in it by their addresses.
use command_station_ex.Base.{
  ℕ, suc, ◌+◌, ◌*◌, ◌/◌, ◌%◌, ◌<◌, ◌≡◌, ◌≢◌, refl, sym, ap, ap₂, ◌∙◌, ◌⊎◌, Option, none, some, List,
  [], ◌∷◌, ◌++◌, tail, arith, length, get_or,
}
use command_station_ex.Ring.{RingStream, advance, read_raw_byte, read_count, flash_insert_marker}
use command_station_ex.Ring.Window.{index}
use command_station_ex.Ring.Frame.{Holds}

index-cons :
    (len h k : ℕ) → h < len → suc k < len → index len h (suc k) ≡ index len (advance len h) k
index-cons len h k hh hk = ground arith

index_self : (len h k : ℕ) → h < len → suc k < len → index len h (suc k) ≢ h
index_self len h k hh hk e = ground arith

-- A ring that holds a byte is not taken for empty.
pub ne_ends : (r : RingStream) (b : ℕ) (xs : List ℕ) → Holds r (b ∷ xs) → r.pos_read ≢ r.pos_write
ne_ends r b xs h e =
    index_self r.len r.pos_read (length xs) h.valid.read_in h.fits (sym h.ends ∙ sym e)

-- The reader's place in a flash string is no part of what the ring holds.
pub Holds-flash :
    {r : RingStream} {xs : List ℕ} (o : Option ℕ)
    → Holds r xs
    → Holds (record r { flash_insert = o }) xs
Holds-flash o h = record {
  valid = omega (arith, h.valid);
  fits = h.fits;
  ends = h.ends;
  bytes = h.bytes;
  clear = h.clear;
}

-- A raw read takes the oldest byte.
pub read_raw_byte-Holds :
    (r : RingStream) (b : ℕ) (xs : List ℕ)
    → Holds r (b ∷ xs)
    → Holds (read_raw_byte r).0 xs
      × ((read_raw_byte r).1 ≡ b)
      × ((read_raw_byte r).0.flash_insert ≡ r.flash_insert)
unfolding read_raw_byte
read_raw_byte-Holds r b xs h = (
  record {
    valid = record {
      storage = h.valid.storage;
      small = h.valid.small;
      read_in = ground (arith, h.valid.read_in);
      write_in = h.valid.write_in;
      mark_in = h.valid.mark_in;
    };
    fits = omega (arith, h.fits);
    ends = h.ends ∙ index-cons r.len r.pos_read (length xs) h.valid.read_in h.fits;
    bytes = ap tail h.bytes;
    clear = refl;
  },
  ap (λ l. get_or l 0 0) h.bytes,
  refl,
)

pub read_count-Holds :
    (r : RingStream) (hi lo : ℕ) (xs : List ℕ)
    → Holds r (hi ∷ lo ∷ xs)
    → Holds (read_count r).0 xs
      × ((read_count r).1 ≡ hi * 256 + lo)
      × ((read_count r).0.flash_insert ≡ r.flash_insert)
unfolding read_count
read_count-Holds r hi lo xs h =
    let (h1, b1, f1) = read_raw_byte-Holds r hi (lo ∷ xs) h in
    let (h2, b2, f2) = read_raw_byte-Holds (read_raw_byte r).0 lo xs h1 in
    (h2, ap₂ (λ a b. a * 256 + b) b1 b2, f2 ∙ f1)

-- What a reader of the ring is to see: plain bytes, and flash strings by address and text.
pub data Item : Type 0 where
  byte : ℕ → Item
  text : ℕ → List ℕ → Item

unfoldable pub encode : List Item → List ℕ
encode [] = []
encode (byte b ∷ xs) = b ∷ encode xs
encode (text a s ∷ xs) = flash_insert_marker ∷ a % 256 ∷ a / 256 % 256 ∷ encode xs

unfoldable pub decode : List Item → List ℕ
decode [] = []
decode (byte b ∷ xs) = b ∷ decode xs
decode (text a s ∷ xs) = s ++ decode xs

module _ (flash : ℕ → ℕ) where
  -- From address `a` on the flash holds the text `s` and a zero byte.
  abbrev pub Spells : ℕ → List ℕ → Type 0
  Spells a [] = flash a ≡ 0
  Spells a (c ∷ s) = (flash a ≡ c) × (c ≢ 0) × Spells (suc a) s

  abbrev pub IsItem : Item → Type 0
  IsItem (byte b) = b ≢ flash_insert_marker
  IsItem (text a s) = (0 < a) × (a < 65536) × (0 < length s) × Spells a s

  abbrev pub AllItems : List Item → Type 0
  AllItems [] = Unit {0}
  AllItems (x ∷ xs) = IsItem x × AllItems xs

  -- The reader is at a flash string with `s` still to come, or at none.
  abbrev pub Reading : RingStream → List ℕ → Type 0
  Reading r s =
      ((r.flash_insert ≡ none) × (s ≡ [])) ⊎ ((a : ℕ) × (r.flash_insert ≡ some a) × Spells a s)
