-- ===== src/Ring.antt =====
-- RingStream.cpp and RingStream.h: a byte ring that holds framed messages, each a client byte,
-- a two byte count and the message. `_len` and the positions are C ints, here numbers. An `int`
-- result is a number, with `none` for -1.
use command_station_ex.Base.{
  ℕ, zero, suc, ◌+◌, ◌*◌, ◌%◌, ◌/◌, ◌^◌, ◌≡◌, Bool, true, false, Option, none, some, List, [], ◌∷◌,
  not, ◌&&◌, low_byte, high_byte, set, get_or, ltb, ◌==◌, if◌then◌else◌,
}
use command_station_ex.Base.Int.{ℤ, sub_ℕ}
pub mod Window
pub mod Frame
pub mod Message
pub mod Commit
pub mod Send
pub mod Receive
pub mod Reader
pub mod RoundTrip
pub mod Flash
mod Tests

pub record RingStream : Type 0 where
  pub len : ℕ
  pub pos_write : ℕ
  pub pos_read : ℕ
  pub overflow : Bool
  pub mark_pos : ℕ
  pub count : ℕ
  pub buffer : List ℕ
  -- The address in flash that is being read, `none` for NULL.
  pub flash_insert : Option ℕ
  pub ring_client : ℕ

abbrev pub flash_insert_marker : ℕ
flash_insert_marker = 0xff

abbrev pub no_client : ℕ
no_client = 255

-- `storage` is what `new byte[len]` returns, with whatever it holds.
pub init : ℕ → List ℕ → RingStream
init len storage = record {
  len = len;
  pos_write = 0;
  pos_read = 0;
  overflow = false;
  mark_pos = 0;
  count = 0;
  buffer = set storage 0 0;
  flash_insert = none;
  ring_client = no_client;
}

-- `++pos; if (pos==_len) pos=0;`
abbrev pub advance : ℕ → ℕ → ℕ
advance len p = if suc p == len then 0 else suc p

pub write : RingStream → ℕ → RingStream × ℕ
write r b =
    if r.overflow
    then (r, 0)
    else let w = advance r.len r.pos_write in
      let buf = set r.buffer r.pos_write b in
      if w == r.pos_read
      then (record r { buffer = buf; pos_write = w; overflow = true }, 0)
      else (record r { buffer = buf; pos_write = w; count = suc r.count }, 1)

pub read_raw_byte : RingStream → RingStream × ℕ
read_raw_byte r = (
  record r { pos_read = advance r.len r.pos_read; overflow = false },
  get_or r.buffer r.pos_read 0,
)

pub mark : RingStream → ℕ → RingStream
mark r b =
    let r1 = record r { ring_client = b; mark_pos = r.pos_write } in
    let r4 = (write (write (write r1 b).0 0).0 0).0 in record r4 { count = 0 }

pub peek_target_mark : RingStream → ℕ
peek_target_mark r = r.ring_client

pub commit : RingStream → RingStream × Bool
commit r0 =
    let r = record r0 { flash_insert = none } in
    if r.overflow
    then (record r { pos_write = r.mark_pos; overflow = false }, false)
    else if r.count == 0
    then (record r { pos_write = r.mark_pos; ring_client = no_client }, true)
    else let m1 = advance r.len r.mark_pos in
      let m2 = advance r.len m1 in
      (
        record r {
          mark_pos = m2;
          buffer = set (set r.buffer m1 (high_byte r.count)) m2 (low_byte r.count);
          ring_client = no_client;
        },
        true,
      )

-- The operands of `(readRawByte()<<8) | readRawByte()`, read from left to right.
pub read_count : RingStream → RingStream × ℕ
read_count r =
    let (r1, hi) = read_raw_byte r in let (r2, lo) = read_raw_byte r1 in (r2, hi * 256 + lo)

-- It may be negative.
pub free_space : RingStream → ℤ
free_space r =
    if ltb r.pos_write r.pos_read
    then sub_ℕ r.pos_read (r.pos_write + 3)
    else sub_ℕ (r.len + r.pos_read) (r.pos_write + 3)

pub peek : RingStream → Option ℕ
peek r =
    if (r.pos_read == r.pos_write) && not r.overflow
    then none
    else some (get_or r.buffer r.pos_read 0)

pub flush : RingStream → RingStream
flush r = record r {
  pos_write = 0;
  pos_read = 0;
  buffer = set r.buffer 0 0;
  flash_insert = none;
  ring_client = no_client;
}

-- `wide` is `sizeof(void*)>2`; `flash` is the program memory that GETFLASH reads, `strlen` the C
-- library's STRLEN_P, and `print` the Arduino library's print of a flash string. The int16_t length
-- and the int count of a machine with 16 bit pointers are written as their 16 bits.
module _ (wide : Bool) (flash : ℕ → ℕ) (strlen : ℕ → ℕ)
    (print : RingStream → ℕ → RingStream × ℕ) where
  pub print_flash : RingStream → ℕ → RingStream × ℕ
  print_flash r a =
      if wide
      then print r a
      else let plength = strlen a % 65536 in
        if plength == 0
        then (r, 0)
        else let r1 = (write r flash_insert_marker).0 in
          let r2 = (write r1 (a % 256)).0 in
          let r3 = (write r2 (a / 256 % 256)).0 in
          (record r3 { count = (r.count + plength) % 2 ^ 16 }, plength)

  -- What follows the test of `_flashInsert`; the last step is `return read()`.
  pub read_buffer :
      (RingStream → Option (RingStream × Option ℕ)) → RingStream → Option (RingStream × Option ℕ)
  read_buffer again r =
      if (r.pos_read == r.pos_write) && not r.overflow
      then some (r, none)
      else let (r1, b) = read_raw_byte r in
        if not (b == flash_insert_marker)
        then some (r1, some b)
        else if wide
        then some (r1, some b'?')
        else let (r2, lo) = read_raw_byte r1 in
          let (r3, hi) = read_raw_byte r2 in
          let a = lo + 256 * hi in
          again (record r3 { flash_insert = if a == 0 then none else some a })

  -- Each call of itself that the source makes takes one of the fuel; `none` is out of fuel.
  pub read : ℕ → RingStream → Option (RingStream × Option ℕ)
  read zero r = none
  read (suc fuel) r =
      let again = read fuel in
      elim r.flash_insert [
        | none ↦ read_buffer again r
        | some a ↦
            if not (flash a == 0)
            then some (record r { flash_insert = some (suc a) }, some (flash a))
            else read_buffer again (record r { flash_insert = none })
      ]
