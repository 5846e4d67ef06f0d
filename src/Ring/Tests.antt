-- ===== src/Ring/Tests.antt =====
-- The ring of twelve cells, empty and in use.
use command_station_ex.Base.{
  ℕ, ◌+◌, ◌≡◌, ◌↔◌, refl, inl, true, false, none, some, List, [], ◌∷◌, ◌++◌, arith, ◌==◌,
  if◌then◌else◌, replicate, length,
}
use command_station_ex.Base.Int.{pos, ◌≤ℤ◌}
use command_station_ex.Ring.{RingStream, write, mark, commit, free_space, print_flash}
use command_station_ex.Ring.Frame.{Holds}
use command_station_ex.Ring.Message.{Live, write_all}
use command_station_ex.Ring.Send.{send, framed, send-framed}
use command_station_ex.Ring.Receive.{Item, byte, text, encode, decode}
use command_station_ex.Ring.Reader.{read_n, read_n-decode}
use command_station_ex.Ring.RoundTrip.{free_space-send, receive, receive-send}
use command_station_ex.Ring.Flash.{print_flash-Live}

abbrev empty : RingStream
empty = record {
  len = 12;
  pos_write = 10;
  pos_read = 10;
  overflow = false;
  mark_pos = 10;
  count = 0;
  buffer = replicate 12 0;
  flash_insert = none;
  ring_client = 255;
}

empty-Holds : Holds empty []
empty-Holds = record {
  valid = omega arith;
  fits = omega arith;
  ends = refl;
  bytes = refl;
  clear = refl;
}

-- "Hi" at address 300 of the flash.
abbrev flash : ℕ → ℕ
flash a = if a == 300 then b'H' else if a == 301 then b'i' else 0

abbrev strlen : ℕ → ℕ
strlen a = if a == 300 then 2 else 0

abbrev print : RingStream → ℕ → RingStream × ℕ
print r a = (r, 0)

-- The ring goes round its end, and a message too long leaves it as it was.
send_runs :
    ((send 1 (65 ∷ 66 ∷ []) empty).0.pos_write ≡ 3)
    × ((send 1 (65 ∷ 66 ∷ []) empty).0.buffer
        ≡ 2 ∷ 65 ∷ 66 ∷ 0 ∷ 0 ∷ 0 ∷ 0 ∷ 0 ∷ 0 ∷ 0 ∷ 1 ∷ 0 ∷ [])
    × ((send 1 (replicate 9 65) empty).1 ≡ false)
unfolding send write_all mark write commit
send_runs = (refl, refl, refl)

send-framed_example :
    Holds (send 1 (65 ∷ 66 ∷ []) empty).0 (framed 12 [] 1 (65 ∷ 66 ∷ [])).0
    × ((send 1 (65 ∷ 66 ∷ []) empty).1 ≡ (framed 12 [] 1 (65 ∷ 66 ∷ [])).1)
send-framed_example = send-framed empty [] (65 ∷ 66 ∷ []) 1 empty-Holds

free_space-send_example : ((send 1 (65 ∷ []) empty).1 ≡ true) ↔ (pos 2 ≤ℤ free_space empty)
free_space-send_example = free_space-send empty [] (65 ∷ []) 1 empty-Holds

receive-send_example :
    ((send 1 (65 ∷ 66 ∷ []) empty).1 ≡ true)
    × ((r' : RingStream) × (receive flash strlen print (send 1 (65 ∷ 66 ∷ []) empty).0
          ≡ some (r', 1, 65 ∷ 66 ∷ []))
        × Holds r' [])
receive-send_example =
    receive-send flash strlen print empty 1 65 (66 ∷ []) empty-Holds (omega arith) (omega arith)
      (omega arith)

-- A byte and the text, as they stand in the ring.
abbrev mixed : RingStream
mixed = record empty {
  pos_write = 4;
  buffer = 44 ∷ 1 ∷ 0 ∷ 0 ∷ 0 ∷ 0 ∷ 0 ∷ 0 ∷ 0 ∷ 0 ∷ 65 ∷ 255 ∷ [];
}

abbrev items : List Item
items = byte 65 ∷ text 300 (b'H' ∷ b'i' ∷ []) ∷ []

mixed-Holds : Holds (record mixed { pos_write = 2 }) (encode items)
unfolding encode
mixed-Holds = record {
  valid = omega arith;
  fits = omega arith;
  ends = refl;
  bytes = refl;
  clear = refl;
}

read_n-decode_example :
    (r' : RingStream) × (read_n flash strlen print
        (length ([] ++ decode items))
        (record mixed { pos_write = 2 })
      ≡ some (r', [] ++ decode items))
    × Holds r' []
read_n-decode_example =
    read_n-decode flash strlen print items [] (record mixed { pos_write = 2 })
      (
        omega arith,
        (
          (omega arith, omega arith, omega arith, (refl, omega arith, (refl, omega arith, refl))),
          tt,
        ),
      )
      (inl (refl, refl)) mixed-Holds

opened-Live : Live (record empty { ring_client = 1 }) [] []
opened-Live = record {
  holds = record {
    valid = omega arith;
    fits = omega arith;
    ends = refl;
    bytes = refl;
    clear = refl;
  };
  mark_at = refl;
}

print_flash-Live_example :
    let (r', n) = print_flash false flash strlen print (record empty { ring_client = 1 }) 300 in
    Live r' [] ([] ++ encode (text 300 (b'H' ∷ b'i' ∷ []) ∷ [])) × (r'.count ≡ 0 + 2) × (n ≡ 2)
print_flash-Live_example =
    print_flash-Live flash strlen print (record empty { ring_client = 1 }) 300 (b'H' ∷ b'i' ∷ []) []
      [] opened-Live (omega arith) (omega arith) (omega arith)
