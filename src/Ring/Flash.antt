-- ===== src/Ring/Flash.antt =====
-- `printFlash` inside a message: a marker and an address stand for the text.
use command_station_ex.Base.{
  ℕ, ◌+◌, ◌/◌, ◌%◌, ◌^◌, ◌<◌, ◌≡◌, refl, ap, ◌∙◌, false, ◌==◌, if◌then◌else◌, List, [], ◌∷◌, ◌++◌,
  arith, length,
}
use command_station_ex.Ring.{RingStream, print_flash, flash_insert_marker}
use command_station_ex.Ring.Message.{Live, write_all, write_all-Live, Live-count}
use command_station_ex.Ring.Receive.{text, encode}

module _ (flash : ℕ → ℕ) (strlen : ℕ → ℕ) (print : RingStream → ℕ → RingStream × ℕ) where
  print_flash_writes :
      (r : RingStream) (a : ℕ)
      → 0 < strlen a
      → r.count + strlen a < 32768
      → print_flash false flash strlen print r a ≡ (
        record (write_all (flash_insert_marker ∷ a % 256 ∷ a / 256 % 256 ∷ []) r) {
          count = r.count + strlen a;
        },
        strlen a,
      )
  unfolding print_flash write_all
  print_flash_writes r a h fits =
      let whole : strlen a % 65536 ≡ strlen a = omega (arith, fits) in
      let all : (r.count + strlen a) % 2 ^ 16 ≡ r.count + strlen a = omega (arith, fits) in
      let some_text : (strlen a == 0) ≡ false = ground (arith, h) in
      let counted : ℕ → RingStream = λ n.
        record (write_all (flash_insert_marker ∷ a % 256 ∷ a / 256 % 256 ∷ []) r) { count = n } in
      ap
        (λ n.
          let x : RingStream × ℕ =
            if n == 0 then (r, 0) else (counted ((r.count + n) % 2 ^ 16), n) in
          x)
        whole
      ∙ ap
          (λ b.
            let x : RingStream × ℕ =
              if b then (r, 0) else (counted ((r.count + strlen a) % 2 ^ 16), strlen a) in
            x)
          some_text
      ∙ ap (λ n. (counted n, strlen a)) all

  -- On a machine with 16 bit pointers, a text of the flash that is not empty, whose three bytes
  -- leave a free cell, is appended to the message as its marker and address, and is counted and
  -- reported at its own length; this is for a count that stays below 32768 with that length.
  pub print_flash-Live :
      (r : RingStream) (a : ℕ) (s : List ℕ) (old msg : List ℕ)
      → Live r old msg
      → length old + length msg + 3 < r.len
      → 0 < strlen a
      → r.count + strlen a < 32768
      → let (r', n) = print_flash false flash strlen print r a in
        Live r' old (msg ++ encode (text a s ∷ []))
        × (r'.count ≡ r.count + strlen a)
        × (n ≡ strlen a)
  unfolding encode
  print_flash-Live r a s old msg l room h fits =
      let (l', _, _) =
        write_all-Live (flash_insert_marker ∷ a % 256 ∷ a / 256 % 256 ∷ []) r old msg l
          (omega arith) in
      rw (print_flash_writes r a h fits) (Live-count (r.count + strlen a) l', refl, refl)
