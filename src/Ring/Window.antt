-- ===== src/Ring/Window.antt =====
-- The bytes that a ring of `len` cells holds, as a list.
use command_station_ex.Base.{
  ℕ, zero, suc, ◌+◌, ◌-◌, ◌≤◌, ◌<◌, ◌≡◌, refl, ap, ap₂, sym, subst, ◌∙◌, ◌≢◌, List, [], ◌∷◌, ◌++◌,
  tail, arith, length, set, get_or, get_or-set_self, get_or-set_ne, ltb, if◌then◌else◌,
}
use command_station_ex.Ring.{advance}

-- The position `k` cells after `h`.
abbrev pub index : ℕ → ℕ → ℕ → ℕ
index len h k = if ltb (h + k) len then h + k else h + k - len

-- The `n` bytes from position `h` on.
abbrev pub window : List ℕ → ℕ → ℕ → ℕ → List ℕ
window buf len h zero = []
window buf len h (suc n) = get_or buf h 0 ∷ window buf len (advance len h) n

pub length-window : (buf : List ℕ) (len h n : ℕ) → length (window buf len h n) ≡ n
length-window buf len h zero = refl
length-window buf len h (suc n) = ap suc (length-window buf len (advance len h) n)

index-advance :
    (len h k : ℕ) → h < len → k < len → index len (advance len h) k ≡ index len h (suc k)
index-advance len h k hh hk = ground arith

pub index-lt : (len h k : ℕ) → h < len → k < len → index len h k < len
index-lt len h k hh hk = ground arith

pub advance-index :
    (len h k : ℕ) → h < len → k < len → advance len (index len h k) ≡ index len h (suc k)
advance-index len h k hh hk = ground arith

pub index-zero : (len h : ℕ) → h < len → index len h 0 ≡ h
index-zero len h hh = ground arith

pub index-inj :
    (len h j k : ℕ) → h < len → j < len → k < len → index len h j ≡ index len h k → j ≡ k
index-inj len h j k hh hj hk e = ground arith

advance-lt : (len h : ℕ) → h < len → advance len h < len
advance-lt len h hh = ground arith

pub index-ne : (len h k i : ℕ) → h < len → suc k < len → i ≡ index len h (suc k) → i ≢ h
index-ne len h k i hh hk e = ground arith

index_before : (len h : ℕ) → h < len → 0 < len → h ≡ index len (advance len h) (len - 1)
index_before len h hh hl = ground arith

-- A write past the window leaves it.
pub window-set_past :
    (buf : List ℕ) (len h n k i v : ℕ)
    → h < len
    → n ≤ k
    → k < len
    → i ≡ index len h k
    → window (set buf i v) len h n ≡ window buf len h n
window-set_past buf len h zero k i v hh hn hk e = refl
window-set_past buf len h (suc n) zero i v hh hn hk e = absurd (omega arith)
window-set_past buf len h (suc n) (suc k) i v hh hn hk e =
    ap₂ ◌∷◌ (get_or-set_ne buf i h v 0 (index-ne len h k i hh hk e)) (
      window-set_past buf len (advance len h) n k i v (advance-lt len h hh) (omega arith)
        (omega arith) (e ∙ sym (index-advance len h k hh (omega arith))))

-- The cell `h` is the last of the ring that starts after it.
window-set_start :
    (buf : List ℕ) (len h n v : ℕ)
    → h < len
    → suc n ≤ len
    → window (set buf h v) len (advance len h) n ≡ window buf len (advance len h) n
window-set_start buf len h n v hh hn =
    window-set_past buf len (advance len h) n (len - 1) h v (advance-lt len h hh) (omega arith)
      (omega arith) (index_before len h hh (omega arith))

-- A write inside the window is a write to the list.
pub window-set :
    (buf : List ℕ) (len h n k i v : ℕ)
    → h < len
    → k < n
    → n ≤ len
    → len ≤ length buf
    → i ≡ index len h k
    → window (set buf i v) len h n ≡ set (window buf len h n) k v
window-set buf len h zero k i v hh hk hn hb e = refl
window-set buf len h (suc n) zero i v hh hk hn hb e =
    subst (λ j. window (set buf j v) len h (suc n) ≡ v ∷ window buf len (advance len h) n)
      (sym (e ∙ index-zero len h hh))
      (ap₂ ◌∷◌ (get_or-set_self buf h v 0 (omega arith)) (window-set_start buf len h n v hh hn))
window-set buf len h (suc n) (suc k) i v hh hk hn hb e =
    ap₂ ◌∷◌ (get_or-set_ne buf i h v 0 (index-ne len h k i hh (omega arith) e)) (
      window-set buf len (advance len h) n k i v (advance-lt len h hh) (omega arith) (omega arith)
        hb (e ∙ sym (index-advance len h k hh (omega arith))))

pub window-snoc :
    (buf : List ℕ) (len h n : ℕ)
    → h < len
    → n < len
    → window buf len h (suc n) ≡ window buf len h n ++ get_or buf (index len h n) 0 ∷ []
window-snoc buf len h zero hh hn = ap (λ i. get_or buf i 0 ∷ []) (sym (index-zero len h hh))
window-snoc buf len h (suc n) hh hn = ap (◌∷◌ (get_or buf h 0)) (
    window-snoc buf len (advance len h) n (advance-lt len h hh) (omega arith)
    ∙ ap (λ i. window buf len (advance len h) n ++ get_or buf i 0 ∷ [])
        (index-advance len h n hh (omega arith)))

pub advance-advance-index :
    (len h k : ℕ)
    → h < len
    → suc k < len
    → advance len (advance len (index len h k)) ≡ index len h (suc (suc k))
advance-advance-index len h k hh hk = ground arith

-- A write just past the window extends it.
pub window-push :
    (buf : List ℕ) (len h n i v : ℕ)
    → h < len
    → n < len
    → len ≤ length buf
    → i ≡ index len h n
    → window (set buf i v) len h (suc n) ≡ window buf len h n ++ v ∷ []
window-push buf len h n i v hh hn hb e =
    window-snoc (set buf i v) len h n hh hn
    ∙ ap₂ (λ xs b. xs ++ b ∷ []) (window-set_past buf len h n n i v hh (omega arith) hn e)
        (ap (λ j. get_or (set buf i v) j 0) (sym e)
          ∙ get_or-set_self buf i v 0 (omega (arith, e, index-lt len h n hh hn)))

pub advance-index_full :
    (len h k i : ℕ) → h < len → suc k ≡ len → i ≡ index len h k → advance len i ≡ h
advance-index_full len h k i hh full e = ground arith

-- The first part of a window.
pub window-prefix :
    (buf : List ℕ) (len h : ℕ) (xs ys : List ℕ)
    → window buf len h (length (xs ++ ys)) ≡ xs ++ ys
    → window buf len h (length xs) ≡ xs
window-prefix buf len h [] ys e = refl
window-prefix buf len h (x ∷ xs) ys e =
    ap₂ ◌∷◌ (ap (λ l. get_or l 0 0) e) (window-prefix buf len (advance len h) xs ys (ap (tail) e))
