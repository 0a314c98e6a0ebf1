-- ===== src/Backend/Page/Memory.antt =====
-- src/backend/page.cpp: what a write leaves to be read.
use prqlite.Base.{
  ℕ, zero, suc, ◌+◌, ◌^◌, ◌<◌, ◌≤◌, [], ◌∷◌, Bytes, le_bytes, of_le, length, length-le_bytes,
  of_le-le_bytes, ◌≡◌, ◌⊎◌, refl, arith, ap, ap₂, ◌∙◌,
}
use prqlite.Backend.Page.{Page, write, read, read_u16, write_u16}

-- Two ranges of bytes do not meet.
abbrev pub Apart : ℕ → ℕ → ℕ → ℕ → Type 0
Apart o n o' n' = (o + n ≤ o') ⊎ (o' + n' ≤ o)

pub write_out :
    (p : Page) (o : ℕ) (bs : Bytes) (i : ℕ) → (i < o) ⊎ (o + length bs ≤ i) → write p o bs i ≡ p i
unfolding write
write_out p o [] i h = refl
write_out p o (b ∷ bs) i h = ground (arith, h, write_out p (o + 1) bs i)

pub read-write-Apart :
    (p : Page) (o : ℕ) (bs : Bytes) (o' n : ℕ)
    → Apart o (length bs) o' n
    → read (write p o bs) o' n ≡ read p o' n
unfolding read
read-write-Apart p o bs o' zero h = refl
read-write-Apart p o bs o' (suc n) h =
    ap₂ ◌∷◌ (write_out p o bs o' (ground (arith, h)))
      (read-write-Apart p o bs (o' + 1) n (ground (arith, h)))

read-write_later :
    (p : Page) (o : ℕ) (b : ℕ) (bs : Bytes) (o' n : ℕ)
    → o < o'
    → read (write p o (b ∷ bs)) o' n ≡ read (write p (o + 1) bs) o' n
unfolding read write
read-write_later p o b bs o' zero h = refl
read-write_later p o b bs o' (suc n) h = ground (arith, read-write_later p o b bs (o' + 1) n)

pub read-write : (p : Page) (o : ℕ) (bs : Bytes) → read (write p o bs) o (length bs) ≡ bs
unfolding read write
read-write p o [] = refl
read-write p o (b ∷ bs) =
    ground (arith, read-write_later p o b bs (o + 1) (length bs), read-write p (o + 1) bs)

pub read_u16-write-Apart :
    (p : Page) (o : ℕ) (bs : Bytes) (o' : ℕ)
    → Apart o (length bs) o' 2
    → read_u16 (write p o bs) o' ≡ read_u16 p o'
unfolding read_u16
read_u16-write-Apart p o bs o' h = ap of_le (read-write-Apart p o bs o' 2 h)

pub read_u16-write_u16 : (p : Page) (o v : ℕ) → v < 2 ^ 16 → read_u16 (write_u16 p o v) o ≡ v
unfolding read_u16 write_u16
read_u16-write_u16 p o v h =
    ap of_le (rw (length-le_bytes 2 v) at (read-write p o (le_bytes 2 v))) ∙ of_le-le_bytes 2 v h

pub read_u16-write_u16-Apart :
    (p : Page) (o v o' : ℕ) → Apart o 2 o' 2 → read_u16 (write_u16 p o v) o' ≡ read_u16 p o'
unfolding write_u16
read_u16-write_u16-Apart p o v o' h =
    read_u16-write-Apart p o (le_bytes 2 v) o' (rw length-le_bytes h)

pub read-write_u16-Apart :
    (p : Page) (o v o' n : ℕ) → Apart o 2 o' n → read (write_u16 p o v) o' n ≡ read p o' n
unfolding write_u16
read-write_u16-Apart p o v o' n h = read-write-Apart p o (le_bytes 2 v) o' n (rw length-le_bytes h)
