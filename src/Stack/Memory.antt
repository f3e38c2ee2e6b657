-- ===== src/Stack/Memory.antt =====
-- Accesses through the pointer of a transfer. An access outside of the object is a fault.
use no2usb.Base.{
  ℕ, ◌+◌, ◌≤◌, ◌≡◌, ltb, ◌==◌, ◌>>=◌, if◌then◌else◌, List, ◌++◌, length, take, drop, Run, ok, fault,
  spin, ◌≢◌, arith, Option, none, some,
}
use no2usb.Stack.{Ptr, null, rom, ram, Usb}

-- `len` bytes from `ofs` on.
unfoldable pub slice : List ℕ → ℕ → ℕ → Run (List ℕ)
slice xs ofs len = if ltb (length xs) (ofs + len) then fault else ok (take len (drop ofs xs))

unfoldable pub load : {A : Type 0} → Ptr → ℕ → ℕ → Usb A → Run (List ℕ)
unfolding slice
load null ofs len s = fault
load (rom bs) ofs len s = slice bs ofs len
load (ram b) ofs len s = slice (s.buffers b) ofs len

-- `bs` in place of the bytes from `ofs` on.
unfoldable pub splice : List ℕ → ℕ → List ℕ → Run (List ℕ)
splice xs ofs bs =
    if ltb (length xs) (ofs + length bs)
    then fault
    else ok (take ofs xs ++ (bs ++ drop (ofs + length bs) xs))

abbrev pub set_buffer : ℕ → List ℕ → (ℕ → List ℕ) → ℕ → List ℕ
set_buffer b bs buffers k = if k == b then bs else buffers k

-- A write to a constant descriptor is a fault.
unfoldable pub store_to : Ptr → ℕ → List ℕ → (ℕ → List ℕ) → Run (ℕ → List ℕ)
store_to null ofs bs buffers = fault
store_to (rom _) ofs bs buffers = fault
store_to (ram b) ofs bs buffers = splice (buffers b) ofs bs >>= λ new. ok (set_buffer b new buffers)

unfoldable pub store : {A : Type 0} → Ptr → ℕ → List ℕ → Usb A → Run (Usb A)
store p ofs bs s = store_to p ofs bs s.buffers >>= λ buffers. ok (record s { buffers = buffers })

-- The object that a pointer names, among these buffers.
abbrev pub object : Ptr → (ℕ → List ℕ) → Option (List ℕ)
object null buffers = none
object (rom bs) buffers = some bs
object (ram b) buffers = some (buffers b)

-- A read that stays inside the object gets its bytes.
pub load-object :
    {A : Type 0} (p : Ptr) (xs : List ℕ) (ofs len : ℕ) (s : Usb A)
    → object p s.buffers ≡ some xs
    → ofs + len ≤ length xs
    → load p ofs len s ≡ ok (take len (drop ofs xs))
unfolding load
load-object null xs ofs len s e h = cc
load-object (rom bs) xs ofs len s e h = ground arith
load-object (ram b) xs ofs len s e h = ground arith

-- A copy always comes to an end.
pub load-ends : {A : Type 0} (p : Ptr) (ofs len : ℕ) (s : Usb A) → load p ofs len s ≢ spin
unfolding load slice
load-ends null ofs len s = ground arith
load-ends (rom bs) ofs len s = ground arith
load-ends (ram b) ofs len s = ground arith

pub store-ends :
    {A : Type 0} (p : Ptr) (ofs : ℕ) (bs : List ℕ) (s : Usb A) → store p ofs bs s ≢ spin
unfolding store store_to splice
store-ends null ofs bs s = ground arith
store-ends (rom xs) ofs bs s = ground arith
store-ends (ram b) ofs bs s = ground arith
