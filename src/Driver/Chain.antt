-- ===== src/Driver/Chain.antt =====
-- Adding a driver to the chain and taking it out again, fw/v0/src/usb.c.
use no2usb.Base.{
  ℕ, zero, suc, ◌≡◌, refl, Bool, Bool-cases, inl, inr, true, false, if◌then◌else◌, List, [], ◌∷◌,
  length, All, ok, fault, arith,
}
use no2usb.Stack.{Usb, DrvId, ctrl_std, fn}
use no2usb.Driver.{same_drv, unlink, register_function_driver, unregister_function_driver}

pub same_drv_refl : (d : DrvId) → same_drv d d ≡ true
same_drv_refl ctrl_std = refl
same_drv_refl (fn n) = ground arith

unlink-first : (d : DrvId) (ds : List DrvId) → unlink d (d ∷ ds) ≡ ok ds
unfolding unlink
unlink-first d [] = rw (same_drv_refl d)
unlink-first d (x ∷ ds) = rw (same_drv_refl d)

-- A driver that was added last is taken out again, and the stack is as it was before.
pub unregister-register :
    {A : Type 0} (d : DrvId) (s : Usb A)
    → unregister_function_driver d (register_function_driver d s) ≡ ok s
unfolding unregister_function_driver register_function_driver
unregister-register d s = rw (unlink-first d s.fnd)

-- The first driver of the chain, the third, the fifth, ...
abbrev pub every_other : List DrvId → List DrvId
every_other [] = []
every_other (x ∷ []) = x ∷ []
every_other (x ∷ y ∷ xs) = x ∷ every_other xs

abbrev pub is_even : ℕ → Bool
is_even zero = true
is_even (suc zero) = false
is_even (suc (suc n)) = is_even n

-- A driver that stands only at even places of the chain, the second, the fourth and so on, or
-- nowhere in it, is not taken out: a chain of even length stays as it is, and one of odd length
-- makes the loop follow a null pointer.
pub unlink-even_places :
    (d : DrvId) (ds : List DrvId)
    → All (λ x. same_drv x d ≡ false) (every_other ds)
    → unlink d ds ≡ (if is_even (length ds) then ok ds else fault)
unfolding unlink
unlink-even_places d [] other = refl
unlink-even_places d (x ∷ []) other = rw (other.0)
unlink-even_places d (x ∷ y ∷ ds) other =
    rw (other.0, unlink-even_places d ds other.1)
      (elim (Bool-cases (is_even (length ds))) [ inl e ↦ rw e | inr o ↦ rw o ])
