-- ===== src/Proto/Codes/Enum.antt =====
-- An enumeration: its names with their numbers.
use Prim.Native.String.{String}
use text.Mathlib.Text.{◌==◌ as str_eq}
use no2usb.Base.{ℕ, ◌==◌, if◌then◌else◌, List, [], ◌∷◌, Option, none, some}

abbrev pub Enum : Type 0
Enum = List (String × ℕ)

-- The number of a name, and the first name of a number.
abbrev pub code_of : Enum → String → Option ℕ
code_of [] name = none
code_of ((n, c) ∷ e) name = if str_eq n name then some c else code_of e name

abbrev pub name_of : Enum → ℕ → Option String
name_of [] code = none
name_of ((n, c) ∷ e) code = if c == code then some n else name_of e code
