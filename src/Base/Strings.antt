-- ===== src/Base/Strings.antt =====
-- C strings as the codes of their characters, without the terminating zero byte.
use Prim.Native.Nat.{ℕ}
use Prim.Native.String.{String}
use Prim.Native.Char.{code}
use mathlib.Core.Path.{◌≡◌, refl}
use mathlib.Core.Bool.{Bool, true, false, ◌&&◌}
use mathlib.Core.List.{List, [], ◌∷◌}
use native.Mathlib.Omega.{arith}
use unix_os_simulation.Base.Tests.{◌==◌}

abbrev pub Cadena : Type 0
Cadena = List ℕ

abbrev pub codes : String → Cadena
codes String.[] = []
codes (String.◌∷◌ c s) = code c ∷ codes s

-- `strcmp(a, b) == 0`
unfoldable pub strcmp_eq : Cadena → Cadena → Bool
strcmp_eq [] [] = true
strcmp_eq [] (b ∷ bs) = false
strcmp_eq (a ∷ as_) [] = false
strcmp_eq (a ∷ as_) (b ∷ bs) = (a == b) && strcmp_eq as_ bs

pub strcmp_eq_refl : (a : Cadena) → strcmp_eq a a ≡ true
unfolding strcmp_eq
strcmp_eq_refl [] = refl
strcmp_eq_refl (a ∷ as_) = ground (arith, strcmp_eq_refl as_)

pub strcmp_eq_sound : (a b : Cadena) → strcmp_eq a b ≡ true → a ≡ b
unfolding strcmp_eq
strcmp_eq_sound [] [] e = refl
strcmp_eq_sound [] (b ∷ bs) e = cc
strcmp_eq_sound (a ∷ as_) [] e = cc
strcmp_eq_sound (a ∷ as_) (b ∷ bs) e = ground (arith, strcmp_eq_sound as_ bs)
