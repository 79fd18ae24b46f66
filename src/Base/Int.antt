-- ===== src/Base/Int.antt =====
-- Signed integers: `negsuc n` is -(n + 1). `atoi` and C's division, which rounds towards 0.
use Prim.Native.Nat.{ℕ, suc, ◌+◌, ◌-◌, ◌*◌, ◌/◌, ◌%◌}
use mathlib.Core.Bool.{Bool, false, ◌&&◌}
use mathlib.Core.List.{List, [], ◌∷◌}
use unix_os_simulation.Base.Tests.{◌==◌, leb, if◌then◌else◌}

pub data ℤ : Type 0 where
  pos : ℕ → ℤ
  negsuc : ℕ → ℤ

-- a - b
abbrev pub sub_ℕ : ℕ → ℕ → ℤ
sub_ℕ a b = if leb b a then pos (a - b) else negsuc (b - a - 1)

abbrev pub neg : ℕ → ℤ
neg n = sub_ℕ 0 n

abbrev pub pos_part : ℤ → ℕ
pos_part (pos n) = n
pos_part (negsuc n) = 0

abbrev pub neg_part : ℤ → ℕ
neg_part (pos n) = 0
neg_part (negsuc n) = suc n

infixl 65 ◌+ℤ◌
abbrev pub ◌+ℤ◌ : ℤ → ℤ → ℤ
a +ℤ b = sub_ℕ (pos_part a + pos_part b) (neg_part a + neg_part b)

-- The quotient and the remainder of C, by a positive divisor.
abbrev pub quot : ℤ → ℕ → ℤ
quot (pos n) d = pos (n / d)
quot (negsuc n) d = neg (suc n / d)

abbrev pub rem : ℤ → ℕ → ℤ
rem (pos n) d = pos (n % d)
rem (negsuc n) d = neg (suc n % d)

abbrev pub leb_ℤ : ℤ → ℤ → Bool
leb_ℤ a b = leb (pos_part a + neg_part b) (pos_part b + neg_part a)

abbrev pub es_menos_uno : ℤ → Bool
es_menos_uno (pos n) = false
es_menos_uno (negsuc n) = n == 0

-- An `int` of 32 bits in two's complement.
abbrev pub int_c : ℤ → ℤ
int_c (pos n) =
    if leb (n % 4294967296) 2147483647
    then pos (n % 4294967296)
    else negsuc (4294967295 - n % 4294967296)
int_c (negsuc n) =
    if leb (n % 4294967296) 2147483647
    then negsuc (n % 4294967296)
    else pos (4294967295 - n % 4294967296)

-- The digits up to the first other character.
unfoldable pub digitos : ℕ → List ℕ → ℕ
digitos acc [] = acc
digitos acc (c ∷ cs) =
    let rest = digitos (acc * 10 + (c - b'0')) cs in if leb b'0' c && leb c b'9' then rest else acc

-- `atoi` of a text with no white space in front.
unfoldable pub atoi : List ℕ → ℤ
unfolding digitos
atoi [] = pos 0
atoi (c ∷ cs) =
    if c == b'-'
    then neg (digitos 0 cs)
    else if c == b'+'
    then pos (digitos 0 cs)
    else pos (digitos 0 (c ∷ cs))
