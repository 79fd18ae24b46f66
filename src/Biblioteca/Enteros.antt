-- ===== src/Biblioteca/Enteros.antt =====
-- The bytes of an `int`, as `memcpy` copies them into and out of a stream.
use unix_os_simulation.Base.{
  ℕ, ◌+◌, ◌*◌, ◌/◌, ◌%◌, ◌^◌, ◌<◌, ◌≡◌, refl, List, [], ◌∷◌, ◌++◌, Outcome, ok, faults, arith,
  length, take, drop, leb, if◌then◌else◌, le→leb, length-append, take-length-append,
  drop-length-append,
}

abbrev pub int_mod : ℕ
int_mod = 2 ^ 32

unfoldable pub int_bytes : ℕ → List ℕ
int_bytes n = n % 256 ∷ n / 256 % 256 ∷ n / 65536 % 256 ∷ n / 16777216 % 256 ∷ []

-- `memcpy(&n, buffer, sizeof(int))` with the rest of the buffer; past its end C is undefined.
unfoldable pub leer_int : List ℕ → Outcome (ℕ × List ℕ)
leer_int (a ∷ b ∷ c ∷ d ∷ rest) = ok (a + 256 * b + 65536 * c + 16777216 * d, rest)
leer_int _ = faults

-- `memcpy` of a block of `n` bytes out of the buffer.
unfoldable pub leer_bloque : ℕ → List ℕ → Outcome (List ℕ × List ℕ)
leer_bloque n buffer = if leb n (length buffer) then ok (take n buffer, drop n buffer) else faults

pub length-int_bytes : (n : ℕ) → length (int_bytes n) ≡ 4
unfolding int_bytes
length-int_bytes n = refl

pub leer_int-int_bytes :
    (n : ℕ) (rest : List ℕ) → n < int_mod → leer_int (int_bytes n ++ rest) ≡ ok (n, rest)
unfolding int_bytes leer_int
leer_int-int_bytes n rest h = ground arith

pub leer_bloque-append : (b rest : List ℕ) → leer_bloque (length b) (b ++ rest) ≡ ok (b, rest)
unfolding leer_bloque
leer_bloque-append b rest = rw (
  le→leb (length b) (length (b ++ rest)) (omega (arith, length-append b rest)),
  take-length-append b rest,
  drop-length-append b rest,
)
