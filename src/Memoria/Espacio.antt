-- ===== src/Memoria/Espacio.antt =====
-- Memoria/src/memoria.h: the reads and writes of `esperarCPU` and `esperarFileSystem`. Neither side
-- checks the range: outside of the block that was allocated C leaves the access undefined.
use unix_os_simulation.Base.{
  ℕ, zero, suc, ◌+◌, ◌≤◌, ◌<◌, ◌≡◌, refl, ◌⊎◌, List, [], ◌∷◌, Outcome, ok, faults, arith, length,
  leb, le→leb, ◌&&◌, if◌then◌else◌,
}
use unix_os_simulation.Memoria.{Memoria}

abbrev pub bytes_desde : (ℕ → ℕ) → ℕ → ℕ → List ℕ
bytes_desde us pos zero = []
bytes_desde us pos (suc n) = us pos ∷ bytes_desde us (pos + 1) n

abbrev pub escribir_desde : (ℕ → ℕ) → ℕ → List ℕ → ℕ → ℕ
escribir_desde us pos [] x = us x
escribir_desde us pos (b ∷ bs) x =
    if leb x pos && leb pos x then b else escribir_desde us (pos + 1) bs x

-- MOV_IN from the CPU and F_WRITE from the file system: the bytes that are sent back.
unfoldable pub leer_espacio : Memoria → ℕ → ℕ → Outcome (List ℕ)
leer_espacio m dir_fisica bytes =
    if leb (dir_fisica + bytes) m.tam_memoria
    then ok (bytes_desde m.user_space dir_fisica bytes)
    else faults

-- MOV_OUT from the CPU and F_READ from the file system.
unfoldable pub escribir_espacio : Memoria → ℕ → List ℕ → Outcome Memoria
escribir_espacio m dir_fisica valor =
    if leb (dir_fisica + length valor) m.tam_memoria
    then ok (record m { user_space = escribir_desde m.user_space dir_fisica valor })
    else faults

escribir_desde_below :
    (us : ℕ → ℕ) (pos : ℕ) (v : List ℕ) (x : ℕ) → x < pos → escribir_desde us pos v x ≡ us x
escribir_desde_below us pos [] x h = refl
escribir_desde_below us pos (b ∷ bs) x h = ground (arith, escribir_desde_below us (pos + 1) bs x)

pub escribir_desde_outside :
    (us : ℕ → ℕ) (pos : ℕ) (v : List ℕ) (x : ℕ)
    → (x < pos) ⊎ (pos + length v ≤ x)
    → escribir_desde us pos v x ≡ us x
escribir_desde_outside us pos [] x h = refl
escribir_desde_outside us pos (b ∷ bs) x h =
    ground (arith, escribir_desde_outside us (pos + 1) bs x)

escribir_desde_at : (us : ℕ → ℕ) (pos b : ℕ) (bs : List ℕ) → escribir_desde us pos (b ∷ bs) pos ≡ b
escribir_desde_at us pos b bs = ground arith

escribir_desde_tail :
    (us : ℕ → ℕ) (pos b : ℕ) (bs : List ℕ) (x : ℕ)
    → pos + 1 ≤ x
    → escribir_desde us pos (b ∷ bs) x ≡ escribir_desde us (pos + 1) bs x
escribir_desde_tail us pos b bs x h = ground arith

bytes_desde-ext :
    (f g : ℕ → ℕ) (pos n : ℕ)
    → ((x : ℕ) → pos ≤ x → f x ≡ g x)
    → bytes_desde f pos n ≡ bytes_desde g pos n
bytes_desde-ext f g pos zero h = refl
bytes_desde-ext f g pos (suc n) h =
    rw (h pos (omega arith), bytes_desde-ext f g (pos + 1) n (λ x le. h x (omega arith)))

pub bytes_desde-escribir :
    (us : ℕ → ℕ) (pos : ℕ) (v : List ℕ) → bytes_desde (escribir_desde us pos v) pos (length v) ≡ v
bytes_desde-escribir us pos [] = refl
bytes_desde-escribir us pos (b ∷ bs) = rw (
  escribir_desde_at us pos b bs,
  bytes_desde-ext (escribir_desde us pos (b ∷ bs)) (escribir_desde us (pos + 1) bs) (pos + 1)
      (length bs) (λ x le. escribir_desde_tail us pos b bs x le),
  bytes_desde-escribir us (pos + 1) bs,
)

-- A write that lies in the user space succeeds, what was written is read back from the same
-- address, and no other byte has changed.
pub leer_espacio-escribir_espacio :
    (m : Memoria) (dir_fisica : ℕ) (valor : List ℕ)
    → dir_fisica + length valor ≤ m.tam_memoria
    → (m' : Memoria) × (escribir_espacio m dir_fisica valor ≡ ok m')
      × (leer_espacio m' dir_fisica (length valor) ≡ ok valor)
      × ((x : ℕ)
          → (x < dir_fisica) ⊎ (dir_fisica + length valor ≤ x)
          → m'.user_space x ≡ m.user_space x)
unfolding leer_espacio escribir_espacio
leer_espacio-escribir_espacio m d v h = (
  record m { user_space = escribir_desde m.user_space d v },
  rw (le→leb (d + length v) m.tam_memoria h),
  rw (le→leb (d + length v) m.tam_memoria h, bytes_desde-escribir m.user_space d v),
  escribir_desde_outside m.user_space d v,
)
