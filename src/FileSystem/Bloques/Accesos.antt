-- ===== src/FileSystem/Bloques/Accesos.antt =====
-- filesys.h: `escribirBloque` and `leerBloque` at addresses of the file of blocks, and the bytes they keep.
use unix_os_simulation.Base.{ℕ, zero, suc, ◌+◌, ◌*◌, ◌≤◌, ◌<◌, ◌≡◌, refl, List, ok, length, arith}
use unix_os_simulation.Base.Int.{pos}
use unix_os_simulation.Memoria.Espacio.{bytes_desde, escribir_desde}
use unix_os_simulation.FileSystem.{FileSys}
use unix_os_simulation.FileSystem.Bloques.{escribir_bloque, leer_bloque}

abbrev pub total : FileSys → ℕ
total fs = fs.block_size * fs.block_count

abbrev pub con_datos : (ℕ → ℕ) → FileSys → FileSys
con_datos d fs = record fs { datos_bloques = d }

pub escribir_bloque-en :
    (a o : ℕ) (v : List ℕ) (fs : FileSys)
    → a + o + length v ≤ total fs
    → escribir_bloque (pos a) (pos o) v fs
      ≡ ok (con_datos (escribir_desde fs.datos_bloques (a + o) v) fs)
unfolding escribir_bloque
escribir_bloque-en a o v fs h = ground arith

pub leer_bloque-en :
    (a o n : ℕ) (fs : FileSys)
    → a + o + n ≤ total fs
    → n ≤ 4
    → leer_bloque (pos a) (pos o) n fs ≡ ok (bytes_desde fs.datos_bloques (a + o) n)
unfolding leer_bloque
leer_bloque-en a o n fs h c = ground arith

pub bytes_desde-local :
    (f g : ℕ → ℕ) (p n : ℕ)
    → ((x : ℕ) → p ≤ x → x < p + n → f x ≡ g x)
    → bytes_desde f p n ≡ bytes_desde g p n
bytes_desde-local f g p zero h = refl
bytes_desde-local f g p (suc n) h = rw (
  h p (omega arith) (omega arith),
  bytes_desde-local f g (p + 1) n (λ x le lt. h x (omega arith) (omega arith)),
)
