-- ===== src/FileSystem/Lista/Liberar.antt =====
-- filesys.h: the steps of `liberarUltimoBloqueFCB` on blocks of the file of blocks.
use native.Mathlib.Nat.{mul-div_cancel}
use unix_os_simulation.Base.{
  ℕ, zero, suc, ◌+◌, ◌*◌, ◌≤◌, ◌<◌, ◌≡◌, refl, ap, ◌∙◌, ◌⊎◌, true, false, Bool, List, [], Option,
  none, some, Outcome, ok, ◌>>=◌, arith, length, get_elem?, ◌==◌, if◌then◌else◌, lt→ltb,
}
use unix_os_simulation.Base.Int.{ℤ, pos, negsuc, ◌+ℤ◌}
use unix_os_simulation.Biblioteca.Enteros.{leer_int}
use unix_os_simulation.Memoria.Espacio.{escribir_desde, escribir_desde_outside}
use unix_os_simulation.FileSystem.{Fcb, FileSys}
use unix_os_simulation.FileSystem.Bitmap.{get_elem?-clean_bit}
use unix_os_simulation.FileSystem.Bloques.{
  ceros, por_int, no_negativo, con_signo, borrar_contenido, limpiar_bloque, leer_bloque,
  liberar_bit, liberar_directo, liberar_indirecto, liberar_punteros, liberar_ultimo_bloque_fcb,
  perder_bloque, asentar_fcb,
}
use unix_os_simulation.FileSystem.Bloques.Accesos.{total, con_datos, escribir_bloque-en}
use unix_os_simulation.FileSystem.Lista.{IsDimensionado, get_elem?-lt, bloque_dentro}

abbrev pub con_bits : List Bool → FileSys → FileSys
con_bits bs fs = record fs { bitmap = bs }

-- The bits when that of `k` has been cleaned.
pub record Limpio (bs : List Bool) (k : ℕ) (bs' : List Bool) : Type 0 where
  pub bits : (j : ℕ) → get_elem? bs' j ≡ (if k == j then some false else get_elem? bs j)
  pub largo : length bs' ≡ length bs

pub liberar_bit-en :
    (fs : FileSys) (k : ℕ)
    → 4 ≤ fs.block_size
    → get_elem? fs.bitmap k ≡ some true
    → (bs : List Bool) × (liberar_bit (k * fs.block_size) fs ≡ ok (con_bits bs fs))
      × Limpio fs.bitmap k bs
unfolding liberar_bit
liberar_bit-en fs k l t =
    let (bs, e, n, b) = get_elem?-clean_bit fs.bitmap k t in
    (bs, rw (mul-div_cancel k (mayor fs.block_size l), e) refl, record { bits = b; largo = n })
  where
    mayor : (b : ℕ) → 4 ≤ b → 0 < b
    mayor b l = omega arith

pub length-ceros : (n : ℕ) → length (ceros n) ≡ n
length-ceros zero = refl
length-ceros (suc n) = ap suc (length-ceros n)

borrar_contenido-en :
    (a o n : ℕ) (fs : FileSys)
    → a + o + n ≤ total fs
    → borrar_contenido (pos a) (pos o) n fs
      ≡ ok (con_datos (escribir_desde fs.datos_bloques (a + o) (ceros n)) fs)
unfolding borrar_contenido
borrar_contenido-en a o n fs h =
    escribir_bloque-en a o (ceros n) fs (omega (arith, h, length-ceros n))

-- The branch for the indirect pointer, and what follows both.
unfoldable pub rama : Option ℕ → FileSys → Fcb → Outcome (FileSys × Fcb)
rama p fs fcb = elim p [ none ↦ liberar_directo fs fcb | some a ↦ liberar_indirecto a fs fcb ]

pub ultimo-ok :
    (fs : FileSys) (fcb : Fcb) (p : Option ℕ) (r : FileSys × Fcb)
    → fcb.puntero_in ≡ p
    → rama p fs fcb ≡ ok r
    → liberar_ultimo_bloque_fcb fs fcb
      ≡ ok (asentar_fcb (perder_bloque fs.block_size r.1) r.0, perder_bloque fs.block_size r.1)
unfolding liberar_ultimo_bloque_fcb rama
ultimo-ok fs fcb p r e h =
    ap (λ z. do r ← z; let fcb' = perder_bloque fs.block_size r.1; ok (asentar_fcb fcb' r.0, fcb'))
      (ap (λ p. rama p fs fcb) e ∙ h)

pub limpiar_bloque-en :
    (fs : FileSys) (k : ℕ)
    → k < fs.block_count
    → limpiar_bloque (pos (k * fs.block_size)) fs
      ≡ ok (
          con_datos
            (escribir_desde fs.datos_bloques (k * fs.block_size + 0) (ceros fs.block_size))
            fs)
unfolding limpiar_bloque
limpiar_bloque-en fs k l =
    borrar_contenido-en (k * fs.block_size) 0 fs.block_size fs
      (omega (arith, bloque_dentro k fs.block_size fs.block_count l))

pub limpiar-fuera :
    (f : ℕ → ℕ) (a b x : ℕ) → (x < a) ⊎ (a + b ≤ x) → escribir_desde f (a + 0) (ceros b) x ≡ f x
limpiar-fuera f a b x h =
    escribir_desde_outside f (a + 0) (ceros b) x (ground (arith, length-ceros b))

-- The body for the number `n` of pointers in the block at `p`, the last of them at `o`.
pub cuerpo : ℤ → ℤ → ℕ → FileSys → Fcb → Outcome (FileSys × Fcb)
cuerpo n o p fs fcb = do
  bytes ← leer_bloque (pos p) (por_int o) 4 fs
  leido ← leer_int bytes
  puntero_ultimo_bloque ← no_negativo (con_signo leido.0)
  fs1 ← limpiar_bloque (pos puntero_ultimo_bloque) fs
  fs2 ← liberar_bit puntero_ultimo_bloque fs1
  fs3 ← borrar_contenido (pos p) (por_int o) 4 fs2
  r ← liberar_punteros n p fs3 fcb
  ok (r.0, record (r.1) { cantidad_indirectos = (r.1).cantidad_indirectos +ℤ negsuc 0 })

pub cuerpo-ok :
    (fs fs1 fs2 : FileSys) (fcb : Fcb) (a m p : ℕ) (n : ℤ) (bytes : List ℕ) (r : FileSys × Fcb)
    → leer_bloque (pos a) (pos (4 * m)) 4 fs ≡ ok bytes
    → leer_int bytes ≡ ok (p, [])
    → p < 2147483648
    → limpiar_bloque (pos p) fs ≡ ok fs1
    → liberar_bit p fs1 ≡ ok fs2
    → a + 4 * m + 4 ≤ total fs2
    → liberar_punteros n a
        (con_datos (escribir_desde fs2.datos_bloques (a + 4 * m) (ceros 4)) fs2)
        fcb
      ≡ ok r
    → cuerpo n (pos m) a fs fcb
      ≡ ok (r.0, record (r.1) { cantidad_indirectos = (r.1).cantidad_indirectos +ℤ negsuc 0 })
unfolding cuerpo
cuerpo-ok fs fs1 fs2 fcb a m p n bytes r h i l e b g f =
    rw (h, i, lt→ltb p 2147483648 l, e, b, borrar_contenido-en a (4 * m) 4 fs2 g, f, ◌>>=◌) refl

pub liberar_indirecto-cuerpo :
    (fs : FileSys) (fcb : Fcb) (p m : ℕ)
    → fcb.cantidad_indirectos ≡ pos (suc m)
    → liberar_indirecto p fs fcb ≡ cuerpo (pos (suc m)) (pos m) p fs fcb
unfolding liberar_indirecto cuerpo
liberar_indirecto-cuerpo fs fcb p m e =
    ap (λ n. cuerpo n (n +ℤ negsuc 0) p fs fcb) e
    ∙ ap (λ o. cuerpo (pos (suc m)) o p fs fcb) anterior
  where
    anterior : pos (suc m) +ℤ negsuc 0 ≡ pos m
    anterior = ground arith

-- A block that is taken lies in the file of blocks.
pub dentro :
    (fs : FileSys) (k : ℕ)
    → IsDimensionado fs
    → get_elem? fs.bitmap k ≡ some true
    → k < fs.block_count
dentro fs k dim t = omega (arith, get_elem?-lt fs.bitmap k true t, dim.bits)
