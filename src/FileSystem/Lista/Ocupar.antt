-- ===== src/FileSystem/Lista/Ocupar.antt =====
-- filesys.h: the branches of `ocuparBloqueLibre` on blocks of the file of blocks, and the bits they set.
use unix_os_simulation.Base.{
  ℕ, suc, ◌+◌, ◌*◌, ◌≤◌, ◌<◌, ◌≡◌, refl, sym, ◌∙◌, ◌⊎◌, inl, inr, true, false, Bool, List, [], ◌∷◌,
  ◌++◌, Option, none, some, ok, ◌>>=◌, arith, length, get_elem?, In, Bool-cases, ◌==◌,
}
use unix_os_simulation.Base.Int.{pos, ◌+ℤ◌}
use unix_os_simulation.Biblioteca.Enteros.{int_bytes, length-int_bytes}
use unix_os_simulation.Memoria.Espacio.{
  escribir_desde, escribir_desde_outside, bytes_desde-escribir,
}
use unix_os_simulation.Memoria.Punteros.{veces, In-veces}
use unix_os_simulation.FileSystem.{Fcb, FileSys}
use unix_os_simulation.FileSystem.Bitmap.{primer_libre, set_bit, get_elem?-set_bit}
use unix_os_simulation.FileSystem.Bloques.{
  agregar_indirecto, ocupar_indirecto, ocupar_indirecto_en, asignar_bloque, asentar_fcb,
}
use unix_os_simulation.FileSystem.Bloques.Accesos.{con_datos, escribir_bloque-en}
use unix_os_simulation.FileSystem.Lista.{Punteros, bloque_dentro, Punteros-local, Punteros-append}

-- The address of block `i` behind `n` others in the block of pointers `q`.
abbrev pub con_puntero : FileSys → ℕ → ℕ → ℕ → ℕ → ℕ
con_puntero fs q n i =
    escribir_desde fs.datos_bloques (q * fs.block_size + 4 * n) (int_bytes (i * fs.block_size))

pub agregar_indirecto-en :
    (q n i : ℕ) (fs : FileSys) (fcb : Fcb)
    → fcb.cantidad_indirectos ≡ pos n
    → q < fs.block_count
    → 4 * suc n ≤ fs.block_size
    → agregar_indirecto (q * fs.block_size) i fs fcb
      ≡ ok (con_datos (con_puntero fs q n i) fs, record fcb { cantidad_indirectos = pos (suc n) })
unfolding agregar_indirecto
agregar_indirecto-en q n i fs fcb c l r =
    let s : pos n +ℤ pos 1 ≡ pos (suc n) = ground arith in
    rw
      (
        c,
        escribir_bloque-en (q * fs.block_size) (4 * n) (int_bytes (i * fs.block_size)) fs (
            omega (
              arith,
              bloque_dentro q fs.block_size fs.block_count l,
              length-int_bytes (i * fs.block_size),
            )),
        ◌>>=◌,
        s,
      )
      refl

-- The pointers of the block after the write.
pub con_puntero-Punteros :
    (fs : FileSys) (q i : ℕ) (ks : List ℕ)
    → Punteros fs.datos_bloques fs.block_size (q * fs.block_size) ks
    → Punteros (con_puntero fs q (length ks) i) fs.block_size (q * fs.block_size) (ks ++ i ∷ [])
unfolding int_bytes
con_puntero-Punteros fs q i ks p =
    let a = q * fs.block_size in
    let v = int_bytes (i * fs.block_size) in
    let len = length-int_bytes (i * fs.block_size) in
    Punteros-append (con_puntero fs q (length ks) i) fs.block_size a i ks
      (Punteros-local fs.datos_bloques (con_puntero fs q (length ks) i) fs.block_size a ks
        (λ x le lt.
          sym (escribir_desde_outside fs.datos_bloques (a + 4 * length ks) v x (inl (omega arith))))
        p)
      (bytes_desde-escribir fs.datos_bloques (a + 4 * length ks) v)

-- The last branch, by what the pointers are.
pub asignar_indirecto :
    (d p : Option ℕ) (d' p' i : ℕ) (fs : FileSys) (fcb : Fcb)
    → d ≡ some d'
    → p ≡ some p'
    → asignar_bloque d p i fs fcb ≡ agregar_indirecto p' i fs fcb
unfolding asignar_bloque
asignar_indirecto d p d' p' i fs fcb e f = rw (e, f) refl

-- The branch of the block of pointers, when the recursive call finds `j`.
pub asignar_punteros :
    (d p : Option ℕ) (d' i j : ℕ) (fs : FileSys) (fcb : Fcb) (r : FileSys × Fcb)
    → d ≡ some d'
    → p ≡ none
    → primer_libre fs.bitmap ≡ some j
    → agregar_indirecto
        (i * fs.block_size)
        j
        (record fs { bitmap = set_bit j fs.bitmap })
        (record fcb { puntero_in = some (i * fs.block_size) })
      ≡ ok r
    → asignar_bloque d p i fs fcb ≡ ok (asentar_fcb r.1 r.0, r.1)
unfolding asignar_bloque ocupar_indirecto ocupar_indirecto_en
asignar_punteros d p d' i j fs fcb r e f h a =
    rw (e, f, ocupar_indirecto, h, ocupar_indirecto_en, a, ◌>>=◌) refl

-- A free block is none of those taken.
pub libre-veces :
    (bs : List Bool) (xs : List ℕ) (i : ℕ)
    → ((k : ℕ) → In k xs → get_elem? bs k ≡ some true)
    → get_elem? bs i ≡ some false
    → veces i xs ≡ 0
libre-veces bs xs i t l = elim (Bool-cases (veces i xs == 0)) [
  | inl e ↦ ground arith
  | inr e ↦
      let h = t i (In-veces i xs (ground arith)) in let z : some true ≡ some false = sym h ∙ l in cc
]

pub set_bit-tomados :
    (bs : List Bool) (i : ℕ) (xs : List ℕ)
    → get_elem? bs i ≡ some false
    → ((k : ℕ) → In k xs → get_elem? bs k ≡ some true)
    → (k : ℕ) → (k ≡ i) ⊎ In k xs
    → get_elem? (set_bit i bs) k ≡ some true
set_bit-tomados bs i xs l t k (inl e) = ground (arith, get_elem?-set_bit bs i k l)
set_bit-tomados bs i xs l t k (inr j) = ground (arith, get_elem?-set_bit bs i k l, t k j)

pub solo :
    (bs : List Bool) (x : ℕ)
    → get_elem? bs x ≡ some true
    → (k : ℕ) → In k (x ∷ [])
    → get_elem? bs k ≡ some true
solo bs x t k (inl q) = rw (q) t
solo bs x t k (inr n) = absurd n
