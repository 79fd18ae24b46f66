-- ===== src/FileSystem/Bloques/Balance.antt =====
-- filesys.h: the bits that `ocuparBloqueLibre` sets and the blocks that the FCB then names.
use unix_os_simulation.Base.{
  ℕ, suc, ◌+◌, ◌*◌, ◌≡◌, refl, subst, Bool, List, Option, none, some, ok, >>=-eq-ok, arith, length,
}
use unix_os_simulation.Base.Int.{ℤ, pos, negsuc, ◌+ℤ◌}
use unix_os_simulation.Biblioteca.Enteros.{int_bytes}
use unix_os_simulation.Memoria.Espacio.{escribir_desde}
use unix_os_simulation.FileSystem.{Fcb, FileSys}
use unix_os_simulation.FileSystem.Bitmap.{
  primer_libre, set_bit, ocupados, primer_libre-libre, ocupados-set_bit,
}
use unix_os_simulation.FileSystem.Bloques.{
  direccion, por_int, escribir_bloque, asentar_fcb, agregar_indirecto, ocupar_indirecto_en,
  ocupar_indirecto, asignar_bloque, ocupar_bloque, ocupar_bloque_libre,
}

-- The blocks that an FCB names: the direct one, the block of pointers, and one for each pointer.
abbrev pub uno : Option ℕ → ℕ
uno none = 0
uno (some p) = 1

abbrev pub indirectos : ℤ → ℕ
indirectos (pos n) = n
indirectos (negsuc n) = 0

unfoldable pub bloques : Fcb → ℕ
bloques fcb = uno fcb.puntero_dir + uno fcb.puntero_in + indirectos fcb.cantidad_indirectos

-- The count of indirect blocks is not negative.
unfoldable pub IsContado : Fcb → Type 0
IsContado fcb = (n : ℕ) × (fcb.cantidad_indirectos ≡ pos n)

ocupados-primer_libre :
    (bs : List Bool) (i : ℕ)
    → primer_libre bs ≡ some i
    → ocupados (set_bit i bs) ≡ suc (ocupados bs)
ocupados-primer_libre bs i e = ocupados-set_bit bs i ((primer_libre-libre bs i e).0)

-- What an operation does to the bitmap and to the FCB.
unfoldable pub Balance : FileSys → Fcb → FileSys → Fcb → Type 0
Balance fs fcb fs' fcb' = ocupados fs'.bitmap + bloques fcb ≡ ocupados fs.bitmap + bloques fcb'

mas_uno : (n : ℕ) → pos n +ℤ pos 1 ≡ pos (suc n)
mas_uno n = ground arith

escribir_bloque-bitmap :
    (a o : ℤ) (v : List ℕ) (fs fs' : FileSys)
    → escribir_bloque a o v fs ≡ ok fs'
    → fs'.bitmap ≡ fs.bitmap
unfolding escribir_bloque
escribir_bloque-bitmap a o v fs fs' h =
    let (d, e, k) = >>=-eq-ok (direccion fs (a +ℤ o) (length v)) _ h in
    let z : record fs { datos_bloques = escribir_desde fs.datos_bloques d v } ≡ fs' = cc in
    subst (λ t. t.bitmap ≡ fs.bitmap) z refl

agregar_indirecto-suma :
    (p i : ℕ) (fs : FileSys) (fcb : Fcb) (r : FileSys × Fcb)
    → IsContado fcb
    → agregar_indirecto p i fs fcb ≡ ok r
    → ((r.0).bitmap ≡ fs.bitmap) × (bloques (r.1) ≡ suc (bloques fcb)) × IsContado (r.1)
unfolding agregar_indirecto bloques IsContado
agregar_indirecto-suma p i fs fcb r (n, c) h =
    let (fs1, e, k) =
      >>=-eq-ok
        (escribir_bloque (pos p) (por_int fcb.cantidad_indirectos) (int_bytes (i * fs.block_size))
          fs)
        _ h in
    let z : (fs1, record fcb { cantidad_indirectos = fcb.cantidad_indirectos +ℤ pos 1 }) ≡ r = cc in
    let b =
      escribir_bloque-bitmap (pos p) (por_int fcb.cantidad_indirectos)
        (int_bytes (i * fs.block_size)) fs fs1 e in
    let m = mas_uno n in
    subst (λ t. ((t.0).bitmap ≡ fs.bitmap) × (bloques (t.1) ≡ suc (bloques fcb)) × IsContado (t.1))
      z (b, rw (c, m) (omega arith), (suc n, rw (c, m)))

-- The answer, and the balance with it.
unfoldable pub BalanceDe : FileSys → Fcb → Option ℕ × FileSys × Fcb → Type 0
BalanceDe fs fcb r = Balance fs fcb r.1 r.2 × IsContado (r.2)

ocupar_indirecto_en-suma :
    (q : Option ℕ) (p : ℕ) (fs : FileSys) (fcb : Fcb) (r : Option ℕ × FileSys × Fcb)
    → IsContado fcb
    → primer_libre fs.bitmap ≡ q
    → ocupar_indirecto_en q p fs fcb ≡ ok r
    → BalanceDe fs fcb r
unfolding ocupar_indirecto_en asentar_fcb Balance BalanceDe
ocupar_indirecto_en-suma none p fs fcb r c e h =
    let z : (none, fs, fcb) ≡ r = cc in subst (λ t. BalanceDe fs fcb t) z (refl, c)
ocupar_indirecto_en-suma (some i) p fs fcb r c e h =
    let (t, a, k) =
      >>=-eq-ok (agregar_indirecto p i (record fs { bitmap = set_bit i fs.bitmap }) fcb) _ h in
    let (b, s, d) =
      agregar_indirecto-suma p i (record fs { bitmap = set_bit i fs.bitmap }) fcb t c a in
    let z : (some i, asentar_fcb t.1 t.0, t.1) ≡ r = cc in
    let o = ocupados-primer_libre fs.bitmap i e in
    subst (λ t. BalanceDe fs fcb t) z (rw (b, s, o) (omega arith), d)

asignar_bloque-suma :
    (d q : Option ℕ) (i : ℕ) (fs : FileSys) (fcb : Fcb) (r : FileSys × Fcb)
    → IsContado fcb
    → fcb.puntero_dir ≡ d
    → fcb.puntero_in ≡ q
    → asignar_bloque d q i fs fcb ≡ ok r
    → (ocupados (r.0).bitmap + suc (bloques fcb) ≡ ocupados fs.bitmap + bloques (r.1))
      × IsContado (r.1)
unfolding asignar_bloque ocupar_indirecto Balance BalanceDe bloques IsContado
asignar_bloque-suma none q i fs fcb r c d e h =
    let z : (fs, record fcb { puntero_dir = some (i * fs.block_size) }) ≡ r = cc in
    subst
      (λ t.
        (ocupados (t.0).bitmap + suc (bloques fcb) ≡ ocupados fs.bitmap + bloques (t.1))
        × IsContado (t.1))
      z (rw (d) (omega arith), c)
asignar_bloque-suma (some a) none i fs fcb r c d e h =
    let fcb1 : Fcb = record fcb { puntero_in = some (i * fs.block_size) } in
    let (t, w, k) = >>=-eq-ok (ocupar_indirecto (i * fs.block_size) fs fcb1) _ h in
    let (b, s) = ocupar_indirecto_en-suma _ (i * fs.block_size) fs fcb1 t c refl w in
    let z : (t.1, t.2) ≡ r = cc in
    subst
      (λ t.
        (ocupados (t.0).bitmap + suc (bloques fcb) ≡ ocupados fs.bitmap + bloques (t.1))
        × IsContado (t.1))
      z (rw (e) (omega (arith, b)), s)
asignar_bloque-suma (some a) (some p) i fs fcb r c d e h =
    let (b, s, k) = agregar_indirecto-suma p i fs fcb r c h in (rw (b, s) (omega arith), k)

-- For an FCB whose count of indirect blocks is not negative, when ocuparBloqueLibre returns, with
-- whatever answer, the bits that are set in the bitmap less the blocks that the FCB names are as
-- many as before, and the count is not negative again.
pub ocupar_bloque_libre-Balance :
    (fs : FileSys) (fcb : Fcb) (r : Option ℕ × FileSys × Fcb)
    → IsContado fcb
    → ocupar_bloque_libre fs fcb ≡ ok r
    → (ocupados (r.1).bitmap + bloques fcb ≡ ocupados fs.bitmap + bloques (r.2)) × IsContado (r.2)
unfolding ocupar_bloque_libre ocupar_bloque asentar_fcb
ocupar_bloque_libre-Balance fs fcb r c = go (primer_libre fs.bitmap) refl
  where
    go :
        (q : Option ℕ)
        → primer_libre fs.bitmap ≡ q
        → ocupar_bloque q fs fcb ≡ ok r
        → (ocupados (r.1).bitmap + bloques fcb ≡ ocupados fs.bitmap + bloques (r.2))
          × IsContado (r.2)
    go none e h =
        let z : (none, fs, fcb) ≡ r = cc in
        subst
          (λ t.
            (ocupados (t.1).bitmap + bloques fcb ≡ ocupados fs.bitmap + bloques (t.2))
            × IsContado (t.2))
          z (refl, c)
    go (some i) e h =
        let fs1 : FileSys = record fs { bitmap = set_bit i fs.bitmap } in
        let (t, a, k) = >>=-eq-ok (asignar_bloque fcb.puntero_dir fcb.puntero_in i fs1 fcb) _ h in
        let (b, d) = asignar_bloque-suma _ _ i fs1 fcb t c refl refl a in
        let z : (some i, asentar_fcb t.1 t.0, t.1) ≡ r = cc in
        let o = ocupados-primer_libre fs.bitmap i e in
        subst
          (λ t.
            (ocupados (t.1).bitmap + bloques fcb ≡ ocupados fs.bitmap + bloques (t.2))
            × IsContado (t.2))
          z (omega (arith, b, o), d)
