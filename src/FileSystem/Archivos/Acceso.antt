-- ===== src/FileSystem/Archivos/Acceso.antt =====
-- filesys.h: the two parts of `escribirArchivo` and `leerArchivo`, over one block or two.
use unix_os_simulation.Base.{
  ℕ, zero, suc, ◌+◌, ◌-◌, ◌≤◌, ◌<◌, ◌≡◌, refl, subst, ◌∙◌, ap, ◌⊎◌, inl, inr, true, false, List, [],
  ◌∷◌, ◌++◌, Outcome, ok, length, take, drop, leb, arith, length-take, length-drop, le→leb, leb→le,
  Bool-cases,
}
use unix_os_simulation.Base.Int.{ℤ, pos}
use unix_os_simulation.Memoria.Espacio.{
  bytes_desde, escribir_desde, escribir_desde_outside, bytes_desde-escribir,
}
use unix_os_simulation.FileSystem.{FileSys}
use unix_os_simulation.FileSystem.Bloques.Accesos.{
  total, con_datos, escribir_bloque-en, leer_bloque-en, bytes_desde-local,
}
use unix_os_simulation.FileSystem.Archivos.{first_bytes, escribir_en_bloques, leer_en_bloques}

take-drop : (n : ℕ) (v : List ℕ) → take n v ++ drop n v ≡ v
take-drop zero v = refl
take-drop (suc n) [] = refl
take-drop (suc n) (x ∷ v) = ap (◌∷◌ x) (take-drop n v)

-- What ends before the end of the block `p` is written and read without a look at the second block.
pub leer_en_bloques-corto :
    (fs : FileSys) (p offset : ℕ) (s : Outcome ℤ) (v : List ℕ)
    → p + fs.block_size ≤ total fs
    → offset + length v < fs.block_size
    → length v ≤ 4
    → (d : ℕ → ℕ) × (escribir_en_bloques (pos p) s offset v fs ≡ ok (con_datos d fs))
      × ((s' : Outcome ℤ) → leer_en_bloques (pos p) s' offset (length v) (con_datos d fs) ≡ ok v)
      × ((x : ℕ) → (x < p) ⊎ (p + fs.block_size ≤ x) → d x ≡ fs.datos_bloques x)
unfolding escribir_en_bloques leer_en_bloques
leer_en_bloques-corto fs p offset s v entra_p h c =
    let d = escribir_desde fs.datos_bloques (p + offset) v in
    let corto : leb fs.block_size (offset + length v) ≡ false = ground arith in
    (
      d,
      rw (corto, escribir_bloque-en p offset v fs (omega arith)),
      λ s'. rw (
        corto,
        leer_bloque-en p offset (length v) (con_datos d fs) (omega arith) c,
        bytes_desde-escribir fs.datos_bloques (p + offset) v,
      ),
      λ x hp. escribir_desde_outside fs.datos_bloques (p + offset) v x (ground arith),
    )

module _ (fs : FileSys) (p q offset : ℕ) (en_bloque : offset < fs.block_size)
    (entra_p : p + fs.block_size ≤ total fs) (entra_q : q + fs.block_size ≤ total fs)
    (distintos : (p + fs.block_size ≤ q) ⊎ (q + fs.block_size ≤ p)) where
  -- The bytes after a write in one block.
  una : List ℕ → ℕ → ℕ
  una v = escribir_desde fs.datos_bloques (p + offset) v

  -- The bytes after a write in two blocks.
  dos : List ℕ → List ℕ → ℕ → ℕ
  dos t u = escribir_desde (escribir_desde fs.datos_bloques (p + offset) t) (q + 0) u

  dos_primera :
      (t u : List ℕ)
      → offset + length t < fs.block_size
      → length u ≤ fs.block_size
      → bytes_desde (dos t u) (p + offset) (length t) ≡ t
  unfolding dos
  dos_primera t u a b = rw (
    bytes_desde-local (dos t u) (escribir_desde fs.datos_bloques (p + offset) t) (p + offset)
        (length t)
        (λ x le lt.
          escribir_desde_outside (escribir_desde fs.datos_bloques (p + offset) t) (q + 0) u x
            (ground arith)),
    bytes_desde-escribir fs.datos_bloques (p + offset) t,
  )

  dos_others :
      (t u : List ℕ)
      → offset + length t < fs.block_size
      → length u ≤ fs.block_size
      → (x : ℕ) → (x < p) ⊎ (p + fs.block_size ≤ x)
      → (x < q) ⊎ (q + fs.block_size ≤ x)
      → dos t u x ≡ fs.datos_bloques x
  unfolding dos
  dos_others t u a b x hp hq =
      escribir_desde_outside (escribir_desde fs.datos_bloques (p + offset) t) (q + 0) u x
        (ground arith)
      ∙ escribir_desde_outside fs.datos_bloques (p + offset) t x (ground arith)

  -- Of two disjoint blocks in the file of blocks, what is written at an offset of the first, at
  -- most a block long, is read back at that offset, whether it stays in the first block or goes on
  -- in the second; both calls return, no byte of another block changes, and neither does the bitmap
  -- nor an FCB.
  pub leer_en_bloques-escribir_en_bloques :
      (v : List ℕ)
      → length v ≤ fs.block_size
      → length v ≤ 4
      → (d : ℕ → ℕ) × (escribir_en_bloques (pos p) (ok (pos q)) offset v fs ≡ ok (con_datos d fs))
        × (leer_en_bloques (pos p) (ok (pos q)) offset (length v) (con_datos d fs) ≡ ok v)
        × ((x : ℕ)
            → (x < p) ⊎ (p + fs.block_size ≤ x)
            → (x < q) ⊎ (q + fs.block_size ≤ x)
            → d x ≡ fs.datos_bloques x)
  unfolding escribir_en_bloques leer_en_bloques una dos
  leer_en_bloques-escribir_en_bloques v le c =
      elim (Bool-cases (leb fs.block_size (offset + length v))) [
        | inl largo ↦
            let n = first_bytes fs.block_size offset (length v) in
            let t = take n v in
            let u = drop n v in
            let s = leb→le fs.block_size (offset + length v) largo in
            let lt : length t ≡ n = length-take n v ∙ omega arith in
            let lu : length u ≡ offset + length v + 1 - fs.block_size =
              length-drop n v ∙ omega arith in
            (
              dos t u,
              rw (
                largo,
                escribir_bloque-en p offset t fs (omega arith),
                escribir_bloque-en q 0 u (con_datos (una t) fs) (omega arith),
              ),
              rw (
                largo,
                leer_bloque-en p offset n (con_datos (dos t u) fs) (omega arith) (omega arith),
                leer_bloque-en q 0 (offset + length v + 1 - fs.block_size) (con_datos (dos t u) fs)
                    (omega arith) (omega arith),
                subst (λ k. bytes_desde (dos t u) (p + offset) k ≡ t) lt
                    (dos_primera t u (omega arith) (omega arith)),
                subst (λ k. bytes_desde (dos t u) (q + 0) k ≡ u) lu
                    (bytes_desde-escribir (una t) (q + 0) u),
                take-drop n v,
              ),
              dos_others t u (omega arith) (omega arith),
            )
        | inr corto ↦
            let (d, w, r, o) =
              leer_en_bloques-corto fs p offset (ok (pos q)) v entra_p (ground arith) c in
            (d, w, r (ok (pos q)), λ x hp hq. o x hp)
      ]

-- With blocks of at least two bytes that lie in the file of blocks, a read of the last byte of a
-- block answers as a read of the first byte of the next block does: two positions of a file share a
-- byte.
pub leer_en_bloques-ultimo :
    (fs : FileSys) (p q : ℕ) (scnd : Outcome ℤ)
    → 2 ≤ fs.block_size
    → p + fs.block_size ≤ total fs
    → q + 1 ≤ total fs
    → leer_en_bloques (pos p) (ok (pos q)) (fs.block_size - 1) 1 fs
      ≡ leer_en_bloques (pos q) scnd 0 1 fs
unfolding leer_en_bloques
leer_en_bloques-ultimo fs p q scnd two hp hq =
    let b = fs.block_size in
    let largo : leb b (b - 1 + 1) ≡ true = le→leb b (b - 1 + 1) (omega arith) in
    let corto : leb b 1 ≡ false = ground arith in
    let nada : first_bytes b (b - 1) 1 ≡ 0 = omega arith in
    let resto : b - 1 + 1 + 1 - b ≡ 1 = omega arith in
    rw (
      largo,
      corto,
      nada,
      resto,
      leer_bloque-en p (b - 1) 0 fs (omega arith) (omega arith),
      leer_bloque-en q 0 1 fs (omega arith) (omega arith),
    )
