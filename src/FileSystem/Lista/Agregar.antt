-- ===== src/FileSystem/Lista/Agregar.antt =====
-- filesys.h: `ocuparBloqueLibre` appends a block to the list of a file.
use unix_os_simulation.Base.{
  ℕ, suc, ◌+◌, ◌*◌, ◌≤◌, ◌<◌, ◌≡◌, refl, ap, ◌∙◌, ◌⊎◌, inl, inr, true, false, List, [], ◌∷◌, ◌++◌,
  Option, none, some, ok, ◌>>=◌, arith, length, get_elem?, In, Bool-cases, ◌==◌, length-append,
}
use unix_os_simulation.Base.Int.{pos}
use unix_os_simulation.Biblioteca.Enteros.{int_bytes, length-int_bytes}
use unix_os_simulation.Memoria.Espacio.{escribir_desde_outside}
use unix_os_simulation.Memoria.Punteros.{veces-append, veces-In, In-veces}
use unix_os_simulation.FileSystem.{Fcb, FileSys}
use unix_os_simulation.FileSystem.Bitmap.{
  ocupados, ocupados-set_bit, length-set_bit, primer_libre, set_bit, primer_libre-libre,
  get_elem?-set_bit,
}
use unix_os_simulation.FileSystem.Bloques.{
  ocupar_indirecto, ocupar_indirecto_en, asignar_bloque, ocupar_bloque, ocupar_bloque_libre,
  asentar_fcb,
}
use unix_os_simulation.FileSystem.Bloques.Accesos.{con_datos}
use unix_os_simulation.FileSystem.Lista.{IsDimensionado, EsArchivo, get_elem?-lt}
use unix_os_simulation.FileSystem.Lista.Ocupar.{
  con_puntero, agregar_indirecto-en, con_puntero-Punteros, asignar_indirecto, asignar_punteros,
  libre-veces, set_bit-tomados, solo,
}

-- The blocks that one more block of a file takes.
abbrev pub precio : List ℕ → ℕ
precio [] = 1
precio (k ∷ []) = 2
precio (k ∷ j ∷ ks) = 1

-- What the file and the rest of the file system are after a block was appended.
pub record Crecido (fs : FileSys) (fcb : Fcb) (ks : List ℕ) (fs' : FileSys) (fcb' : Fcb)
    : Type 0 where
  pub punteros : Option ℕ
  pub bloque : ℕ
  pub libre : get_elem? fs.bitmap bloque ≡ some false
  pub archivo : EsArchivo fs' fcb' punteros (ks ++ bloque ∷ [])
  pub tomados : (x : ℕ) → get_elem? fs.bitmap x ≡ some true → get_elem? fs'.bitmap x ≡ some true
  pub ajenos :
      (x : ℕ)
      → ((p : ℕ)
          → punteros ≡ some p
          → (x < p * fs.block_size) ⊎ (p * fs.block_size + fs.block_size ≤ x))
      → fs'.datos_bloques x ≡ fs.datos_bloques x
  pub mismo_tamanio : fs'.block_size ≡ fs.block_size
  pub dimensionado : IsDimensionado fs'
  pub misma_lista : fs'.lista_fcb ≡ fs.lista_fcb
  pub mismo_nombre : fcb'.nombre_archivo ≡ fcb.nombre_archivo
  pub mismo_largo : length fs'.bitmap ≡ length fs.bitmap
  pub costo : ocupados fs'.bitmap ≡ ocupados fs.bitmap + precio ks

-- The block of pointers needs a block of its own with the first pointer, and has room for the others.
abbrev pub Cabe : FileSys → List ℕ → ℕ → Type 0
Cabe fs [] i = Unit
Cabe fs (k ∷ []) i = (j : ℕ) × (primer_libre (set_bit i fs.bitmap) ≡ some j)
Cabe fs (k ∷ j ∷ ks) i = 4 * suc (suc (length ks)) ≤ fs.block_size

module _ (fs : FileSys) (fcb : Fcb) (i : ℕ) (dim : IsDimensionado fs)
    (e : primer_libre fs.bitmap ≡ some i) where
  abbrev marcado : FileSys
  marcado = record fs { bitmap = set_bit i fs.bitmap }

  libre_i : get_elem? fs.bitmap i ≡ some false
  libre_i = (primer_libre-libre fs.bitmap i e).0

  siguen :
      (x : ℕ) → get_elem? fs.bitmap x ≡ some true → get_elem? (set_bit i fs.bitmap) x ≡ some true
  siguen x t = set_bit-tomados fs.bitmap i (x ∷ []) libre_i (solo fs.bitmap x t) x (inr (inl refl))

  agrega_directo :
      EsArchivo fs fcb none []
      → (fs' : FileSys) × (fcb' : Fcb) × (ocupar_bloque_libre fs fcb ≡ ok (some i, fs', fcb'))
        × Crecido fs fcb [] fs' fcb'
  unfolding ocupar_bloque_libre ocupar_bloque asignar_bloque asentar_fcb
  agrega_directo v =
      let fcb1 : Fcb = record fcb { puntero_dir = some (i * fs.block_size) } in
      (
        asentar_fcb fcb1 marcado,
        fcb1,
        rw (ocupar_bloque_libre, e, ocupar_bloque, v.forma.0, ◌>>=◌) refl,
        record {
          punteros = none;
          bloque = i;
          libre = libre_i;
          archivo = record {
            forma = (refl, v.forma.1, v.forma.2);
            tomados = λ k. elim [
              | inl q ↦ set_bit-tomados fs.bitmap i [] libre_i (λ k n. absurd n) k (inl q)
              | inr n ↦ absurd n
            ];
            distintos = λ p. ground arith;
          };
          tomados = siguen;
          ajenos = λ x h. refl;
          mismo_tamanio = refl;
          dimensionado = record {
            enteros = dim.enteros;
            puntero = dim.puntero;
            bits = omega (arith, dim.bits, length-set_bit i fs.bitmap);
          };
          misma_lista = refl;
          mismo_nombre = refl;
          mismo_largo = length-set_bit i fs.bitmap;
          costo = omega (arith, ocupados-set_bit fs.bitmap i libre_i);
        },
      )

  agrega_indirecto :
      (q k j : ℕ) (ks : List ℕ)
      → EsArchivo fs fcb (some q) (k ∷ j ∷ ks)
      → 4 * suc (suc (length ks)) ≤ fs.block_size
      → (fs' : FileSys) × (fcb' : Fcb) × (ocupar_bloque_libre fs fcb ≡ ok (some i, fs', fcb'))
        × Crecido fs fcb (k ∷ j ∷ ks) fs' fcb'
  unfolding ocupar_bloque_libre ocupar_bloque asignar_bloque asentar_fcb
  agrega_indirecto q k j ks v r =
      let n = suc (length ks) in
      let q_dentro : q < fs.block_count =
        omega (arith, get_elem?-lt fs.bitmap q true (v.tomados q (inl refl)), dim.bits) in
      let fcb1 : Fcb = record fcb { cantidad_indirectos = pos (suc n) } in
      let fs1 = con_datos (con_puntero fs q n i) marcado in
      let ajeno = libre-veces fs.bitmap (q ∷ k ∷ j ∷ ks) i v.tomados libre_i in
      (
        asentar_fcb fcb1 fs1,
        fcb1,
        rw
            (
              ocupar_bloque_libre,
              e,
              ocupar_bloque,
              asignar_indirecto fcb.puntero_dir fcb.puntero_in (k * fs.block_size)
                  (q * fs.block_size) i marcado fcb v.forma.0 v.forma.1,
              agregar_indirecto-en q n i marcado fcb v.forma.2 q_dentro r,
              ◌>>=◌,
            )
            refl,
        record {
          punteros = some q;
          bloque = i;
          libre = libre_i;
          archivo = record {
            forma = (
              v.forma.0,
              v.forma.1,
              ap pos (ap suc (largo ks i)),
              omega (arith, r, largo ks i),
              con_puntero-Punteros fs q i (j ∷ ks) v.forma.4,
            );
            tomados =
                λ x m. set_bit-tomados fs.bitmap i (q ∷ k ∷ j ∷ ks) libre_i v.tomados x (parte x m);
            distintos =
                λ p. ground (arith, v.distintos p, ajeno, veces-append p (k ∷ j ∷ ks) (i ∷ []));
          };
          tomados = siguen;
          ajenos = λ x h.
              escribir_desde_outside fs.datos_bloques (q * fs.block_size + 4 * n)
                (int_bytes (i * fs.block_size)) x
                (ground (arith, h q refl, length-int_bytes (i * fs.block_size)));
          mismo_tamanio = refl;
          dimensionado = record {
            enteros = dim.enteros;
            puntero = dim.puntero;
            bits = omega (arith, dim.bits, length-set_bit i fs.bitmap);
          };
          misma_lista = refl;
          mismo_nombre = refl;
          mismo_largo = length-set_bit i fs.bitmap;
          costo = omega (arith, ocupados-set_bit fs.bitmap i libre_i);
        },
      )
    where
      largo : (ks : List ℕ) (i : ℕ) → suc (length ks) ≡ length (ks ++ i ∷ [])
      largo ks i = omega (arith, length-append ks (i ∷ []))

      parte : (x : ℕ) → In x (q ∷ k ∷ j ∷ ks ++ i ∷ []) → (x ≡ i) ⊎ In x (q ∷ k ∷ j ∷ ks)
      parte x m = elim (Bool-cases (x == i)) [
        | inl c ↦ inl (ground arith)
        | inr c ↦ inr (
            In-veces x (q ∷ k ∷ j ∷ ks)
              (ground (arith, veces-In x (q ∷ k ∷ j ∷ ks ++ i ∷ []) m, veces-append x ks (i ∷ []))))
      ]

  agrega_punteros :
      (k j : ℕ)
      → EsArchivo fs fcb none (k ∷ [])
      → primer_libre (set_bit i fs.bitmap) ≡ some j
      → (fs' : FileSys) × (fcb' : Fcb) × (ocupar_bloque_libre fs fcb ≡ ok (some i, fs', fcb'))
        × Crecido fs fcb (k ∷ []) fs' fcb'
  unfolding ocupar_bloque_libre ocupar_bloque asignar_bloque ocupar_indirecto ocupar_indirecto_en
      asentar_fcb
  agrega_punteros k j v f =
      let largo : length (set_bit j (set_bit i fs.bitmap)) ≡ length fs.bitmap =
        length-set_bit j (set_bit i fs.bitmap) ∙ length-set_bit i fs.bitmap in
      let i_dentro : i < fs.block_count =
        omega (arith, get_elem?-lt fs.bitmap i false libre_i, dim.bits) in
      let fcb1 : Fcb = record fcb { puntero_in = some (i * fs.block_size) } in
      let fcb2 : Fcb = record fcb1 { cantidad_indirectos = pos 1 } in
      let marcado2 : FileSys = record fs { bitmap = set_bit j (set_bit i fs.bitmap) } in
      let fs1 = con_datos (con_puntero fs i 0 j) marcado2 in
      let libre_j : get_elem? (set_bit i fs.bitmap) j ≡ some false =
        (primer_libre-libre (set_bit i fs.bitmap) j f).0 in
      let tres = set_bit-tomados fs.bitmap i (k ∷ []) libre_i v.tomados in
      let ajeno = libre-veces fs.bitmap (k ∷ []) i v.tomados libre_i in
      let ajeno_j = libre-veces (set_bit i fs.bitmap) (i ∷ k ∷ []) j tres libre_j in
      (
        asentar_fcb fcb2 (asentar_fcb fcb2 fs1),
        fcb2,
        rw
            (
              ocupar_bloque_libre,
              e,
              ocupar_bloque,
              asignar_punteros fcb.puntero_dir fcb.puntero_in (k * fs.block_size) i j marcado fcb
                  (fs1, fcb2) v.forma.0 v.forma.1 f
                  (agregar_indirecto-en i 0 j marcado2 fcb1 v.forma.2 i_dentro dim.puntero),
              ◌>>=◌,
            )
            refl,
        record {
          punteros = some i;
          bloque = j;
          libre = ground (arith, get_elem?-set_bit fs.bitmap i j libre_i);
          archivo = record {
            forma = (v.forma.0, refl, refl, dim.puntero, con_puntero-Punteros fs i j [] tt);
            tomados = λ x m.
                set_bit-tomados (set_bit i fs.bitmap) j (i ∷ k ∷ []) libre_j tres x (parte x m);
            distintos = λ p. ground (arith, v.distintos p, ajeno, ajeno_j);
          };
          tomados = λ x t.
              set_bit-tomados (set_bit i fs.bitmap) j (x ∷ []) libre_j
                (solo (set_bit i fs.bitmap) x (siguen x t)) x (inr (inl refl));
          ajenos = λ x h.
              escribir_desde_outside fs.datos_bloques (i * fs.block_size + 4 * 0)
                (int_bytes (j * fs.block_size)) x
                (ground (arith, h i refl, dim.puntero, length-int_bytes (j * fs.block_size)));
          mismo_tamanio = refl;
          dimensionado = record {
            enteros = dim.enteros;
            puntero = dim.puntero;
            bits = omega (arith, dim.bits, largo);
          };
          misma_lista = refl;
          mismo_nombre = refl;
          mismo_largo = largo;
          costo = omega (
            arith,
            ocupados-set_bit fs.bitmap i libre_i,
            ocupados-set_bit (set_bit i fs.bitmap) j libre_j,
          );
        },
      )
    where
      parte : (x : ℕ) → In x (i ∷ k ∷ j ∷ []) → (x ≡ j) ⊎ In x (i ∷ k ∷ [])
      parte x (inl e) = inr (inl e)
      parte x (inr (inl e)) = inr (inr (inl e))
      parte x (inr (inr (inl e))) = inl e
      parte x (inr (inr (inr n))) = absurd n

  -- When the FCB stands for a list of blocks (the direct one first, the others in the order of the
  -- pointers in its block of pointers, all taken and each once), the first free bit is at i, and
  -- there is room for one more pointer, ocuparBloqueLibre answers i and the new FCB stands for the
  -- list with one block more at its end, which was free; this holds for the first block, for the
  -- second, which takes a further free block for the pointers, and for all others. Taken bits stay
  -- taken, and of the data nothing outside the block of pointers changes.
  pub ocupar_bloque_libre-agrega :
      (q : Option ℕ) (ks : List ℕ)
      → EsArchivo fs fcb q ks
      → Cabe fs ks i
      → (fs' : FileSys) × (fcb' : Fcb) × (ocupar_bloque_libre fs fcb ≡ ok (some i, fs', fcb'))
        × Crecido fs fcb ks fs' fcb'
  ocupar_bloque_libre-agrega none [] v c = agrega_directo v
  ocupar_bloque_libre-agrega none (k ∷ []) v (j, f) = agrega_punteros k j v f
  ocupar_bloque_libre-agrega none (k ∷ j ∷ ks) v c = absurd v.forma
  ocupar_bloque_libre-agrega (some q) [] v c = absurd v.forma
  ocupar_bloque_libre-agrega (some q) (k ∷ []) v c = absurd v.forma
  ocupar_bloque_libre-agrega (some q) (k ∷ j ∷ ks) v c = agrega_indirecto q k j ks v c
