-- ===== src/FileSystem/Lista/Quitar.antt =====
-- filesys.h: `liberarUltimoBloqueFCB` takes the last block off the list of a file.
use unix_os_simulation.Base.{
  ℕ, suc, ◌+◌, ◌*◌, ◌≤◌, ◌<◌, ◌≡◌, refl, ap, sym, ◌∙◌, ◌⊎◌, inl, inr, true, false, List, [], ◌∷◌,
  ◌++◌, Option, none, some, ok, arith, length, get_elem?, In,
}
use unix_os_simulation.Base.Int.{pos, negsuc, ◌+ℤ◌}
use unix_os_simulation.Memoria.Espacio.{escribir_desde}
use unix_os_simulation.Memoria.Punteros.{veces, veces-append, veces-In}
use unix_os_simulation.FileSystem.{Fcb, FileSys}
use unix_os_simulation.FileSystem.Bloques.{
  ceros, liberar_directo, liberar_punteros, liberar_ultimo_bloque_fcb, perder_bloque, asentar_fcb,
}
use unix_os_simulation.FileSystem.Bloques.Accesos.{con_datos}
use unix_os_simulation.FileSystem.Lista.{
  IsDimensionado, todos, EsArchivo, bloques_apart, Punteros-local,
}
use unix_os_simulation.FileSystem.Lista.Liberar.{
  con_bits, liberar_bit-en, rama, ultimo-ok, limpiar_bloque-en, limpiar-fuera, dentro,
}
use unix_os_simulation.FileSystem.Lista.Indirecto.{
  EsArchivo-Indirecto, sin_puntero, comun, lejos, In-append_last,
}

-- What the file and the rest of the file system are after the last block was taken off.
pub record Quitado (fs : FileSys) (fcb : Fcb) (xs ks : List ℕ) (i : ℕ) (fs' : FileSys) (fcb' : Fcb)
    : Type 0 where
  pub punteros : Option ℕ
  pub archivo : EsArchivo fs' fcb' punteros ks
  pub dimensionado : IsDimensionado fs'
  pub libre : get_elem? fs'.bitmap i ≡ some false
  pub mapa : (x : ℕ) → veces x xs ≡ 0 → get_elem? fs'.bitmap x ≡ get_elem? fs.bitmap x
  pub ajenos :
      (x : ℕ)
      → ((k : ℕ) → In k xs → (x < k * fs.block_size) ⊎ (k * fs.block_size + fs.block_size ≤ x))
      → fs'.datos_bloques x ≡ fs.datos_bloques x
  pub mismo_tamanio : fs'.block_size ≡ fs.block_size
  pub misma_lista : fs'.lista_fcb ≡ fs.lista_fcb
  pub mismo_nombre : fcb'.nombre_archivo ≡ fcb.nombre_archivo

module _ (fs : FileSys) (fcb : Fcb) (dim : IsDimensionado fs) where
  quita_directo :
      (k : ℕ)
      → EsArchivo fs fcb none (k ∷ [])
      → (fs' : FileSys) × (fcb' : Fcb) × (liberar_ultimo_bloque_fcb fs fcb ≡ ok (fs', fcb'))
        × Quitado fs fcb (k ∷ []) [] k fs' fcb'
  unfolding asentar_fcb rama liberar_directo
  quita_directo k v =
      let t = v.tomados k (inl refl) in
      let d = escribir_desde fs.datos_bloques (k * fs.block_size + 0) (ceros fs.block_size) in
      let (bs, e, m) = liberar_bit-en (con_datos d fs) k dim.puntero t in
      let fcb1 : Fcb = record fcb { puntero_dir = none } in
      let fs2 = con_bits bs (con_datos d fs) in
      (
        asentar_fcb (perder_bloque fs.block_size fcb1) fs2,
        perder_bloque fs.block_size fcb1,
        ultimo-ok fs fcb none (fs2, fcb1) v.forma.1
            (rw (v.forma.0, limpiar_bloque-en fs k (dentro fs k dim t), e) refl),
        record {
          punteros = none;
          archivo = record {
            forma = (refl, v.forma.1, v.forma.2);
            tomados = λ k n. absurd n;
            distintos = λ p. omega arith;
          };
          dimensionado = record {
            enteros = dim.enteros;
            puntero = dim.puntero;
            bits = omega (arith, m.largo, dim.bits);
          };
          libre = ground (arith, m.bits k);
          mapa = λ x n. ground (arith, m.bits x);
          ajenos = λ x h.
              limpiar-fuera fs.datos_bloques (k * fs.block_size) fs.block_size x (h k (inl refl));
          mismo_tamanio = refl;
          misma_lista = refl;
          mismo_nombre = refl;
        },
      )

In-uno : (x k : ℕ) → In x (k ∷ []) → x ≡ k
In-uno x k (inl e) = e
In-uno x k (inr n) = absurd n

module _ (fs : FileSys) (fcb : Fcb) (dim : IsDimensionado fs) (q k l : ℕ) where
  -- The only pointer: the block of pointers goes with it.
  quita_punteros :
      EsArchivo fs fcb (some q) (k ∷ l ∷ [])
      → (fs' : FileSys) × (fcb' : Fcb) × (liberar_ultimo_bloque_fcb fs fcb ≡ ok (fs', fcb'))
        × Quitado fs fcb (q ∷ k ∷ l ∷ []) (k ∷ []) l fs' fcb'
  unfolding asentar_fcb rama liberar_punteros
  quita_punteros v =
      let f = EsArchivo-Indirecto fs fcb q k l [] v in
      let (bs, z, c) = comun fs fcb dim q k l [] f in
      let d = sin_puntero fs fcb dim q k l [] f in
      let t : get_elem? bs q ≡ some true =
        ground (arith, z.bits q, f.mapa q (inl refl), f.una_vez q) in
      let (bs2, e, z2) = liberar_bit-en (con_bits bs (con_datos d fs)) q dim.puntero t in
      let fs4 = con_bits bs2 (con_datos d fs) in
      let fcb1 : Fcb = record fcb {
        puntero_in = none;
        cantidad_indirectos = fcb.cantidad_indirectos +ℤ negsuc 0;
      } in
      (
        asentar_fcb (perder_bloque fs.block_size fcb1) fs4,
        perder_bloque fs.block_size fcb1,
        ultimo-ok fs fcb (some (q * fs.block_size)) (fs4, fcb1) f.ind
            (c (fs4, record fcb { puntero_in = none }) (rw (e) refl)),
        record {
          punteros = none;
          archivo = record {
            forma = (f.dir, refl, ap (λ n. n +ℤ negsuc 0) f.cant);
            tomados = λ x m.
                let e = In-uno x k m in
                ground (arith, z2.bits x, z.bits x, f.mapa x (inr (inl e)), f.una_vez x);
            distintos = λ p. ground (arith, f.una_vez p);
          };
          dimensionado = record {
            enteros = dim.enteros;
            puntero = dim.puntero;
            bits = omega (arith, z.largo, z2.largo, dim.bits);
          };
          libre = ground (arith, z.bits l, z2.bits l);
          mapa = λ x n. ground (arith, z.bits x, z2.bits x);
          ajenos = λ x h.
              lejos fs fcb dim q k l [] f x (h l (inr (inr (inl refl))))
                (ground (arith, h q (inl refl), dim.puntero));
          mismo_tamanio = refl;
          misma_lista = refl;
          mismo_nombre = refl;
        },
      )

  quita_indirecto :
      (j : ℕ) (ys : List ℕ)
      → EsArchivo fs fcb (some q) (k ∷ j ∷ ys ++ l ∷ [])
      → (fs' : FileSys) × (fcb' : Fcb) × (liberar_ultimo_bloque_fcb fs fcb ≡ ok (fs', fcb'))
        × Quitado fs fcb (q ∷ k ∷ j ∷ ys ++ l ∷ []) (k ∷ j ∷ ys) l fs' fcb'
  unfolding asentar_fcb rama liberar_punteros
  quita_indirecto j ys v =
      let xs = j ∷ ys in
      let f = EsArchivo-Indirecto fs fcb q k l xs v in
      let (bs, z, c) = comun fs fcb dim q k l xs f in
      let d = sin_puntero fs fcb dim q k l xs f in
      let fs3 = con_bits bs (con_datos d fs) in
      let fcb1 : Fcb = record fcb { cantidad_indirectos = fcb.cantidad_indirectos +ℤ negsuc 0 } in
      let aparte = bloques_apart q l fs.block_size (λ e. ground (arith, f.una_vez q)) in
      (
        asentar_fcb (perder_bloque fs.block_size fcb1) fs3,
        perder_bloque fs.block_size fcb1,
        ultimo-ok fs fcb (some (q * fs.block_size)) (fs3, fcb1) f.ind (c (fs3, fcb) refl),
        record {
          punteros = some q;
          archivo = record {
            forma = (
              f.dir,
              f.ind,
              ap (λ n. n +ℤ negsuc 0) f.cant ∙ anterior (length ys),
              omega (arith, f.cabe),
              Punteros-local fs.datos_bloques d fs.block_size (q * fs.block_size) xs
                  (λ x le lt.
                    sym (lejos fs fcb dim q k l xs f x (ground (arith, aparte, f.cabe)) (inl lt)))
                  f.punteros.0,
            );
            tomados = λ x m.
                ground (
                  arith,
                  z.bits x,
                  f.mapa x (parte x xs m),
                  f.una_vez x,
                  veces-In x (q ∷ k ∷ xs) m,
                );
            distintos = λ p. omega (arith, f.una_vez p);
          };
          dimensionado = record {
            enteros = dim.enteros;
            puntero = dim.puntero;
            bits = omega (arith, z.largo, dim.bits);
          };
          libre = ground (arith, z.bits l);
          mapa = λ x n. ground (arith, z.bits x, veces-append x xs (l ∷ []));
          ajenos = λ x h.
              lejos fs fcb dim q k l xs f x (h l (inr (inr (In-append_last l l xs (inl refl)))))
                (ground (arith, h q (inl refl), f.cabe));
          mismo_tamanio = refl;
          misma_lista = refl;
          mismo_nombre = refl;
        },
      )
    where
      anterior : (n : ℕ) → pos (suc (suc n)) +ℤ negsuc 0 ≡ pos (suc n)
      anterior n = ground arith

      parte : (x : ℕ) (xs : List ℕ) → In x (q ∷ k ∷ xs) → (x ≡ q) ⊎ (x ≡ k) ⊎ (x ≡ l) ⊎ In x xs
      parte x xs (inl e) = inl e
      parte x xs (inr (inl e)) = inr (inl e)
      parte x xs (inr (inr m)) = inr (inr (inr m))

-- When the FCB stands for a list of blocks with some last block, liberarUltimoBloqueFCB returns,
-- the new FCB stands for the list without it, also when the block of pointers goes with its only
-- pointer, and the bit of the block is free; the bits of all blocks that are not of the file are as
-- before, and so are the data outside of its blocks.
pub liberar_ultimo_bloque_fcb-quita :
    (fs : FileSys) (fcb : Fcb) (q : Option ℕ) (ks : List ℕ) (i : ℕ)
    → IsDimensionado fs
    → EsArchivo fs fcb q (ks ++ i ∷ [])
    → (fs' : FileSys) × (fcb' : Fcb) × (liberar_ultimo_bloque_fcb fs fcb ≡ ok (fs', fcb'))
      × Quitado fs fcb (todos q (ks ++ i ∷ [])) ks i fs' fcb'
liberar_ultimo_bloque_fcb-quita fs fcb none [] i dim v = quita_directo fs fcb dim i v
liberar_ultimo_bloque_fcb-quita fs fcb none (k ∷ []) i dim v = absurd v.forma
liberar_ultimo_bloque_fcb-quita fs fcb none (k ∷ j ∷ ks) i dim v = absurd v.forma
liberar_ultimo_bloque_fcb-quita fs fcb (some q) [] i dim v = absurd v.forma
liberar_ultimo_bloque_fcb-quita fs fcb (some q) (k ∷ []) i dim v = quita_punteros fs fcb dim q k i v
liberar_ultimo_bloque_fcb-quita fs fcb (some q) (k ∷ j ∷ ks) i dim v =
    quita_indirecto fs fcb dim q k i j ks v
