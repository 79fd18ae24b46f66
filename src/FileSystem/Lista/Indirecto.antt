-- ===== src/FileSystem/Lista/Indirecto.antt =====
-- filesys.h: `liberarUltimoBloqueFCB` of a file with a block of pointers.
use unix_os_simulation.Base.{
  ℕ, suc, ◌+◌, ◌*◌, ◌≤◌, ◌<◌, ◌≡◌, refl, ap, ◌∙◌, ◌⊎◌, inl, inr, true, Bool, List, [], ◌∷◌, ◌++◌,
  some, ok, arith, length, get_elem?, In, length-append,
}
use unix_os_simulation.Base.Int.{pos, negsuc, ◌+ℤ◌}
use unix_os_simulation.Biblioteca.Enteros.{int_bytes, leer_int-int_bytes}
use unix_os_simulation.Memoria.Espacio.{bytes_desde, escribir_desde, escribir_desde_outside}
use unix_os_simulation.Memoria.Punteros.{veces, uno, veces-append}
use unix_os_simulation.FileSystem.{Fcb, FileSys}
use unix_os_simulation.FileSystem.Bloques.{ceros, liberar_indirecto, liberar_punteros}
use unix_os_simulation.FileSystem.Bloques.Accesos.{total, con_datos, leer_bloque-en}
use unix_os_simulation.FileSystem.Lista.{
  IsDimensionado, Punteros, Forma, EsArchivo, bloque_dentro, Punteros-split,
}
use unix_os_simulation.FileSystem.Lista.Liberar.{
  con_bits, Limpio, liberar_bit-en, limpiar_bloque-en, limpiar-fuera, cuerpo-ok,
  liberar_indirecto-cuerpo, dentro,
}

-- What the FCB says of a file with `xs` and then `l` behind the block of pointers.
pub record Indirecto (fs : FileSys) (fcb : Fcb) (q k : ℕ) (xs : List ℕ) (l : ℕ) : Type 0 where
  pub dir : fcb.puntero_dir ≡ some (k * fs.block_size)
  pub ind : fcb.puntero_in ≡ some (q * fs.block_size)
  pub cant : fcb.cantidad_indirectos ≡ pos (suc (length xs))
  pub cabe : 4 * suc (length xs) ≤ fs.block_size
  pub punteros :
      Punteros fs.datos_bloques fs.block_size (q * fs.block_size) xs
      × (bytes_desde fs.datos_bloques (q * fs.block_size + 4 * length xs) 4
          ≡ int_bytes (l * fs.block_size))
  pub mapa : (x : ℕ) → (x ≡ q) ⊎ (x ≡ k) ⊎ (x ≡ l) ⊎ In x xs → get_elem? fs.bitmap x ≡ some true
  pub una_vez : (x : ℕ) → uno x q + (uno x k + (veces x xs + uno x l)) ≤ 1

pub In-append_last : (x l : ℕ) (xs : List ℕ) → (x ≡ l) ⊎ In x xs → In x (xs ++ l ∷ [])
In-append_last x l [] (inl e) = inl e
In-append_last x l [] (inr m) = absurd m
In-append_last x l (y ∷ xs) (inl e) = inr (In-append_last x l xs (inl e))
In-append_last x l (y ∷ xs) (inr (inl e)) = inl e
In-append_last x l (y ∷ xs) (inr (inr m)) = inr (In-append_last x l xs (inr m))

pub EsArchivo-Indirecto :
    (fs : FileSys) (fcb : Fcb) (q k l : ℕ) (xs : List ℕ)
    → EsArchivo fs fcb (some q) (k ∷ xs ++ l ∷ [])
    → Indirecto fs fcb q k xs l
EsArchivo-Indirecto fs fcb q k l xs v =
    let (d, i, c, r, p) = armar xs v.forma in
    record {
      dir = d;
      ind = i;
      cant = c;
      cabe = r;
      punteros = Punteros-split fs.datos_bloques fs.block_size (q * fs.block_size) l xs p;
      mapa = λ x m. v.tomados x (todo x m);
      una_vez = λ x. omega (arith, v.distintos x, veces-append x xs (l ∷ []));
    }
  where
    todo : (x : ℕ) → (x ≡ q) ⊎ (x ≡ k) ⊎ (x ≡ l) ⊎ In x xs → In x (q ∷ k ∷ xs ++ l ∷ [])
    todo x (inl e) = inl e
    todo x (inr (inl e)) = inr (inl e)
    todo x (inr (inr m)) = inr (inr (In-append_last x l xs m))

    largo : (ys : List ℕ) → length (ys ++ l ∷ []) ≡ suc (length ys)
    largo ys = omega (arith, length-append ys (l ∷ []))

    armar :
        (xs : List ℕ)
        → Forma fs fcb (some q) (k ∷ xs ++ l ∷ [])
        → (fcb.puntero_dir ≡ some (k * fs.block_size))
          × (fcb.puntero_in ≡ some (q * fs.block_size))
          × (fcb.cantidad_indirectos ≡ pos (suc (length xs)))
          × (4 * suc (length xs) ≤ fs.block_size)
          × Punteros fs.datos_bloques fs.block_size (q * fs.block_size) (xs ++ l ∷ [])
    armar [] f = f
    armar (j ∷ ys) f =
        (f.0, f.1, f.2 ∙ ap (λ n. pos (suc n)) (largo ys), omega (arith, f.3, largo ys), f.4)

module _ (fs : FileSys) (fcb : Fcb) (dim : IsDimensionado fs) (q k l : ℕ) (xs : List ℕ)
    (f : Indirecto fs fcb q k xs l) where
  -- The data with the last block clean, and then its pointer.
  abbrev pub sin_bloque : ℕ → ℕ
  sin_bloque = escribir_desde fs.datos_bloques (l * fs.block_size + 0) (ceros fs.block_size)

  abbrev pub sin_puntero : ℕ → ℕ
  sin_puntero = escribir_desde sin_bloque (q * fs.block_size + 4 * length xs) (ceros 4)

  q_dentro : q * fs.block_size + fs.block_size ≤ total fs
  q_dentro = bloque_dentro q fs.block_size fs.block_count (dentro fs q dim (f.mapa q (inl refl)))

  pub comun :
      (bs : List Bool) × Limpio fs.bitmap l bs
      × ((r : FileSys × Fcb)
          → liberar_punteros
              (pos (suc (length xs)))
              (q * fs.block_size)
              (con_bits bs (con_datos sin_puntero fs))
              fcb
            ≡ ok r
          → liberar_indirecto (q * fs.block_size) fs fcb
            ≡ ok
                (r.0, record (r.1) { cantidad_indirectos = (r.1).cantidad_indirectos +ℤ negsuc 0 }))
  unfolding int_bytes
  comun =
      let b = fs.block_size in
      let m = length xs in
      let t = f.mapa l (inr (inr (inl refl))) in
      let l_dentro = dentro fs l dim t in
      let (bs, e, z) = liberar_bit-en (con_datos sin_bloque fs) l dim.puntero t in
      let corto : l * b < 2147483648 =
        omega (arith, bloque_dentro l b fs.block_count l_dentro, dim.enteros, dim.puntero) in
      let lee =
        leer_bloque-en (q * b) (4 * m) 4 fs (omega (arith, q_dentro, f.cabe)) (omega arith)
        ∙ ap ok f.punteros.1 in
      (
        bs,
        z,
        λ r h.
            liberar_indirecto-cuerpo fs fcb (q * b) m f.cant
            ∙ cuerpo-ok fs (con_datos sin_bloque fs) (con_bits bs (con_datos sin_bloque fs)) fcb
                (q * b) m (l * b) (pos (suc m)) (int_bytes (l * b)) r lee
                (leer_int-int_bytes (l * b) [] (omega (arith, corto))) corto
                (limpiar_bloque-en fs l l_dentro) e (omega (arith, q_dentro, f.cabe)) h,
      )

  -- What the two writes leave.
  pub lejos :
      (x : ℕ)
      → (x < l * fs.block_size) ⊎ (l * fs.block_size + fs.block_size ≤ x)
      → (x < q * fs.block_size + 4 * length xs) ⊎ (q * fs.block_size + 4 * suc (length xs) ≤ x)
      → sin_puntero x ≡ fs.datos_bloques x
  lejos x h g =
      escribir_desde_outside sin_bloque (q * fs.block_size + 4 * length xs) (ceros 4) x
        (ground arith)
      ∙ limpiar-fuera fs.datos_bloques (l * fs.block_size) fs.block_size x h
