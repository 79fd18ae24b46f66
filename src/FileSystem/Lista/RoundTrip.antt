-- ===== src/FileSystem/Lista/RoundTrip.antt =====
-- filesys.h: what `escribirArchivo` leaves in a file's blocks, as `leerArchivo` finds it.
use native.Mathlib.Nat.{suc-mul, mod-lt, div-add-mod', lt_of_mul-lt-mul_right}
use unix_os_simulation.Base.{
  ℕ, zero, suc, ◌+◌, ◌*◌, ◌/◌, ◌%◌, ◌≤◌, ◌<◌, ◌≡◌, ◌≢◌, refl, sym, ◌⊎◌, inl, inr, List, [], ◌∷◌,
  Option, none, some, ok, arith, length, get_elem?, In, Bool-cases, ltb, ltb→lt,
}
use unix_os_simulation.Base.Int.{pos}
use unix_os_simulation.Memoria.Punteros.{veces, veces-In}
use unix_os_simulation.FileSystem.{Fcb, FileSys}
use unix_os_simulation.FileSystem.Bloques.Accesos.{con_datos}
use unix_os_simulation.FileSystem.Archivos.{
  block_pointer_from_number, escribir_en, leer_en, escribir_en_bloques, leer_en_bloques,
}
use unix_os_simulation.FileSystem.Archivos.Acceso.{
  leer_en_bloques-corto, leer_en_bloques-escribir_en_bloques,
}
use unix_os_simulation.FileSystem.Lista.{
  IsDimensionado, EsArchivo, bloque_dentro, bloques_apart, Punteros-local,
}
use unix_os_simulation.FileSystem.Lista.Lectura.{
  In-get_elem?, dato-dentro, block_pointer_from_number-lista,
}

-- Two places of a list that holds nothing twice.
seguidos-apart :
    (ks : List ℕ) (n k j : ℕ)
    → ((p : ℕ) → veces p ks ≤ 1)
    → get_elem? ks n ≡ some k
    → get_elem? ks (suc n) ≡ some j
    → k ≢ j
seguidos-apart [] n k j u e f = cc
seguidos-apart (x ∷ []) zero k j u e f = cc
seguidos-apart (x ∷ y ∷ ks) zero k j u e f =
    λ z. let a : x ≡ k = cc in let b : y ≡ k = cc in ground (arith, u k)
seguidos-apart (x ∷ ks) (suc n) k j u e f = seguidos-apart ks n k j (λ p. omega (arith, u p)) e f

existe : (ks : List ℕ) (n : ℕ) → n < length ks → (k : ℕ) × (get_elem? ks n ≡ some k)
existe [] n l = absurd (omega arith)
existe (k ∷ ks) zero l = (k, refl)
existe (k ∷ ks) (suc n) l = existe ks n (omega arith)

-- Data that keep the block of pointers keep the file.
con_datos-EsArchivo :
    (fs : FileSys) (fcb : Fcb) (q : Option ℕ) (ks : List ℕ) (d : ℕ → ℕ)
    → EsArchivo fs fcb q ks
    → ((p x : ℕ)
        → q ≡ some p
        → p * fs.block_size ≤ x
        → x < p * fs.block_size + fs.block_size
        → d x ≡ fs.datos_bloques x)
    → EsArchivo (con_datos d fs) fcb q ks
con_datos-EsArchivo fs fcb none [] d v h = record {
  forma = v.forma;
  tomados = v.tomados;
  distintos = v.distintos;
}
con_datos-EsArchivo fs fcb none (k ∷ []) d v h = record {
  forma = v.forma;
  tomados = v.tomados;
  distintos = v.distintos;
}
con_datos-EsArchivo fs fcb none (k ∷ j ∷ ks) d v h = absurd v.forma
con_datos-EsArchivo fs fcb (some q) [] d v h = absurd v.forma
con_datos-EsArchivo fs fcb (some q) (k ∷ []) d v h = absurd v.forma
con_datos-EsArchivo fs fcb (some q) (k ∷ j ∷ ks) d v h = record {
  forma = (
    v.forma.0,
    v.forma.1,
    v.forma.2,
    v.forma.3,
    Punteros-local fs.datos_bloques d fs.block_size (q * fs.block_size) (j ∷ ks)
        (λ x le lt. sym (h q x refl le (omega (arith, v.forma.3)))) v.forma.4,
  );
  tomados = v.tomados;
  distintos = v.distintos;
}

-- The block of pointers is none of the data's.
punteros-apart :
    (fs : FileSys) (fcb : Fcb) (q : Option ℕ) (p k : ℕ) (ks : List ℕ)
    → EsArchivo fs fcb q ks
    → q ≡ some p
    → In k ks
    → p ≢ k
punteros-apart fs fcb none p k ks v e m = cc
punteros-apart fs fcb (some r) p k ks v e m =
    let z : r ≡ p = cc in λ c. ground (arith, v.distintos k, veces-In k ks m)

datos-distintos :
    (fs : FileSys) (fcb : Fcb) (q : Option ℕ) (ks : List ℕ)
    → EsArchivo fs fcb q ks
    → (p : ℕ) → veces p ks ≤ 1
datos-distintos fs fcb none ks v p = v.distintos p
datos-distintos fs fcb (some q) ks v p = omega (arith, v.distintos p)

con_datos-IsDimensionado :
    (fs : FileSys) (d : ℕ → ℕ) → IsDimensionado fs → IsDimensionado (con_datos d fs)
con_datos-IsDimensionado fs d dim = record {
  enteros = dim.enteros;
  puntero = dim.puntero;
  bits = dim.bits;
}

abbrev pub Fuera : FileSys → List ℕ → ℕ → Type 0
Fuera fs ks x =
    (k : ℕ) → In k ks → (x < k * fs.block_size) ⊎ (k * fs.block_size + fs.block_size ≤ x)

module _ (fs : FileSys) (fcb : Fcb) (q : Option ℕ) (ks : List ℕ) (dim : IsDimensionado fs)
    (v : EsArchivo fs fcb q ks) where
  -- Bytes outside the data's blocks are outside the block of pointers' too.
  fuera-EsArchivo :
      (d : ℕ → ℕ)
      → ((x : ℕ) → Fuera fs ks x → d x ≡ fs.datos_bloques x)
      → EsArchivo (con_datos d fs) fcb q ks
  fuera-EsArchivo d o = con_datos-EsArchivo fs fcb q ks d v (λ p x e l h. o x (λ k m.
      ground (arith, bloques_apart p k fs.block_size (punteros-apart fs fcb q p k ks v e m))))

  -- What the file system and the file are after a write of `buffer` at `puntero`.
  abbrev Escrito : ℕ → List ℕ → Type 0
  Escrito puntero buffer =
      (d : ℕ → ℕ) × (escribir_en fs fcb puntero buffer ≡ ok (con_datos d fs))
      × (leer_en (con_datos d fs) fcb puntero (length buffer) ≡ ok buffer)
      × EsArchivo (con_datos d fs) fcb q ks
      × ((x : ℕ) → Fuera fs ks x → d x ≡ fs.datos_bloques x)

  module _ (puntero k : ℕ) (buffer : List ℕ)
      (e : get_elem? ks (puntero / fs.block_size) ≡ some k) where
    reune :
        (d : ℕ → ℕ)
        → ((x : ℕ) → Fuera fs ks x → d x ≡ fs.datos_bloques x)
        → escribir_en_bloques
            (pos (k * fs.block_size))
            (block_pointer_from_number fs fcb (pos (suc (puntero / fs.block_size))))
            (puntero % fs.block_size)
            buffer
            fs
          ≡ ok (con_datos d fs)
        → leer_en_bloques
            (pos (k * fs.block_size))
            (block_pointer_from_number (con_datos d fs) fcb (pos (suc (puntero / fs.block_size))))
            (puntero % fs.block_size)
            (length buffer)
            (con_datos d fs)
          ≡ ok buffer
        → Escrito puntero buffer
    unfolding escribir_en leer_en
    reune d o w r =
        let sigue = fuera-EsArchivo d o in
        (
          d,
          rw (block_pointer_from_number-lista fs fcb q ks (puntero / fs.block_size) k dim v e) w,
          rw
              (block_pointer_from_number-lista (con_datos d fs) fcb q ks (puntero / fs.block_size) k
                (con_datos-IsDimensionado fs d dim) sigue e)
              r,
          sigue,
          o,
        )

    -- The access that stays in its block.
    corto :
        puntero % fs.block_size + length buffer < fs.block_size
        → length buffer ≤ 4
        → Escrito puntero buffer
    corto h c =
        let n = puntero / fs.block_size in
        let dentro =
          bloque_dentro k fs.block_size fs.block_count
            (dato-dentro fs fcb q ks k dim v (In-get_elem? ks n k e)) in
        let (d, w, r, o) =
          leer_en_bloques-corto fs (k * fs.block_size) (puntero % fs.block_size)
            (block_pointer_from_number fs fcb (pos (suc n))) buffer dentro h c in
        reune d (λ x f. o x (f k (In-get_elem? ks n k e))) w
          (r (block_pointer_from_number (con_datos d fs) fcb (pos (suc n))))

    -- The access that goes on in the next block.
    largo :
        (j : ℕ)
        → puntero % fs.block_size < fs.block_size
        → length buffer ≤ 4
        → get_elem? ks (suc (puntero / fs.block_size)) ≡ some j
        → Escrito puntero buffer
    largo j h l f =
        let n = puntero / fs.block_size in
        let k_en = In-get_elem? ks n k e in
        let j_en = In-get_elem? ks (suc n) j f in
        let (d, w, r, o) =
          leer_en_bloques-escribir_en_bloques fs (k * fs.block_size) (j * fs.block_size)
            (puntero % fs.block_size) h
            (bloque_dentro k fs.block_size fs.block_count (dato-dentro fs fcb q ks k dim v k_en))
            (bloque_dentro j fs.block_size fs.block_count (dato-dentro fs fcb q ks j dim v j_en))
            (bloques_apart k j fs.block_size
              (seguidos-apart ks n k j (datos-distintos fs fcb q ks v) e f))
            buffer (omega (arith, l, dim.puntero)) l in
        let fuera = λ (x : ℕ) (t : Fuera fs ks x). o x (t k k_en) (t j j_en) in
        reune d fuera (rw (block_pointer_from_number-lista fs fcb q ks (suc n) j dim v f) w) (
          rw
            (block_pointer_from_number-lista (con_datos d fs) fcb q ks (suc n) j
              (con_datos-IsDimensionado fs d dim) (fuera-EsArchivo d fuera) f)
            r)

  -- For an FCB that stands for a list of blocks, a write of at most four bytes (more do not fit in
  -- what leerBloque allocates) that ends before the end of the list returns, a read of as many
  -- bytes at the same position of the file returns what was written, whether it stays in one block
  -- or goes on in the next, the FCB stands for the same list, and no byte outside the blocks of the
  -- list changes.
  pub leer_en-escribir_en :
      (puntero : ℕ) (buffer : List ℕ)
      → length buffer ≤ 4
      → puntero + length buffer < length ks * fs.block_size
      → (d : ℕ → ℕ) × (escribir_en fs fcb puntero buffer ≡ ok (con_datos d fs))
        × (leer_en (con_datos d fs) fcb puntero (length buffer) ≡ ok buffer)
        × EsArchivo (con_datos d fs) fcb q ks
        × ((x : ℕ) → Fuera fs ks x → d x ≡ fs.datos_bloques x)
  leer_en-escribir_en puntero buffer l h =
      let b = fs.block_size in
      let n = puntero / b in
      let o = puntero % b in
      let partes = div-add-mod' puntero b in
      let menor : o < b = mod-lt puntero (omega (arith, dim.puntero)) in
      let (k, e) = existe ks n (lt_of_mul-lt-mul_right b (omega (arith, partes, h))) in
      elim (Bool-cases (ltb (o + length buffer) b)) [
        | inl c ↦ corto puntero k buffer e (ltb→lt (o + length buffer) b c) l
        | inr c ↦
            let pasa : b ≤ o + length buffer = ground arith in
            let (j, f) =
              existe ks (suc n)
                (lt_of_mul-lt-mul_right b (omega (arith, partes, h, pasa, suc-mul n b))) in
            largo puntero k buffer e j menor l f
      ]
