-- ===== src/FileSystem/Lista/Lectura.antt =====
-- filesys.h: `blockPointerFromNumber`, and the accesses of the kernel's requests to a file's bytes.
use unix_os_simulation.Base.{
  ℕ, zero, suc, ◌+◌, ◌*◌, ◌≤◌, ◌<◌, ◌≡◌, refl, ap, sym, ◌∙◌, inl, inr, true, List, [], ◌∷◌, Option,
  none, some, Outcome, ok, ◌>>=◌, arith, get_elem?, In, lt→ltb,
}
use unix_os_simulation.Base.Int.{ℤ, pos}
use unix_os_simulation.Biblioteca.Enteros.{int_bytes, leer_int, leer_int-int_bytes}
use unix_os_simulation.Memoria.Espacio.{bytes_desde}
use unix_os_simulation.FileSystem.{Fcb, FileSys}
use unix_os_simulation.FileSystem.Bloques.{con_signo}
use unix_os_simulation.FileSystem.Bloques.Accesos.{total, leer_bloque-en}
use unix_os_simulation.FileSystem.Archivos.{block_pointer_from_number}
use unix_os_simulation.FileSystem.Lista.{
  IsDimensionado, todos, EsArchivo, get_elem?-lt, bloque_dentro, Punteros-elem,
}

-- An address of a block is not negative as an `int`.
dimension :
    (fs : FileSys) (k : ℕ) → IsDimensionado fs → k < fs.block_count → k * fs.block_size < 2147483648
dimension fs k dim l =
    omega (arith, bloque_dentro k fs.block_size fs.block_count l, dim.enteros, dim.puntero)

-- The four bytes of a pointer.
como_puntero : Outcome (ℕ × List ℕ) → Outcome ℤ
como_puntero r = do leido ← r; ok (con_signo leido.0)

leer_puntero :
    (p : ℕ) (bytes : List ℕ)
    → p < 2147483648
    → bytes ≡ int_bytes p
    → como_puntero (leer_int bytes) ≡ ok (pos p)
unfolding int_bytes como_puntero
leer_puntero p bytes l e =
    ap (λ b. como_puntero (leer_int b)) e
    ∙ ap como_puntero (leer_int-int_bytes p [] (omega arith))
    ∙ con_signo_pos
  where
    con_signo_pos : como_puntero (ok (p, [])) ≡ ok (pos p)
    con_signo_pos = rw (lt→ltb p 2147483648 l) refl

puntero_indirecto :
    (fs : FileSys) (fcb : Fcb) (a n p : ℕ)
    → fcb.puntero_in ≡ some a
    → a + 4 * n + 4 ≤ total fs
    → p < 2147483648
    → bytes_desde fs.datos_bloques (a + 4 * n) 4 ≡ int_bytes p
    → block_pointer_from_number fs fcb (pos (suc n)) ≡ ok (pos p)
unfolding block_pointer_from_number como_puntero
puntero_indirecto fs fcb a n p e h l b =
    rw (e, leer_bloque-en a (4 * n) 4 fs h (omega arith))
      (leer_puntero p (bytes_desde fs.datos_bloques (a + 4 * n) 4) l b)

pub In-get_elem? : (ks : List ℕ) (n k : ℕ) → get_elem? ks n ≡ some k → In k ks
In-get_elem? [] n k e = cc
In-get_elem? (j ∷ ks) zero k e = let z : j ≡ k = cc in inl (sym z)
In-get_elem? (j ∷ ks) (suc n) k e = inr (In-get_elem? ks n k e)

tomado-dentro :
    (fs : FileSys) (fcb : Fcb) (q : Option ℕ) (ks : List ℕ) (k : ℕ)
    → IsDimensionado fs
    → EsArchivo fs fcb q ks
    → In k (todos q ks)
    → k < fs.block_count
tomado-dentro fs fcb q ks k dim v m =
    omega (arith, get_elem?-lt fs.bitmap k true (v.tomados k m), dim.bits)

pub dato-dentro :
    (fs : FileSys) (fcb : Fcb) (q : Option ℕ) (ks : List ℕ) (k : ℕ)
    → IsDimensionado fs
    → EsArchivo fs fcb q ks
    → In k ks
    → k < fs.block_count
dato-dentro fs fcb none ks k dim v m = tomado-dentro fs fcb none ks k dim v m
dato-dentro fs fcb (some q) ks k dim v m = tomado-dentro fs fcb (some q) ks k dim v (inr m)

-- The number of a block in the file leads to its address.
pub block_pointer_from_number-lista :
    (fs : FileSys) (fcb : Fcb) (q : Option ℕ) (ks : List ℕ) (n k : ℕ)
    → IsDimensionado fs
    → EsArchivo fs fcb q ks
    → get_elem? ks n ≡ some k
    → block_pointer_from_number fs fcb (pos n) ≡ ok (pos (k * fs.block_size))
unfolding block_pointer_from_number
block_pointer_from_number-lista fs fcb none [] n k dim v e = cc
block_pointer_from_number-lista fs fcb none (j ∷ []) zero k dim v e =
    let z : j ≡ k = cc in rw (v.forma.0, z) refl
block_pointer_from_number-lista fs fcb none (j ∷ []) (suc n) k dim v e = cc
block_pointer_from_number-lista fs fcb none (j ∷ l ∷ ks) n k dim v e = absurd v.forma
block_pointer_from_number-lista fs fcb (some q) [] n k dim v e = absurd v.forma
block_pointer_from_number-lista fs fcb (some q) (j ∷ []) n k dim v e = absurd v.forma
block_pointer_from_number-lista fs fcb (some q) (j ∷ l ∷ ks) zero k dim v e =
    let z : j ≡ k = cc in rw (v.forma.0, z) refl
block_pointer_from_number-lista fs fcb (some q) (j ∷ l ∷ ks) (suc n) k dim v e =
    let b = fs.block_size in
    let q_dentro = tomado-dentro fs fcb (some q) (j ∷ l ∷ ks) q dim v (inl refl) in
    let k_dentro =
      tomado-dentro fs fcb (some q) (j ∷ l ∷ ks) k dim v
        (inr (inr (In-get_elem? (l ∷ ks) n k e))) in
    puntero_indirecto fs fcb (q * b) n (k * b) v.forma.1
      (omega
        (arith, bloque_dentro q b fs.block_count q_dentro, v.forma.3, get_elem?-lt (l ∷ ks) n k e))
      (dimension fs k dim k_dentro)
      (Punteros-elem fs.datos_bloques b (q * b) n k (l ∷ ks) v.forma.4 e)
