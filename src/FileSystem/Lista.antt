-- ===== src/FileSystem/Lista.antt =====
-- filesys.h: the blocks of a file as a list. What the pointers of an FCB, the block of pointers and the
-- bitmap have to say of it.
pub mod Ocupar
pub mod Agregar
pub mod Liberar
pub mod Indirecto
pub mod RoundTrip
pub mod Crecer
pub mod Reinicio
pub mod Cierre
pub mod Truncar
pub mod Quitar
pub mod Lectura
use unix_os_simulation.Base.{
  ℕ, zero, suc, ◌+◌, ◌*◌, ◌/◌, ◌≤◌, ◌<◌, ◌≡◌, ◌≢◌, refl, ap, sym, ◌∙◌, ◌⊎◌, inl, inr, true, false,
  Bool, List, [], ◌∷◌, ◌++◌, Option, none, some, arith, length, get_elem?, In, Bool-cases, ltb,
  ltb→lt,
}
use native.Mathlib.Nat.{mul_comm, mul-suc}
use unix_os_simulation.Base.Int.{ℤ, pos}
use unix_os_simulation.Biblioteca.Enteros.{int_bytes}
use unix_os_simulation.Memoria.Espacio.{bytes_desde}
use unix_os_simulation.Memoria.Punteros.{veces, uno, veces-append, veces-In}
use unix_os_simulation.FileSystem.{Fcb, FileSys}
use unix_os_simulation.FileSystem.Bloques.Accesos.{total, bytes_desde-local}

-- Addresses fit in an `int`, a pointer in a block, and each bit stands for a block.
pub record IsDimensionado (fs : FileSys) : Type 0 where
  pub enteros : total fs ≤ 2147483648
  pub puntero : 4 ≤ fs.block_size
  pub bits : length fs.bitmap ≤ fs.block_count

-- The addresses of the blocks stand one after another from `a` on.
abbrev pub Punteros : (ℕ → ℕ) → ℕ → ℕ → List ℕ → Type 0
Punteros d b a [] = Unit
Punteros d b a (k ∷ ks) = (bytes_desde d a 4 ≡ int_bytes (k * b)) × Punteros d b (a + 4) ks

-- No block, the direct one, or the direct one with a block of pointers to the others.
abbrev pub Forma : FileSys → Fcb → Option ℕ → List ℕ → Type 0
Forma fs fcb none [] =
    (fcb.puntero_dir ≡ none) × (fcb.puntero_in ≡ none) × (fcb.cantidad_indirectos ≡ pos 0)
Forma fs fcb none (k ∷ []) =
    (fcb.puntero_dir ≡ some (k * fs.block_size))
    × (fcb.puntero_in ≡ none)
    × (fcb.cantidad_indirectos ≡ pos 0)
Forma fs fcb none (k ∷ j ∷ ks) = ⊥
Forma fs fcb (some q) [] = ⊥
Forma fs fcb (some q) (k ∷ []) = ⊥
Forma fs fcb (some q) (k ∷ j ∷ ks) =
    (fcb.puntero_dir ≡ some (k * fs.block_size))
    × (fcb.puntero_in ≡ some (q * fs.block_size))
    × (fcb.cantidad_indirectos ≡ pos (suc (length ks)))
    × (4 * suc (length ks) ≤ fs.block_size)
    × Punteros fs.datos_bloques fs.block_size (q * fs.block_size) (j ∷ ks)

abbrev pub todos : Option ℕ → List ℕ → List ℕ
todos none ks = ks
todos (some q) ks = q ∷ ks

-- The FCB stands for the list of blocks; its blocks are taken, each once.
pub record EsArchivo (fs : FileSys) (fcb : Fcb) (q : Option ℕ) (ks : List ℕ) : Type 0 where
  pub forma : Forma fs fcb q ks
  pub tomados : (k : ℕ) → In k (todos q ks) → get_elem? fs.bitmap k ≡ some true
  pub distintos : (p : ℕ) → veces p (todos q ks) ≤ 1

-- A block that has a bit lies in the file of blocks.
pub get_elem?-lt :
    {A : Type 0} (xs : List A) (i : ℕ) (a : A) → get_elem? xs i ≡ some a → i < length xs
get_elem?-lt [] i a e = cc
get_elem?-lt (x ∷ xs) zero a e = omega arith
get_elem?-lt (x ∷ xs) (suc i) a e = omega (arith, get_elem?-lt xs i a e)

pub bloque_dentro : (k b c : ℕ) → k < c → k * b + b ≤ b * c
bloque_dentro k b (suc c) l = elim (mas k c l) [
  | inl e ↦ rw (e) (igual c b)
  | inr e ↦ let r = bloque_dentro k b c e in paso (k * b + b) b c r
]
  where
    mas : (k c : ℕ) → k < suc c → (k ≡ c) ⊎ (k < c)
    mas k c l = ground arith

    igual : (c b : ℕ) → c * b + b ≤ b * suc c
    igual c b = omega (arith, mul_comm c b, mul-suc b c)

    paso : (n b c : ℕ) → n ≤ b * c → n ≤ b * suc c
    paso n b c l = omega (arith, mul-suc b c)
bloque_dentro k b zero l = absurd (omega arith)

pub bloques_apart : (k j b : ℕ) → k ≢ j → (k * b + b ≤ j * b) ⊎ (j * b + b ≤ k * b)
bloques_apart k j b n = elim (Bool-cases (ltb k j)) [
  | inl l ↦ inl (omega (arith, bloque_dentro k b j (ltb→lt k j l), mul_comm j b))
  | inr l ↦ inr (omega (arith, bloque_dentro j b k (ground arith), mul_comm k b))
]

-- The pointers are what their own bytes say.
pub Punteros-local :
    (d e : ℕ → ℕ) (b a : ℕ) (ks : List ℕ)
    → ((x : ℕ) → a ≤ x → x < a + 4 * length ks → d x ≡ e x)
    → Punteros d b a ks
    → Punteros e b a ks
Punteros-local d e b a [] h p = tt
Punteros-local d e b a (k ∷ ks) h (p, ps) = (
  sym (bytes_desde-local d e a 4 (λ x le lt. h x le (omega arith))) ∙ p,
  Punteros-local d e b (a + 4) ks (λ x le lt. h x (omega arith) (omega arith)) ps,
)

pub Punteros-append :
    (d : ℕ → ℕ) (b a k : ℕ) (ks : List ℕ)
    → Punteros d b a ks
    → bytes_desde d (a + 4 * length ks) 4 ≡ int_bytes (k * b)
    → Punteros d b a (ks ++ k ∷ [])
Punteros-append d b a k [] p e = (rw (cero a) at e, tt)
  where
    cero : (a : ℕ) → a + 4 * 0 ≡ a
    cero a = omega arith
Punteros-append d b a k (j ∷ ks) (p, ps) e =
    (p, Punteros-append d b (a + 4) k ks ps (rw (sigue a (length ks)) at e))
  where
    sigue : (a n : ℕ) → a + 4 * suc n ≡ a + 4 + 4 * n
    sigue a n = omega arith

-- The last pointer, and those before it.
pub Punteros-split :
    (d : ℕ → ℕ) (b a k : ℕ) (ks : List ℕ)
    → Punteros d b a (ks ++ k ∷ [])
    → Punteros d b a ks × (bytes_desde d (a + 4 * length ks) 4 ≡ int_bytes (k * b))
Punteros-split d b a k [] (p, _) = (tt, rw (← cero a) at p)
  where
    cero : (a : ℕ) → a + 4 * 0 ≡ a
    cero a = omega arith
Punteros-split d b a k (j ∷ ks) (p, ps) =
    let (r, e) = Punteros-split d b (a + 4) k ks ps in ((p, r), rw (← sigue a (length ks)) at e)
  where
    sigue : (a n : ℕ) → a + 4 * suc n ≡ a + 4 + 4 * n
    sigue a n = omega arith

-- The pointer at a position.
pub Punteros-elem :
    (d : ℕ → ℕ) (b a n k : ℕ) (ks : List ℕ)
    → Punteros d b a ks
    → get_elem? ks n ≡ some k
    → bytes_desde d (a + 4 * n) 4 ≡ int_bytes (k * b)
Punteros-elem d b a n k [] p e = cc
Punteros-elem d b a zero k (j ∷ ks) (p, ps) e = let z : j ≡ k = cc in rw (cero a, ← z) p
  where
    cero : (a : ℕ) → a + 4 * 0 ≡ a
    cero a = omega arith
Punteros-elem d b a (suc n) k (j ∷ ks) (p, ps) e =
    rw (sigue a n) (Punteros-elem d b (a + 4) n k ks ps e)
  where
    sigue : (a n : ℕ) → a + 4 * suc n ≡ a + 4 + 4 * n
    sigue a n = omega arith
