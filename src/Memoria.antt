-- ===== src/Memoria.antt =====
-- Memoria/src/memoria.h: the state of the memory module. Holes and segments are positions and
-- sizes in bytes, which are never negative here. The segments that the module allocates with
-- `malloc` stand in a heap under addresses that are never reused, and the tables hold addresses:
-- the object `segmento_0` is shared by every table, as `list_duplicate` copies pointers only.
pub mod Huecos
pub mod Asignacion
pub mod Tablas
pub mod Compactacion
pub mod Espacio
pub mod Punteros
pub mod Servicio
pub use unix_os_simulation.Biblioteca.{Segmento}
use unix_os_simulation.Base.{
  ℕ, suc, ◌+◌, ◌≡◌, Bool, List, [], ◌∷◌, ◌++◌, Option, none, some, Outcome, ok, deref, ◌>>=◌, ◌==◌,
  if◌then◌else◌, list_update, list_remove,
}

pub record Hueco : Type 0 where
  pub pos : ℕ
  pub size : ℕ

-- The three names that `ALGORITMO_ASIGNACION` is compared with, and any other text.
pub data Algoritmo : Type 0 where
  best first worst otro : Algoritmo

pub record Memoria : Type 0 where
  pub tam_memoria : ℕ
  pub algoritmo : Algoritmo
  pub huecos_libres : List Hueco
  pub segmentos : List (ℕ × Segmento)
  pub proximo : ℕ
  pub tabla_inicial : List ℕ
  pub tablas : List (ℕ × List ℕ)
  pub user_space : ℕ → ℕ

-- The dictionary of tables under the PIDs, and the heap of segments under their addresses.
module _ {V : Type 0} where
  abbrev pub lookup : ℕ → List (ℕ × V) → Option V
  lookup k [] = none
  lookup k ((j, v) ∷ d) = if j == k then some v else lookup k d

  abbrev pub put : ℕ → V → List (ℕ × V) → List (ℕ × V)
  put k v [] = (k, v) ∷ []
  put k v ((j, w) ∷ d) = if j == k then (j, v) ∷ d else (j, w) ∷ put k v d

  abbrev pub remove : ℕ → List (ℕ × V) → List (ℕ × V)
  remove k [] = []
  remove k ((j, w) ∷ d) = if j == k then d else (j, w) ∷ remove k d

-- The objects behind a table's pointers.
abbrev pub resolver : List (ℕ × Segmento) → List ℕ → Outcome (List Segmento)
resolver h [] = ok []
resolver h (p ∷ ps) = do s ← deref (lookup p h); ss ← resolver h ps; ok (s ∷ ss)
