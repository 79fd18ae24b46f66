-- ===== src/Memoria/Servicio.antt =====
-- Memoria/src/memoria.h and memoria.c: the state that `main` sets up for the kernel, and one turn of
-- `esperarKernel`. The PIDs are numbers; the source writes them as texts for its dictionary.
pub mod Enlaces
pub mod Pedidos
pub mod Borrado
pub mod Unico
pub mod Compactada
pub mod Bucle
pub mod Reintento
pub mod Sesion
use unix_os_simulation.Base.{
  ℕ, ◌≡◌, ◌≢◌, List, [], ◌∷◌, Option, none, some, Outcome, ok, exits, ◌>>=◌, ◌<◌, In,
}
use unix_os_simulation.Commons.{Commons}
use unix_os_simulation.Memoria.{Segmento, Algoritmo, Memoria, lookup}
use unix_os_simulation.Memoria.Huecos.{iniciar_lista_huecos_libres}
use unix_os_simulation.Memoria.Asignacion.{calloc_segment}
use unix_os_simulation.Memoria.Tablas.{Respuesta, create_segment, delete_segment, exit_process}
use unix_os_simulation.Memoria.Compactacion.{espacio, compactar_segmentos}

-- `main` behind the connections: blanks in the user space, one hole, segment 0 in a table of its own,
-- whatever code `calloc_segment` returns.
unfoldable pub memoria_inicial : Commons → Algoritmo → ℕ → ℕ → Outcome Memoria
memoria_inicial c algoritmo tam_memoria tam_segmento_0 = do
  r ←
      calloc_segment c
        (record {
          tam_memoria = tam_memoria;
          algoritmo = algoritmo;
          huecos_libres = iniciar_lista_huecos_libres tam_memoria;
          segmentos = [];
          proximo = 0;
          tabla_inicial = [];
          tablas = [];
          user_space = λ x. espacio;
        })
        [] 0 tam_segmento_0
  ok (record (r.2) { tabla_inicial = r.1 })

-- The operation codes of the switch with what the packet carries.
pub data Peticion : Type 0 where
  crear : ℕ → ℕ → ℕ → Peticion
  borrar : ℕ → ℕ → Peticion
  salir : ℕ → Peticion
  compactar : Peticion
  otra : Peticion

-- What goes to the kernel.
pub data Respondido : Type 0 where
  nada : Respondido
  una_tabla : Respuesta → Respondido
  todas : List (ℕ × List Segmento) → Respondido

abbrev pub respondido : Option Respuesta → Respondido
respondido none = nada
respondido (some r) = una_tabla r

-- The fuel is for the compaction.
unfoldable pub atender_kernel :
    Commons → ℕ → Memoria → Peticion → Option (Outcome (Respondido × Memoria))
atender_kernel c fuel m (crear pid seg_id size) =
    some (do r ← create_segment c m pid seg_id size; ok (una_tabla r.0, r.1))
atender_kernel c fuel m (borrar pid seg_id) =
    some (do r ← delete_segment m pid seg_id; ok (respondido r.0, r.1))
atender_kernel c fuel m (salir pid) = some (do m' ← exit_process m pid; ok (nada, m'))
atender_kernel c fuel m compactar = elim (compactar_segmentos c fuel m) [
  | none ↦ none
  | some o ↦ some (do r ← o; ok (todas r.0, r.1))
]
atender_kernel c fuel m otra = some exits
