-- ===== src/Kernel/Sistema.antt =====
-- kernel.h: the threads of the kernel together: each step is an operation that one of them does,
-- with the wait for a semaphore before it. The admission of a process, an operation of `operarFS` and
-- DELETE_SEGMENT have the answer of the other module in the same step; Esperas cuts the first two at their
-- waits. A step that does not return is no step. Which thread is next, what the other modules answer and
-- the order into which HRRN sorts are left open.
pub mod Esperas
pub mod Semaforos
pub mod Grado
pub mod Compactacion
pub mod Tablas
pub mod Admision
use unix_os_simulation.Base.{
  ℕ, ◌-◌, ◌<◌, ◌≡◌, true, false, List, Option, some, Outcome, ok, ◌>>=◌, Cadena, ◌==◌, list_find,
  length,
}
use unix_os_simulation.Base.Int.{ℤ, pos, negsuc}
use unix_os_simulation.Biblioteca.{Segmento, ExecContext}
use unix_os_simulation.Memoria.Asignacion.{Codigo, alojado, falta_compactar, sin_espacio}
use unix_os_simulation.Kernel.{Kernel, planifica, ejecuta, crea, espera_permiso, compacta}
use unix_os_simulation.Kernel.Presencia.{peso}
use unix_os_simulation.Kernel.Procesos.{
  gestionar_nuevas_conexiones, gestionador_ready, correr_primero, recibir_pcb, retener_pcb,
}
use unix_os_simulation.Kernel.Segmentos.{create_segment_respuesta, tomar_permiso, compactada}
use unix_os_simulation.Kernel.Ficheros.{atender, revisar}
use unix_os_simulation.Kernel.Operaciones.{read_op}
use unix_os_simulation.Kernel.Salida.{gestionador_exit}

-- The context comes back from the CPU with an operation, which `readOp` does.
unfoldable pub volver : ℕ → ExecContext → List Segmento → ℕ → Kernel → Outcome Kernel
volver cod_op devuelto tabla pid k = do
  k1 ← recibir_pcb devuelto pid (record k { hilo = planifica })
  read_op cod_op pid devuelto.parametros tabla k1

-- The same PCBs in another order.
abbrev pub MismosPcbs : List ℕ → List ℕ → Type 0
MismosPcbs xs ys = (length ys ≡ length xs) × ((w : ℕ → ℕ) → peso w ys ≡ peso w xs)

-- The flag that `send_tabla_segmentos` sends for the answer of `calloc_segment`.
abbrev pub flag_de : Codigo → ℤ
flag_de alojado = pos 0
flag_de falta_compactar = pos 1
flag_de sin_espacio = negsuc 0

infix 40 ◌⟶◌ ◌⟶*◌
-- A semaphore that is waited for is positive.
pub data ◌⟶◌ (k : Kernel) (k' : Kernel) : Type 0 where
  conecta :
      (cod_op : ℤ) (pid : ℕ) (paquete : List Cadena)
      → k' ≡ gestionar_nuevas_conexiones cod_op pid paquete k
      → k ⟶ k'
  admite :
      (tabla : List Segmento)
      → 0 < k.hay_consolas_new
      → 0 < k.hay_espacio_ready
      → gestionador_ready tabla k ≡ ok k'
      → k ⟶ k'
  ordena :
      (orden : List ℕ)
      → k.hilo ≡ planifica
      → MismosPcbs k.consolas_ready orden
      → k' ≡ record k { consolas_ready = orden; replanificar = false }
      → k ⟶ k'
  corre : k.hilo ≡ planifica → 0 < k.hay_consolas_ready → correr_primero k ≡ ok k' → k ⟶ k'
  vuelve :
      (cod_op : ℕ) (devuelto : ExecContext) (tabla : List Segmento) (pid : ℕ)
      → k.hilo ≡ ejecuta pid
      → volver cod_op devuelto tabla pid k ≡ ok k'
      → k ⟶ k'
  responde :
      (flag : Codigo) (tabla : List Segmento) (pid : ℕ) (id size : ℤ)
      → k.hilo ≡ crea pid id size
      → create_segment_respuesta (flag_de flag) tabla pid id size k ≡ ok k'
      → k ⟶ k'
  permite :
      (pid : ℕ) (id size : ℤ)
      → k.hilo ≡ espera_permiso pid id size
      → 0 < k.compaction_permission
      → k' ≡ tomar_permiso pid id size k
      → k ⟶ k'
  compacto :
      (tablas : List (ℕ × List Segmento)) (pid : ℕ) (id size : ℤ)
      → k.hilo ≡ compacta pid id size
      → compactada tablas pid id size k ≡ ok k'
      → k ⟶ k'
  despierta :
      (pid : ℕ) → list_find (λ x. x == pid) k.durmiendo ≡ some pid → k' ≡ retener_pcb pid k → k ⟶ k'
  revisa : k.fs_reviso ≡ false → k' ≡ revisar k → k ⟶ k'
  atiende :
      (respuesta : ℤ)
      → k.fs_reviso ≡ true
      → 0 < k.hay_consolas_blocked
      → atender respuesta k ≡ ok k'
      → k ⟶ k'
  sale : 0 < k.hay_consolas_exit → gestionador_exit k ≡ ok k' → k ⟶ k'

pub data ◌⟶*◌ (k : Kernel) : Kernel → Type 0 where
  aqui : k ⟶* k
  luego : {k1 k2 : Kernel} → k ⟶* k1 → k1 ⟶ k2 → k ⟶* k2
