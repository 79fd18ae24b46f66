-- ===== src/Kernel/Ficheros.antt =====
-- kernel.h: the queue of PCBs that wait for the file system, its operations, and `operarFS`. What the
-- file system answers is an argument.
pub mod Presentes
use unix_os_simulation.Base.{
  ℕ, zero, suc, ◌+◌, ◌-◌, Bool, true, false, ◌&&◌, ◌||◌, List, [], ◌∷◌, ◌++◌, Option, Outcome, ok,
  exits, faults, deref, ◌>>=◌, Cadena, codes, ◌==◌, if◌then◌else◌, get_elem?,
}
use unix_os_simulation.Base.Int.{ℤ, pos, negsuc, es_menos_uno, atoi}
use unix_os_simulation.Biblioteca.OpCode
use unix_os_simulation.Kernel.{
  Kernel, BlockedNode, trunca_archivo, accede_archivo, enviar, adelante, finalizar,
}
use unix_os_simulation.Kernel.Diccionario.{dictionary_get, dictionary_put}
use unix_os_simulation.Kernel.Archivos.{
  buscar_descriptor, tabla_de, process_f_open, process_f_close,
}

-- `list_get`, followed.
abbrev pub parametro : ℕ → List Cadena → Outcome Cadena
parametro i parametros = deref (get_elem? parametros i)

unfoldable pub impide : ℕ → Bool
impide cod_op = (cod_op == OpCode.f_write) || (cod_op == OpCode.f_read)

abbrev pub uno_por : Bool → ℕ
uno_por b = if b then 1 else 0

unfoldable pub block_node : BlockedNode → Kernel → Kernel
block_node nodo k = record k {
  consolas_blocked = k.consolas_blocked ++ nodo ∷ [];
  hay_consolas_blocked = suc k.hay_consolas_blocked;
}

unfoldable pub recieves_filesystem_petition : ℕ → ℕ → List Cadena → Kernel → Kernel
unfolding impide block_node
recieves_filesystem_petition cod_op pid parametros k =
    block_node
      (record {
        un_pcb = pid;
        parametros = parametros;
        cod_op = cod_op;
        impide_compactacion = impide cod_op;
      })
      (record k { compaction_blockers = k.compaction_blockers + uno_por (impide cod_op) })

abbrev pub es_dos : ℤ → Bool
es_dos (pos n) = n == 2
es_dos (negsuc n) = false

abbrev pub es_uno : ℤ → Bool
es_uno (pos n) = n == 1
es_uno (negsuc n) = false

-- By the confirmation: -1 for no space, 2 for no such file.
unfoldable pub truncado : ℤ → Cadena → ℕ → Kernel → Kernel
truncado confirmation name pid k =
    if es_menos_uno confirmation
    then finalizar (codes "F_TRUNCATE: OUT_OF_SPACE") pid (record k { replanificar = true })
    else if es_dos confirmation
    then finalizar (codes "F_TRUNCATE: " ++ name ++ codes " not found") pid
        (record k { replanificar = true })
    else adelante pid k

unfoldable pub f_truncate_process : ℤ → List Cadena → ℕ → Kernel → Outcome Kernel
unfolding truncado
f_truncate_process confirmation parametros pid k = do
  name ← parametro 0 parametros
  size ← parametro 1 parametros
  ok (truncado confirmation name pid (enviar (trunca_archivo name (atoi size)) k))

-- The pointer of the descriptor is set, for all who have the file open.
unfoldable pub process_fseek : List Cadena → ℕ → Kernel → Outcome Kernel
process_fseek parametros pid k = do
  name ← parametro 0 parametros
  puntero ← parametro 1 parametros
  o ← buscar_descriptor k.descriptores name (tabla_de pid k)
  d ← deref o
  descr ← deref (dictionary_get ◌==◌ d k.descriptores)
  ok (
      adelante pid (record k {
        descriptores =
            dictionary_put ◌==◌ d (record descr { pointer = atoi puntero }) k.descriptores;
      }))

-- F_WRITE and F_READ differ in the operation code that is sent.
unfoldable pub process_facceso : ℕ → List Cadena → ℕ → Kernel → Outcome Kernel
process_facceso cod_op parametros pid k = do
  filename ← parametro 0 parametros
  o ← buscar_descriptor k.descriptores filename k.gdt
  d ← deref o
  descr ← deref (dictionary_get ◌==◌ d k.descriptores)
  mem_addr ← parametro 1 parametros
  bytes ← parametro 2 parametros
  ok (
      adelante pid
        (enviar (accede_archivo cod_op filename (atoi mem_addr) (atoi bytes) descr.pointer) k))

-- `compactionBlockers--` after F_WRITE and F_READ.
abbrev pub sin_bloqueo : Kernel → Kernel
sin_bloqueo k = record k { compaction_blockers = k.compaction_blockers - 1 }

-- The `switch` of `operarFS`, by the answer of the file system.
unfoldable pub operar : ℤ → BlockedNode → Kernel → Outcome Kernel
unfolding f_truncate_process process_fseek process_facceso
operar respuesta nodo k =
    if nodo.cod_op == OpCode.f_open
    then (parametro 0 nodo.parametros >>= λ name.
        process_f_open (es_uno respuesta) name nodo.un_pcb k)
    else if nodo.cod_op == OpCode.f_close
    then (parametro 0 nodo.parametros >>= λ name. process_f_close name nodo.un_pcb k)
    else if nodo.cod_op == OpCode.f_truncate
    then f_truncate_process respuesta nodo.parametros nodo.un_pcb k
    else if nodo.cod_op == OpCode.f_seek
    then process_fseek nodo.parametros nodo.un_pcb k
    else if nodo.cod_op == OpCode.f_write
    then (process_facceso OpCode.f_write nodo.parametros nodo.un_pcb k >>= λ k1.
        ok (sin_bloqueo k1))
    else if nodo.cod_op == OpCode.f_read
    then (process_facceso OpCode.f_read nodo.parametros nodo.un_pcb k >>= λ k1. ok (sin_bloqueo k1))
    else exits

-- The first node of the queue; the loop begins again.
unfoldable pub atender_en : List BlockedNode → ℤ → Kernel → Outcome Kernel
unfolding operar
atender_en [] respuesta k = faults
atender_en (nodo ∷ nodos) respuesta k = do
  k1 ← operar respuesta nodo (record k { consolas_blocked = nodos })
  ok (record k1 { fs_reviso = false })

-- `operarFS` from its `sem_wait` on.
unfoldable pub atender : ℤ → Kernel → Outcome Kernel
unfolding atender_en
atender respuesta k =
    atender_en k.consolas_blocked respuesta
      (record k { hay_consolas_blocked = k.hay_consolas_blocked - 1 })

-- The top of the loop of `operarFS`.
unfoldable pub revisar : Kernel → Kernel
revisar k =
    if (k.compaction_blockers == 0) && k.compaction_required
    then record k {
      compaction_permission = suc k.compaction_permission;
      compaction_required = false;
      fs_reviso = true;
    }
    else record k { fs_reviso = true }
