-- ===== src/Kernel.antt =====
-- Kernel/src/kernel.h and Kernel/src/kernel.c: the state that the threads of the kernel share. A
-- PCB is its PID, which is the socket of its console; its contents stand under the PID. A text is
-- without its terminating zero byte. Logs, the mutexes, and the estimates and times that the HRRN
-- order reads are left out.
pub mod Diccionario
pub mod Presencia
pub mod Marco
pub mod Recursos
pub mod Archivos
pub mod Procesos
pub mod Segmentos
pub mod Ficheros
pub mod Operaciones
pub mod Salida
pub mod Sistema
use unix_os_simulation.Base.{ℕ, suc, Bool, true, false, List, [], ◌∷◌, ◌++◌, Option, Cadena, codes}
use unix_os_simulation.Base.Int.{ℤ, pos}
use unix_os_simulation.Biblioteca.{Segmento, ExecContext}
use unix_os_simulation.Biblioteca.OpCode

pub record Pcb : Type 0 where
  pub instrucciones : List Cadena
  pub program_counter : ℕ
  pub registros : List Cadena
  pub tabla_segmentos : List Segmento

pub record BlockedNode : Type 0 where
  pub un_pcb : ℕ
  pub parametros : List Cadena
  pub cod_op : ℕ
  pub impide_compactacion : Bool

pub record Descriptor : Type 0 where
  pub file_name : Cadena
  pub pointer : ℤ

-- Where the thread of `gestionadorRunning` is: about to take the next PCB, waiting for the context
-- of a PCB from the CPU, in `create_segment` waiting for the answer of the memory module, or in
-- `compaction_manager`, waiting for the permission or for the compacted tables.
pub data Hilo : Type 0 where
  planifica : Hilo
  ejecuta : ℕ → Hilo
  crea : ℕ → ℤ → ℤ → Hilo
  espera_permiso : ℕ → ℤ → ℤ → Hilo
  compacta : ℕ → ℤ → ℤ → Hilo

-- What the kernel sends: an operation code or a text to a console, and the requests to the memory
-- module, the CPU and the file system.
pub data Envio : Type 0 where
  codigo : ℕ → ℤ → Envio
  texto : ℕ → Cadena → Envio
  cierre : ℕ → Envio
  pide_segmento : ℕ → ℤ → ℤ → Envio
  borra_segmento : ℕ → ℤ → Envio
  fin_de_proceso : ℕ → Envio
  pide_compactacion : Envio
  contexto_a_cpu : ExecContext → Envio
  abre_archivo : Cadena → Envio
  trunca_archivo : Cadena → ℤ → Envio
  accede_archivo : ℕ → Cadena → ℤ → ℤ → ℤ → Envio

-- The queues, the counters of the semaphores, the resources, and the files. `recursos_en_uso` has
-- the PCBs that wait for a resource; in `recursos_por_proceso`, none is a list that has been
-- destroyed while the dictionary still points to it. An instance count is not negative, as in the
-- configuration. `durmiendo` has the PCBs that threads of `retenerPCB` hold. The descriptors stand
-- in a heap under addresses, since the global table and the tables of the processes point to the
-- same ones. `fs_reviso` says that the thread of `operarFS` has passed the test at the top of its
-- loop. `enviados` is what was sent, in order.
pub record Kernel : Type 0 where
  pub pcbs : List (ℕ × Pcb)
  pub global_pcb_list : List ℕ
  pub consolas_new : List ℕ
  pub consolas_ready : List ℕ
  pub consolas_exit : List ℕ
  pub consolas_blocked : List BlockedNode
  pub durmiendo : List ℕ
  pub hay_consolas_new : ℕ
  pub hay_espacio_ready : ℕ
  pub hay_consolas_ready : ℕ
  pub hay_consolas_exit : ℕ
  pub hay_consolas_blocked : ℕ
  pub hilo : Hilo
  pub replanificar : Bool
  pub recursos_disponibles : List (Cadena × ℕ)
  pub recursos_en_uso : List (Cadena × List ℕ)
  pub recursos_por_proceso : List (ℕ × Option (List Cadena))
  pub descriptores : List (ℕ × Descriptor)
  pub proximo : ℕ
  pub gdt : List ℕ
  pub tablas_archivos : List (ℕ × List ℕ)
  pub colas_archivos : List (Cadena × List ℕ)
  pub compaction_blockers : ℕ
  pub compaction_required : Bool
  pub compaction_permission : ℕ
  pub fs_reviso : Bool
  pub enviados : List Envio

-- What `main` of kernel.c and the initial values of kernel.h leave, for the maximal degree of
-- multiprogramming and the resources of the configuration.
abbrev pub kernel_inicial : ℕ → List (Cadena × ℕ) → Kernel
kernel_inicial grado recursos = record {
  pcbs = [];
  global_pcb_list = [];
  consolas_new = [];
  consolas_ready = [];
  consolas_exit = [];
  consolas_blocked = [];
  durmiendo = [];
  hay_consolas_new = 0;
  hay_espacio_ready = grado;
  hay_consolas_ready = 0;
  hay_consolas_exit = 0;
  hay_consolas_blocked = 0;
  hilo = planifica;
  replanificar = false;
  recursos_disponibles = recursos;
  recursos_en_uso = [];
  recursos_por_proceso = [];
  descriptores = [];
  proximo = 0;
  gdt = [];
  tablas_archivos = [];
  colas_archivos = [];
  compaction_blockers = 0;
  compaction_required = false;
  compaction_permission = 0;
  fs_reviso = false;
  enviados = [];
}

abbrev pub enviar : Envio → Kernel → Kernel
enviar e k = record k { enviados = k.enviados ++ e ∷ [] }

-- `list_add(consolasReady, PCB)` and the post of `hayConsolasReady`
abbrev pub a_ready : ℕ → Kernel → Kernel
a_ready pid k = record k {
  consolas_ready = k.consolas_ready ++ pid ∷ [];
  hay_consolas_ready = suc k.hay_consolas_ready;
}

-- `list_add_in_index(consolasReady, 0, PCB)` and the post
abbrev pub adelante : ℕ → Kernel → Kernel
adelante pid k = record k {
  consolas_ready = pid ∷ k.consolas_ready;
  hay_consolas_ready = suc k.hay_consolas_ready;
}

-- `list_add(consolasExit, PCB)` and the post of `hayConsolasExit`
abbrev pub a_exit : ℕ → Kernel → Kernel
a_exit pid k = record k {
  consolas_exit = k.consolas_exit ++ pid ∷ [];
  hay_consolas_exit = suc k.hay_consolas_exit;
}

-- The console gets ERROR and the reason, and the PCB goes to the exit queue.
abbrev pub finalizar : Cadena → ℕ → Kernel → Kernel
finalizar mensaje_error pid k =
    a_exit pid (enviar (texto pid mensaje_error) (enviar (codigo pid (pos OpCode.error)) k))
