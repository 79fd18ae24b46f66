-- ===== src/Kernel/Marco.antt =====
-- kernel.h: what WAIT, SIGNAL, the operations on files and the writes to PCBs leave alone (the queues
-- of new and of blocked PCBs, the state of the compaction and of the two threads), and the counters of
-- the ready and the exit queue with their lengths.
pub mod Recursos
pub mod Ficheros
use unix_os_simulation.Base.{
  ℕ, zero, suc, ◌+◌, ◌≡◌, refl, ◌∙◌, Bool, true, false, List, [], ◌∷◌, ◌++◌, Option, none, some,
  Outcome, ok, deref, ◌>>=◌, Sale, Sale-bind, Sale-bind_any, Sale-mono, Cadena, codes, strcmp_eq,
  ◌==◌, if◌then◌else◌, if_elim, length, length-append, list_find, list_remove, get_elem?, arith,
}
use unix_os_simulation.Base.Int.{ℤ, es_menos_uno, atoi}
use unix_os_simulation.Biblioteca.{Segmento, ExecContext, cantidad_registros_cpu}
use unix_os_simulation.Kernel.{
  Kernel, Descriptor, BlockedNode, Hilo, trunca_archivo, borra_segmento, enviar, a_ready, adelante,
  a_exit, finalizar,
}
use unix_os_simulation.Kernel.Diccionario.{dictionary_get}
use unix_os_simulation.Kernel.Recursos.{
  registrar_en, registrar_recursos_del_proceso, bloquear, tomar, wait_en, wait_recurso_lista,
  quitar_de, quitar_recurso_del_proceso, liberar_recurso_en, liberar_recurso_y_actualizar_ready,
  signal_en, signal_recurso_lista, liberar_todos, liberar_asignados, liberar_recursos_del_proceso,
}
use unix_os_simulation.Kernel.Archivos.{
  buscar_descriptor, tabla_de, con_tabla, liberar_cola, liberar_archivo, cerrar, process_f_close,
  esperar_archivo, abrir_nuevo, abrir, process_f_open,
}
use unix_os_simulation.Kernel.Procesos.{copiar_registros, recibir_pcb}
use unix_os_simulation.Kernel.Segmentos.{con_segmentos, recibir_tablas_compactadas, delete_segment}
use unix_os_simulation.Kernel.Ficheros.{
  parametro, es_dos, truncado, f_truncate_process, process_fseek, process_facceso,
}
use unix_os_simulation.Kernel.Salida.{cerrar_archivos}

pub record Quieto : Type 0 where
  pub q_new : List ℕ
  pub q_blocked : List BlockedNode
  pub q_hay_new : ℕ
  pub q_hay_espacio : ℕ
  pub q_hay_blocked : ℕ
  pub q_hilo : Hilo
  pub q_blockers : ℕ
  pub q_required : Bool
  pub q_permission : ℕ
  pub q_reviso : Bool

unfoldable pub quieto : Kernel → Quieto
quieto k = record {
  q_new = k.consolas_new;
  q_blocked = k.consolas_blocked;
  q_hay_new = k.hay_consolas_new;
  q_hay_espacio = k.hay_espacio_ready;
  q_hay_blocked = k.hay_consolas_blocked;
  q_hilo = k.hilo;
  q_blockers = k.compaction_blockers;
  q_required = k.compaction_required;
  q_permission = k.compaction_permission;
  q_reviso = k.fs_reviso;
}

-- The open files and their queues.
pub record Archivero : Type 0 where
  pub a_descriptores : List (ℕ × Descriptor)
  pub a_proximo : ℕ
  pub a_gdt : List ℕ
  pub a_colas : List (Cadena × List ℕ)

unfoldable pub archivero : Kernel → Archivero
archivero k = record {
  a_descriptores = k.descriptores;
  a_proximo = k.proximo;
  a_gdt = k.gdt;
  a_colas = k.colas_archivos;
}

abbrev pub Contadas : Kernel → Type 0
Contadas k =
    (k.hay_consolas_ready ≡ length k.consolas_ready)
    × (k.hay_consolas_exit ≡ length k.consolas_exit)

abbrev pub Marco : Kernel → Kernel → Type 0
Marco k k' = (quieto k' ≡ quieto k) × (Contadas k → Contadas k')

pub Marco-trans : (k k1 k2 : Kernel) → Marco k k1 → Marco k1 k2 → Marco k k2
Marco-trans k k1 k2 (e, f) (d, g) = (d ∙ e, λ c. g (f c))

-- One operation after the other.
pub Marco-bind :
    (k : Kernel) (llamada : Outcome Kernel) (sigue : Kernel → Outcome Kernel)
    → Sale (Marco k) llamada
    → ((k1 : Kernel) → Sale (Marco k1) (sigue k1))
    → Sale (Marco k) (llamada >>= sigue)
Marco-bind k llamada sigue h f =
    Sale-bind (Marco k) (Marco k) llamada sigue h
      (λ k1 m. Sale-mono (sigue k1) (f k1) (λ k2 n. Marco-trans k k1 k2 m n))

-- The files stay as well.
abbrev pub Fijo : Kernel → Kernel → Type 0
Fijo k k' = Marco k k' × (archivero k' ≡ archivero k)

pub Fijo-trans : (k k1 k2 : Kernel) → Fijo k k1 → Fijo k1 k2 → Fijo k k2
Fijo-trans k k1 k2 (m, a) (n, b) = (Marco-trans k k1 k2 m n, b ∙ a)

pub Fijo-bind :
    (k : Kernel) (llamada : Outcome Kernel) (sigue : Kernel → Outcome Kernel)
    → Sale (Fijo k) llamada
    → ((k1 : Kernel) → Sale (Fijo k1) (sigue k1))
    → Sale (Fijo k) (llamada >>= sigue)
Fijo-bind k llamada sigue h f =
    Sale-bind (Fijo k) (Fijo k) llamada sigue h
      (λ k1 m. Sale-mono (sigue k1) (f k1) (λ k2 n. Fijo-trans k k1 k2 m n))

pub a_ready-Marco : (pid : ℕ) (k : Kernel) → Marco k (a_ready pid k)
unfolding quieto
a_ready-Marco pid k =
    (refl, λ c. (omega (arith, length-append k.consolas_ready (pid ∷ []), c.0), c.1))

pub adelante-Marco : (pid : ℕ) (k : Kernel) → Marco k (adelante pid k)
unfolding quieto
adelante-Marco pid k = (refl, λ c. (omega (arith, c.0), c.1))

pub finalizar-Marco : (mensaje : Cadena) (pid : ℕ) (k : Kernel) → Marco k (finalizar mensaje pid k)
unfolding quieto
finalizar-Marco mensaje pid k =
    (refl, λ c. (c.0, omega (arith, length-append k.consolas_exit (pid ∷ []), c.1)))
