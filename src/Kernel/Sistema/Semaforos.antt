-- ===== src/Kernel/Sistema/Semaforos.antt =====
-- kernel.h: the counters of the semaphores and the lengths of the queues that they count, over all
-- steps of the threads; and the counter of the operations that keep a compaction waiting.
pub mod Hilos
pub mod Pasos
use unix_os_simulation.Base.{
  ℕ, zero, suc, ◌+◌, ◌-◌, ◌<◌, ◌≡◌, refl, sym, ap, subst, ◌∙◌, Bool, true, false, ◌&&◌, List, [],
  ◌∷◌, ◌++◌, Outcome, ok, exits, deref, Sale, Sale-bind, Sale-bind_any, Sale-mono, Sale-ok, Cadena,
  ◌==◌, if◌then◌else◌, if_elim, length, length-append, list_remove, ltb, ◌>>=◌, arith,
}
use unix_os_simulation.Base.Int.{ℤ, pos, negsuc, atoi}
use unix_os_simulation.Biblioteca.{Segmento, ExecContext}
use unix_os_simulation.Biblioteca.OpCode
use unix_os_simulation.Kernel.{
  Kernel, BlockedNode, Hilo, planifica, kernel_inicial, fin_de_proceso, enviar, a_ready, adelante,
  a_exit, finalizar,
}
use unix_os_simulation.Kernel.Diccionario.{dictionary_get}
use unix_os_simulation.Kernel.Marco.{
  Quieto, quieto, Contadas, Marco, a_ready-Marco, adelante-Marco, finalizar-Marco,
}
use unix_os_simulation.Kernel.Marco.Recursos.{wait-Marco, signal-Marco, liberar_recursos-Marco}
use unix_os_simulation.Kernel.Marco.Ficheros.{
  cerrar_archivos-Marco, f_close-Marco, f_open-Marco, f_truncate-Marco, fseek-Marco, facceso-Marco,
  recibir_pcb-Marco, con_segmentos-Marco, delete_segment-Marco, recibir_tablas-Marco,
}
use unix_os_simulation.Kernel.Recursos.{
  wait_recurso_lista, signal_recurso_lista, liberar_recursos_del_proceso,
}
use unix_os_simulation.Kernel.Archivos.{tabla_de, process_f_open, process_f_close}
use unix_os_simulation.Kernel.Procesos.{
  con_pcb, crear_pcb, gestionar_nuevas_conexiones, admitir, gestionador_ready, enviar_pcb, correr,
  correr_primero, recibir_pcb, i_o, retener_pcb,
}
use unix_os_simulation.Kernel.Segmentos.{
  con_segmentos, create_segment, compaction_manager, tomar_permiso, segun_flag,
  create_segment_respuesta, recibir_tablas_compactadas, compactada, delete_segment,
}
use unix_os_simulation.Kernel.Ficheros.{
  parametro, impide, uno_por, block_node, recieves_filesystem_petition, sin_bloqueo, operar,
  atender_en, atender, revisar, process_facceso, f_truncate_process, process_fseek, es_uno,
}
use unix_os_simulation.Kernel.Operaciones.{read_op}
use unix_os_simulation.Kernel.Operaciones.Casos.{read_op_cases, operar_cases}
use unix_os_simulation.Kernel.Salida.{cerrar_archivos, despedir, salir, gestionador_exit}
use unix_os_simulation.Kernel.Sistema.{
  volver, ◌⟶◌, ◌⟶*◌, conecta, admite, ordena, corre, vuelve, responde, permite, compacto, despierta,
  revisa, atiende, sale, aqui, luego,
}

-- The nodes whose operation is F_WRITE or F_READ.
abbrev pub bloqueos : List BlockedNode → ℕ
bloqueos [] = 0
bloqueos (n ∷ ns) = uno_por (impide n.cod_op) + bloqueos ns

bloqueos-append : (xs ys : List BlockedNode) → bloqueos (xs ++ ys) ≡ bloqueos xs + bloqueos ys
bloqueos-append [] ys = omega arith
bloqueos-append (x ∷ xs) ys = omega (arith, bloqueos-append xs ys)

-- The part of the counters that `Quieto` has, with `d` more operations counted than stand in the
-- queue.
abbrev pub Encoladas : ℕ → Quieto → Type 0
Encoladas d q =
    (q.q_hay_new ≡ length q.q_new)
    × (q.q_hay_blocked ≡ length q.q_blocked)
    × (q.q_blockers ≡ bloqueos q.q_blocked + d)

abbrev pub SincronizadoCon : ℕ → Kernel → Type 0
SincronizadoCon d k = Contadas k × Encoladas d (quieto k)

-- Each semaphore counts its queue, and `compactionBlockers` the operations in the queue of the file
-- system that keep a compaction waiting.
abbrev pub IsSincronizado : Kernel → Type 0
IsSincronizado k = SincronizadoCon 0 k

pub Marco-Sincronizado :
    (d : ℕ) (k k' : Kernel) → Marco k k' → SincronizadoCon d k → SincronizadoCon d k'
Marco-Sincronizado d k k' (e, f) (c, q) = (f c, subst (Encoladas d) (sym e) q)

-- A call within the frame.
module _ (k : Kernel) (llamada : Outcome Kernel) where
  pub conserva :
      (d : ℕ) → SincronizadoCon d k → Sale (Marco k) llamada → Sale (SincronizadoCon d) llamada
  conserva d s m = Sale-mono llamada m (λ k' n. Marco-Sincronizado d k k' n s)

-- readOp.
fs_petition-IsSincronizado :
    (cod_op pid : ℕ) (ps : List Cadena) (k : Kernel)
    → IsSincronizado k
    → IsSincronizado (recieves_filesystem_petition cod_op pid ps k)
unfolding recieves_filesystem_petition block_node quieto
fs_petition-IsSincronizado cod_op pid ps k (c, (a, b, d)) =
    let n : BlockedNode = record {
      un_pcb = pid;
      parametros = ps;
      cod_op = cod_op;
      impide_compactacion = impide cod_op;
    } in
    (
      c,
      (
        a,
        omega (arith, length-append k.consolas_blocked (n ∷ []), b),
        omega (arith, bloqueos-append k.consolas_blocked (n ∷ []), d),
      ),
    )

pub read_op-IsSincronizado :
    (cod_op pid : ℕ) (ps : List Cadena) (tabla : List Segmento) (k : Kernel)
    → IsSincronizado k
    → Sale IsSincronizado (read_op cod_op pid ps tabla k)
unfolding create_segment i_o quieto
read_op-IsSincronizado cod_op pid ps tabla k s =
    read_op_cases IsSincronizado cod_op pid ps tabla k
      (fs_petition-IsSincronizado cod_op pid ps k s)
      (Marco-Sincronizado 0 k (a_ready pid k) (a_ready-Marco pid k) s)
      ((s.0.0, omega (arith, length-append k.consolas_exit (pid ∷ []), s.0.1)), s.1)
      (λ r. conserva k (wait_recurso_lista r pid k) 0 s (wait-Marco r pid k))
      (λ r. conserva k (signal_recurso_lista r pid k) 0 s (signal-Marco r pid k)) s
      (λ m. Marco-Sincronizado 0 k (finalizar m pid k) (finalizar-Marco m pid k) s) (λ i z. s)
      (λ i.
        Sale-bind IsSincronizado IsSincronizado (delete_segment pid i tabla k) _
          (conserva k (delete_segment pid i tabla k) 0 s (delete_segment-Marco pid i tabla k))
          (λ k1 s1. Marco-Sincronizado 0 k1 (adelante pid k1) (adelante-Marco pid k1) s1))

-- operarFS.
operar-IsSincronizado :
    (respuesta : ℤ) (nodo : BlockedNode) (k : Kernel)
    → SincronizadoCon (uno_por (impide nodo.cod_op)) k
    → Sale IsSincronizado (operar respuesta nodo k)
unfolding quieto
operar-IsSincronizado respuesta nodo k s =
    operar_cases IsSincronizado respuesta nodo k
      (λ e n.
        libre e (process_f_open (es_uno respuesta) n nodo.un_pcb k)
          (f_open-Marco _ n nodo.un_pcb k))
      (λ e n. libre e (process_f_close n nodo.un_pcb k) (f_close-Marco n nodo.un_pcb k))
      (λ e.
        libre e (f_truncate_process respuesta nodo.parametros nodo.un_pcb k)
          (f_truncate-Marco respuesta nodo.parametros nodo.un_pcb k))
      (λ e.
        libre e (process_fseek nodo.parametros nodo.un_pcb k)
          (fseek-Marco nodo.parametros nodo.un_pcb k))
      (λ e op.
        Sale-bind (SincronizadoCon 1) IsSincronizado
          (process_facceso op nodo.parametros nodo.un_pcb k) _
          (conserva k (process_facceso op nodo.parametros nodo.un_pcb k) 1
            (subst (λ b. SincronizadoCon (uno_por b) k) e s)
            (facceso-Marco op nodo.parametros nodo.un_pcb k))
          (λ k1 t. (t.0, (t.1.0, t.1.1, omega (arith, t.1.2)))))
  where
    libre :
        impide nodo.cod_op ≡ false → (o : Outcome Kernel) → Sale (Marco k) o → Sale IsSincronizado o
    libre e o m = conserva k o 0 (subst (λ b. SincronizadoCon (uno_por b) k) e s) m

pub atender_en-IsSincronizado :
    (nodos : List BlockedNode) (respuesta : ℤ) (k : Kernel)
    → Contadas k
    → k.hay_consolas_new ≡ length k.consolas_new
    → suc k.hay_consolas_blocked ≡ length nodos
    → k.compaction_blockers ≡ bloqueos nodos
    → Sale IsSincronizado (atender_en nodos respuesta k)
unfolding atender_en quieto
atender_en-IsSincronizado [] respuesta k c a b d = tt
atender_en-IsSincronizado (nodo ∷ nodos) respuesta k c a b d =
    Sale-bind IsSincronizado IsSincronizado
      (operar respuesta nodo (record k { consolas_blocked = nodos })) _
      (operar-IsSincronizado respuesta nodo (record k { consolas_blocked = nodos })
        (c, (a, omega (arith, b), omega (arith, d))))
      (λ k1 s. s)
