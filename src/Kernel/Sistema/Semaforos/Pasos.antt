-- ===== src/Kernel/Sistema/Semaforos/Pasos.antt =====
-- kernel.h: the counters of the semaphores in every state that the threads reach.
use unix_os_simulation.Base.{
  ℕ, ◌-◌, refl, sym, subst, ◌&&◌, List, Sale-bind, Sale-ok, Cadena, ◌==◌, if_elim, arith,
}
use unix_os_simulation.Kernel.{Kernel, planifica, kernel_inicial, a_ready}
use unix_os_simulation.Kernel.Marco.{quieto, a_ready-Marco}
use unix_os_simulation.Kernel.Marco.Ficheros.{
  recibir_pcb-Marco, con_segmentos-Marco, recibir_tablas-Marco,
}
use unix_os_simulation.Kernel.Procesos.{gestionador_ready, correr_primero, recibir_pcb, retener_pcb}
use unix_os_simulation.Kernel.Segmentos.{
  con_segmentos, create_segment, tomar_permiso, create_segment_respuesta,
  recibir_tablas_compactadas, compactada,
}
use unix_os_simulation.Kernel.Ficheros.{atender, revisar}
use unix_os_simulation.Kernel.Salida.{gestionador_exit}
use unix_os_simulation.Kernel.Sistema.{
  flag_de, volver, ◌⟶◌, ◌⟶*◌, conecta, admite, ordena, corre, vuelve, responde, permite, compacto,
  despierta, revisa, atiende, sale, aqui, luego,
}
use unix_os_simulation.Kernel.Sistema.Semaforos.{
  IsSincronizado, Marco-Sincronizado, conserva, read_op-IsSincronizado, atender_en-IsSincronizado,
}
use unix_os_simulation.Kernel.Sistema.Semaforos.Hilos.{
  despues_de_salir, admitir-IsSincronizado, correr-IsSincronizado, segun_flag-IsSincronizado,
  conecta-IsSincronizado,
}

-- One step.
pub ⟶-IsSincronizado : (k k' : Kernel) → IsSincronizado k → k ⟶ k' → IsSincronizado k'
unfolding quieto gestionador_ready correr_primero volver create_segment_respuesta compactada
    create_segment tomar_permiso retener_pcb revisar atender gestionador_exit
⟶-IsSincronizado k k' s (conecta c pid p e) =
    subst IsSincronizado (sym e) (conecta-IsSincronizado c pid p k s)
⟶-IsSincronizado k k' s (admite tabla a b e) =
    Sale-ok IsSincronizado (gestionador_ready tabla k) k'
      (admitir-IsSincronizado k.consolas_new tabla
        (record k {
          hay_consolas_new = k.hay_consolas_new - 1;
          hay_espacio_ready = k.hay_espacio_ready - 1;
        })
        s.0 (omega (arith, a, s.1.0)) s.1.1 s.1.2)
      e
⟶-IsSincronizado k k' s (ordena orden a (l, m) e) =
    subst IsSincronizado (sym e) ((omega (arith, l, s.0.0), s.0.1), s.1)
⟶-IsSincronizado k k' s (corre a b e) =
    Sale-ok IsSincronizado (correr_primero k) k'
      (correr-IsSincronizado k.consolas_ready
        (record k { hay_consolas_ready = k.hay_consolas_ready - 1 }) s.1 (omega (arith, b, s.0.0))
        s.0.1)
      e
⟶-IsSincronizado k k' s (vuelve c ctx tabla pid a e) =
    let k0 = record k { hilo = planifica } in
    Sale-ok IsSincronizado (volver c ctx tabla pid k) k'
      (Sale-bind IsSincronizado IsSincronizado (recibir_pcb ctx pid k0) _
        (conserva k0 (recibir_pcb ctx pid k0) 0 s (recibir_pcb-Marco ctx pid k0))
        (λ k1 s1. read_op-IsSincronizado c pid ctx.parametros tabla k1 s1))
      e
⟶-IsSincronizado k k' s (responde flag tabla pid id size a e) =
    Sale-ok IsSincronizado (create_segment_respuesta (flag_de flag) tabla pid id size k) k'
      (Sale-bind IsSincronizado IsSincronizado (con_segmentos pid tabla k) _
        (conserva k (con_segmentos pid tabla k) 0 s (con_segmentos-Marco pid tabla k))
        (λ k1 s1. segun_flag-IsSincronizado (flag_de flag) pid id size k1 s1))
      e
⟶-IsSincronizado k k' s (permite pid id size a b e) = subst IsSincronizado (sym e) s
⟶-IsSincronizado k k' s (compacto tablas pid id size a e) =
    Sale-ok IsSincronizado (compactada tablas pid id size k) k'
      (Sale-bind IsSincronizado IsSincronizado (recibir_tablas_compactadas tablas k) _
        (conserva k (recibir_tablas_compactadas tablas k) 0 s (recibir_tablas-Marco tablas k))
        (λ k1 s1. s1))
      e
⟶-IsSincronizado k k' s (despierta pid a e) =
    subst IsSincronizado (sym e) (Marco-Sincronizado 0 k (a_ready pid k) (a_ready-Marco pid k) s)
⟶-IsSincronizado k k' s (revisa a e) =
    subst IsSincronizado (sym e)
      (if_elim IsSincronizado ((k.compaction_blockers == 0) && k.compaction_required) s s)
⟶-IsSincronizado k k' s (atiende r a b e) =
    Sale-ok IsSincronizado (atender r k) k'
      (atender_en-IsSincronizado k.consolas_blocked r
        (record k { hay_consolas_blocked = k.hay_consolas_blocked - 1 }) s.0 s.1.0
        (omega (arith, b, s.1.1)) (omega (arith, s.1.2)))
      e
⟶-IsSincronizado k k' s (sale b e) =
    Sale-ok IsSincronizado (gestionador_exit k) k'
      (despues_de_salir k.consolas_exit (record k { hay_consolas_exit = k.hay_consolas_exit - 1 })
        s.1 s.0.0 (omega (arith, b, s.0.1)))
      e

-- In every state that the threads reach from the start of the kernel, the semaphores
-- hayConsolasNew, hayConsolasReady, hayConsolasExit and hayConsolasBlocked are as high as their
-- queues are long, and compactionBlockers is the number of F_WRITE and F_READ operations in the
-- queue of the file system.
pub alcanzable-IsSincronizado :
    (grado : ℕ) (recursos : List (Cadena × ℕ)) (k : Kernel)
    → kernel_inicial grado recursos ⟶* k
    → IsSincronizado k
unfolding quieto
alcanzable-IsSincronizado grado recursos k aqui = ((refl, refl), (refl, refl, refl))
alcanzable-IsSincronizado grado recursos k (luego {k1 = k1} r p) =
    ⟶-IsSincronizado k1 k (alcanzable-IsSincronizado grado recursos k1 r) p
