-- ===== src/Kernel/Sistema/Semaforos/Hilos.antt =====
-- kernel.h: the counters of the semaphores when a process comes in, runs, gets its segment or ends.
use unix_os_simulation.Base.{
  ℕ, zero, suc, ◌+◌, ◌≡◌, List, [], ◌∷◌, deref, Sale, Sale-bind, Sale-bind_any, Cadena, ◌==◌,
  if_elim, length, length-append, list_remove, ltb, arith,
}
use unix_os_simulation.Base.Int.{ℤ, pos, negsuc}
use unix_os_simulation.Biblioteca.{Segmento}
use unix_os_simulation.Biblioteca.OpCode
use unix_os_simulation.Kernel.{Kernel, fin_de_proceso, enviar}
use unix_os_simulation.Kernel.Diccionario.{dictionary_get}
use unix_os_simulation.Kernel.Marco.{quieto, Contadas}
use unix_os_simulation.Kernel.Marco.Recursos.{liberar_recursos-Marco}
use unix_os_simulation.Kernel.Marco.Ficheros.{cerrar_archivos-Marco}
use unix_os_simulation.Kernel.Recursos.{liberar_recursos_del_proceso}
use unix_os_simulation.Kernel.Archivos.{tabla_de}
use unix_os_simulation.Kernel.Procesos.{
  crear_pcb, gestionar_nuevas_conexiones, admitir, enviar_pcb, correr,
}
use unix_os_simulation.Kernel.Segmentos.{compaction_manager, segun_flag}
use unix_os_simulation.Kernel.Salida.{cerrar_archivos, despedir, salir}
use unix_os_simulation.Kernel.Sistema.Semaforos.{bloqueos, Encoladas, IsSincronizado, conserva}

-- The end of a process.
pub despues_de_salir :
    (resto : List ℕ) (k : Kernel)
    → Encoladas 0 (quieto k)
    → k.hay_consolas_ready ≡ length k.consolas_ready
    → suc k.hay_consolas_exit ≡ length resto
    → Sale IsSincronizado (salir resto k)
unfolding salir despedir quieto
despues_de_salir [] k q a b = tt
despues_de_salir (pid ∷ resto) k q a b =
    let k0 = enviar (fin_de_proceso pid) (record k {
      consolas_exit = resto;
      global_pcb_list = list_remove (λ p. p == pid) k.global_pcb_list;
    }) in
    let s0 : IsSincronizado k0 = ((a, omega (arith, b)), q) in
    Sale-bind_any IsSincronizado (deref (dictionary_get ◌==◌ pid k.pcbs)) _ (λ pcb.
      Sale-bind IsSincronizado IsSincronizado (liberar_recursos_del_proceso pid k0) _
        (conserva k0 (liberar_recursos_del_proceso pid k0) 0 s0 (liberar_recursos-Marco pid k0))
        (λ k1 s1.
          Sale-bind IsSincronizado IsSincronizado (cerrar_archivos (tabla_de pid k1) k1) _
            (conserva k1 (cerrar_archivos (tabla_de pid k1) k1) 0 s1
              (cerrar_archivos-Marco (tabla_de pid k1) k1))
            (λ k2 s2. s2)))

-- The admission of a process, and the head of the ready queue.
pub admitir-IsSincronizado :
    (nuevas : List ℕ) (tabla : List Segmento) (k : Kernel)
    → Contadas k
    → suc k.hay_consolas_new ≡ length nuevas
    → k.hay_consolas_blocked ≡ length k.consolas_blocked
    → k.compaction_blockers ≡ bloqueos k.consolas_blocked + 0
    → Sale IsSincronizado (admitir nuevas tabla k)
unfolding admitir quieto
admitir-IsSincronizado [] tabla k c a b d = tt
admitir-IsSincronizado (pid ∷ nuevas) tabla k c a b d =
    Sale-bind_any IsSincronizado (deref (dictionary_get ◌==◌ pid k.pcbs)) _ (λ pcb. (
      (omega (arith, length-append k.consolas_ready (pid ∷ []), c.0), c.1),
      (omega (arith, a), b, d),
    ))

pub correr-IsSincronizado :
    (lista : List ℕ) (k : Kernel)
    → Encoladas 0 (quieto k)
    → suc k.hay_consolas_ready ≡ length lista
    → k.hay_consolas_exit ≡ length k.consolas_exit
    → Sale IsSincronizado (correr lista k)
unfolding correr enviar_pcb quieto
correr-IsSincronizado [] k q a b = tt
correr-IsSincronizado (pid ∷ resto) k q a b =
    Sale-bind_any IsSincronizado (deref (dictionary_get ◌==◌ pid k.pcbs)) _
      (λ pcb. ((omega (arith, a), b), q))

pub segun_flag-IsSincronizado :
    (flag : ℤ) (pid : ℕ) (id size : ℤ) (k : Kernel)
    → IsSincronizado k
    → IsSincronizado (segun_flag flag pid id size k)
unfolding segun_flag compaction_manager quieto
segun_flag-IsSincronizado (pos zero) pid id size k s = ((omega (arith, s.0.0), s.0.1), s.1)
segun_flag-IsSincronizado (pos (suc zero)) pid id size k s =
    if_elim IsSincronizado (ltb 0 k.compaction_blockers) s s
segun_flag-IsSincronizado (pos (suc (suc n))) pid id size k s = s
segun_flag-IsSincronizado (negsuc zero) pid id size k s =
    ((s.0.0, omega (arith, length-append k.consolas_exit (pid ∷ []), s.0.1)), s.1)
segun_flag-IsSincronizado (negsuc (suc n)) pid id size k s = s

pub conecta-IsSincronizado :
    (cod_op : ℤ) (pid : ℕ) (paquete : List Cadena) (k : Kernel)
    → IsSincronizado k
    → IsSincronizado (gestionar_nuevas_conexiones cod_op pid paquete k)
unfolding gestionar_nuevas_conexiones crear_pcb quieto
conecta-IsSincronizado (pos c) pid paquete k s = if_elim IsSincronizado (c == OpCode.mensaje) s (
    if_elim IsSincronizado (c == OpCode.paquete)
      (s.0, (omega (arith, length-append k.consolas_new (pid ∷ []), s.1.0), s.1.1, s.1.2)) s)
conecta-IsSincronizado (negsuc n) pid paquete k s = if_elim IsSincronizado (n == 0) s s
