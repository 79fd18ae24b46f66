-- ===== src/Kernel/Sistema/Compactacion/Pasos.antt =====
-- kernel.h: a compaction that waits for its permission, in every state that the threads reach.
use unix_os_simulation.Base.{
  ℕ, suc, ◌-◌, ◌<◌, ◌≡◌, refl, sym, ap, subst, ◌⊎◌, inl, inr, ◌≢◌, length, true, false, List, [],
  ◌∷◌, ◌++◌, deref, Sale, Sale-bind, Sale-bind_any, Sale-ok, Cadena, ◌==◌, arith,
}
use unix_os_simulation.Base.Int.{ℤ}
use unix_os_simulation.Biblioteca.{Segmento}
use unix_os_simulation.Kernel.{
  Kernel, planifica, espera_permiso, compacta, kernel_inicial, BlockedNode, pide_compactacion,
}
use unix_os_simulation.Kernel.Diccionario.{dictionary_get}
use unix_os_simulation.Kernel.Marco.{quieto}
use unix_os_simulation.Kernel.Procesos.{
  admitir, gestionador_ready, enviar_pcb, correr, correr_primero, recibir_pcb, retener_pcb,
}
use unix_os_simulation.Kernel.Segmentos.{
  con_segmentos, create_segment, tomar_permiso, create_segment_respuesta,
  recibir_tablas_compactadas, compactada,
}
use unix_os_simulation.Kernel.Ficheros.{atender, revisar}
use unix_os_simulation.Kernel.Salida.{gestionador_exit}
use unix_os_simulation.Kernel.Sistema.{
  flag_de, volver, ◌⟶◌, ◌⟶*◌, conecta, admite, ordena, corre, vuelve, responde, permite, compacto,
  despierta, revisa, atiende, sale, aqui, luego,
}
use unix_os_simulation.Kernel.Sistema.Admision.{recibir-Deja}
use unix_os_simulation.Kernel.Sistema.Semaforos.{bloqueos, IsSincronizado}
use unix_os_simulation.Kernel.Sistema.Semaforos.Pasos.{alcanzable-IsSincronizado}
use unix_os_simulation.Kernel.Sistema.Compactacion.{
  EsperaDe, Atendida, read_op-Atendida, segun_flag-Atendida, revisar-Atendida, atender-Atendida,
  salir-Atendida, conecta-Atendida, revisar-da,
}

admitir-Atendida :
    (nuevas : List ℕ) (tabla : List Segmento) (k : Kernel)
    → Atendida k
    → Sale Atendida (admitir nuevas tabla k)
unfolding quieto admitir
admitir-Atendida [] tabla k s = tt
admitir-Atendida (pid ∷ nuevas) tabla k s =
    Sale-bind_any Atendida (deref (dictionary_get ◌==◌ pid k.pcbs)) _ (λ pcb. s)

correr-Atendida : (lista : List ℕ) (k : Kernel) → Sale Atendida (correr lista k)
unfolding quieto correr enviar_pcb
correr-Atendida [] k = tt
correr-Atendida (pid ∷ resto) k =
    Sale-bind_any Atendida (deref (dictionary_get ◌==◌ pid k.pcbs)) _ (λ pcb. tt)

-- One step.
⟶-Atendida : (k k' : Kernel) → Atendida k → k ⟶ k' → Atendida k'
unfolding quieto gestionador_ready correr_primero volver create_segment_respuesta compactada
    create_segment tomar_permiso retener_pcb gestionador_exit
⟶-Atendida k k' s (conecta c pid p e) = subst Atendida (sym e) (conecta-Atendida c pid p k s)
⟶-Atendida k k' s (admite tabla a b e) =
    Sale-ok Atendida (gestionador_ready tabla k) k'
      (admitir-Atendida k.consolas_new tabla
        (record k {
          hay_consolas_new = k.hay_consolas_new - 1;
          hay_espacio_ready = k.hay_espacio_ready - 1;
        })
        s)
      e
⟶-Atendida k k' s (ordena orden a m e) = subst Atendida (sym e) s
⟶-Atendida k k' s (corre a b e) =
    Sale-ok Atendida (correr_primero k) k'
      (correr-Atendida k.consolas_ready
        (record k { hay_consolas_ready = k.hay_consolas_ready - 1 }))
      e
⟶-Atendida k k' s (vuelve c ctx tabla pid a e) =
    let k0 = record k { hilo = planifica } in
    Sale-ok Atendida (volver c ctx tabla pid k) k'
      (Sale-bind _ Atendida (recibir_pcb ctx pid k0) _ (recibir-Deja (λ p. 0) ctx pid k0)
        (λ k1 (d, h). read_op-Atendida c pid ctx.parametros tabla k1 h))
      e
⟶-Atendida k k' s (responde flag tabla pid id size a e) =
    Sale-ok Atendida (create_segment_respuesta (flag_de flag) tabla pid id size k) k'
      (Sale-bind_any Atendida (con_segmentos pid tabla k) _
        (λ k1. segun_flag-Atendida (flag_de flag) pid id size k1))
      e
⟶-Atendida k k' s (permite pid id size a b e) = subst Atendida (sym e) tt
⟶-Atendida k k' s (compacto tablas pid id size a e) =
    Sale-ok Atendida (compactada tablas pid id size k) k'
      (Sale-bind_any Atendida (recibir_tablas_compactadas tablas k) _ (λ k1. tt)) e
⟶-Atendida k k' s (despierta pid a e) = subst Atendida (sym e) s
⟶-Atendida k k' s (revisa a e) = subst Atendida (sym e) (revisar-Atendida k s)
⟶-Atendida k k' s (atiende r a b e) = Sale-ok Atendida (atender r k) k' (atender-Atendida r k s) e
⟶-Atendida k k' s (sale b e) =
    Sale-ok Atendida (gestionador_exit k) k'
      (salir-Atendida k.consolas_exit (record k { hay_consolas_exit = k.hay_consolas_exit - 1 }) s)
      e

alcanzable-Atendida :
    (grado : ℕ) (recursos : List (Cadena × ℕ)) (k : Kernel)
    → kernel_inicial grado recursos ⟶* k
    → Atendida k
unfolding quieto
alcanzable-Atendida grado recursos k aqui = tt
alcanzable-Atendida grado recursos k (luego {k1 = k1} r p) =
    ⟶-Atendida k1 k (alcanzable-Atendida grado recursos k1 r) p

pub esperando :
    (grado : ℕ) (recursos : List (Cadena × ℕ)) (k : Kernel) (pid : ℕ) (id size : ℤ)
    → kernel_inicial grado recursos ⟶* k
    → k.hilo ≡ espera_permiso pid id size
    → (0 < k.compaction_permission)
      ⊎ ((k.compaction_required ≡ true) × ((0 < k.compaction_blockers) ⊎ (k.fs_reviso ≡ false)))
unfolding quieto
esperando grado recursos k pid id size r h =
    subst
      (λ x.
        EsperaDe x k.compaction_permission k.compaction_required k.compaction_blockers k.fs_reviso)
      h (alcanzable-Atendida grado recursos k r)

-- In every state that the threads reach, a compaction_manager that waits for the permission does
-- not wait in vain: the permission is there, or the thread of operarFS is before the test at the
-- top of its loop, or the queue of the file system has a PCB and its semaphore lets that thread go
-- on.
pub alcanzable-sin_bloqueo :
    (grado : ℕ) (recursos : List (Cadena × ℕ)) (k : Kernel) (pid : ℕ) (id size : ℤ)
    → kernel_inicial grado recursos ⟶* k
    → k.hilo ≡ espera_permiso pid id size
    → (0 < k.compaction_permission)
      ⊎ (k.fs_reviso ≡ false)
      ⊎ ((0 < k.hay_consolas_blocked) × (k.consolas_blocked ≢ []))
unfolding quieto
alcanzable-sin_bloqueo grado recursos k pid id size r h =
    go (esperando grado recursos k pid id size r h) k.consolas_blocked refl
  where
    s : IsSincronizado k
    s = alcanzable-IsSincronizado grado recursos k r

    go :
        (0 < k.compaction_permission)
          ⊎ ((k.compaction_required ≡ true) × ((0 < k.compaction_blockers) ⊎ (k.fs_reviso ≡ false)))
        → (ns : List BlockedNode) → k.consolas_blocked ≡ ns
        → (0 < k.compaction_permission)
          ⊎ (k.fs_reviso ≡ false)
          ⊎ ((0 < k.hay_consolas_blocked) × (k.consolas_blocked ≢ []))
    go (inl p) ns e = inl p
    go (inr (d, inr f)) ns e = inr (inl f)
    go (inr (d, inl b)) [] e = let u = ap bloqueos e in absurd (omega (arith, b, s.1.2, u))
    go (inr (d, inl b)) (n ∷ ns) e =
        let u = ap length e in inr (inr (omega (arith, s.1.1, u), λ z. cc))

-- From every state that the threads reach in which compaction_manager waits for the permission and
-- no F_READ or F_WRITE is left in the queue of the file system, the threads can reach, with the
-- test of operarFS and the permission, a state in which the compaction of the same request has been
-- asked for.
pub alcanzable-compacta :
    (grado : ℕ) (recursos : List (Cadena × ℕ)) (k : Kernel) (pid : ℕ) (id size : ℤ)
    → kernel_inicial grado recursos ⟶* k
    → k.hilo ≡ espera_permiso pid id size
    → bloqueos k.consolas_blocked ≡ 0
    → (k' : Kernel) × (k ⟶* k')
      × (k'.hilo ≡ compacta pid id size)
      × (k'.enviados ≡ k.enviados ++ pide_compactacion ∷ [])
unfolding quieto tomar_permiso
alcanzable-compacta grado recursos k pid id size r h z =
    go (esperando grado recursos k pid id size r h)
  where
    s : IsSincronizado k
    s = alcanzable-IsSincronizado grado recursos k r

    Fin : Type 0
    Fin =
        (k' : Kernel) × (k ⟶* k')
        × (k'.hilo ≡ compacta pid id size)
        × (k'.enviados ≡ k.enviados ++ pide_compactacion ∷ [])

    permiso :
        (x : Kernel)
        → k ⟶* x
        → x.hilo ≡ espera_permiso pid id size
        → x.enviados ≡ k.enviados
        → 0 < x.compaction_permission
        → Fin
    permiso x q e v p = (
      tomar_permiso pid id size x,
      luego q (permite pid id size e p refl),
      refl,
      ap (λ l. l ++ pide_compactacion ∷ []) v,
    )

    go :
        (0 < k.compaction_permission)
          ⊎ ((k.compaction_required ≡ true) × ((0 < k.compaction_blockers) ⊎ (k.fs_reviso ≡ false)))
        → Fin
    go (inl p) = permiso k aqui h refl p
    go (inr (d, inl b)) = absurd (omega (arith, b, s.1.2, z))
    go (inr (d, inr f)) =
        let t : revisar k ≡ record k {
          compaction_permission = suc k.compaction_permission;
          compaction_required = false;
          fs_reviso = true;
        } =
          revisar-da k (omega (arith, s.1.2, z)) d in
        permiso (revisar k) (luego aqui (revisa f refl)) (rw (t) h) (rw (t) refl)
          (rw (t) (omega arith))
