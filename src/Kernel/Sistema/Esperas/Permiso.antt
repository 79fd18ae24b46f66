-- ===== src/Kernel/Sistema/Esperas/Permiso.antt =====
-- kernel.h: the permission of a compaction, with the waits of the threads.
use unix_os_simulation.Base.{
  ℕ, ◌+◌, ◌-◌, ◌<◌, ◌≡◌, ◌≢◌, refl, ap, ◌⊎◌, inl, inr, Bool, true, false, List, [], ◌∷◌, ◌++◌,
  Cadena, if◌then◌else◌, arith,
}
use unix_os_simulation.Base.Int.{ℤ}
use unix_os_simulation.Kernel.{Kernel, espera_permiso, compacta, BlockedNode, pide_compactacion}
use unix_os_simulation.Kernel.Segmentos.{tomar_permiso}
use unix_os_simulation.Kernel.Ficheros.{revisar}
use unix_os_simulation.Kernel.Sistema.{permite, revisa}
use unix_os_simulation.Kernel.Sistema.Semaforos.{bloqueos}
use unix_os_simulation.Kernel.Sistema.Compactacion.{revisar-da}
use unix_os_simulation.Kernel.Sistema.Compactacion.Pasos.{alcanzable-sin_bloqueo, esperando}
use unix_os_simulation.Kernel.Sistema.Esperas.{
  Estado, visto, resto, Ajeno, ajeno, ◌⟹*◌, quieto_en, y_luego, estado_inicial,
}
use unix_os_simulation.Kernel.Sistema.Esperas.Alcance.{alcanzado}
use unix_os_simulation.Kernel.Sistema.Esperas.Garantias.{primero, retenidos, visto-semaforos}

module _ (grado : ℕ) (recursos : List (Cadena × ℕ)) (s : Estado) (pid : ℕ) (id size : ℤ)
    (r : estado_inicial grado recursos ⟹* s)
    (h : (s.kernel).hilo ≡ espera_permiso pid id size) where
  abbrev Sigue : Bool → List BlockedNode → Type 0
  Sigue b ns =
      (0 < (s.kernel).compaction_permission)
      ⊎ ((s.kernel).fs_reviso ≡ false)
      ⊎ ((b ≡ true) × (primero b ns ≢ []))
      ⊎ ((0 < (s.kernel).hay_consolas_blocked - (if b then 1 else 0))
          × ((if b then resto ns else ns) ≢ []))

  -- In every state that the threads reach, a compaction_manager that waits for the permission does
  -- not wait in vain: the permission is there, or the thread of operarFS is before the test at the
  -- top of its loop, or it has taken an operation and waits for the answer of the file system, or
  -- the queue of the file system has a PCB and its semaphore lets that thread go on.
  pub visto-sin_bloqueo :
      (0 < (visto s).compaction_permission)
      ⊎ ((visto s).fs_reviso ≡ false)
      ⊎ ((s.espera_fs ≡ true) × (retenidos s ≢ []))
      ⊎ ((0 < (visto s).hay_consolas_blocked) × ((visto s).consolas_blocked ≢ []))
  unfolding visto retenidos primero
  visto-sin_bloqueo = go s.espera_fs (s.kernel).consolas_blocked (
      alcanzable-sin_bloqueo grado recursos s.kernel pid id size (alcanzado grado recursos s r).0 h)
    where
      go :
          (b : Bool) (ns : List BlockedNode)
          → (0 < (s.kernel).compaction_permission)
            ⊎ ((s.kernel).fs_reviso ≡ false)
            ⊎ ((0 < (s.kernel).hay_consolas_blocked) × (ns ≢ []))
          → Sigue b ns
      go b ns (inl p) = inl p
      go b ns (inr (inl f)) = inr (inl f)
      go true [] (inr (inr (a, n))) = absurd (n refl)
      go true (x ∷ ns) (inr (inr q)) = inr (inr (inl (refl, λ z. cc)))
      go false ns (inr (inr (a, n))) = inr (inr (inr (omega (arith, a), n)))

  abbrev Fin : Type 0
  Fin =
      (s' : Estado) × (s ⟹* s')
      × ((s'.kernel).hilo ≡ compacta pid id size)
      × ((s'.kernel).enviados ≡ (s.kernel).enviados ++ pide_compactacion ∷ [])

  -- A post that the manager finds is taken.
  permiso :
      (x : Estado)
      → s ⟹* x
      → (x.kernel).hilo ≡ espera_permiso pid id size
      → (x.kernel).enviados ≡ (s.kernel).enviados
      → 0 < (x.kernel).compaction_permission
      → Fin
  unfolding tomar_permiso Ajeno
  permiso x q e v p =
      let k' = tomar_permiso pid id size x.kernel in
      (
        record x { kernel = k' },
        y_luego q (ajeno k' (permite pid id size e p refl) tt refl),
        refl,
        ap (λ l. l ++ pide_compactacion ∷ []) v,
      )

  -- From every state that the threads reach in which compaction_manager waits for the permission,
  -- and no F_READ or F_WRITE is in the queue of the file system or in the hands of operarFS, the
  -- threads can reach a state in which the compaction of the same request has been asked for, and
  -- nothing else has been sent.
  pub visto-compacta :
      bloqueos (visto s).consolas_blocked + bloqueos (retenidos s) ≡ 0
      → (s' : Estado) × (s ⟹* s')
        × ((s'.kernel).hilo ≡ compacta pid id size)
        × ((s'.kernel).enviados ≡ (s.kernel).enviados ++ pide_compactacion ∷ [])
  unfolding visto Ajeno
  visto-compacta z =
      go (esperando grado recursos s.kernel pid id size (alcanzado grado recursos s r).0 h)
    where
      k : Kernel
      k = s.kernel

      b0 : k.compaction_blockers ≡ 0
      b0 = let (x1, x2, x3, x4, x5) = visto-semaforos grado recursos s r in omega (arith, x5, z)

      go :
          (0 < k.compaction_permission)
            ⊎ ((k.compaction_required ≡ true)
                × ((0 < k.compaction_blockers) ⊎ (k.fs_reviso ≡ false)))
          → Fin
      go (inl p) = permiso s quieto_en h refl p
      go (inr (d, inl b)) = absurd (omega (arith, b, b0))
      go (inr (d, inr f)) =
          let t = revisar-da k b0 d in
          permiso (record s { kernel = revisar k })
            (y_luego quieto_en (ajeno (revisar k) (revisa f refl) tt refl)) (rw (t) h) (rw (t) refl)
            (rw (t) (omega arith))
