-- ===== src/Kernel/Segmentos.antt =====
-- kernel.h: `create_segment`, `delete_segment`, and the compaction. What the memory module answers is
-- an argument. `create_segment` is cut where it waits, for an answer or for the permission.
use unix_os_simulation.Base.{
  ℕ, zero, suc, ◌-◌, true, List, [], ◌∷◌, Outcome, ok, deref, ◌>>=◌, codes, ◌==◌, ltb,
  if◌then◌else◌, list_find,
}
use unix_os_simulation.Base.Int.{ℤ, pos, negsuc}
use unix_os_simulation.Biblioteca.{Segmento}
use unix_os_simulation.Kernel.{
  Kernel, planifica, crea, espera_permiso, compacta, pide_segmento, borra_segmento,
  pide_compactacion, enviar, adelante, finalizar,
}
use unix_os_simulation.Kernel.Diccionario.{dictionary_get}
use unix_os_simulation.Kernel.Procesos.{con_pcb}

-- The PCB gets a table of segments.
unfoldable pub con_segmentos : ℕ → List Segmento → Kernel → Outcome Kernel
con_segmentos pid tabla k = do
  pcb ← deref (dictionary_get ◌==◌ pid k.pcbs)
  ok (con_pcb pid (record pcb { tabla_segmentos = tabla }) k)

-- Up to the answer.
unfoldable pub create_segment : ℕ → ℤ → ℤ → Kernel → Kernel
create_segment pid id size k =
    enviar (pide_segmento pid id size) (record k { hilo = crea pid id size })

-- `compaction_manager` up to the wait for the permission, if there is one.
unfoldable pub compaction_manager : ℕ → ℤ → ℤ → Kernel → Kernel
compaction_manager pid id size k =
    if ltb 0 k.compaction_blockers
    then record k { compaction_required = true; hilo = espera_permiso pid id size }
    else enviar pide_compactacion
        (record k { compaction_required = true; hilo = compacta pid id size })

-- The permission has come.
unfoldable pub tomar_permiso : ℕ → ℤ → ℤ → Kernel → Kernel
tomar_permiso pid id size k =
    enviar pide_compactacion (record k {
      compaction_permission = k.compaction_permission - 1;
      hilo = compacta pid id size;
    })

-- By the flag: 1 for a compaction, 0 for a segment that was made, -1 for no space. Any other flag
-- leaves the PCB in no queue.
unfoldable pub segun_flag : ℤ → ℕ → ℤ → ℤ → Kernel → Kernel
unfolding compaction_manager
segun_flag (pos zero) pid id size k = adelante pid (record k { hilo = planifica })
segun_flag (pos (suc zero)) pid id size k = compaction_manager pid id size k
segun_flag (pos (suc (suc n))) pid id size k = record k { hilo = planifica }
segun_flag (negsuc zero) pid id size k =
    finalizar (codes "Out of Memory") pid (record k { hilo = planifica; replanificar = true })
segun_flag (negsuc (suc n)) pid id size k = record k { hilo = planifica }

-- From the answer on.
unfoldable pub create_segment_respuesta : ℤ → List Segmento → ℕ → ℤ → ℤ → Kernel → Outcome Kernel
unfolding con_segmentos segun_flag
create_segment_respuesta flag tabla pid id size k = do
  k1 ← con_segmentos pid tabla k
  ok (segun_flag flag pid id size k1)

-- Each table goes to the PCB of the global list that has its PID; without one, null is followed.
unfoldable pub recibir_tablas_compactadas : List (ℕ × List Segmento) → Kernel → Outcome Kernel
unfolding con_segmentos
recibir_tablas_compactadas [] k = ok k
recibir_tablas_compactadas ((pid, tabla) ∷ tablas) k = do
  un_pcb ← deref (list_find (λ p. p == pid) k.global_pcb_list)
  k1 ← con_segmentos un_pcb tabla k
  recibir_tablas_compactadas tablas k1

-- The end of `compaction_manager`, and the recursive call of `create_segment`.
unfoldable pub compactada : List (ℕ × List Segmento) → ℕ → ℤ → ℤ → Kernel → Outcome Kernel
unfolding recibir_tablas_compactadas create_segment
compactada tablas pid id size k = do
  k1 ← recibir_tablas_compactadas tablas k
  ok (create_segment pid id size k1)

unfoldable pub delete_segment : ℕ → ℤ → List Segmento → Kernel → Outcome Kernel
unfolding con_segmentos
delete_segment pid id tabla k = con_segmentos pid tabla (enviar (borra_segmento pid id) k)
