-- ===== src/Memoria/Tablas.antt =====
-- Memoria/src/memoria.h: the segment tables of the processes. `create_segment`, `delete_segment`
-- and the EXIT case of `esperarKernel`, with the answer that goes to the kernel.
pub mod Cobertura
use unix_os_simulation.Base.{
  ℕ, suc, ◌≡◌, Bool, List, [], ◌∷◌, ◌++◌, Option, none, some, Outcome, ok, faults, deref, ◌>>=◌,
  ◌==◌, if◌then◌else◌,
}
use unix_os_simulation.Commons.{Commons}
use unix_os_simulation.Memoria.{Segmento, Memoria, lookup, put, remove, resolver}
use unix_os_simulation.Memoria.Huecos.{alojar_nuevo_hueco}
use unix_os_simulation.Memoria.Asignacion.{Codigo, alojado, calloc_segment}

-- What `send_tabla_segmentos` sends: the flag as operation code, and the segments of the table.
pub record Respuesta : Type 0 where
  pub rflag : Codigo
  pub tabla : List Segmento

-- A process that asks for the first time gets a copy of the initial table and no new segment.
unfoldable pub create_segment : Commons → Memoria → ℕ → ℕ → ℕ → Outcome (Respuesta × Memoria)
create_segment c m pid seg_id size = elim (lookup pid m.tablas) [
  | none ↦ do
    segs ← resolver m.segmentos m.tabla_inicial
    ok (
      record { rflag = alojado; tabla = segs },
      record m { tablas = put pid m.tabla_inicial m.tablas },
    )
  | some tabla ↦ do
    r ← calloc_segment c m tabla seg_id size
    let m' = record (r.2) { tablas = put pid r.1 (r.2).tablas }
    segs ← resolver m'.segmentos r.1
    ok (record { rflag = r.0; tabla = segs }, m')
]

-- `list_remove_by_condition` with the closure on the ID: the first pointer whose segment has it, and
-- the table without it. Every pointer on the way is followed.
unfoldable pub quitar_por_id :
    List (ℕ × Segmento) → ℕ → List ℕ → Outcome (Option (ℕ × Segmento) × List ℕ)
quitar_por_id h seg_id [] = ok (none, [])
quitar_por_id h seg_id (p ∷ ps) = do
  s ← deref (lookup p h)
  let rest = quitar_por_id h seg_id ps
  if s.id == seg_id then ok (some (p, s), ps) else (do r ← rest; ok (r.0, p ∷ r.1))

-- The freed bytes become a hole, and the segment's object is freed.
unfoldable pub liberar_segmento : Memoria → ℕ → Segmento → Memoria
liberar_segmento m p s = record m {
  huecos_libres = alojar_nuevo_hueco m.huecos_libres s.base s.limite;
  segmentos = remove p m.segmentos;
}

-- An unknown process is only logged and gets no answer. For an unknown ID the pointer that
-- `list_remove_by_condition` returns is null, and it is followed.
unfoldable pub delete_segment : Memoria → ℕ → ℕ → Outcome (Option Respuesta × Memoria)
unfolding liberar_segmento quitar_por_id
delete_segment m pid seg_id = elim (lookup pid m.tablas) [
  | none ↦ ok (none, m)
  | some tabla ↦ do
    r ← quitar_por_id m.segmentos seg_id tabla
    e ← deref r.0
    segs ← resolver m.segmentos r.1
    ok (
      some (record { rflag = alojado; tabla = segs }),
      liberar_segmento (record m { tablas = put pid r.1 m.tablas }) e.0 e.1,
    )
]

-- The loop of the EXIT case, over the table's entries after the first.
unfoldable pub liberar_segmentos : Memoria → List ℕ → Outcome Memoria
unfolding liberar_segmento
liberar_segmentos m [] = ok m
liberar_segmentos m (p ∷ ps) = do
  s ← deref (lookup p m.segmentos)
  liberar_segmentos (liberar_segmento m p s) ps

-- The EXIT case: the table leaves the dictionary, and all its segments but the first, which is the
-- shared one, are freed.
unfoldable pub exit_process : Memoria → ℕ → Outcome Memoria
unfolding liberar_segmentos
exit_process m pid = elim (lookup pid m.tablas) [
  | none ↦ faults
  | some tabla ↦
      let m' = record m { tablas = remove pid m.tablas } in
      elim tabla [ [] ↦ ok m' | p ∷ ps ↦ liberar_segmentos m' ps ]
]
