-- ===== src/Tests/Espacios.antt =====
-- memoria.h at concrete memories: the bytes, and the turn of a compaction.
use unix_os_simulation.Base.{ℕ, ◌+◌, ◌-◌, ◌≤◌, ◌<◌, ◌≡◌, arith, ltb, if◌then◌else◌, In}
use unix_os_simulation.Memoria.{Segmento}
use unix_os_simulation.Memoria.Compactacion.{espacio, mover_bloque}
use unix_os_simulation.Memoria.Compactacion.Contenido.{mover_bloque_lem}
use unix_os_simulation.Memoria.Compactacion.Adyacencia.{IsCompactable}
use unix_os_simulation.Tests.Asignaciones.{memoria, memoria-IsTiled}

memoria-IsCompactable : IsCompactable memoria
memoria-IsCompactable = record {
  tiled = memoria-IsTiled;
  huecos_pos = λ h i. ground arith;
  segmentos_pos = λ e i. ground arith;
  separados = λ h k i j. ground arith;
}

mas_bajo : (d : ℕ × Segmento) → In d memoria.segmentos → 16 < (d.1).base → 40 ≤ (d.1).base
mas_bajo d i = ground arith

mover_bloque_lem_example :
    mover_bloque
      (λ x. x)
      (record { pos = 0; size = 4 })
      (record { id = 1; base = 4; limite = 8 })
      (0 + 6)
    ≡ (if ltb 6 (4 - 0) then 4 + 6 else espacio)
mover_bloque_lem_example =
    mover_bloque_lem (λ x. x) (record { pos = 0; size = 4 })
      (record { id = 1; base = 4; limite = 8 }) 6 (omega arith) (omega arith)
