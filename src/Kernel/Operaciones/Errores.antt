-- ===== src/Kernel/Operaciones/Errores.antt =====
-- kernel.h: for which operations `readOp` ends the kernel.
use unix_os_simulation.Base.{ℕ, ◌≡◌, ◌≢◌, false, Outcome, ok, exits, faults}
use unix_os_simulation.Biblioteca.OpCode
use unix_os_simulation.Kernel.{Kernel}
use unix_os_simulation.Kernel.Segmentos.{delete_segment}
use unix_os_simulation.Kernel.Operaciones.{es_operacion_de_fs}

-- A call that does not end the kernel.
abbrev pub Sigue : {A : Type 0} → Outcome A → Type 0
Sigue (ok a) = Unit
Sigue exits = ⊥
Sigue faults = Unit

-- The codes that no operation of a process has.
abbrev pub Desconocida : ℕ → Type 0
Desconocida c =
    (es_operacion_de_fs c ≡ false)
    × (c ≢ OpCode.yield)
    × (c ≢ OpCode.exit)
    × (c ≢ OpCode.wait)
    × (c ≢ OpCode.signal)
    × (c ≢ OpCode.i_o)
    × (c ≢ OpCode.error)
    × (c ≢ OpCode.create_segment)
    × (c ≢ OpCode.delete_segment)
