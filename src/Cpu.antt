-- ===== src/Cpu.antt =====
-- cpu/src/cpu.h and cpu/src/cpu.c: the CPU module. Registers, the address translation, one function
-- for each instruction, and the fetch, decode and execute cycle. Strings stand without their
-- zero byte. The sizes of the blocks that the source copies strings into are not part of the state.
pub mod Registros
pub mod Mmu
pub mod Instrucciones
pub mod Ciclo
use unix_os_simulation.Base.{ℕ, Bool, List, Cadena}
use unix_os_simulation.Base.Int.{ℤ}
use unix_os_simulation.Biblioteca.{ExecContext}
use unix_os_simulation.Memoria.{Memoria}

-- What the CPU calls of so-commons on text: splitting an instruction at its spaces, the text of an
-- error (`string_from_format`) and of a number (`string_itoa`).
pub data Motivo : Type 0 where
  registro_desconocido : Cadena → Cadena → Motivo
  seg_fault : Cadena → ℤ → ℤ → ℤ → Motivo
  overflow : Cadena → Motivo
  instruccion_desconocida : Cadena → Motivo

pub record Textos : Type 0 where
  pub string_split : Cadena → List Cadena
  pub string_from_format : Motivo → Cadena
  pub string_itoa : ℤ → Cadena

-- The globals of the module: `diccionario_reg` with the registers under their names, the context, the
-- flag that ends the cycle, the contexts sent to the kernel with their reasons (newest last), and the
-- memory module at the other end of `socket_memoria`.
pub record Cpu : Type 0 where
  pub tam_max_segmento : ℕ
  pub registros : List (Cadena × Cadena)
  pub contexto : ExecContext
  pub interrupted : Bool
  pub enviados : List (ℕ × ExecContext)
  pub memoria : Memoria
