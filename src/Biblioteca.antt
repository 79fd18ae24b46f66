-- ===== src/Biblioteca.antt =====
-- ganSOsLibrary/src: the packets that the modules exchange. An `int` is 32 bits, four bytes with the
-- lowest first; it is given by its bit pattern, so -1 is 2 ^ 32 - 1. A `char*` is the block that
-- `malloc` gave, its terminating zero byte included.
pub mod OpCode
pub mod Enteros
pub mod Paquete
pub mod Contexto
pub mod Mensajes
pub mod Peticiones
use unix_os_simulation.Base.{ℕ, List}

-- `ID`, `base` and `limite` of `Segmento` (header.h).
pub record Segmento : Type 0 where
  pub id : ℕ
  pub base : ℕ
  pub limite : ℕ

-- The blocks of the strings; `registros` is an array of `CANTIDAD_REGISTROS_CPU`. The table of open
-- files is never sent.
pub record ExecContext : Type 0 where
  pub pid : ℕ
  pub instrucciones : List (List ℕ)
  pub program_counter : ℕ
  pub registros : List (List ℕ)
  pub parametros : List (List ℕ)
  pub tabla_segmentos : List Segmento

abbrev pub cantidad_registros_cpu : ℕ
cantidad_registros_cpu = 12
