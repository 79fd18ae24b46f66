-- ===== src/Cpu/Ciclo.antt =====
-- cpu.c: the cycle. Each turn fetches the instruction at the program counter, splits it, finds the
-- function of its first word and calls it. A parameter that is not there is a null pointer.
pub mod Turno
pub mod Entrega
use unix_os_simulation.Base.{
  ℕ, zero, suc, ◌+◌, ◌≡◌, Bool, true, false, List, [], ◌∷◌, ◌++◌, Option, none, some, Outcome, ok,
  exits, faults, deref, ◌>>=◌, Cadena, codes, strcmp_eq, length, ltb, get_elem?, if◌then◌else◌,
}
use unix_os_simulation.Biblioteca.{ExecContext}
use unix_os_simulation.Biblioteca.OpCode
use unix_os_simulation.Cpu.{Textos, Motivo, overflow, instruccion_desconocida, Cpu}
use unix_os_simulation.Cpu.Registros.{
  Retorno, no_encontrado, excedidos, lista_tokens, cargar_registros,
}
use unix_os_simulation.Cpu.Instrucciones.{
  exit_process_error, con_parametros, set, yield, exit_process, i_o, pedir, mov_in, mov_out,
  f_acceso,
}

-- The ids in `diccionario_functionsId`.
pub data Funcion : Type 0 where
  set_id yield_id exit_id i_o_id wait_id signal_id mov_in_id mov_out_id : Funcion
  f_open_id f_close_id f_seek_id f_read_id f_write_id f_truncate_id : Funcion
  create_segment_id delete_segment_id : Funcion

abbrev pub diccionario_functions_id : List (Cadena × Funcion)
diccionario_functions_id =
    (codes "SET", set_id)
    ∷ (codes "YIELD", yield_id)
    ∷ (codes "EXIT", exit_id)
    ∷ (codes "I/O", i_o_id)
    ∷ (codes "WAIT", wait_id)
    ∷ (codes "SIGNAL", signal_id)
    ∷ (codes "MOV_IN", mov_in_id)
    ∷ (codes "MOV_OUT", mov_out_id)
    ∷ (codes "F_OPEN", f_open_id)
    ∷ (codes "F_CLOSE", f_close_id)
    ∷ (codes "F_SEEK", f_seek_id)
    ∷ (codes "F_READ", f_read_id)
    ∷ (codes "F_WRITE", f_write_id)
    ∷ (codes "F_TRUNCATE", f_truncate_id)
    ∷ (codes "CREATE_SEGMENT", create_segment_id)
    ∷ (codes "DELETE_SEGMENT", delete_segment_id)
    ∷ []

unfoldable pub buscar_funcion : Cadena → List (Cadena × Funcion) → Option Funcion
buscar_funcion k [] = none
buscar_funcion k ((n, f) ∷ d) = if strcmp_eq n k then some f else buscar_funcion k d

-- `list_remove(contexto.parametros, 0)`
unfoldable pub sacar : Cpu → Outcome (Cadena × Cpu)
unfolding con_parametros
sacar c = elim c.contexto.parametros [ [] ↦ faults | p ∷ ps ↦ ok (p, con_parametros ps c) ]

abbrev pub interrumpir : Cpu → Cpu
interrumpir c = record c { interrupted = true }

abbrev pub avanzar : Cpu → Cpu
avanzar c = record c {
  contexto = record (c.contexto) { program_counter = suc c.contexto.program_counter };
}

module _ (t : Textos) where
  unfoldable pub tras_ejecutar_set : Cadena → Retorno × Cpu → Cpu
  unfolding exit_process_error
  tras_ejecutar_set reg_name (no_encontrado, c) = c
  tras_ejecutar_set reg_name (excedidos zero, c) = c
  tras_ejecutar_set reg_name (excedidos (suc n), c) =
      exit_process_error (t.string_from_format (overflow reg_name)) c

  -- Only a positive answer of `set` is an overflow.
  unfoldable pub ejecutar_set : Cadena → Cadena → Cpu → Cpu
  unfolding tras_ejecutar_set set
  ejecutar_set reg_name value c = tras_ejecutar_set reg_name (set t reg_name value c)

  unfoldable pub ejecutar : Funcion → Cpu → Outcome Cpu
  unfolding ejecutar_set sacar
  ejecutar set_id c = do a ← sacar c; b ← sacar a.1; ok (ejecutar_set a.0 b.0 b.1)
  ejecutar yield_id c = ok (interrumpir (yield t c))
  ejecutar exit_id c = ok (interrumpir (exit_process t c))
  ejecutar i_o_id c = do a ← sacar c; ok (interrumpir (i_o t a.0 a.1))
  ejecutar wait_id c = do a ← sacar c; ok (interrumpir (pedir t OpCode.wait (a.0 ∷ []) a.1))
  ejecutar signal_id c = do a ← sacar c; ok (interrumpir (pedir t OpCode.signal (a.0 ∷ []) a.1))
  ejecutar mov_in_id c = do a ← sacar c; b ← sacar a.1; mov_in t a.0 b.0 b.1
  ejecutar mov_out_id c = do a ← sacar c; b ← sacar a.1; mov_out t b.0 a.0 b.1
  ejecutar f_open_id c = do a ← sacar c; ok (interrumpir (pedir t OpCode.f_open (a.0 ∷ []) a.1))
  ejecutar f_close_id c = do a ← sacar c; ok (interrumpir (pedir t OpCode.f_close (a.0 ∷ []) a.1))
  ejecutar f_seek_id c = do
    a ← sacar c
    b ← sacar a.1
    ok (interrumpir (pedir t OpCode.f_seek (a.0 ∷ b.0 ∷ []) b.1))
  ejecutar f_read_id c = do
    a ← sacar c
    b ← sacar a.1
    d ← sacar b.1
    ok (interrumpir (f_acceso t OpCode.f_read a.0 b.0 d.0 d.1))
  ejecutar f_write_id c = do
    a ← sacar c
    b ← sacar a.1
    d ← sacar b.1
    ok (interrumpir (f_acceso t OpCode.f_write a.0 b.0 d.0 d.1))
  ejecutar f_truncate_id c = do
    a ← sacar c
    b ← sacar a.1
    ok (interrumpir (pedir t OpCode.f_truncate (a.0 ∷ b.0 ∷ []) b.1))
  ejecutar create_segment_id c = do
    a ← sacar c
    b ← sacar a.1
    ok (interrumpir (pedir t OpCode.create_segment (a.0 ∷ b.0 ∷ []) b.1))
  ejecutar delete_segment_id c = do
    a ← sacar c
    ok (interrumpir (pedir t OpCode.delete_segment (a.0 ∷ []) a.1))

  unfoldable pub llamar : Cadena → Option Funcion → Cpu → Outcome Cpu
  unfolding ejecutar exit_process_error
  llamar token none c =
      ok (exit_process_error (t.string_from_format (instruccion_desconocida token)) c)
  llamar token (some f) c = ejecutar f c

  -- The first operand is the instruction's name, the others join the parameters.
  unfoldable pub decodificar : List Cadena → Cpu → Outcome Cpu
  unfolding llamar con_parametros buscar_funcion
  decodificar [] c = faults
  decodificar (token ∷ operandos) c =
      llamar token (buscar_funcion token diccionario_functions_id)
        (con_parametros (c.contexto.parametros ++ operandos) c)

  -- One turn of `while(!interrupted)`.
  unfoldable pub ciclo : Cpu → Outcome Cpu
  unfolding decodificar
  ciclo c = do
    cadena_op ← deref (get_elem? c.contexto.instrucciones c.contexto.program_counter)
    decodificar (t.string_split cadena_op) (avanzar c)

  unfoldable pub seguir : (Cpu → Option (Outcome Cpu)) → Outcome Cpu → Option (Outcome Cpu)
  seguir k (ok c) = k c
  seguir k exits = some exits
  seguir k faults = some faults

  unfoldable pub girar : (Cpu → Option (Outcome Cpu)) → Bool → Cpu → Option (Outcome Cpu)
  unfolding ciclo seguir
  girar k true c = some (ok c)
  girar k false c = seguir k (ciclo c)

  -- The loop; `none` means that the fuel ran out.
  unfoldable pub ciclos : ℕ → Cpu → Option (Outcome Cpu)
  unfolding girar
  ciclos zero c = none
  ciclos (suc fuel) c = girar (ciclos fuel) c.interrupted c

  unfoldable pub iniciar :
      ExecContext → Cpu → Outcome (List (Cadena × Cadena)) → Option (Outcome Cpu)
  unfolding ciclos
  iniciar ctx c (ok rs) =
      ciclos (suc (length ctx.instrucciones))
        (record c { registros = rs; contexto = ctx; interrupted = false })
  iniciar ctx c exits = some exits
  iniciar ctx c faults = some faults

  -- What follows the receipt of a context: the registers are loaded, the flag is cleared, and the loop
  -- runs. Each turn moves the program counter on, so the instructions left bound the turns.
  unfoldable pub ejecutar_contexto : ExecContext → Cpu → Option (Outcome Cpu)
  unfolding iniciar cargar_registros
  ejecutar_contexto ctx c = iniciar ctx c (cargar_registros lista_tokens ctx.registros c.registros)
