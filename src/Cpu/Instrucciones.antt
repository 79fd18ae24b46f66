-- ===== src/Cpu/Instrucciones.antt =====
-- cpu.h: the functions that the execute stage calls.
use unix_os_simulation.Base.{
  codes, ℕ, zero, suc, true, List, [], ◌∷◌, ◌++◌, Option, none, some, Outcome, ok, faults, deref,
  ◌>>=◌, Cadena, length, ◌==◌, if◌then◌else◌,
}
use unix_os_simulation.Base.Int.{ℤ, pos, negsuc, quot, atoi}
use unix_os_simulation.Biblioteca.OpCode
use unix_os_simulation.Memoria.Espacio.{leer_espacio, escribir_espacio}
use unix_os_simulation.Cpu.{Textos, registro_desconocido, seg_fault, Cpu}
use unix_os_simulation.Cpu.Registros.{
  Retorno, no_encontrado, excedidos, obtener, set_registro, cargar_registros_contexto,
}
use unix_os_simulation.Cpu.Mmu.{mmu}

-- `paquete_contexto` to the kernel: the context and the reason.
unfoldable pub enviar_contexto : ℕ → Cpu → Cpu
enviar_contexto motivo c = record c { enviados = c.enviados ++ (motivo, c.contexto) ∷ [] }

-- `cargarRegistrosContexto`, and new parameters, before the context goes back.
unfoldable pub guardar_registros : Cpu → Cpu
guardar_registros c = record c {
  contexto = record (c.contexto) { registros = cargar_registros_contexto c.registros };
}

unfoldable pub con_parametros : List Cadena → Cpu → Cpu
con_parametros ps c = record c { contexto = record (c.contexto) { parametros = ps } }

unfoldable pub exit_process_error : Cadena → Cpu → Cpu
unfolding enviar_contexto con_parametros
exit_process_error mensaje c =
    record (enviar_contexto OpCode.error (con_parametros (mensaje ∷ []) c)) { interrupted = true }

module _ (t : Textos) where
  open t use {string_from_format, string_itoa}

  unfoldable pub tras_set : Cadena → Cadena → Retorno × List (Cadena × Cadena) → Cpu → Retorno × Cpu
  unfolding exit_process_error
  tras_set reg_name valor (no_encontrado, rs) c = (
    no_encontrado,
    exit_process_error (string_from_format (registro_desconocido reg_name valor)) c,
  )
  tras_set reg_name valor (excedidos n, rs) c = (excedidos n, record c { registros = rs })

  -- The answer, and the CPU.
  unfoldable pub set : Cadena → Cadena → Cpu → Retorno × Cpu
  unfolding tras_set
  set reg_name valor c = tras_set reg_name valor (set_registro reg_name valor c.registros) c

  unfoldable pub yield : Cpu → Cpu
  unfolding enviar_contexto guardar_registros
  yield c = enviar_contexto OpCode.yield (guardar_registros c)

  unfoldable pub exit_process : Cpu → Cpu
  unfolding enviar_contexto guardar_registros
  exit_process c = enviar_contexto OpCode.exit (guardar_registros c)

  -- The time is added behind what is left of the parameters.
  unfoldable pub i_o : Cadena → Cpu → Cpu
  unfolding enviar_contexto guardar_registros con_parametros
  i_o tiempo c =
      enviar_contexto OpCode.i_o
        (con_parametros (c.contexto.parametros ++ tiempo ∷ []) (guardar_registros c))

  -- `wait_process`, `signal_process`, `f_open`, `f_close`, `f_seek`, `f_truncate`, `create_segment` and
  -- `delete_segment` differ in the reason and in the list of parameters only.
  unfoldable pub pedir : ℕ → List Cadena → Cpu → Cpu
  unfolding enviar_contexto guardar_registros con_parametros
  pedir motivo ps c = enviar_contexto motivo (con_parametros ps (guardar_registros c))

  -- The text up to the first zero byte, as `strlen` reads it.
  unfoldable pub hasta_nul : List ℕ → Cadena
  hasta_nul [] = []
  hasta_nul (b ∷ bs) = if b == 0 then [] else b ∷ hasta_nul bs

  -- The message of a failed translation.
  unfoldable pub error_seg_fault : Cadena → ℤ → ℤ → ℤ → Cpu → Cpu
  unfolding exit_process_error
  error_seg_fault instr logic_addr limite_seg bytes c =
      exit_process_error
        (string_from_format (seg_fault instr (quot logic_addr c.tam_max_segmento) limite_seg bytes))
        c

  -- What follows the translation in `mov_in`. A negative address other than -1 goes to the memory
  -- module, outside of its block.
  unfoldable pub mov_in_desde : Cadena → Cadena → ℕ → ℤ × ℤ → Cpu → Outcome Cpu
  unfolding error_seg_fault hasta_nul set
  mov_in_desde registro mem_addr bytes (pos addr, base) c = do
    leido ← leer_espacio c.memoria addr bytes
    ok ((set registro (hasta_nul leido) c).1)
  mov_in_desde registro mem_addr bytes (negsuc zero, base) c =
      ok (error_seg_fault (codes "MOV_IN") (atoi mem_addr) base (pos bytes) c)
  mov_in_desde registro mem_addr bytes (negsuc (suc n), base) c = faults

  unfoldable pub mov_in : Cadena → Cadena → Cpu → Outcome Cpu
  unfolding mov_in_desde
  mov_in registro mem_addr c = do
    reg ← deref (obtener registro c.registros)
    mov_in_desde registro mem_addr (length reg)
        (mmu c.tam_max_segmento c.contexto.tabla_segmentos (atoi mem_addr) (pos (length reg))) c

  unfoldable pub mov_out_en : Cadena → Cadena → Cadena → ℤ × ℤ → Cpu → Outcome Cpu
  unfolding error_seg_fault
  mov_out_en registro mem_addr reg (pos addr, base) c = do
    m ← escribir_espacio c.memoria addr reg
    ok (record c { memoria = m })
  mov_out_en registro mem_addr reg (negsuc zero, base) c =
      ok (error_seg_fault (codes "MOV_OUT") (atoi mem_addr) base (pos (length reg)) c)
  mov_out_en registro mem_addr reg (negsuc (suc n), base) c = faults

  unfoldable pub mov_out_de : Cadena → Cadena → Option Cadena → Cpu → Outcome Cpu
  unfolding mov_out_en exit_process_error
  mov_out_de registro mem_addr none c =
      ok (exit_process_error (string_from_format (registro_desconocido registro [])) c)
  mov_out_de registro mem_addr (some reg) c =
      mov_out_en registro mem_addr reg
        (mmu c.tam_max_segmento c.contexto.tabla_segmentos (atoi mem_addr) (pos (length reg))) c

  unfoldable pub mov_out : Cadena → Cadena → Cpu → Outcome Cpu
  unfolding mov_out_de
  mov_out registro mem_addr c = mov_out_de registro mem_addr (obtener registro c.registros) c

  unfoldable pub f_acceso_en : ℕ → Cadena → Cadena → Cadena → ℤ × ℤ → Cpu → Cpu
  unfolding error_seg_fault con_parametros enviar_contexto
  f_acceso_en motivo file_name logic_addr bytes (negsuc zero, base) c =
      error_seg_fault (if motivo == OpCode.f_read then codes "F_READ" else codes "F_WRITE")
        (atoi logic_addr) base (atoi bytes) c
  f_acceso_en motivo file_name logic_addr bytes (dir, base) c =
      enviar_contexto motivo (con_parametros (file_name ∷ string_itoa dir ∷ bytes ∷ []) c)

  -- `f_read` and `f_write`: the name, the physical address as text, and the bytes.
  unfoldable pub f_acceso : ℕ → Cadena → Cadena → Cadena → Cpu → Cpu
  unfolding f_acceso_en guardar_registros
  f_acceso motivo file_name logic_addr bytes c =
      f_acceso_en motivo file_name logic_addr bytes
        (mmu c.tam_max_segmento c.contexto.tabla_segmentos (atoi logic_addr) (atoi bytes))
        (guardar_registros c)
