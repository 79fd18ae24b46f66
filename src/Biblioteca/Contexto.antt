-- ===== src/Biblioteca/Contexto.antt =====
-- ganSOsLibrary/src/funciones.c: `paquete_contexto` and `recibir_paquete_contexto`, by which the
-- kernel hands an execution context to the CPU and gets it back.
pub mod RoundTrip
use unix_os_simulation.Base.{ℕ, List, Outcome, ok, faults, ◌>>=◌, ◌==◌, if◌then◌else◌}
use unix_os_simulation.Biblioteca.{Segmento, ExecContext, cantidad_registros_cpu}
use unix_os_simulation.Biblioteca.Enteros.{int_bytes, leer_int}
use unix_os_simulation.Biblioteca.Paquete.{
  Paquete, crear_paquete_contexto, agregar_a_paquete, empaquetar_lista, empaquetar_registros,
  empaquetar_lista_segmentos, serializar_paquete, recibir_buffer, leer_cadenas, leer_segmentos,
}

-- The packet that `paquete_contexto` fills.
unfoldable pub empaquetar_contexto : ExecContext → ℕ → Outcome Paquete
empaquetar_contexto c motivo = do
  let p0 = agregar_a_paquete (crear_paquete_contexto motivo) (int_bytes c.pid)
  p1 ← empaquetar_lista p0 c.instrucciones
  let p2 = agregar_a_paquete p1 (int_bytes c.program_counter)
  p3 ← empaquetar_registros cantidad_registros_cpu p2 c.registros
  p4 ← empaquetar_lista p3 c.parametros
  ok (empaquetar_lista_segmentos p4 c.tabla_segmentos)

-- The bytes that go to the socket.
unfoldable pub paquete_contexto : ExecContext → ℕ → Outcome (List ℕ)
unfolding empaquetar_contexto
paquete_contexto c motivo = do p ← empaquetar_contexto c motivo; ok (serializar_paquete p)

-- The size in front of an `int` says how many bytes are copied into it: with any other size than
-- four it is left indeterminate or overrun.
unfoldable pub leer_int_con_tamanio : List ℕ → Outcome (ℕ × List ℕ)
leer_int_con_tamanio buffer = do t ← leer_int buffer; if t.0 == 4 then leer_int t.1 else faults

-- `desplazamiento` walks over the buffer.
unfoldable pub leer_contexto : List ℕ → Outcome ExecContext
leer_contexto buffer = do
  pid ← leer_int_con_tamanio buffer
  ni ← leer_int pid.1
  instr ← leer_cadenas ni.0 ni.1
  pc ← leer_int_con_tamanio instr.1
  regs ← leer_cadenas cantidad_registros_cpu pc.1
  np ← leer_int regs.1
  params ← leer_cadenas np.0 np.1
  ns ← leer_int params.1
  segs ← leer_segmentos ns.0 ns.1
  ok (record {
    pid = pid.0;
    instrucciones = instr.0;
    program_counter = pc.0;
    registros = regs.0;
    parametros = params.0;
    tabla_segmentos = segs.0;
  })

unfoldable pub recibir_paquete_contexto : List ℕ → Outcome (ExecContext × List ℕ)
recibir_paquete_contexto sock = recibir_buffer sock >>= λ r. leer_contexto r.0 >>= λ c. ok (c, r.1)
