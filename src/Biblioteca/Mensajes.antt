-- ===== src/Biblioteca/Mensajes.antt =====
-- funciones.c of ganSOsLibrary: text messages, the identity that a module announces on a new
-- connection, and the list of connections.
pub mod RoundTrip
use unix_os_simulation.Base.{
  ℕ, List, [], ◌∷◌, ◌++◌, Option, none, some, Outcome, ok, faults, ◌>>=◌, length, ◌==◌, list_find,
}
use unix_os_simulation.Biblioteca.OpCode
use unix_os_simulation.Biblioteca.Enteros.{int_bytes, leer_int}
use unix_os_simulation.Biblioteca.Paquete.{Paquete, cadena, serializar_paquete, recibir_buffer}

-- The text up to its zero byte, without a length of its own in front.
unfoldable pub enviar_mensaje_razon : ℕ → List ℕ → Outcome (List ℕ)
enviar_mensaje_razon codop texto = do
  s ← cadena texto
  ok (serializar_paquete (record { codigo_operacion = codop; size = length s; stream = s }))

unfoldable pub enviar_mensaje : List ℕ → Outcome (List ℕ)
enviar_mensaje texto = do
  s ← cadena texto
  ok (
      serializar_paquete
        (record { codigo_operacion = OpCode.mensaje; size = length s; stream = s }))

unfoldable pub recibir_mensaje : List ℕ → Outcome (List ℕ × List ℕ)
unfolding recibir_buffer
recibir_mensaje sock = recibir_buffer sock

-- `modulo` is an enumeration, an `int` in the stream.
unfoldable pub enviar_identidad : ℕ → List ℕ
enviar_identidad ident =
    serializar_paquete
      (record { codigo_operacion = OpCode.identidad; size = 4; stream = int_bytes ident })

-- `*buffer` reads the first `int`.
unfoldable pub recibir_identidad : List ℕ → Outcome (ℕ × List ℕ)
recibir_identidad sock = do r ← recibir_buffer sock; v ← leer_int r.0; ok (v.0, r.1)

-- `structIdent`
pub record Conexion : Type 0 where
  pub socket_conn : ℕ
  pub identidad : ℕ

unfoldable pub inicializar_lista_sockets : List Conexion
inicializar_lista_sockets = []

unfoldable pub add_connection_to_list : List Conexion → ℕ → ℕ → List Conexion
add_connection_to_list lista ident socket_comm =
    lista ++ (record { socket_conn = socket_comm; identidad = ident } ∷ [])

-- The node that `list_find` returns is read without a test for a null pointer.
unfoldable pub identidad_del_socket : List Conexion → ℕ → Outcome ℕ
identidad_del_socket lista socket = elim (list_find (λ c. c.socket_conn == socket) lista) [
  | none ↦ faults
  | some c ↦ ok c.identidad
]
