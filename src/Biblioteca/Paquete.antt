-- ===== src/Biblioteca/Paquete.antt =====
-- ganSOsLibrary/src/funciones.c: a packet and its buffer, how values are added to it, how it is
-- written to a socket, and how the receiver takes a buffer and a list of values from the socket.
pub mod RoundTrip
use unix_os_simulation.Base.{
  ℕ, zero, suc, ◌+◌, ◌*◌, ◌<◌, ◌≡◌, List, [], ◌∷◌, ◌++◌, Outcome, ok, faults, ◌>>=◌, Option, none,
  some, length, take, leb, ltb, ◌==◌, if◌then◌else◌,
}
use unix_os_simulation.Biblioteca.OpCode
use unix_os_simulation.Biblioteca.{Segmento}
use unix_os_simulation.Biblioteca.Enteros.{int_bytes, leer_int, leer_bloque}

-- `t_paquete` with its `t_buffer`; the size is kept by hand.
pub record Paquete : Type 0 where
  pub codigo_operacion : ℕ
  pub size : ℕ
  pub stream : List ℕ

unfoldable pub crear_paquete_contexto : ℕ → Paquete
crear_paquete_contexto motivo = record { codigo_operacion = motivo; size = 0; stream = [] }

unfoldable pub crear_paquete : Paquete
unfolding crear_paquete_contexto
crear_paquete = crear_paquete_contexto OpCode.paquete

-- `realloc`, `memcpy` of one `int` at the end, `size += sizeof(int)`
unfoldable pub agregar_int : Paquete → ℕ → Paquete
agregar_int p n = record p { stream = p.stream ++ int_bytes n; size = p.size + 4 }

-- The length of the value, and the value.
unfoldable pub agregar_a_paquete : Paquete → List ℕ → Paquete
agregar_a_paquete p valor = record p {
  stream = p.stream ++ (int_bytes (length valor) ++ valor);
  size = p.size + (length valor + 4);
}

-- The `strlen(s) + 1` first bytes of the block; without a zero byte `strlen` leaves the block.
unfoldable pub cadena : List ℕ → Outcome (List ℕ)
cadena [] = faults
cadena (c ∷ cs) = let rest = cadena cs in if c == 0 then ok (c ∷ []) else (rest >>= λ r. ok (c ∷ r))

unfoldable pub agregar_cadenas : Paquete → List (List ℕ) → Outcome Paquete
agregar_cadenas p [] = ok p
agregar_cadenas p (e ∷ es) = do s ← cadena e; agregar_cadenas (agregar_a_paquete p s) es

unfoldable pub empaquetar_lista : Paquete → List (List ℕ) → Outcome Paquete
unfolding agregar_cadenas
empaquetar_lista p lista = agregar_cadenas (agregar_int p (length lista)) lista

-- The loop runs over the first `n` registers of the array.
unfoldable pub empaquetar_registros : ℕ → Paquete → List (List ℕ) → Outcome Paquete
empaquetar_registros zero p rs = ok p
empaquetar_registros (suc n) p [] = faults
empaquetar_registros (suc n) p (r ∷ rs) = do
  s ← cadena r
  empaquetar_registros n (agregar_a_paquete p s) rs

unfoldable pub agregar_segmento_a_paquete : Paquete → Segmento → Paquete
agregar_segmento_a_paquete p s = record p {
  stream = p.stream ++ (int_bytes s.id ++ (int_bytes s.base ++ int_bytes s.limite));
  size = p.size + 3 * 4;
}

unfoldable pub agregar_segmentos : Paquete → List Segmento → Paquete
agregar_segmentos p [] = p
agregar_segmentos p (s ∷ ss) = agregar_segmentos (agregar_segmento_a_paquete p s) ss

unfoldable pub empaquetar_lista_segmentos : Paquete → List Segmento → Paquete
unfolding agregar_segmentos
empaquetar_lista_segmentos p lista = agregar_segmentos (agregar_int p (length lista)) lista

-- The operation code, the size, and `size` bytes of the stream.
unfoldable pub serializar_paquete : Paquete → List ℕ
serializar_paquete p = int_bytes p.codigo_operacion ++ (int_bytes p.size ++ take p.size p.stream)

-- The receiver's side reads from the bytes that wait in the socket.
unfoldable pub recibir_buffer : List ℕ → Outcome (List ℕ × List ℕ)
recibir_buffer sock = do r ← leer_int sock; leer_bloque r.0 r.1

-- `while (desplazamiento < size)`: the values up to the buffer's end. One unit of fuel for each
-- value; `none` means that the fuel ran out.
unfoldable pub leer_valores : ℕ → List ℕ → Option (Outcome (List (List ℕ)))
leer_valores zero buffer = none
leer_valores (suc fuel) [] = some (ok [])
leer_valores (suc fuel) (b ∷ bs) = elim (leer_int (b ∷ bs) >>= λ r. leer_bloque r.0 r.1) [
  | ok (valor, rest) ↦ elim (leer_valores fuel rest) [
    | none ↦ none
    | some o ↦ some (o >>= λ vs. ok (valor ∷ vs))
  ]
  | _ ↦ some faults
]

-- Each value takes four bytes or more, so the buffer's length is fuel enough.
unfoldable pub recibir_paquete : List ℕ → Option (Outcome (List (List ℕ)))
unfolding recibir_buffer leer_valores
recibir_paquete sock = elim (recibir_buffer sock) [
  | ok (buffer, rest) ↦ leer_valores (suc (length buffer)) buffer
  | _ ↦ some faults
]

-- `recibir_paquete_contexto` and `recv_tabla_segmentos`: `n` values, and `n` segments.
unfoldable pub leer_cadenas : ℕ → List ℕ → Outcome (List (List ℕ) × List ℕ)
leer_cadenas zero buffer = ok ([], buffer)
leer_cadenas (suc n) buffer = do
  t ← leer_int buffer
  v ← leer_bloque t.0 t.1
  vs ← leer_cadenas n v.1
  ok (v.0 ∷ vs.0, vs.1)

unfoldable pub leer_segmentos : ℕ → List ℕ → Outcome (List Segmento × List ℕ)
leer_segmentos zero buffer = ok ([], buffer)
leer_segmentos (suc n) buffer = do
  i ← leer_int buffer
  b ← leer_int i.1
  l ← leer_int b.1
  ss ← leer_segmentos n l.1
  ok (record { id = i.0; base = b.0; limite = l.0 } ∷ ss.0, ss.1)
