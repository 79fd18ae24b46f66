-- ===== src/Biblioteca/Mensajes/RoundTrip.antt =====
-- A text and an identity, from the sender to the receiver, and what the list of connections keeps.
use unix_os_simulation.Base.{
  ℕ, ◌<◌, ◌≡◌, ◌≢◌, refl, sym, ap, List, [], ◌∷◌, ◌++◌, append-nil, none, some, ok, ◌>>=◌, arith,
  length, ◌==◌, list_find, Bool, true, false,
}
use unix_os_simulation.Biblioteca.OpCode
use unix_os_simulation.Biblioteca.Enteros.{int_bytes, int_mod, leer_int-int_bytes, length-int_bytes}
use unix_os_simulation.Biblioteca.Paquete.{cadena, serializar_paquete, crear_paquete_contexto}
use unix_os_simulation.Biblioteca.Paquete.RoundTrip.{
  extender, recibe, enviado, recibir_buffer-enviado, Paquete-ext,
}
use unix_os_simulation.Biblioteca.Mensajes.{
  enviar_mensaje_razon, enviar_mensaje, recibir_mensaje, enviar_identidad, recibir_identidad,
  Conexion, add_connection_to_list, identidad_del_socket,
}

serializar_paquete-enviado :
    (op n : ℕ) (s : List ℕ)
    → n ≡ length s
    → serializar_paquete (record { codigo_operacion = op; size = n; stream = s }) ≡ enviado op s
unfolding crear_paquete_contexto extender
serializar_paquete-enviado op n s e =
    ap serializar_paquete (Paquete-ext _ _ refl (omega (arith, e)) refl)

-- For a block with a terminated string and an operation code below 2 ^ 32, enviar_mensaje_razon and
-- enviar_mensaje send a packet, from which the receiver reads the code (of enviar_mensaje: MENSAJE)
-- and the string up to its zero byte, whatever the block holds behind it, and leaves what follows
-- on the socket.
pub recibir_mensaje-enviar :
    (op : ℕ) (texto m rest : List ℕ)
    → cadena texto ≡ ok m
    → op < int_mod
    → length m < int_mod
    → ((enviar_mensaje_razon op texto >>= λ sock. recibe recibir_mensaje (sock ++ rest))
        ≡ ok (op, m, rest))
      × ((enviar_mensaje texto >>= λ sock. recibe recibir_mensaje (sock ++ rest))
          ≡ ok (OpCode.mensaje, m, rest))
unfolding enviar_mensaje_razon enviar_mensaje recibir_mensaje
recibir_mensaje-enviar op texto m rest e h l =
    let (a, c) = recibir_buffer-enviado op m rest h l in
    let (a', c') = recibir_buffer-enviado OpCode.mensaje m rest (omega arith) l in
    (
      rw (e, serializar_paquete-enviado op (length m) m refl, a, c),
      rw (e, serializar_paquete-enviado OpCode.mensaje (length m) m refl, a', c'),
    )

recibir_identidad-enviar :
    (ident : ℕ) (rest : List ℕ)
    → ident < int_mod
    → recibe recibir_identidad (enviar_identidad ident ++ rest) ≡ ok (OpCode.identidad, ident, rest)
unfolding enviar_identidad recibir_identidad
recibir_identidad-enviar ident rest h =
    let (a, c) =
      recibir_buffer-enviado OpCode.identidad (int_bytes ident) rest (omega arith)
        (omega (arith, length-int_bytes ident)) in
    rw (
      serializar_paquete-enviado OpCode.identidad 4 (int_bytes ident)
          (sym (length-int_bytes ident)),
      a,
      c,
      rw (append-nil (int_bytes ident)) at (leer_int-int_bytes ident [] h),
    )

module _ {A : Type 0} (p : A → Bool) (x : A) where
  list_find-append_found :
      (xs : List A) → p x ≡ true → list_find p xs ≡ none → list_find p (xs ++ (x ∷ [])) ≡ some x
  list_find-append_found [] h e = ground (arith, h)
  list_find-append_found (y ∷ ys) h e = ground (arith, list_find-append_found ys h)

  list_find-append_other :
      (xs : List A) → p x ≡ false → list_find p (xs ++ (x ∷ [])) ≡ list_find p xs
  list_find-append_other [] h = ground (arith, h)
  list_find-append_other (y ∷ ys) h = ground (arith, list_find-append_other ys h)

-- When no connection in the list has the socket, and the identity is below 2 ^ 32, the identity
-- that the module announces is received and, once the connection is added, it is what
-- identidadDelSocket finds for the socket; for every other socket the answer is as before.
pub identidad_del_socket-recibida :
    (lista : List Conexion) (ident socket : ℕ) (rest : List ℕ)
    → ident < int_mod
    → list_find (λ c. c.socket_conn == socket) lista ≡ none
    → ((recibe recibir_identidad (enviar_identidad ident ++ rest) >>= λ r.
          identidad_del_socket (add_connection_to_list lista r.1 socket) socket)
        ≡ ok ident)
      × ((s : ℕ)
          → s ≢ socket
          → identidad_del_socket (add_connection_to_list lista ident socket) s
            ≡ identidad_del_socket lista s)
unfolding add_connection_to_list identidad_del_socket
identidad_del_socket-recibida lista ident socket rest h e =
    let nodo : Conexion = record { socket_conn = socket; identidad = ident } in
    (
      rw (
        recibir_identidad-enviar ident rest h,
        identidad_del_socket,
        list_find-append_found (λ c. c.socket_conn == socket) nodo lista (ground arith) e,
      ),
      λ s ne. rw (
        identidad_del_socket,
        list_find-append_other (λ c. c.socket_conn == s) nodo lista (ground (arith, ne)),
      ),
    )
