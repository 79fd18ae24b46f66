-- ===== src/Tests/Mensajes.antt =====
-- The packets of ganSOsLibrary at concrete messages.
use unix_os_simulation.Base.{ℕ, ◌≡◌, ◌>>=◌, refl, List, [], ◌∷◌, ◌++◌, ok, arith}
use unix_os_simulation.Biblioteca.OpCode
use unix_os_simulation.Biblioteca.{ExecContext}
use unix_os_simulation.Biblioteca.Enteros.{int_bytes}
use unix_os_simulation.Biblioteca.Paquete.{cadena}
use unix_os_simulation.Biblioteca.Paquete.RoundTrip.{IsCadena, recibe}
use unix_os_simulation.Biblioteca.Contexto.{paquete_contexto, recibir_paquete_contexto}
use unix_os_simulation.Biblioteca.Contexto.RoundTrip.{
  IsEnviable, recibir_paquete_contexto-paquete_contexto,
}
use unix_os_simulation.Biblioteca.Mensajes.{
  enviar_mensaje_razon, enviar_mensaje, recibir_mensaje, Conexion,
}
use unix_os_simulation.Biblioteca.Mensajes.RoundTrip.{recibir_mensaje-enviar}
use unix_os_simulation.Biblioteca.Peticiones.{
  send_tabla_segmentos, recv_tabla_segmentos, send_freadwrite_petition, recv_readwrite_petition,
}
use unix_os_simulation.Biblioteca.Peticiones.RoundTrip.{
  recv_tabla_segmentos-send, recv_readwrite_petition-send,
}

-- A block with a string of one letter.
abbrev letra : List ℕ
letra = 65 ∷ 0 ∷ []

letra-IsCadena : IsCadena letra
unfolding cadena
letra-IsCadena = (refl, omega arith)

-- The block is longer than its string.
mas_larga : cadena (65 ∷ 0 ∷ 66 ∷ []) ≡ ok letra
unfolding cadena
mas_larga = refl

abbrev conectados : List Conexion
conectados = record { socket_conn = 7; identidad = 1 } ∷ []

nombre : cadena letra ≡ ok letra
unfolding cadena
nombre = refl

abbrev contexto : ExecContext
contexto = record {
  pid = 5;
  instrucciones = letra ∷ letra ∷ [];
  program_counter = 1;
  registros =
      letra ∷ letra ∷ letra ∷ letra ∷ letra ∷ letra ∷ letra ∷ letra ∷ letra ∷ letra ∷ letra ∷ letra
      ∷ [];
  parametros = letra ∷ [];
  tabla_segmentos = record { id = 0; base = 0; limite = 128 } ∷ [];
}

contexto-IsEnviable : IsEnviable contexto
unfolding int_bytes
contexto-IsEnviable =
    let l = letra-IsCadena in
    record {
      pid_cabe = omega arith;
      pc_cabe = omega arith;
      instrucciones_ok = (l, (l, tt));
      instrucciones_caben = omega arith;
      registros_ok = (l, (l, (l, (l, (l, (l, (l, (l, (l, (l, (l, (l, tt))))))))))));
      doce = refl;
      parametros_ok = (l, tt);
      parametros_caben = omega arith;
      segmentos_ok = ((omega arith, omega arith, omega arith), tt);
      segmentos_caben = omega arith;
      total_cabe = omega arith;
    }

recibir_paquete_contexto-paquete_contexto_example :
    (bytes : List ℕ) × (paquete_contexto contexto OpCode.running ≡ ok bytes)
    × (recibe recibir_paquete_contexto (bytes ++ 9 ∷ []) ≡ ok (OpCode.running, contexto, 9 ∷ []))
recibir_paquete_contexto-paquete_contexto_example =
    recibir_paquete_contexto-paquete_contexto contexto OpCode.running (9 ∷ []) contexto-IsEnviable
      (omega arith)

recv_tabla_segmentos-send_example :
    recibe recv_tabla_segmentos (send_tabla_segmentos contexto.tabla_segmentos 1 ++ [])
    ≡ ok (1, contexto.tabla_segmentos, [])
recv_tabla_segmentos-send_example =
    recv_tabla_segmentos-send contexto.tabla_segmentos 1 [] (omega arith)
      ((omega arith, omega arith, omega arith), tt) (omega arith)

recv_readwrite_petition-send_example :
    (sent : List ℕ) × (send_freadwrite_petition OpCode.f_write letra 40 4 60 ≡ ok sent)
    × (recibe recv_readwrite_petition (sent ++ []) ≡ ok (OpCode.f_write, (letra, 40, 4, 60), []))
recv_readwrite_petition-send_example =
    recv_readwrite_petition-send OpCode.f_write 40 4 60 letra [] (omega arith) (omega arith)
      (omega arith) (omega arith) nombre (omega arith)

recibir_mensaje-enviar_example :
    ((enviar_mensaje_razon OpCode.exit (65 ∷ 0 ∷ 66 ∷ []) >>= λ sock.
    recibe recibir_mensaje (sock ++ (7 ∷ [])))
      ≡ ok (OpCode.exit, letra, 7 ∷ []))
    × ((enviar_mensaje (65 ∷ 0 ∷ 66 ∷ []) >>= λ sock. recibe recibir_mensaje (sock ++ (7 ∷ [])))
        ≡ ok (OpCode.mensaje, letra, 7 ∷ []))
recibir_mensaje-enviar_example =
    recibir_mensaje-enviar OpCode.exit (65 ∷ 0 ∷ 66 ∷ []) letra (7 ∷ []) mas_larga (omega arith)
      (omega arith)
