-- ===== src/Consola/Envio.antt =====
-- The instructions, from the console to the kernel.
use unix_os_simulation.Base.{
  ℕ, zero, suc, ◌<◌, ◌≡◌, refl, ap, ◌∙◌, List, [], ◌∷◌, ◌++◌, append_assoc, append-nil, none, some,
  ok, length, arith, length-append,
}
use unix_os_simulation.Biblioteca.OpCode
use unix_os_simulation.Biblioteca.Enteros.{
  int_bytes, int_mod, leer_int, leer_int-int_bytes, length-int_bytes, leer_bloque-append,
}
use unix_os_simulation.Biblioteca.Paquete.{
  crear_paquete, crear_paquete_contexto, leer_valores, recibir_paquete,
}
use unix_os_simulation.Biblioteca.Paquete.RoundTrip.{
  All, IsCadena, valor_bytes, valores_bytes, agregar_cadenas-extender, recibir_buffer-enviado,
  enviado,
}
use unix_os_simulation.Consola.{agrega, paquete_instrucciones}

leer_valores-valor_bytes :
    (fuel : ℕ) (v rest : List ℕ)
    → length v < int_mod
    → leer_valores (suc fuel) (valor_bytes v ++ rest) ≡ agrega v (leer_valores fuel rest)
unfolding leer_valores int_bytes
leer_valores-valor_bytes fuel v rest h = simp append_assoc (
    rw (leer_valores, leer_int-int_bytes (length v) (v ++ rest) h, leer_bloque-append v rest)
      (elim (leer_valores fuel rest) [ none ↦ refl | some o ↦ refl ]))

leer_valores-valores_bytes :
    (fuel : ℕ) (vs : List (List ℕ))
    → All IsCadena vs
    → length (valores_bytes vs) < fuel
    → leer_valores fuel (valores_bytes vs) ≡ some (ok vs)
unfolding leer_valores
leer_valores-valores_bytes zero vs h l = absurd (omega arith)
leer_valores-valores_bytes (suc fuel) [] h l = refl
leer_valores-valores_bytes (suc fuel) (v ∷ vs) h l =
    leer_valores-valor_bytes fuel v (valores_bytes vs) h.0.1
    ∙ ap (agrega v) (
        leer_valores-valores_bytes fuel vs h.1 (
          omega (
            arith,
            length-append (valor_bytes v) (valores_bytes vs),
            length-append (int_bytes (length v)) v,
            length-int_bytes (length v),
          )))

-- For terminated instructions that fit in a packet, the console sends a packet under PAQUETE, and
-- recibir_paquete, by which the kernel takes a new process, gives the very instructions in their
-- order; its fuel is enough.
pub recibir_paquete-paquete_instrucciones :
    (lista : List (List ℕ))
    → All IsCadena lista
    → length (valores_bytes lista) < int_mod
    → (sent sock : List ℕ) × (paquete_instrucciones lista ≡ ok sent)
      × (leer_int sent ≡ ok (OpCode.paquete, sock))
      × (recibir_paquete sock ≡ some (ok lista))
unfolding paquete_instrucciones crear_paquete recibir_paquete
recibir_paquete-paquete_instrucciones lista h l =
    let (a, c) = recibir_buffer-enviado OpCode.paquete (valores_bytes lista) [] (omega arith) l in
    (
      enviado OpCode.paquete (valores_bytes lista),
      int_bytes (length (valores_bytes lista)) ++ (valores_bytes lista ++ []),
      rw (agregar_cadenas-extender (crear_paquete_contexto OpCode.paquete) lista h),
      rw (append-nil (enviado OpCode.paquete (valores_bytes lista))) at a,
      rw (recibir_paquete, c)
          (leer_valores-valores_bytes (suc (length (valores_bytes lista))) lista h (omega arith)),
    )
