-- ===== src/Biblioteca/Contexto/RoundTrip.antt =====
-- The bytes of an execution context, from `paquete_contexto` to `recibir_paquete_contexto`.
use unix_os_simulation.Base.{
  ℕ, ◌<◌, ◌≡◌, ap, ◌∙◌, List, [], ◌++◌, append_assoc, append-nil, ok, arith, length,
}
use unix_os_simulation.Biblioteca.{Segmento, ExecContext, cantidad_registros_cpu}
use unix_os_simulation.Biblioteca.Enteros.{int_bytes, int_mod, leer_int-int_bytes, length-int_bytes}
use unix_os_simulation.Biblioteca.Paquete.{
  Paquete, crear_paquete_contexto, empaquetar_lista, empaquetar_lista_segmentos, leer_cadenas,
  leer_segmentos, empaquetar_registros,
}
use unix_os_simulation.Biblioteca.Paquete.RoundTrip.{
  IsCadena, All, Cabe, extender, valor_bytes, valores_bytes, segmentos_bytes, extender-extender,
  agregar_int-extender, agregar_a_paquete-extender, agregar_cadenas-extender,
  empaquetar_registros-extender, agregar_segmentos-extender, leer_cadenas-valores_bytes,
  leer_segmentos-segmentos_bytes, recibe, enviado, recibe-enviado,
}
use unix_os_simulation.Biblioteca.Contexto.{
  empaquetar_contexto, paquete_contexto, leer_int_con_tamanio, leer_contexto,
  recibir_paquete_contexto,
}

abbrev pub lista_bytes : List (List ℕ) → List ℕ
lista_bytes l = int_bytes (length l) ++ valores_bytes l

abbrev pub contexto_bytes : ExecContext → List ℕ
contexto_bytes c =
    valor_bytes (int_bytes c.pid)
    ++ (lista_bytes c.instrucciones
        ++ (valor_bytes (int_bytes c.program_counter)
            ++ (valores_bytes c.registros
                ++ (lista_bytes c.parametros
                    ++ (int_bytes (length c.tabla_segmentos)
                        ++ segmentos_bytes c.tabla_segmentos)))))

-- A context that fits the format: terminated strings, twelve registers, and every number and the
-- whole stream within an `int`.
pub record IsEnviable (c : ExecContext) : Type 0 where
  pub pid_cabe : c.pid < int_mod
  pub pc_cabe : c.program_counter < int_mod
  pub instrucciones_ok : All IsCadena c.instrucciones
  pub instrucciones_caben : length c.instrucciones < int_mod
  pub registros_ok : All IsCadena c.registros
  pub doce : length c.registros ≡ cantidad_registros_cpu
  pub parametros_ok : All IsCadena c.parametros
  pub parametros_caben : length c.parametros < int_mod
  pub segmentos_ok : All Cabe c.tabla_segmentos
  pub segmentos_caben : length c.tabla_segmentos < int_mod
  pub total_cabe : length (contexto_bytes c) < int_mod

empaquetar_lista-extender :
    (p : Paquete) (l : List (List ℕ))
    → All IsCadena l
    → empaquetar_lista p l ≡ ok (extender p (lista_bytes l))
unfolding empaquetar_lista
empaquetar_lista-extender p l h = rw (agregar_int-extender p (length l)) (
    agregar_cadenas-extender (extender p (int_bytes (length l))) l h
    ∙ ap ok (extender-extender p (int_bytes (length l)) (valores_bytes l)))

pub empaquetar_lista_segmentos-extender :
    (p : Paquete) (l : List Segmento)
    → empaquetar_lista_segmentos p l ≡ extender p (int_bytes (length l) ++ segmentos_bytes l)
unfolding empaquetar_lista_segmentos
empaquetar_lista_segmentos-extender p l = rw (agregar_int-extender p (length l)) (
    agregar_segmentos-extender (extender p (int_bytes (length l))) l
    ∙ extender-extender p (int_bytes (length l)) (segmentos_bytes l))

empaquetar_registros_doce :
    (p : Paquete) (rs : List (List ℕ))
    → length rs ≡ cantidad_registros_cpu
    → All IsCadena rs
    → empaquetar_registros cantidad_registros_cpu p rs ≡ ok (extender p (valores_bytes rs))
empaquetar_registros_doce p rs e h = rw e at (empaquetar_registros-extender p rs h)

empaquetar_contexto-enviado :
    (c : ExecContext) (motivo : ℕ)
    → IsEnviable c
    → empaquetar_contexto c motivo
      ≡ ok (extender (crear_paquete_contexto motivo) (contexto_bytes c))
unfolding empaquetar_contexto
empaquetar_contexto-enviado c motivo v = simp (
  agregar_a_paquete-extender,
  λ (p : Paquete). empaquetar_lista-extender p c.instrucciones v.instrucciones_ok,
  λ (p : Paquete). empaquetar_registros_doce p c.registros v.doce v.registros_ok,
  λ (p : Paquete). empaquetar_lista-extender p c.parametros v.parametros_ok,
  empaquetar_lista_segmentos-extender,
  extender-extender,
  append_assoc,
)

leer_int_con_tamanio-bytes :
    (n : ℕ) (rest : List ℕ)
    → n < int_mod
    → leer_int_con_tamanio (int_bytes (length (int_bytes n)) ++ (int_bytes n ++ rest))
      ≡ ok (n, rest)
unfolding leer_int_con_tamanio
leer_int_con_tamanio-bytes n rest h = rw (
  length-int_bytes n,
  leer_int-int_bytes 4 (int_bytes n ++ rest) (omega arith),
  leer_int-int_bytes n rest h,
)

leer_doce :
    (c : ExecContext) (rest : List ℕ)
    → IsEnviable c
    → leer_cadenas cantidad_registros_cpu (valores_bytes c.registros ++ rest)
      ≡ ok (c.registros, rest)
leer_doce c rest v = rw v.doce at (leer_cadenas-valores_bytes c.registros rest v.registros_ok)

leer_segmentos_fin :
    (c : ExecContext)
    → IsEnviable c
    → leer_segmentos (length c.tabla_segmentos) (segmentos_bytes c.tabla_segmentos)
      ≡ ok (c.tabla_segmentos, [])
leer_segmentos_fin c v =
    rw (append-nil (segmentos_bytes c.tabla_segmentos)) at
      (leer_segmentos-segmentos_bytes c.tabla_segmentos [] v.segmentos_ok)

leer_contexto-bytes : (c : ExecContext) → IsEnviable c → leer_contexto (contexto_bytes c) ≡ ok c
unfolding leer_contexto
leer_contexto-bytes c v = simp append_assoc (
    rw (
      λ (r : List ℕ). leer_int_con_tamanio-bytes c.pid r v.pid_cabe,
      λ (r : List ℕ). leer_int-int_bytes (length c.instrucciones) r v.instrucciones_caben,
      λ (r : List ℕ). leer_cadenas-valores_bytes c.instrucciones r v.instrucciones_ok,
      λ (r : List ℕ). leer_int_con_tamanio-bytes c.program_counter r v.pc_cabe,
      λ (r : List ℕ). leer_doce c r v,
      λ (r : List ℕ). leer_int-int_bytes (length c.parametros) r v.parametros_caben,
      λ (r : List ℕ). leer_cadenas-valores_bytes c.parametros r v.parametros_ok,
      λ (r : List ℕ). leer_int-int_bytes (length c.tabla_segmentos) r v.segmentos_caben,
      leer_segmentos_fin c v,
    ))

-- For a context that fits the format (terminated strings, twelve registers, numbers and stream
-- within 32 bits) and a reason below 2 ^ 32, paquete_contexto sends bytes from which
-- recibir_paquete_contexto, after the operation code, gets the same context, leaving what follows
-- on the socket.
pub recibir_paquete_contexto-paquete_contexto :
    (c : ExecContext) (motivo : ℕ) (rest : List ℕ)
    → IsEnviable c
    → motivo < int_mod
    → (bytes : List ℕ) × (paquete_contexto c motivo ≡ ok bytes)
      × (recibe recibir_paquete_contexto (bytes ++ rest) ≡ ok (motivo, c, rest))
unfolding paquete_contexto recibir_paquete_contexto
recibir_paquete_contexto-paquete_contexto c motivo rest v h = (
  enviado motivo (contexto_bytes c),
  rw (empaquetar_contexto-enviado c motivo v),
  recibe-enviado leer_contexto motivo (contexto_bytes c) rest c h v.total_cabe
      (leer_contexto-bytes c v),
)
