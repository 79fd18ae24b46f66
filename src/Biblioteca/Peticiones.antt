-- ===== src/Biblioteca/Peticiones.antt =====
-- The requests and answers of the modules, sender and receiver side by side: funciones.c of
-- ganSOsLibrary, cpu.h, memoria.h, kernel.h and filesys.h. A sender gives the bytes that go to the
-- socket; a receiver reads from the bytes behind the operation code.
pub mod RoundTrip
use unix_os_simulation.Base.{ℕ, ◌+◌, List, [], ◌∷◌, ◌++◌, Outcome, ok, ◌>>=◌, length}
use unix_os_simulation.Biblioteca.OpCode
use unix_os_simulation.Biblioteca.{Segmento}
use unix_os_simulation.Biblioteca.Enteros.{int_bytes, leer_int, leer_bloque}
use unix_os_simulation.Biblioteca.Paquete.{
  Paquete, crear_paquete_contexto, agregar_int, agregar_a_paquete, cadena,
  empaquetar_lista_segmentos, serializar_paquete, recibir_buffer, leer_segmentos,
}

-- `realloc` by the block's size, `memcpy`, `size +=`: bytes without a length in front.
unfoldable pub agregar_bloque : Paquete → List ℕ → Paquete
agregar_bloque p b = record p { stream = p.stream ++ b; size = length b + p.size }

unfoldable pub send_newsegment_petition : ℕ → ℕ → ℕ → List ℕ
send_newsegment_petition pid seg_id size =
    let p = agregar_int (crear_paquete_contexto OpCode.create_segment) pid in
    serializar_paquete (agregar_int (agregar_int p seg_id) size)

unfoldable pub leer_tres : List ℕ → Outcome (ℕ × ℕ × ℕ)
leer_tres buffer = do a ← leer_int buffer; b ← leer_int a.1; c ← leer_int b.1; ok (a.0, b.0, c.0)

unfoldable pub recv_newsegment_petition : List ℕ → Outcome ((ℕ × ℕ × ℕ) × List ℕ)
recv_newsegment_petition sock = recibir_buffer sock >>= λ r. leer_tres r.0 >>= λ a. ok (a, r.1)

unfoldable pub send_deletesegment_petition : ℕ → ℕ → List ℕ
send_deletesegment_petition pid seg_id =
    serializar_paquete
      (agregar_int (agregar_int (crear_paquete_contexto OpCode.delete_segment) pid) seg_id)

unfoldable pub leer_dos : List ℕ → Outcome (ℕ × ℕ)
leer_dos buffer = do a ← leer_int buffer; b ← leer_int a.1; ok (a.0, b.0)

unfoldable pub recv_deletesegment_petition : List ℕ → Outcome ((ℕ × ℕ) × List ℕ)
recv_deletesegment_petition sock = recibir_buffer sock >>= λ r. leer_dos r.0 >>= λ a. ok (a, r.1)

-- The flag goes as operation code.
unfoldable pub send_tabla_segmentos : List Segmento → ℕ → List ℕ
send_tabla_segmentos tabla rflag =
    serializar_paquete (empaquetar_lista_segmentos (crear_paquete_contexto rflag) tabla)

unfoldable pub leer_tabla : List ℕ → Outcome (List Segmento)
leer_tabla buffer = do n ← leer_int buffer; ss ← leer_segmentos n.0 n.1; ok ss.0

unfoldable pub recv_tabla_segmentos : List ℕ → Outcome (List Segmento × List ℕ)
recv_tabla_segmentos sock = recibir_buffer sock >>= λ r. leer_tabla r.0 >>= λ a. ok (a, r.1)

-- cpu.h; `send_fwrite_petition` of filesys.h is the same packet under F_WRITE.
unfoldable pub send_movin_petition : ℕ → ℕ → ℕ → List ℕ
send_movin_petition op addr bytes =
    serializar_paquete (agregar_int (agregar_int (crear_paquete_contexto op) addr) bytes)

unfoldable pub recv_movin_petition : List ℕ → Outcome ((ℕ × ℕ) × List ℕ)
recv_movin_petition sock = recibir_buffer sock >>= λ r. leer_dos r.0 >>= λ a. ok (a, r.1)

-- cpu.h; `send_fread_petition` of filesys.h is the same packet under F_READ.
unfoldable pub send_movout_petition : ℕ → ℕ → List ℕ → List ℕ
send_movout_petition op addr valor =
    serializar_paquete (agregar_a_paquete (agregar_int (crear_paquete_contexto op) addr) valor)

unfoldable pub leer_dir_valor : List ℕ → Outcome (ℕ × List ℕ)
leer_dir_valor buffer = do
  a ← leer_int buffer
  n ← leer_int a.1
  v ← leer_bloque n.0 n.1
  ok (a.0, v.0)

unfoldable pub recv_movout_petition : List ℕ → Outcome ((ℕ × List ℕ) × List ℕ)
recv_movout_petition sock = recibir_buffer sock >>= λ r. leer_dir_valor r.0 >>= λ a. ok (a, r.1)

-- kernel.h: the size of the name with its zero byte, the name, and the new size of the file.
unfoldable pub truncate_petition : List ℕ → ℕ → Outcome (List ℕ)
truncate_petition name size = do
  s ← cadena name
  let p = agregar_bloque (agregar_int (crear_paquete_contexto OpCode.f_truncate) (length s)) s
  ok (serializar_paquete (agregar_int p size))

unfoldable pub leer_nombre_numero : List ℕ → Outcome (List ℕ × ℕ)
leer_nombre_numero buffer = do
  t ← leer_int buffer
  name ← leer_bloque t.0 t.1
  n ← leer_int name.1
  ok (name.0, n.0)

-- filesys.h
unfoldable pub recv_truncate_petition : List ℕ → Outcome ((List ℕ × ℕ) × List ℕ)
recv_truncate_petition sock =
    recibir_buffer sock >>= λ r. leer_nombre_numero r.0 >>= λ a. ok (a, r.1)

-- kernel.h, for F_READ and F_WRITE: name, address in memory, bytes, file pointer.
unfoldable pub send_freadwrite_petition : ℕ → List ℕ → ℕ → ℕ → ℕ → Outcome (List ℕ)
send_freadwrite_petition op filename mem_addr bytes fs_pointer = do
  s ← cadena filename
  let p = agregar_bloque (agregar_int (crear_paquete_contexto op) (length s)) s
  ok (serializar_paquete (agregar_int (agregar_int (agregar_int p mem_addr) bytes) fs_pointer))

unfoldable pub leer_nombre_tres : List ℕ → Outcome (List ℕ × ℕ × ℕ × ℕ)
leer_nombre_tres buffer = do
  t ← leer_int buffer
  name ← leer_bloque t.0 t.1
  a ← leer_int name.1
  b ← leer_int a.1
  c ← leer_int b.1
  ok (name.0, a.0, b.0, c.0)

-- filesys.h
unfoldable pub recv_readwrite_petition : List ℕ → Outcome ((List ℕ × ℕ × ℕ × ℕ) × List ℕ)
recv_readwrite_petition sock =
    recibir_buffer sock >>= λ r. leer_nombre_tres r.0 >>= λ a. ok (a, r.1)

-- kernel.h: the request of `consulting_file_system`.
unfoldable pub send_open_petition : List ℕ → Outcome (List ℕ)
send_open_petition name = do
  s ← cadena name
  ok (
      serializar_paquete
        (agregar_bloque (agregar_int (crear_paquete_contexto OpCode.f_open) (length s)) s))

unfoldable pub leer_nombre : List ℕ → Outcome (List ℕ)
leer_nombre buffer = do t ← leer_int buffer; name ← leer_bloque t.0 t.1; ok name.0

-- filesys.h; the sizes are read as in `recibir_buffer`, but without waiting for the bytes: all of
-- them are taken to be there.
unfoldable pub recv_open_petition : List ℕ → Outcome (List ℕ × List ℕ)
recv_open_petition sock = recibir_buffer sock >>= λ r. leer_nombre r.0 >>= λ a. ok (a, r.1)
