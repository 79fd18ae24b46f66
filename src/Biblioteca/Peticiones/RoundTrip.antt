-- ===== src/Biblioteca/Peticiones/RoundTrip.antt =====
-- The bytes of each request, from its sender to its receiver.
use unix_os_simulation.Base.{
  ℕ, ◌+◌, ◌*◌, ◌<◌, ◌≡◌, refl, List, [], ◌∷◌, ◌++◌, append_assoc, append-nil, ok, arith, length,
  length-append,
}
use unix_os_simulation.Biblioteca.OpCode
use unix_os_simulation.Biblioteca.{Segmento}
use unix_os_simulation.Biblioteca.Enteros.{
  int_bytes, int_mod, leer_int, leer_int-int_bytes, leer_bloque, leer_bloque-append,
  length-int_bytes,
}
use unix_os_simulation.Biblioteca.Paquete.{Paquete, cadena}
use unix_os_simulation.Biblioteca.Paquete.RoundTrip.{
  All, Cabe, extender, segmentos_bytes, extender-extender, agregar_int-extender,
  agregar_a_paquete-extender, leer_segmentos-segmentos_bytes, recibe, enviado, recibe-enviado,
  Paquete-ext,
}
use unix_os_simulation.Biblioteca.Contexto.RoundTrip.{empaquetar_lista_segmentos-extender}
use unix_os_simulation.Biblioteca.Peticiones.{
  agregar_bloque, send_newsegment_petition, leer_tres, recv_newsegment_petition,
  send_deletesegment_petition, leer_dos, recv_deletesegment_petition, send_tabla_segmentos,
  leer_tabla, recv_tabla_segmentos, send_movin_petition, recv_movin_petition, send_movout_petition,
  leer_dir_valor, recv_movout_petition, truncate_petition, leer_nombre_numero,
  recv_truncate_petition, send_freadwrite_petition, leer_nombre_tres, recv_readwrite_petition,
}

agregar_bloque-extender : (p : Paquete) (b : List ℕ) → agregar_bloque p b ≡ extender p b
unfolding agregar_bloque extender
agregar_bloque-extender p b = Paquete-ext _ _ refl (omega arith) refl

ruleset escritura = (
  agregar_int-extender, agregar_a_paquete-extender, agregar_bloque-extender,
  empaquetar_lista_segmentos-extender, extender-extender, append_assoc,
)

leer_int_fin : (n : ℕ) → n < int_mod → leer_int (int_bytes n) ≡ ok (n, [])
leer_int_fin n h = rw (append-nil (int_bytes n)) at (leer_int-int_bytes n [] h)

leer_bloque_fin : (v : List ℕ) → leer_bloque (length v) v ≡ ok (v, [])
leer_bloque_fin v = rw (append-nil v) at (leer_bloque-append v [])

length-dos : (a b : ℕ) → length (int_bytes a ++ int_bytes b) ≡ 8
unfolding int_bytes
length-dos a b = refl

length-tres : (a b c : ℕ) → length (int_bytes a ++ (int_bytes b ++ int_bytes c)) ≡ 12
unfolding int_bytes
length-tres a b c = refl

leer_dos-bytes :
    (a b : ℕ) → a < int_mod → b < int_mod → leer_dos (int_bytes a ++ int_bytes b) ≡ ok (a, b)
unfolding leer_dos
leer_dos-bytes a b h k = rw (leer_int-int_bytes a (int_bytes b) h, leer_int_fin b k)

leer_tres-bytes :
    (a b c : ℕ)
    → a < int_mod
    → b < int_mod
    → c < int_mod
    → leer_tres (int_bytes a ++ (int_bytes b ++ int_bytes c)) ≡ ok (a, b, c)
unfolding leer_tres
leer_tres-bytes a b c h k l = rw (
  leer_int-int_bytes a (int_bytes b ++ int_bytes c) h,
  leer_int-int_bytes b (int_bytes c) k,
  leer_int_fin c l,
)

leer_dir_valor-bytes :
    (a : ℕ) (v : List ℕ)
    → a < int_mod
    → length v < int_mod
    → leer_dir_valor (int_bytes a ++ (int_bytes (length v) ++ v)) ≡ ok (a, v)
unfolding leer_dir_valor
leer_dir_valor-bytes a v h l = rw (
  leer_int-int_bytes a (int_bytes (length v) ++ v) h,
  leer_int-int_bytes (length v) v l,
  leer_bloque_fin v,
)

length-segmentos_bytes : (ss : List Segmento) → length (segmentos_bytes ss) ≡ 12 * length ss
length-segmentos_bytes [] = refl
length-segmentos_bytes (s ∷ ss) = omega (
  arith,
  length-append (int_bytes s.id ++ (int_bytes s.base ++ int_bytes s.limite)) (segmentos_bytes ss),
  length-tres s.id s.base s.limite,
  length-segmentos_bytes ss,
)

leer_tabla-bytes :
    (ss : List Segmento)
    → All Cabe ss
    → length ss < int_mod
    → leer_tabla (int_bytes (length ss) ++ segmentos_bytes ss) ≡ ok ss
unfolding leer_tabla
leer_tabla-bytes ss h l = rw (
  leer_int-int_bytes (length ss) (segmentos_bytes ss) l,
  rw (append-nil (segmentos_bytes ss)) at (leer_segmentos-segmentos_bytes ss [] h),
)

leer_nombre_tres-bytes :
    (v : List ℕ) (a b c : ℕ)
    → length v < int_mod
    → a < int_mod
    → b < int_mod
    → c < int_mod
    → leer_nombre_tres
        (int_bytes (length v) ++ (v ++ (int_bytes a ++ (int_bytes b ++ int_bytes c))))
      ≡ ok (v, a, b, c)
unfolding leer_nombre_tres
leer_nombre_tres-bytes v a b c l h k m = rw (
  leer_int-int_bytes (length v) (v ++ (int_bytes a ++ (int_bytes b ++ int_bytes c))) l,
  leer_bloque-append v (int_bytes a ++ (int_bytes b ++ int_bytes c)),
  leer_int-int_bytes a (int_bytes b ++ int_bytes c) h,
  leer_int-int_bytes b (int_bytes c) k,
  leer_int_fin c m,
)

leer_nombre_numero-bytes :
    (v : List ℕ) (n : ℕ)
    → length v < int_mod
    → n < int_mod
    → leer_nombre_numero (int_bytes (length v) ++ (v ++ int_bytes n)) ≡ ok (v, n)
unfolding leer_nombre_numero
leer_nombre_numero-bytes v n l h = rw (
  leer_int-int_bytes (length v) (v ++ int_bytes n) l,
  leer_bloque-append v (int_bytes n),
  leer_int_fin n h,
)

-- For numbers below 2 ^ 32, the memory module reads from a create request the process, the ID and
-- the size that the kernel wrote, and leaves what follows on the socket.
pub recv_newsegment_petition-send :
    (pid seg_id size : ℕ) (rest : List ℕ)
    → pid < int_mod
    → seg_id < int_mod
    → size < int_mod
    → recibe recv_newsegment_petition (send_newsegment_petition pid seg_id size ++ rest)
      ≡ ok (OpCode.create_segment, (pid, seg_id, size), rest)
unfolding recv_newsegment_petition send_newsegment_petition
recv_newsegment_petition-send pid seg_id size rest a b c = simp escritura (
    recibe-enviado leer_tres OpCode.create_segment
      (int_bytes pid ++ (int_bytes seg_id ++ int_bytes size)) rest (pid, seg_id, size) (omega arith)
      (omega (arith, length-tres pid seg_id size)) (leer_tres-bytes pid seg_id size a b c))

-- For numbers below 2 ^ 32, the memory module reads from a delete request the process and the ID
-- that the kernel wrote, and leaves what follows on the socket.
pub recv_deletesegment_petition-send :
    (pid seg_id : ℕ) (rest : List ℕ)
    → pid < int_mod
    → seg_id < int_mod
    → recibe recv_deletesegment_petition (send_deletesegment_petition pid seg_id ++ rest)
      ≡ ok (OpCode.delete_segment, (pid, seg_id), rest)
unfolding recv_deletesegment_petition send_deletesegment_petition
recv_deletesegment_petition-send pid seg_id rest a b = simp escritura (
    recibe-enviado leer_dos OpCode.delete_segment (int_bytes pid ++ int_bytes seg_id) rest
      (pid, seg_id) (omega arith) (omega (arith, length-dos pid seg_id))
      (leer_dos-bytes pid seg_id a b))

-- For numbers below 2 ^ 32, the memory module reads from a read request the address and the count
-- that were written, under whatever operation code, and leaves what follows on the socket.
pub recv_movin_petition-send :
    (op addr bytes : ℕ) (rest : List ℕ)
    → op < int_mod
    → addr < int_mod
    → bytes < int_mod
    → recibe recv_movin_petition (send_movin_petition op addr bytes ++ rest)
      ≡ ok (op, (addr, bytes), rest)
unfolding recv_movin_petition send_movin_petition
recv_movin_petition-send op addr bytes rest h a b = simp escritura (
    recibe-enviado leer_dos op (int_bytes addr ++ int_bytes bytes) rest (addr, bytes) h
      (omega (arith, length-dos addr bytes)) (leer_dos-bytes addr bytes a b))

-- For numbers below 2 ^ 32 and a request that fits in as many bytes, the memory module reads from a
-- write request the address and the very bytes, and leaves what follows on the socket.
pub recv_movout_petition-send :
    (op addr : ℕ) (valor rest : List ℕ)
    → op < int_mod
    → addr < int_mod
    → length valor + 8 < int_mod
    → recibe recv_movout_petition (send_movout_petition op addr valor ++ rest)
      ≡ ok (op, (addr, valor), rest)
unfolding recv_movout_petition send_movout_petition
recv_movout_petition-send op addr valor rest h a b = simp escritura (
    recibe-enviado leer_dir_valor op (int_bytes addr ++ (int_bytes (length valor) ++ valor)) rest
      (addr, valor) h (simp (length-append, length-int_bytes) (omega arith))
      (leer_dir_valor-bytes addr valor a (omega arith)))

-- For a flag and a table within the 32-bit format, the kernel reads the flag and the segments that
-- send_tabla_segmentos wrote, and leaves what follows on the socket.
pub recv_tabla_segmentos-send :
    (tabla : List Segmento) (rflag : ℕ) (rest : List ℕ)
    → rflag < int_mod
    → All Cabe tabla
    → 12 * length tabla + 4 < int_mod
    → recibe recv_tabla_segmentos (send_tabla_segmentos tabla rflag ++ rest)
      ≡ ok (rflag, tabla, rest)
unfolding recv_tabla_segmentos send_tabla_segmentos
recv_tabla_segmentos-send tabla rflag rest h a b = simp escritura (
    recibe-enviado leer_tabla rflag (int_bytes (length tabla) ++ segmentos_bytes tabla) rest tabla h
      (simp (length-append, length-int_bytes, length-segmentos_bytes) (omega arith))
      (leer_tabla-bytes tabla a (omega arith)))

-- For a terminated name and numbers within the 32-bit format, a file read or write request is sent,
-- and the file system reads from it the name, the address, the count and the pointer.
pub recv_readwrite_petition-send :
    (op mem_addr bytes fs_pointer : ℕ) (filename rest : List ℕ)
    → op < int_mod
    → mem_addr < int_mod
    → bytes < int_mod
    → fs_pointer < int_mod
    → cadena filename ≡ ok filename
    → length filename + 16 < int_mod
    → (sent : List ℕ) × (send_freadwrite_petition op filename mem_addr bytes fs_pointer ≡ ok sent)
      × (recibe recv_readwrite_petition (sent ++ rest)
          ≡ ok (op, (filename, mem_addr, bytes, fs_pointer), rest))
unfolding recv_readwrite_petition send_freadwrite_petition
recv_readwrite_petition-send op mem_addr bytes fs_pointer filename rest h a b c t l =
    let cuerpo =
      int_bytes (length filename)
      ++ (filename ++ (int_bytes mem_addr ++ (int_bytes bytes ++ int_bytes fs_pointer))) in
    (
      enviado op cuerpo,
      rw t (simp escritura),
      recibe-enviado leer_nombre_tres op cuerpo rest (filename, mem_addr, bytes, fs_pointer) h
          (simp (length-append, length-int_bytes) (omega arith))
          (leer_nombre_tres-bytes filename mem_addr bytes fs_pointer (omega arith) a b c),
    )

-- For a terminated name and a size within the 32-bit format, a truncate request is sent, and the
-- file system reads from it the name and the size.
pub recv_truncate_petition-send :
    (size : ℕ) (name rest : List ℕ)
    → size < int_mod
    → cadena name ≡ ok name
    → length name + 8 < int_mod
    → (sent : List ℕ) × (truncate_petition name size ≡ ok sent)
      × (recibe recv_truncate_petition (sent ++ rest) ≡ ok (OpCode.f_truncate, (name, size), rest))
unfolding recv_truncate_petition truncate_petition
recv_truncate_petition-send size name rest a t l =
    let cuerpo = int_bytes (length name) ++ (name ++ int_bytes size) in
    (
      enviado OpCode.f_truncate cuerpo,
      rw t (simp escritura),
      recibe-enviado leer_nombre_numero OpCode.f_truncate cuerpo rest (name, size) (omega arith)
          (simp (length-append, length-int_bytes) (omega arith))
          (leer_nombre_numero-bytes name size (omega arith) a),
    )
