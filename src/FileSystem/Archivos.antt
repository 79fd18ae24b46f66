-- ===== src/FileSystem/Archivos.antt =====
-- filesys.h: the requests of the kernel on a file. The bytes to write come from the memory module and
-- the bytes read go to it. `config_save` is so-commons' answer when an FCB is saved.
pub mod Acceso
use unix_os_simulation.Base.{
  ℕ, zero, suc, ◌+◌, ◌-◌, ◌*◌, ◌/◌, ◌%◌, Bool, true, false, List, [], ◌∷◌, ◌++◌, Option, none, some,
  Outcome, ok, exits, faults, ◌>>=◌, Cadena, length, take, drop, leb, ltb, ◌==◌, if◌then◌else◌,
  list_find, list_update,
}
use unix_os_simulation.Base.Int.{ℤ, pos, negsuc}
use unix_os_simulation.Biblioteca.OpCode
use unix_os_simulation.Biblioteca.Enteros.{leer_int}
use unix_os_simulation.Memoria.{Memoria}
use unix_os_simulation.Memoria.Espacio.{leer_espacio, escribir_espacio}
use unix_os_simulation.FileSystem.{Fcb, FileSys, es_el_fcb}
use unix_os_simulation.FileSystem.Bloques.{
  como_int, con_signo, escribir_bloque, leer_bloque, ocupar_bloque_libre, liberar_ultimo_bloque_fcb,
}

unfoldable pub encontrar_fcb : Cadena → FileSys → Option Fcb
encontrar_fcb nombre_archivo fs = list_find (es_el_fcb nombre_archivo) fs.lista_fcb

unfoldable pub crear_fcb : Cadena → FileSys → FileSys
crear_fcb nombre fs =
    let fcb : Fcb = record {
      nombre_archivo = nombre;
      tamanio = 0;
      puntero_dir = none;
      puntero_in = none;
      cantidad_indirectos = pos 0;
    } in
    record fs { lista_fcb = fs.lista_fcb ++ fcb ∷ []; archivos = fs.archivos ++ fcb ∷ [] }

-- The answer is always 1.
unfoldable pub crear_o_abrir_archivo : Cadena → FileSys → ℤ × FileSys
unfolding encontrar_fcb crear_fcb
crear_o_abrir_archivo nombre_archivo fs = elim (encontrar_fcb nombre_archivo fs) [
  | none ↦ (pos 1, crear_fcb nombre_archivo fs)
  | some fcb ↦ (pos 1, fs)
]

-- `ceil(1.0*a/b)`, by a positive divisor.
abbrev pub ceil_div : ℕ → ℕ → ℕ
ceil_div a b = (a + (b - 1)) / b

unfoldable pub liberar_bloques : ℕ → FileSys → Fcb → Outcome (FileSys × Fcb)
unfolding liberar_ultimo_bloque_fcb
liberar_bloques zero fs fcb = ok (fs, fcb)
liberar_bloques (suc n) fs fcb = do r ← liberar_ultimo_bloque_fcb fs fcb; liberar_bloques n r.0 r.1

-- The answer of the loop is whether it ran to its end.
unfoldable pub ocupar_bloques : ℕ → FileSys → Fcb → Outcome (Bool × FileSys × Fcb)
unfolding ocupar_bloque_libre
ocupar_bloques zero fs fcb = ok (true, fs, fcb)
ocupar_bloques (suc n) fs fcb = do
  r ← ocupar_bloque_libre fs fcb
  elim (r.0) [ none ↦ ok (false, r.1, r.2) | some i ↦ ocupar_bloques n r.1 r.2 ]

-- What the pointer into the list of FCBs has written.
abbrev pub poner_fcb : Fcb → FileSys → FileSys
poner_fcb fcb fs = record fs {
  lista_fcb = list_update (es_el_fcb fcb.nombre_archivo) (λ viejo. fcb) fs.lista_fcb;
}

module _ (config_save : Fcb → Bool) where
  -- The new size in the FCB and, if the save succeeds, in its file.
  unfoldable pub cerrar_truncado : ℕ → FileSys → Fcb → ℤ × FileSys
  cerrar_truncado nuevo_tamanio fs fcb =
      let fcb' : Fcb = record fcb { tamanio = nuevo_tamanio } in
      let fs' = poner_fcb fcb' fs in
      if config_save fcb'
      then (
        pos 1,
        record fs' {
          archivos = list_update (es_el_fcb fcb.nombre_archivo) (λ viejo. fcb') fs'.archivos;
        },
      )
      else (negsuc 0, fs')

  unfoldable pub agrandar : ℕ → ℕ → FileSys → Fcb → Outcome (ℤ × FileSys)
  unfolding ocupar_bloques cerrar_truncado
  agrandar faltantes nuevo_tamanio fs fcb = do
    r ← ocupar_bloques faltantes fs fcb
    ok (if r.0 then cerrar_truncado nuevo_tamanio r.1 r.2 else (negsuc 0, poner_fcb r.2 r.1))

  unfoldable pub achicar : ℕ → ℕ → FileSys → Fcb → Outcome (ℤ × FileSys)
  unfolding liberar_bloques cerrar_truncado
  achicar sobrantes nuevo_tamanio fs fcb = do
    r ← liberar_bloques sobrantes fs fcb
    ok (cerrar_truncado nuevo_tamanio r.0 r.1)

  -- The answer to the kernel, and the file system.
  unfoldable pub truncar_archivo : Cadena → ℕ → FileSys → Outcome (ℤ × FileSys)
  unfolding encontrar_fcb agrandar achicar
  truncar_archivo nombre_archivo nuevo_tamanio fs = elim (encontrar_fcb nombre_archivo fs) [
    | none ↦ ok (pos 2, fs)
    | some fcb ↦
        let bloques_necesarios = ceil_div nuevo_tamanio fs.block_size in
        let cantidad_bloques_actuales = ceil_div fcb.tamanio fs.block_size in
        if ltb bloques_necesarios cantidad_bloques_actuales
        then achicar (cantidad_bloques_actuales - bloques_necesarios) nuevo_tamanio fs fcb
        else agrandar (bloques_necesarios - cantidad_bloques_actuales) nuevo_tamanio fs fcb
  ]

unfoldable pub block_pointer_from_number : FileSys → Fcb → ℤ → Outcome ℤ
unfolding leer_bloque leer_int
block_pointer_from_number fs fcb (pos zero) = ok (como_int fcb.puntero_dir)
block_pointer_from_number fs fcb (pos (suc n)) = do
  bytes ← leer_bloque (como_int fcb.puntero_in) (pos (4 * n)) 4 fs
  leido ← leer_int bytes
  ok (con_signo leido.0)
block_pointer_from_number fs fcb (negsuc n) = exits

-- `bytes-exceded_bytes` of an access that is split: the source counts one byte more than exceeds.
abbrev pub first_bytes : ℕ → ℕ → ℕ → ℕ
first_bytes block_size offset bytes = bytes - (offset + bytes + 1 - block_size)

-- The write, by the first block's address and, when it is split, the second's.
unfoldable pub escribir_en_bloques : ℤ → Outcome ℤ → ℕ → List ℕ → FileSys → Outcome FileSys
unfolding escribir_bloque
escribir_en_bloques block_pointer scnd offset buffer fs =
    let n = first_bytes fs.block_size offset (length buffer) in
    if leb fs.block_size (offset + length buffer)
    then (do
      scnd_block_pointer ← scnd
      fs1 ← escribir_bloque block_pointer (pos offset) (take n buffer) fs
      escribir_bloque scnd_block_pointer (pos 0) (drop n buffer) fs1)
    else escribir_bloque block_pointer (pos offset) buffer fs

unfoldable pub leer_en_bloques : ℤ → Outcome ℤ → ℕ → ℕ → FileSys → Outcome (List ℕ)
unfolding leer_bloque
leer_en_bloques block_pointer scnd inblock_offset bytes fs =
    if leb fs.block_size (inblock_offset + bytes)
    then (do
      scnd_block_pointer ← scnd
      first_buffer ←
          leer_bloque block_pointer (pos inblock_offset)
            (first_bytes fs.block_size inblock_offset bytes) fs
      scnd_buffer ←
          leer_bloque scnd_block_pointer (pos 0) (inblock_offset + bytes + 1 - fs.block_size) fs
      ok (first_buffer ++ scnd_buffer))
    else leer_bloque block_pointer (pos inblock_offset) bytes fs

-- The position in the file is not negative here.
unfoldable pub escribir_en : FileSys → Fcb → ℕ → List ℕ → Outcome FileSys
unfolding block_pointer_from_number escribir_en_bloques
escribir_en fs fcb puntero buffer = do
  let block_number = puntero / fs.block_size
  block_pointer ← block_pointer_from_number fs fcb (pos block_number)
  escribir_en_bloques block_pointer (block_pointer_from_number fs fcb (pos (suc block_number)))
      (puntero % fs.block_size) buffer fs

unfoldable pub leer_en : FileSys → Fcb → ℕ → ℕ → Outcome (List ℕ)
unfolding block_pointer_from_number leer_en_bloques
leer_en fs fcb puntero bytes = do
  let block_number = puntero / fs.block_size
  block_pointer ← block_pointer_from_number fs fcb (pos block_number)
  leer_en_bloques block_pointer (block_pointer_from_number fs fcb (pos (suc block_number)))
      (puntero % fs.block_size) bytes fs

-- The bytes at `realAddr` of the memory module go to the file.
unfoldable pub escribir_archivo : Cadena → ℕ → ℕ → ℕ → Memoria → FileSys → Outcome (ℤ × FileSys)
unfolding encontrar_fcb escribir_en leer_espacio
escribir_archivo nombre_archivo real_addr bytes puntero m fs =
    elim (encontrar_fcb nombre_archivo fs) [
      | none ↦ ok (negsuc 0, fs)
      | some fcb ↦ (do
        buffer ← leer_espacio m real_addr bytes
        fs' ← escribir_en fs fcb puntero buffer
        ok (pos 1, fs'))
    ]

-- The bytes of the file go to `realAddr` of the memory module, which answers 1. A file that is not there
-- gets no answer.
unfoldable pub leer_archivo : Cadena → ℕ → ℕ → ℕ → Memoria → FileSys → Outcome (Option ℤ × Memoria)
unfolding encontrar_fcb leer_en escribir_espacio
leer_archivo nombre_archivo real_addr bytes puntero m fs = elim (encontrar_fcb nombre_archivo fs) [
  | none ↦ ok (none, m)
  | some fcb ↦ (do
    datos ← leer_en fs fcb puntero bytes
    m' ← escribir_espacio m real_addr datos
    ok (some (pos 1), m'))
]

-- What one turn of `manejarConexionesFS` has received: the operation and what the petition holds.
pub record Peticion : Type 0 where
  pub cod_op : ℕ
  pub nombre_archivo : Cadena
  pub nuevo_tamanio : ℕ
  pub real_addr : ℕ
  pub bytes_rdwr : ℕ
  pub puntero : ℕ

-- One turn: the answer to the kernel, if there is one, the memory module and the file system. Any other
-- operation ends the module.
unfoldable pub manejar_conexion :
    (Fcb → Bool) → Peticion → Memoria → FileSys → Outcome (Option ℤ × Memoria × FileSys)
unfolding crear_o_abrir_archivo truncar_archivo leer_archivo escribir_archivo
manejar_conexion config_save p m fs =
    if p.cod_op == OpCode.f_open
    then (let (r, fs') = crear_o_abrir_archivo p.nombre_archivo fs in ok (some r, m, fs'))
    else if p.cod_op == OpCode.f_truncate
    then (do
      r ← truncar_archivo config_save p.nombre_archivo p.nuevo_tamanio fs
      ok (some r.0, m, r.1))
    else if p.cod_op == OpCode.f_read
    then (do
      r ← leer_archivo p.nombre_archivo p.real_addr p.bytes_rdwr p.puntero m fs
      ok (r.0, r.1, fs))
    else if p.cod_op == OpCode.f_write
    then (do
      r ← escribir_archivo p.nombre_archivo p.real_addr p.bytes_rdwr p.puntero m fs
      ok (some r.0, m, r.1))
    else exits
