-- ===== src/FileSystem/Bloques.antt =====
-- filesys.h: the accesses to the file of blocks, and the blocks that an FCB takes and gives back.
pub mod Accesos
pub mod Balance
use unix_os_simulation.Base.{
  ℕ, zero, suc, ◌+◌, ◌-◌, ◌*◌, ◌/◌, ◌%◌, Bool, true, false, List, [], ◌∷◌, Option, none, some,
  Outcome, ok, faults, ◌>>=◌, length, leb, ltb, if◌then◌else◌, list_update,
}
use unix_os_simulation.Base.Int.{ℤ, pos, negsuc, ◌+ℤ◌}
use unix_os_simulation.Biblioteca.Enteros.{int_mod, int_bytes, leer_int}
use unix_os_simulation.Memoria.Espacio.{bytes_desde, escribir_desde}
use unix_os_simulation.FileSystem.{Fcb, FileSys, es_el_fcb}
use unix_os_simulation.FileSystem.Bitmap.{primer_libre, set_bit, clean_bit}

-- An address in the mapped file. Outside of it C leaves the access undefined.
abbrev pub direccion : FileSys → ℤ → ℕ → Outcome ℕ
direccion fs (pos a) size = if leb (a + size) (fs.block_size * fs.block_count) then ok a else faults
direccion fs (negsuc a) size = faults

-- A block pointer as the `int` that it is converted to.
abbrev pub como_int : Option ℕ → ℤ
como_int none = negsuc 0
como_int (some p) = pos p

-- The `int` in four bytes.
abbrev pub con_signo : ℕ → ℤ
con_signo u = if ltb u 2147483648 then pos u else negsuc (4294967295 - u)

-- `sizeof(int) * n`
abbrev pub por_int : ℤ → ℤ
por_int (pos n) = pos (4 * n)
por_int (negsuc n) = negsuc (4 * n + 3)

unfoldable pub escribir_bloque : ℤ → ℤ → List ℕ → FileSys → Outcome FileSys
escribir_bloque block_pointer offset value fs = do
  a ← direccion fs (block_pointer +ℤ offset) (length value)
  ok (record fs { datos_bloques = escribir_desde fs.datos_bloques a value })

-- `malloc(sizeof(size))` is four bytes, and a copy of more goes past them.
unfoldable pub leer_bloque : ℤ → ℤ → ℕ → FileSys → Outcome (List ℕ)
leer_bloque block_pointer offset size fs = do
  a ← direccion fs (block_pointer +ℤ offset) size
  if leb size 4 then ok (bytes_desde fs.datos_bloques a size) else faults

abbrev pub ceros : ℕ → List ℕ
ceros zero = []
ceros (suc n) = 0 ∷ ceros n

-- `borrarContenido`; `limpiarBloque` is the same for a whole block.
unfoldable pub borrar_contenido : ℤ → ℤ → ℕ → FileSys → Outcome FileSys
unfolding escribir_bloque
borrar_contenido block_pointer offset size fs = escribir_bloque block_pointer offset (ceros size) fs

unfoldable pub limpiar_bloque : ℤ → FileSys → Outcome FileSys
unfolding borrar_contenido
limpiar_bloque block_pointer fs = borrar_contenido block_pointer (pos 0) fs.block_size fs

-- `asentarFCB`
unfoldable pub asentar_fcb : Fcb → FileSys → FileSys
asentar_fcb fcb fs = record fs {
  archivos = list_update (es_el_fcb fcb.nombre_archivo) (λ viejo. fcb) fs.archivos;
}

-- The last branch: the block's address goes behind the other addresses in the block of pointers.
unfoldable pub agregar_indirecto : ℕ → ℕ → FileSys → Fcb → Outcome (FileSys × Fcb)
unfolding escribir_bloque
agregar_indirecto p i fs fcb = do
  fs' ← escribir_bloque (pos p) (por_int fcb.cantidad_indirectos) (int_bytes (i * fs.block_size)) fs
  ok (fs', record fcb { cantidad_indirectos = fcb.cantidad_indirectos +ℤ pos 1 })

unfoldable pub ocupar_indirecto_en :
    Option ℕ → ℕ → FileSys → Fcb → Outcome (Option ℕ × FileSys × Fcb)
unfolding agregar_indirecto set_bit asentar_fcb
ocupar_indirecto_en none p fs fcb = ok (none, fs, fcb)
ocupar_indirecto_en (some i) p fs fcb = do
  r ← agregar_indirecto p i (record fs { bitmap = set_bit i fs.bitmap }) fcb
  ok (some i, asentar_fcb r.1 r.0, r.1)

-- `ocuparBloqueLibre` of an FCB with both pointers: this is where the recursive call ends up. Its
-- answer is the block, or none for -1.
unfoldable pub ocupar_indirecto : ℕ → FileSys → Fcb → Outcome (Option ℕ × FileSys × Fcb)
unfolding ocupar_indirecto_en primer_libre
ocupar_indirecto p fs fcb = ocupar_indirecto_en (primer_libre fs.bitmap) p fs fcb

-- The three branches for the block found, by the direct and the indirect pointer. The answer of the
-- recursive call is not looked at.
unfoldable pub asignar_bloque : Option ℕ → Option ℕ → ℕ → FileSys → Fcb → Outcome (FileSys × Fcb)
unfolding agregar_indirecto ocupar_indirecto
asignar_bloque none q i fs fcb = ok (fs, record fcb { puntero_dir = some (i * fs.block_size) })
asignar_bloque (some d) none i fs fcb = do
  r ← ocupar_indirecto (i * fs.block_size) fs (record fcb { puntero_in = some (i * fs.block_size) })
  ok (r.1, r.2)
asignar_bloque (some d) (some p) i fs fcb = agregar_indirecto p i fs fcb

unfoldable pub ocupar_bloque : Option ℕ → FileSys → Fcb → Outcome (Option ℕ × FileSys × Fcb)
unfolding asignar_bloque set_bit asentar_fcb
ocupar_bloque none fs fcb = ok (none, fs, fcb)
ocupar_bloque (some i) fs fcb = do
  r ←
      asignar_bloque fcb.puntero_dir fcb.puntero_in i (record fs { bitmap = set_bit i fs.bitmap })
        fcb
  ok (some i, asentar_fcb r.1 r.0, r.1)

unfoldable pub ocupar_bloque_libre : FileSys → Fcb → Outcome (Option ℕ × FileSys × Fcb)
unfolding ocupar_bloque primer_libre
ocupar_bloque_libre fs fcb = ocupar_bloque (primer_libre fs.bitmap) fs fcb

-- The bit of the block that an address stands for.
unfoldable pub liberar_bit : ℕ → FileSys → Outcome FileSys
unfolding clean_bit
liberar_bit puntero fs = do
  b ← clean_bit (puntero / fs.block_size) fs.bitmap
  ok (record fs { bitmap = b })

abbrev pub no_negativo : ℤ → Outcome ℕ
no_negativo (pos n) = ok n
no_negativo (negsuc n) = faults

-- The only pointer that is left gives the block of pointers back.
unfoldable pub liberar_punteros : ℤ → ℕ → FileSys → Fcb → Outcome (FileSys × Fcb)
unfolding liberar_bit
liberar_punteros (pos (suc zero)) p fs fcb = do
  fs' ← liberar_bit p fs
  ok (fs', record fcb { puntero_in = none })
liberar_punteros n p fs fcb = ok (fs, fcb)

unfoldable pub liberar_indirecto : ℕ → FileSys → Fcb → Outcome (FileSys × Fcb)
unfolding leer_bloque limpiar_bloque liberar_bit borrar_contenido liberar_punteros leer_int
liberar_indirecto p fs fcb = do
  bytes ← leer_bloque (pos p) (por_int (fcb.cantidad_indirectos +ℤ negsuc 0)) 4 fs
  leido ← leer_int bytes
  puntero_ultimo_bloque ← no_negativo (con_signo leido.0)
  fs1 ← limpiar_bloque (pos puntero_ultimo_bloque) fs
  fs2 ← liberar_bit puntero_ultimo_bloque fs1
  fs3 ← borrar_contenido (pos p) (por_int (fcb.cantidad_indirectos +ℤ negsuc 0)) 4 fs2
  r ← liberar_punteros fcb.cantidad_indirectos p fs3 fcb
  ok (r.0, record (r.1) { cantidad_indirectos = (r.1).cantidad_indirectos +ℤ negsuc 0 })

unfoldable pub liberar_directo : FileSys → Fcb → Outcome (FileSys × Fcb)
unfolding limpiar_bloque liberar_bit
liberar_directo fs fcb = do
  d ← no_negativo (como_int fcb.puntero_dir)
  fs1 ← limpiar_bloque (pos d) fs
  fs2 ← liberar_bit d fs1
  ok (fs2, record fcb { puntero_dir = none })

-- The size is a `uint32_t`, which wraps below 0.
abbrev pub perder_bloque : ℕ → Fcb → Fcb
perder_bloque block_size fcb = record fcb {
  tamanio = (fcb.tamanio + int_mod - block_size % int_mod) % int_mod;
}

unfoldable pub liberar_ultimo_bloque_fcb : FileSys → Fcb → Outcome (FileSys × Fcb)
unfolding liberar_indirecto liberar_directo asentar_fcb
liberar_ultimo_bloque_fcb fs fcb = do
  r ← elim (fcb.puntero_in) [ none ↦ liberar_directo fs fcb | some p ↦ liberar_indirecto p fs fcb ]
  let fcb' = perder_bloque fs.block_size r.1
  ok (asentar_fcb fcb' r.0, fcb')
