-- ===== src/FileSystem.antt =====
-- FileSystem/src/filesys.h: the FCBs, the bitmap and the mapped file of blocks. A block pointer is
-- none where the source has -1. The FCBs' configuration files are a list of FCBs too: what
-- `asentarFCB` saved last. The delay and the log are left out.
pub mod Bitmap
pub mod Bloques
pub mod Archivos
pub mod Inicio
pub mod Lista
use unix_os_simulation.Base.{ℕ, Bool, List, Option, Cadena, strcmp_eq}
use unix_os_simulation.Base.Int.{ℤ}

pub record Fcb : Type 0 where
  pub nombre_archivo : Cadena
  pub tamanio : ℕ
  pub puntero_dir : Option ℕ
  pub puntero_in : Option ℕ
  pub cantidad_indirectos : ℤ

-- `super_bloque`, `bitmap`, `datos_bloques`, `fs->listaFCB` and the directory of FCBs.
pub record FileSys : Type 0 where
  pub block_size : ℕ
  pub block_count : ℕ
  pub bitmap : List Bool
  pub datos_bloques : ℕ → ℕ
  pub lista_fcb : List Fcb
  pub archivos : List Fcb

abbrev pub es_el_fcb : Cadena → Fcb → Bool
es_el_fcb nombre_archivo un_fcb = strcmp_eq (un_fcb.nombre_archivo) nombre_archivo
