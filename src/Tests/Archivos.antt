-- ===== src/Tests/Archivos.antt =====
-- filesys.h at a file system of eight blocks of 16 bytes.
use unix_os_simulation.Base.{◌-◌, ◌≡◌, false, true, [], ◌∷◌, none, ok, arith, codes}
use unix_os_simulation.Base.Int.{pos}
use unix_os_simulation.FileSystem.{Fcb, FileSys}
use unix_os_simulation.FileSystem.Archivos.{leer_en_bloques}
use unix_os_simulation.FileSystem.Archivos.Acceso.{leer_en_bloques-ultimo}

abbrev nuevo : Fcb
nuevo = record {
  nombre_archivo = codes "notas";
  tamanio = 0;
  puntero_dir = none;
  puntero_in = none;
  cantidad_indirectos = pos 0;
}

abbrev sistema : FileSys
sistema = record {
  block_size = 16;
  block_count = 8;
  bitmap = true ∷ false ∷ true ∷ false ∷ false ∷ false ∷ false ∷ false ∷ [];
  datos_bloques = λ x. 0;
  lista_fcb = nuevo ∷ [];
  archivos = nuevo ∷ [];
}

leer_en_bloques-ultimo_example :
    leer_en_bloques (pos 16) (ok (pos 64)) (16 - 1) 1 sistema
    ≡ leer_en_bloques (pos 64) (ok (pos 80)) 0 1 sistema
leer_en_bloques-ultimo_example =
    leer_en_bloques-ultimo sistema 16 64 (ok (pos 80)) (omega arith) (omega arith) (omega arith)
