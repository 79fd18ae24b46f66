-- ===== src/FileSystem/Inicio.antt =====
-- filesys.h: `inicializarListaFCB`, which reads the FCBs back from their files when the module starts.
use unix_os_simulation.Base.{
  ◌≡◌, ap, List, [], ◌∷◌, some, Cadena, list_find, Bool-cases, inl, inr, arith,
}
use unix_os_simulation.Base.Int.{ℤ}
use unix_os_simulation.FileSystem.{Fcb, FileSys, es_el_fcb}

-- One entry of the directory. The number of pointers is not read: it is what `malloc` left there.
unfoldable pub leer_fcb : ℤ → Fcb → Fcb
leer_fcb sin_iniciar entrada = record {
  nombre_archivo = entrada.nombre_archivo;
  tamanio = entrada.tamanio;
  puntero_dir = entrada.puntero_dir;
  puntero_in = entrada.puntero_in;
  cantidad_indirectos = sin_iniciar;
}

-- The entries in the order of `readdir`, which is that of `archivos` here.
unfoldable pub leer_entradas : (Fcb → ℤ) → List Fcb → List Fcb
unfolding leer_fcb
leer_entradas sin_iniciar [] = []
leer_entradas sin_iniciar (entrada ∷ entradas) =
    leer_fcb (sin_iniciar entrada) entrada ∷ leer_entradas sin_iniciar entradas

-- No directory is one without entries.
unfoldable pub inicializar_lista_fcb : (Fcb → ℤ) → FileSys → FileSys
unfolding leer_entradas
inicializar_lista_fcb sin_iniciar fs = record fs {
  lista_fcb = leer_entradas sin_iniciar fs.archivos;
}

pub leer_entradas-list_find :
    (sin_iniciar : Fcb → ℤ) (nombre : Cadena) (fcb : Fcb) (entradas : List Fcb)
    → list_find (es_el_fcb nombre) entradas ≡ some fcb
    → list_find (es_el_fcb nombre) (leer_entradas sin_iniciar entradas)
      ≡ some (leer_fcb (sin_iniciar fcb) fcb)
unfolding leer_entradas leer_fcb
leer_entradas-list_find sin_iniciar nombre fcb [] e = cc
leer_entradas-list_find sin_iniciar nombre fcb (entrada ∷ entradas) e =
    elim (Bool-cases (es_el_fcb nombre entrada)) [
      | inl c ↦
          let z : entrada ≡ fcb = ground (arith, c, e) in
          rw (c) (ap (λ f. some (leer_fcb (sin_iniciar f) f)) z)
      | inr c ↦
          let r : list_find (es_el_fcb nombre) entradas ≡ some fcb = ground (arith, c, e) in
          rw (c) (leer_entradas-list_find sin_iniciar nombre fcb entradas r)
    ]
