-- ===== src/FileSystem/Lista/Reinicio.antt =====
-- filesys.h: the list of a file after `inicializarListaFCB`.
use unix_os_simulation.Base.{
  ℕ, ◌≡◌, ◌↔◌, refl, ◌∙◌, sym, List, [], ◌∷◌, Option, none, some, Cadena, list_find, suc, length,
}
use unix_os_simulation.Base.Int.{ℤ, pos}
use unix_os_simulation.FileSystem.{Fcb, FileSys, es_el_fcb}
use unix_os_simulation.FileSystem.Archivos.{encontrar_fcb}
use unix_os_simulation.FileSystem.Inicio.{leer_fcb, inicializar_lista_fcb, leer_entradas-list_find}
use unix_os_simulation.FileSystem.Lista.{EsArchivo}

-- The number of pointers that a list of blocks asks for.
cantidad : List ℕ → ℤ
cantidad [] = pos 0
cantidad (k ∷ []) = pos 0
cantidad (k ∷ j ∷ ks) = pos (suc (length ks))

EsArchivo-cantidad :
    (fs : FileSys) (fcb : Fcb) (q : Option ℕ) (ks : List ℕ)
    → EsArchivo fs fcb q ks
    → fcb.cantidad_indirectos ≡ cantidad ks
unfolding cantidad
EsArchivo-cantidad fs fcb none [] v = v.forma.2
EsArchivo-cantidad fs fcb none (k ∷ []) v = v.forma.2
EsArchivo-cantidad fs fcb none (k ∷ j ∷ ks) v = absurd v.forma
EsArchivo-cantidad fs fcb (some q) [] v = absurd v.forma
EsArchivo-cantidad fs fcb (some q) (k ∷ []) v = absurd v.forma
EsArchivo-cantidad fs fcb (some q) (k ∷ j ∷ ks) v = v.forma.2

module _ (sin_iniciar : Fcb → ℤ) (fs : FileSys) (fcb : Fcb) where
  EsArchivo-leido :
      (q : Option ℕ) (ks : List ℕ)
      → EsArchivo fs fcb q ks
      → sin_iniciar fcb ≡ fcb.cantidad_indirectos
      → EsArchivo (inicializar_lista_fcb sin_iniciar fs) (leer_fcb (sin_iniciar fcb) fcb) q ks
  unfolding inicializar_lista_fcb leer_fcb
  EsArchivo-leido none [] v e = record {
    forma = (v.forma.0, v.forma.1, e ∙ v.forma.2);
    tomados = v.tomados;
    distintos = v.distintos;
  }
  EsArchivo-leido none (k ∷ []) v e = record {
    forma = (v.forma.0, v.forma.1, e ∙ v.forma.2);
    tomados = v.tomados;
    distintos = v.distintos;
  }
  EsArchivo-leido none (k ∷ j ∷ ks) v e = absurd v.forma
  EsArchivo-leido (some q) [] v e = absurd v.forma
  EsArchivo-leido (some q) (k ∷ []) v e = absurd v.forma
  EsArchivo-leido (some q) (k ∷ j ∷ ks) v e = record {
    forma = (v.forma.0, v.forma.1, e ∙ v.forma.2, v.forma.3, v.forma.4);
    tomados = v.tomados;
    distintos = v.distintos;
  }

  -- When the file of that name was saved last with an FCB that stands for a list of blocks, the FCB
  -- that is found under the name after inicializarListaFCB has the same size, and it stands for
  -- that list exactly when the memory that malloc gave happens to hold the number of pointers,
  -- which the function does not read.
  pub inicializar_lista_fcb-reinicia :
      (nombre : Cadena) (q : Option ℕ) (ks : List ℕ)
      → list_find (es_el_fcb nombre) fs.archivos ≡ some fcb
      → EsArchivo fs fcb q ks
      → (fcb' : Fcb) × (encontrar_fcb nombre (inicializar_lista_fcb sin_iniciar fs) ≡ some fcb')
        × (fcb'.tamanio ≡ fcb.tamanio)
        × (EsArchivo (inicializar_lista_fcb sin_iniciar fs) fcb' q ks
            ↔ (sin_iniciar fcb ≡ fcb.cantidad_indirectos))
  unfolding encontrar_fcb inicializar_lista_fcb leer_fcb
  inicializar_lista_fcb-reinicia nombre q ks e v = (
    leer_fcb (sin_iniciar fcb) fcb,
    leer_entradas-list_find sin_iniciar nombre fcb fs.archivos e,
    refl,
    (
      λ w.
          EsArchivo-cantidad (inicializar_lista_fcb sin_iniciar fs) (leer_fcb (sin_iniciar fcb) fcb)
            q ks w
          ∙ sym (EsArchivo-cantidad fs fcb q ks v),
      EsArchivo-leido q ks v,
    ),
  )
