-- ===== src/FileSystem/Lista/Cierre.antt =====
-- filesys.h: the end of `truncarArchivo`, when the blocks of the file are those of the new size.
use unix_os_simulation.Base.{
  ℕ, ◌≡◌, refl, ap, ◌∙◌, inl, inr, Bool, List, [], ◌∷◌, Option, none, some, Cadena, list_update,
  list_find, list_find-In, list_find-list_update, strcmp_eq, strcmp_eq_refl, strcmp_eq_sound,
  Bool-cases, if◌then◌else◌,
}
use unix_os_simulation.Base.Int.{ℤ, pos, negsuc}
use unix_os_simulation.FileSystem.{Fcb, FileSys, es_el_fcb}
use unix_os_simulation.FileSystem.Archivos.{encontrar_fcb, poner_fcb, cerrar_truncado}
use unix_os_simulation.FileSystem.Lista.{EsArchivo}

-- Neither the size of an FCB nor the lists of FCBs say which blocks it has.
cerrado-EsArchivo :
    (fs : FileSys) (fcb : Fcb) (l a : List Fcb) (n : ℕ) (q : Option ℕ) (ks : List ℕ)
    → EsArchivo fs fcb q ks
    → EsArchivo (record fs { lista_fcb = l; archivos = a }) (record fcb { tamanio = n }) q ks
cerrado-EsArchivo fs fcb l a n none [] v = record {
  forma = v.forma;
  tomados = v.tomados;
  distintos = v.distintos;
}
cerrado-EsArchivo fs fcb l a n none (k ∷ []) v = record {
  forma = v.forma;
  tomados = v.tomados;
  distintos = v.distintos;
}
cerrado-EsArchivo fs fcb l a n none (k ∷ j ∷ ks) v = absurd v.forma
cerrado-EsArchivo fs fcb l a n (some q) [] v = absurd v.forma
cerrado-EsArchivo fs fcb l a n (some q) (k ∷ []) v = absurd v.forma
cerrado-EsArchivo fs fcb l a n (some q) (k ∷ j ∷ ks) v = record {
  forma = v.forma;
  tomados = v.tomados;
  distintos = v.distintos;
}

module _ (config_save : Fcb → Bool) (nombre : Cadena) (nuevo : ℕ) (fs : FileSys) (fcb : Fcb)
    (e : encontrar_fcb nombre fs ≡ some fcb) where
  nombre-fcb : fcb.nombre_archivo ≡ nombre
  unfolding encontrar_fcb
  nombre-fcb =
      strcmp_eq_sound fcb.nombre_archivo nombre
        (list_find-In (es_el_fcb nombre) fs.lista_fcb fcb e).1

  -- The FCB of the shrunk file is found under its name.
  encontrado :
      (fs1 : FileSys) (fcb1 : Fcb)
      → fs1.lista_fcb ≡ fs.lista_fcb
      → fcb1.nombre_archivo ≡ fcb.nombre_archivo
      → encontrar_fcb nombre (poner_fcb fcb1 fs1) ≡ some fcb1
  unfolding encontrar_fcb
  encontrado fs1 fcb1 l n =
      ap
        (λ m.
          list_find (es_el_fcb nombre) (list_update (es_el_fcb m) (λ viejo. fcb1) fs1.lista_fcb))
        (n ∙ nombre-fcb)
      ∙ list_find-list_update (es_el_fcb nombre) fs1.lista_fcb fcb fcb1
          (ap (list_find (es_el_fcb nombre)) l ∙ e)
          (ap (λ m. strcmp_eq m nombre) (n ∙ nombre-fcb) ∙ strcmp_eq_refl nombre)

  -- The answer, and the FCB that is found under the name, of the new size and the blocks `ks`.
  abbrev pub Truncado : List ℕ → ℤ × FileSys → Type 0
  Truncado ks r =
      (fcb' : Fcb) × (q : Option ℕ) × (r.0 ≡ (if config_save fcb' then pos 1 else negsuc 0))
      × (encontrar_fcb nombre r.1 ≡ some fcb')
      × (fcb'.tamanio ≡ nuevo)
      × EsArchivo r.1 fcb' q ks

  module _ (fs1 : FileSys) (fcb1 : Fcb) (l : fs1.lista_fcb ≡ fs.lista_fcb)
      (n : fcb1.nombre_archivo ≡ fcb.nombre_archivo) where
    pub cerrar_truncado-Truncado :
        (ks : List ℕ) (q : Option ℕ)
        → EsArchivo fs1 fcb1 q ks
        → Truncado ks (cerrar_truncado config_save nuevo fs1 fcb1)
    unfolding cerrar_truncado encontrar_fcb
    cerrar_truncado-Truncado ks q v =
        let fcb2 : Fcb = record fcb1 { tamanio = nuevo } in
        let halla = encontrado fs1 fcb2 l n in
        let lista = list_update (es_el_fcb fcb1.nombre_archivo) (λ viejo. fcb2) fs1.lista_fcb in
        let guardado = list_update (es_el_fcb fcb1.nombre_archivo) (λ viejo. fcb2) fs1.archivos in
        elim (Bool-cases (config_save fcb2)) [
          | inl c ↦ rw (c) (
            fcb2,
            q,
            rw (c) refl,
            halla,
            refl,
            cerrado-EsArchivo fs1 fcb1 lista guardado nuevo q ks v,
          )
          | inr c ↦ rw (c) (
            fcb2,
            q,
            rw (c) refl,
            halla,
            refl,
            cerrado-EsArchivo fs1 fcb1 lista fs1.archivos nuevo q ks v,
          )
        ]

    pub cerrar_truncado-bitmap : (cerrar_truncado config_save nuevo fs1 fcb1).1.bitmap ≡ fs1.bitmap
    unfolding cerrar_truncado
    cerrar_truncado-bitmap = elim (Bool-cases (config_save (record fcb1 { tamanio = nuevo }))) [
      | inl c ↦ rw (c) refl
      | inr c ↦ rw (c) refl
    ]
