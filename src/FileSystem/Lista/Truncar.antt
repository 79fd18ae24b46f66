-- ===== src/FileSystem/Lista/Truncar.antt =====
-- filesys.h: `truncarArchivo` to fewer blocks, over the list of the file.
use unix_os_simulation.Base.{
  ℕ, zero, suc, ◌-◌, ◌<◌, ◌≡◌, refl, ap, subst, ◌∙◌, ◌⊎◌, inl, inr, false, Bool, List, [], ◌∷◌,
  ◌++◌, Option, some, ok, ◌>>=◌, arith, length, get_elem?, In, lt→ltb, length-append, Cadena,
}
use unix_os_simulation.Base.Int.{ℤ}
use unix_os_simulation.FileSystem.{Fcb, FileSys}
use unix_os_simulation.FileSystem.Archivos.{
  encontrar_fcb, liberar_bloques, ceil_div, achicar, cerrar_truncado, truncar_archivo,
}
use unix_os_simulation.FileSystem.Lista.{IsDimensionado, todos, EsArchivo}
use unix_os_simulation.FileSystem.Lista.Ocupar.{libre-veces}
use unix_os_simulation.FileSystem.Lista.Quitar.{liberar_ultimo_bloque_fcb-quita}
use unix_os_simulation.FileSystem.Lista.Cierre.{
  Truncado, cerrar_truncado-Truncado, cerrar_truncado-bitmap,
}

-- What the file and the bitmap are after the blocks `js` behind `as` were given back.
pub record Achicado (fs : FileSys) (fcb : Fcb) (ks js : List ℕ) (fs' : FileSys) (fcb' : Fcb)
    : Type 0 where
  pub punteros : Option ℕ
  pub archivo : EsArchivo fs' fcb' punteros ks
  pub dimensionado : IsDimensionado fs'
  pub libres : (k : ℕ) → In k js → get_elem? fs'.bitmap k ≡ some false
  pub siguen : (k : ℕ) → get_elem? fs.bitmap k ≡ some false → get_elem? fs'.bitmap k ≡ some false
  pub tamanio : fs'.block_size ≡ fs.block_size
  pub lista : fs'.lista_fcb ≡ fs.lista_fcb
  pub nombre : fcb'.nombre_archivo ≡ fcb.nombre_archivo

ultimo : (b : ℕ) (js : List ℕ) → (xs : List ℕ) × (i : ℕ) × (b ∷ js ≡ xs ++ i ∷ [])
ultimo b [] = ([], b, refl)
ultimo b (c ∷ js) = let (xs, i, e) = ultimo c js in (b ∷ xs, i, ap (◌∷◌ b) e)

asoc : (ks xs : List ℕ) (i : ℕ) → ks ++ (xs ++ i ∷ []) ≡ (ks ++ xs) ++ i ∷ []
asoc [] xs i = refl
asoc (a ∷ ks) xs i = ap (◌∷◌ a) (asoc ks xs i)

append_nil : (ks : List ℕ) → ks ++ [] ≡ ks
append_nil [] = refl
append_nil (k ∷ ks) = ap (◌∷◌ k) (append_nil ks)

In-ultimo : (k i : ℕ) (xs : List ℕ) → In k (xs ++ i ∷ []) → (k ≡ i) ⊎ In k xs
In-ultimo k i [] (inl e) = inl e
In-ultimo k i [] (inr n) = absurd n
In-ultimo k i (x ∷ xs) (inl e) = inr (inl e)
In-ultimo k i (x ∷ xs) (inr m) = elim (In-ultimo k i xs m) [ inl e ↦ inl e | inr n ↦ inr (inr n) ]

pub liberar_bloques-achica :
    (n : ℕ) (fs : FileSys) (fcb : Fcb) (q : Option ℕ) (ks js : List ℕ)
    → length js ≡ n
    → IsDimensionado fs
    → EsArchivo fs fcb q (ks ++ js)
    → (fs' : FileSys) × (fcb' : Fcb) × (liberar_bloques n fs fcb ≡ ok (fs', fcb'))
      × Achicado fs fcb ks js fs' fcb'
unfolding liberar_bloques
liberar_bloques-achica zero fs fcb q ks [] l dim v = (
  fs,
  fcb,
  refl,
  record {
    punteros = q;
    archivo = subst (EsArchivo fs fcb q) (append_nil ks) v;
    dimensionado = dim;
    libres = λ k m. absurd m;
    siguen = λ k h. h;
    tamanio = refl;
    lista = refl;
    nombre = refl;
  },
)
liberar_bloques-achica zero fs fcb q ks (b ∷ js) l dim v = absurd (omega (arith, l))
liberar_bloques-achica (suc n) fs fcb q ks [] l dim v = absurd (omega (arith, l))
liberar_bloques-achica (suc n) fs fcb q ks (b ∷ js) l dim v =
    let (xs, i, e) = ultimo b js in
    let w = subst (EsArchivo fs fcb q) (ap (λ t. ks ++ t) e ∙ asoc ks xs i) v in
    let (fs1, fcb1, s, p) = liberar_ultimo_bloque_fcb-quita fs fcb q (ks ++ xs) i dim w in
    let (fs2, fcb2, r, t) =
      liberar_bloques-achica n fs1 fcb1 p.punteros ks xs
        (omega (arith, l, ap length e, length-append xs (i ∷ []))) p.dimensionado p.archivo in
    (
      fs2,
      fcb2,
      rw (s, ◌>>=◌) r,
      record {
        punteros = t.punteros;
        archivo = t.archivo;
        dimensionado = t.dimensionado;
        libres = λ k m. elim (In-ultimo k i xs (subst (In k) e m)) [
          | inl c ↦ rw (c) (t.siguen i p.libre)
          | inr c ↦ t.libres k c
        ];
        siguen = λ k h.
            t.siguen k
              (p.mapa k (libre-veces fs.bitmap (todos q ((ks ++ xs) ++ i ∷ [])) k w.tomados h) ∙ h);
        tamanio = t.tamanio ∙ p.mismo_tamanio;
        lista = t.lista ∙ p.misma_lista;
        nombre = t.nombre ∙ p.mismo_nombre;
      },
    )

module _ (config_save : Fcb → Bool) (nombre : Cadena) (nuevo : ℕ) (fs : FileSys) (fcb : Fcb)
    (e : encontrar_fcb nombre fs ≡ some fcb) where
  -- When the FCB of that name stands for the blocks ks and then js, as many as its size needs, with
  -- some block in js, and the new size needs as many as ks has, truncarArchivo returns, answers 1
  -- if the FCB is saved and -1 if not, and the FCB that is then found under the name has the new
  -- size and stands for ks, while the bits of all blocks in js are free.
  pub truncar_archivo-achica :
      (q : Option ℕ) (ks js : List ℕ)
      → IsDimensionado fs
      → EsArchivo fs fcb q (ks ++ js)
      → ceil_div fcb.tamanio fs.block_size ≡ length (ks ++ js)
      → ceil_div nuevo fs.block_size ≡ length ks
      → 0 < length js
      → (r : ℤ × FileSys) × (truncar_archivo config_save nombre nuevo fs ≡ ok r)
        × Truncado config_save nombre nuevo fs fcb e ks r
        × ((k : ℕ) → In k js → get_elem? (r.1).bitmap k ≡ some false)
  unfolding truncar_archivo achicar
  truncar_archivo-achica q ks js dim v viejo nueva hay =
      let (fs1, fcb1, s, t) = liberar_bloques-achica (length js) fs fcb q ks js refl dim v in
      (
        cerrar_truncado config_save nuevo fs1 fcb1,
        rw
            (
              truncar_archivo,
              e,
              viejo,
              nueva,
              lt→ltb (length ks) (length (ks ++ js)) (omega (arith, length-append ks js)),
              cuantos ks js,
              s,
              ◌>>=◌,
            )
            refl,
        cerrar_truncado-Truncado config_save nombre nuevo fs fcb e fs1 fcb1 t.lista t.nombre ks
            t.punteros t.archivo,
        λ k m.
            ap (λ b. get_elem? b k)
              (cerrar_truncado-bitmap config_save nombre nuevo fs fcb e fs1 fcb1 t.lista t.nombre)
            ∙ t.libres k m,
      )
    where
      cuantos : (ks js : List ℕ) → length (ks ++ js) - length ks ≡ length js
      cuantos ks js = omega (arith, length-append ks js)
