-- ===== src/FileSystem/Lista/Crecer.antt =====
-- filesys.h: the loop of `truncarArchivo` that takes blocks, over the list of the file.
use unix_os_simulation.Base.{
  ℕ, zero, suc, ◌+◌, ◌-◌, ◌*◌, ◌≤◌, ◌<◌, ◌≡◌, refl, ap, subst, sym, ◌∙◌, inl, inr, true, false,
  Bool, List, [], ◌∷◌, ◌++◌, Option, some, ok, ◌>>=◌, arith, length, get_elem?, In, length-append,
  Cadena, ltb,
}
use unix_os_simulation.FileSystem.{Fcb, FileSys}
use unix_os_simulation.FileSystem.Bitmap.{
  ocupados, primer_libre, set_bit, primer_libre-hay, primer_libre-libre, ocupados-set_bit,
  length-set_bit,
}
use unix_os_simulation.FileSystem.Archivos.{
  ocupar_bloques, encontrar_fcb, ceil_div, agrandar, cerrar_truncado, truncar_archivo,
}
use unix_os_simulation.Base.Int.{ℤ}
use unix_os_simulation.FileSystem.Lista.{IsDimensionado, EsArchivo, get_elem?-lt}
use unix_os_simulation.FileSystem.Lista.Agregar.{precio, Cabe, ocupar_bloque_libre-agrega}
use unix_os_simulation.FileSystem.Lista.Cierre.{Truncado, cerrar_truncado-Truncado}

-- The block of pointers that is still to be taken.
abbrev pub reserva : List ℕ → ℕ
reserva [] = 1
reserva (k ∷ []) = 1
reserva (k ∷ j ∷ ks) = 0

-- Free blocks for `n` more, and room for their pointers.
pub record HayLugar (fs : FileSys) (ks : List ℕ) (n : ℕ) : Type 0 where
  pub libres : ocupados fs.bitmap + n + reserva ks ≤ length fs.bitmap
  pub punteros : 4 * (length ks + n) ≤ fs.block_size + 4

-- What the file is when `n` blocks that were free have been put behind `ks`.
pub record Agrandado (fs : FileSys) (fcb : Fcb) (ks : List ℕ) (n : ℕ) (fs' : FileSys) (fcb' : Fcb)
    : Type 0 where
  pub punteros : Option ℕ
  pub nuevos : List ℕ
  pub archivo : EsArchivo fs' fcb' punteros (ks ++ nuevos)
  pub cuantos : length nuevos ≡ n
  pub tomados : (x : ℕ) → get_elem? fs.bitmap x ≡ some true → get_elem? fs'.bitmap x ≡ some true
  pub eran_libres : (x : ℕ) → In x nuevos → get_elem? fs.bitmap x ≡ some false
  pub lista : fs'.lista_fcb ≡ fs.lista_fcb
  pub nombre : fcb'.nombre_archivo ≡ fcb.nombre_archivo

HayLugar-Cabe :
    (fs : FileSys) (ks : List ℕ) (n i : ℕ)
    → HayLugar fs ks (suc n)
    → primer_libre fs.bitmap ≡ some i
    → Cabe fs ks i
HayLugar-Cabe fs [] n i h e = tt
HayLugar-Cabe fs (k ∷ []) n i h e =
    let l = (primer_libre-libre fs.bitmap i e).0 in
    primer_libre-hay (set_bit i fs.bitmap)
      (omega (arith, h.libres, ocupados-set_bit fs.bitmap i l, length-set_bit i fs.bitmap))
HayLugar-Cabe fs (k ∷ j ∷ ks) n i h e = omega (arith, h.punteros)

reserva-sigue : (ks : List ℕ) (k : ℕ) → precio ks + reserva (ks ++ k ∷ []) ≡ suc (reserva ks)
reserva-sigue [] k = refl
reserva-sigue (j ∷ []) k = refl
reserva-sigue (j ∷ l ∷ ks) k = refl

append_nil : (ks : List ℕ) → ks ++ [] ≡ ks
append_nil [] = refl
append_nil (k ∷ ks) = ap (◌∷◌ k) (append_nil ks)

append_uno : (ks js : List ℕ) (k : ℕ) → (ks ++ k ∷ []) ++ js ≡ ks ++ k ∷ js
append_uno [] js k = refl
append_uno (j ∷ ks) js k = ap (◌∷◌ j) (append_uno ks js k)

hay_bit : (bs : List Bool) (x : ℕ) → x < length bs → (b : Bool) × (get_elem? bs x ≡ some b)
hay_bit [] x l = absurd (omega arith)
hay_bit (b ∷ bs) zero l = (b, refl)
hay_bit (b ∷ bs) (suc x) l = hay_bit bs x (omega arith)

-- What is free now was free when no bit has been cleaned.
era_libre :
    (bs cs : List Bool) (x : ℕ)
    → length cs ≡ length bs
    → (get_elem? bs x ≡ some true → get_elem? cs x ≡ some true)
    → get_elem? cs x ≡ some false
    → get_elem? bs x ≡ some false
era_libre bs cs x l t h =
    let (b, e) = hay_bit bs x (omega (arith, get_elem?-lt cs x false h, l)) in decide b e
  where
    decide : (b : Bool) → get_elem? bs x ≡ some b → get_elem? bs x ≡ some false
    decide true e = let z : some true ≡ some false = sym (t e) ∙ h in cc
    decide false e = e

pub ocupar_bloques-agranda :
    (n : ℕ) (fs : FileSys) (fcb : Fcb) (q : Option ℕ) (ks : List ℕ)
    → IsDimensionado fs
    → EsArchivo fs fcb q ks
    → HayLugar fs ks n
    → (fs' : FileSys) × (fcb' : Fcb) × (ocupar_bloques n fs fcb ≡ ok (true, fs', fcb'))
      × Agrandado fs fcb ks n fs' fcb'
unfolding ocupar_bloques
ocupar_bloques-agranda zero fs fcb q ks dim v h = (
  fs,
  fcb,
  refl,
  record {
    punteros = q;
    nuevos = [];
    archivo = subst (EsArchivo fs fcb q) (sym (append_nil ks)) v;
    cuantos = refl;
    tomados = λ x t. t;
    eran_libres = λ x m. absurd m;
    lista = refl;
    nombre = refl;
  },
)
ocupar_bloques-agranda (suc n) fs fcb q ks dim v h =
    let (i, e) = primer_libre-hay fs.bitmap (omega (arith, h.libres)) in
    let (fs1, fcb1, s, c) =
      ocupar_bloque_libre-agrega fs fcb i dim e q ks v (HayLugar-Cabe fs ks n i h e) in
    let k = c.bloque in
    let lugar : HayLugar fs1 (ks ++ k ∷ []) n = record {
      libres = omega (arith, h.libres, c.costo, c.mismo_largo, reserva-sigue ks k);
      punteros = omega (arith, h.punteros, c.mismo_tamanio, length-append ks (k ∷ []));
    } in
    let (fs2, fcb2, r, a) =
      ocupar_bloques-agranda n fs1 fcb1 c.punteros (ks ++ k ∷ []) c.dimensionado c.archivo lugar in
    (
      fs2,
      fcb2,
      rw (s, ◌>>=◌) r,
      record {
        punteros = a.punteros;
        nuevos = k ∷ a.nuevos;
        archivo = subst (EsArchivo fs2 fcb2 a.punteros) (append_uno ks a.nuevos k) a.archivo;
        cuantos = ap suc a.cuantos;
        tomados = λ x t. a.tomados x (c.tomados x t);
        eran_libres = λ x. elim [
          | inl z ↦ rw (z) c.libre
          | inr m ↦ era_libre fs.bitmap fs1.bitmap x c.mismo_largo (c.tomados x) (a.eran_libres x m)
        ];
        lista = a.lista ∙ c.misma_lista;
        nombre = a.nombre ∙ c.mismo_nombre;
      },
    )

module _ (config_save : Fcb → Bool) (nombre : Cadena) (nuevo : ℕ) (fs : FileSys) (fcb : Fcb)
    (e : encontrar_fcb nombre fs ≡ some fcb) where
  -- When the FCB of that name stands for the blocks ks, as many as its size needs, the new size
  -- needs n more (which may be 0), as many bits are free and one more if the file has no block of
  -- pointers yet, and the pointers fit in that block, truncarArchivo returns, answers 1 if the FCB
  -- is saved and -1 if not, and the FCB that is then found under the name has the new size and
  -- stands for ks with n blocks behind it that were free.
  pub truncar_archivo-agranda :
      (q : Option ℕ) (ks : List ℕ) (n : ℕ)
      → IsDimensionado fs
      → EsArchivo fs fcb q ks
      → ceil_div fcb.tamanio fs.block_size ≡ length ks
      → ceil_div nuevo fs.block_size ≡ length ks + n
      → HayLugar fs ks n
      → (r : ℤ × FileSys) × (nuevos : List ℕ) × (truncar_archivo config_save nombre nuevo fs ≡ ok r)
        × Truncado config_save nombre nuevo fs fcb e (ks ++ nuevos) r
        × (length nuevos ≡ n)
        × ((k : ℕ) → In k nuevos → get_elem? fs.bitmap k ≡ some false)
  unfolding truncar_archivo agrandar
  truncar_archivo-agranda q ks n dim v viejo nueva h =
      let (fs1, fcb1, s, a) = ocupar_bloques-agranda n fs fcb q ks dim v h in
      (
        cerrar_truncado config_save nuevo fs1 fcb1,
        a.nuevos,
        rw
            (
              truncar_archivo,
              e,
              viejo,
              nueva,
              no_menor (length ks) n,
              cuantos (length ks) n,
              s,
              ◌>>=◌,
            )
            refl,
        cerrar_truncado-Truncado config_save nombre nuevo fs fcb e fs1 fcb1 a.lista a.nombre
            (ks ++ a.nuevos) a.punteros a.archivo,
        a.cuantos,
        a.eran_libres,
      )
    where
      no_menor : (m n : ℕ) → ltb (m + n) m ≡ false
      no_menor m n = ground arith

      cuantos : (m n : ℕ) → m + n - m ≡ n
      cuantos m n = omega arith
