-- ===== src/Memoria/Servicio/Pedidos.antt =====
-- memoria.h: `create_segment`, `delete_segment` and the EXIT case when tables and heap hang together.
use unix_os_simulation.Base.{
  ℕ, ◌≤◌, ◌<◌, ◌≡◌, ◌≢◌, refl, ap, sym, ◌⊎◌, inl, inr, true, List, [], ◌∷◌, ◌++◌, none, some, ok,
  ◌>>=◌, arith, In, subst, Option-cases,
}
use unix_os_simulation.Commons.{Commons}
use unix_os_simulation.Memoria.{Hueco, Segmento, Memoria, lookup, put}
use unix_os_simulation.Memoria.Asignacion.{
  alojado, codigo_rechazo, alojar_en, allocate_segment, calloc_segment, conocido,
}
use unix_os_simulation.Memoria.Asignacion.Cobertura.{calloc_segment_cases, cubre-ocupar_hueco}
use unix_os_simulation.Memoria.Asignacion.Separacion.{ocupar_hueco-IsSeparada}
use unix_os_simulation.Memoria.Punteros.{
  veces, In-put, In-put_new, veces-append, veces-tabla_global-put, veces-tabla_global-new,
  In-lookup, veces-lookup, lookup-put_self,
}
use unix_os_simulation.Memoria.Tablas.{Respuesta, create_segment}
use unix_os_simulation.Memoria.Servicio.Enlaces.{
  segmento_0, Encabezada, IsEnlazada, Vivos, resolver-Vivos, tabla-Vivos,
}

put_same : {V : Type 0} (k : ℕ) (v : V) (d : List (ℕ × V)) → lookup k d ≡ some v → put k v d ≡ d
put_same k v [] e = cc
put_same k v ((j, w) ∷ d) e = ground (arith, put_same k v d)

-- A process that comes for the first time.
primera_tabla-IsEnlazada :
    (m : Memoria) (pid : ℕ)
    → lookup pid m.tablas ≡ none
    → IsEnlazada [] m
    → IsEnlazada [] (record m { tablas = put pid m.tabla_inicial m.tablas })
primera_tabla-IsEnlazada m pid f v = record {
  tiled = v.tiled;
  separada = v.separada;
  llenos = v.llenos;
  unicas = v.unicas;
  frescas = v.frescas;
  s0 = v.s0;
  inicial = v.inicial;
  vive = v.vive;
  abajo = v.abajo;
  cero = v.cero;
  cabezas = λ e i. elim (In-put_new pid m.tabla_inicial m.tablas e i) [
    | inl old ↦ v.cabezas e old
    | inr q ↦ rw (q) ([], v.inicial, refl)
  ];
  contados = λ p n. ground (
    arith,
    veces-tabla_global-new p pid m.tabla_inicial m.tablas f,
    v.contados p n,
    ap (veces p) v.inicial,
  );
}

-- The memory after a segment was put into a hole.
module _ (m : Memoria) (pid : ℕ) (tabla : List ℕ) (id size : ℕ) (h : Hueco) (v : IsEnlazada [] m)
    (f : lookup pid m.tablas ≡ some tabla) (i : In h m.huecos_libres) (pos : 0 < size)
    (le : size ≤ h.size) where
  abbrev alojada : Memoria
  alojada =
      let r = alojar_en m tabla id size h in record (r.2) { tablas = put pid r.1 (r.2).tablas }

  nuevo-ne-segmento_0 : m.proximo ≢ segmento_0
  nuevo-ne-segmento_0 q =
      let a = veces-lookup segmento_0 m.segmentos v.s0 v.vive in
      let b = v.frescas segmento_0 (omega (arith, q)) in omega arith

  alojada_cabeza : Encabezada tabla → Encabezada (tabla ++ m.proximo ∷ [])
  alojada_cabeza (ps, e, z) =
      let n = nuevo-ne-segmento_0 in
      (
        ps ++ m.proximo ∷ [],
        ap (λ t. t ++ m.proximo ∷ []) e,
        ground (arith, veces-append segmento_0 ps (m.proximo ∷ [])),
      )

  alojada-IsEnlazada : IsEnlazada [] alojada
  unfolding alojar_en allocate_segment
  alojada-IsEnlazada = record {
    tiled = λ x. omega (arith, v.tiled x, cubre-ocupar_hueco x m.huecos_libres h size i le);
    separada = ocupar_hueco-IsSeparada m h size v.tiled v.separada i pos le;
    llenos = λ e. elim [ inl q ↦ rw (q) pos | inr old ↦ v.llenos e old ];
    unicas = λ p. ground (arith, v.unicas p, v.frescas p);
    frescas = λ p l. ground (arith, v.frescas p);
    s0 = v.s0;
    inicial = v.inicial;
    vive = let n = nuevo-ne-segmento_0 in ground (arith, v.vive);
    abajo = v.abajo;
    cero = v.cero;
    cabezas = λ e j. elim (In-put pid tabla (tabla ++ m.proximo ∷ []) m.tablas e f j) [
      | inl old ↦ v.cabezas e old
      | inr q ↦ rw (q) (alojada_cabeza (v.cabezas (pid, tabla) (In-lookup pid m.tablas tabla f)))
    ];
    contados = λ p n. omega (
      arith,
      v.contados p n,
      veces-tabla_global-put p pid tabla (tabla ++ m.proximo ∷ []) m.tablas f,
      veces-append p tabla (m.proximo ∷ []),
    );
  }

segmento_0-Vivos : (m : Memoria) (v : IsEnlazada [] m) → Vivos m.segmentos (segmento_0 ∷ [])
segmento_0-Vivos m v p (inl q) = (v.s0, rw (q) v.vive)
segmento_0-Vivos m v p (inr i) = absurd i

-- The memory that a request leaves, under the same configuration.
abbrev pub Sigue : Memoria → Memoria → Type 0
Sigue m m' = IsEnlazada [] m' × (m'.algoritmo ≡ m.algoritmo) × (m'.tam_memoria ≡ m.tam_memoria)

-- A request for a segment of a process that has a table: no hole is large enough and nothing changes,
-- or the segment is put into a hole.
abbrev pub Creado : Commons → Memoria → ℕ → ℕ → ℕ → Type 0
Creado c m pid id size =
    (r : Respuesta) × (m' : Memoria) × (create_segment c m pid id size ≡ ok (r, m'))
    × (r.rflag ≡ alojado)
    × Sigue m m'

abbrev pub Rechazado : Commons → Memoria → ℕ → ℕ → ℕ → Type 0
Rechazado c m pid id size =
    (ss : List Segmento) × ((h : Hueco) → In h m.huecos_libres → h.size < size)
    × (create_segment c m pid id size
        ≡ ok (record { rflag = codigo_rechazo m.huecos_libres size; tabla = ss }, m))

crear_alojada :
    (c : Commons) (m : Memoria) (pid : ℕ) (tabla : List ℕ) (id size : ℕ) (h : Hueco)
    → IsEnlazada [] m
    → lookup pid m.tablas ≡ some tabla
    → In h m.huecos_libres
    → 0 < size
    → size ≤ h.size
    → calloc_segment c m tabla id size ≡ ok (alojar_en m tabla id size h)
    → Creado c m pid id size
unfolding create_segment alojar_en allocate_segment
crear_alojada c m pid tabla id size h v f i pos le ec =
    let w = alojada-IsEnlazada m pid tabla id size h v f i pos le in
    let u = tabla ++ m.proximo ∷ [] in
    let (ss, e) = resolver-Vivos (alojada m pid tabla id size h v f i pos le).segmentos u (
      tabla-Vivos [] (alojada m pid tabla id size h v f i pos le) (pid, u) w
        (In-lookup pid (put pid u m.tablas) u (lookup-put_self pid u m.tablas))) in
    (
      record { rflag = alojado; tabla = ss },
      alojada m pid tabla id size h v f i pos le,
      rw (create_segment, f, ec, ◌>>=◌, e) refl,
      refl,
      (w, refl, refl),
    )

pub create_segment_cases :
    (c : Commons) (m : Memoria) (pid id size : ℕ) (t : List ℕ)
    → conocido m.algoritmo ≡ true
    → 0 < size
    → IsEnlazada [] m
    → lookup pid m.tablas ≡ some t
    → Rechazado c m pid id size ⊎ Creado c m pid id size
unfolding create_segment
create_segment_cases c m pid id size t k pos v f = elim (calloc_segment_cases c m t id size k) [
  | inl (no_fit, ec) ↦
      let (ss, e) =
        resolver-Vivos m.segmentos t (tabla-Vivos [] m (pid, t) v (In-lookup pid m.tablas t f)) in
      inl (ss, no_fit, rw (create_segment, f, ec, ◌>>=◌, e, put_same pid t m.tablas f) refl)
  | inr (h, i, le, _, ec) ↦ inr (crear_alojada c m pid t id size h v f i pos le ec)
]

pub create_segment_nueva :
    (c : Commons) (m : Memoria) (pid id size : ℕ)
    → IsEnlazada [] m
    → lookup pid m.tablas ≡ none
    → Creado c m pid id size
unfolding create_segment
create_segment_nueva c m pid id size v f =
    let (ss, e) =
      resolver-Vivos m.segmentos m.tabla_inicial
        (subst (Vivos m.segmentos) (sym v.inicial) (segmento_0-Vivos m v)) in
    (
      record { rflag = alojado; tabla = ss },
      record m { tablas = put pid m.tabla_inicial m.tablas },
      rw (create_segment, f, e) refl,
      refl,
      (primera_tabla-IsEnlazada m pid f v, refl, refl),
    )

-- A create request for a segment that is not empty is answered, whether the process is known or not
-- and whether there is room or not.
pub create_segment-Sigue :
    (c : Commons) (m : Memoria) (pid id size : ℕ)
    → conocido m.algoritmo ≡ true
    → 0 < size
    → IsEnlazada [] m
    → (r : Respuesta) × (m' : Memoria) × (create_segment c m pid id size ≡ ok (r, m')) × Sigue m m'
create_segment-Sigue c m pid id size k pos v = elim (Option-cases (lookup pid m.tablas)) [
  | inl f ↦ let (r, m', e, _, w) = create_segment_nueva c m pid id size v f in (r, m', e, w)
  | inr (t, f) ↦ elim (create_segment_cases c m pid id size t k pos v f) [
    | inl (ss, _, e) ↦ (_, _, e, (v, refl, refl))
    | inr (r, m', e, _, w) ↦ (r, m', e, w)
  ]
]
