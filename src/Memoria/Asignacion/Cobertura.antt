-- ===== src/Memoria/Asignacion/Cobertura.antt =====
-- memoria.h: how often the holes and the segments cover a byte, before and after `calloc_segment`.
use unix_os_simulation.Base.{
  ℕ, ◌+◌, ◌-◌, ◌≤◌, ◌<◌, ◌≡◌, refl, ap, sym, subst, ◌≢◌, ◌⊎◌, inl, inr, true, List, [], ◌∷◌, some,
  Outcome, ok, arith, ◌==◌, ltb, leb, leb→le, le→leb, if◌then◌else◌, In, list_find, list_filter,
  list_filter-In, In-list_filter, Bool-cases,
}
use unix_os_simulation.Commons.{Commons}
use unix_os_simulation.Memoria.{Hueco, Segmento, Algoritmo, best, first, worst, otro, Memoria}
use unix_os_simulation.Memoria.Huecos.Cobertura.{
  cubre_rango, cubre, cubre-list_update, cubre-list_remove, cubre_rango-split,
}
use unix_os_simulation.Memoria.Asignacion.{
  Codigo, es_hueco, recortar, ocupar_hueco, alojar_en, calloc_segment, conocido, elegir_hueco,
  segment_fits, codigo_rechazo, minimum, maximum, menor_base,
}

abbrev pub cubre_segmentos : ℕ → List (ℕ × Segmento) → ℕ
cubre_segmentos x [] = 0
cubre_segmentos x ((p, s) ∷ ss) = cubre_rango x s.base s.limite + cubre_segmentos x ss

-- Every byte of the user space belongs to exactly one hole or segment, and no other byte to any.
abbrev pub IsTiled : Memoria → Type 0
IsTiled m =
    (x : ℕ)
    → cubre x m.huecos_libres + cubre_segmentos x m.segmentos
      ≡ (if ltb x m.tam_memoria then 1 else 0)

pub find_es_hueco : (h : Hueco) (hs : List Hueco) → In h hs → list_find (es_hueco h) hs ≡ some h
find_es_hueco h [] i = absurd i
find_es_hueco h (k ∷ hs) i = ground (arith, find_es_hueco h hs)

pub cubre-ocupar_hueco :
    (x : ℕ) (hs : List Hueco) (h : Hueco) (size : ℕ)
    → In h hs
    → size ≤ h.size
    → cubre x (ocupar_hueco hs h size) + cubre_rango x h.pos size ≡ cubre x hs
unfolding ocupar_hueco
cubre-ocupar_hueco x hs h size i le = elim (Bool-cases ((h.size - size) == 0)) [
  | inl full ↦ rw full (
      omega (
        arith,
        cubre-list_remove x (es_hueco h) hs h (find_es_hueco h hs i),
        ap (cubre_rango x h.pos) (exacto full),
      ))
  | inr part ↦ rw part (
      omega (
        arith,
        cubre-list_update x (es_hueco h) (recortar size) hs h (find_es_hueco h hs i),
        cubre_rango-split x h.pos size (h.size - size) (h.pos + size) refl,
        ap (cubre_rango x h.pos) (entero le),
      ))
]
  where
    exacto : (h.size - size) == 0 ≡ true → h.size ≡ size
    exacto e = ground arith

    entero : size ≤ h.size → size + (h.size - size) ≡ h.size
    entero e = omega arith

-- The chosen hole is the one that the algorithm asks for, among those in which the segment fits.
abbrev pub EsElegido : Algoritmo → List Hueco → ℕ → Hueco → Type 0
EsElegido best hs size h = (k : Hueco) → In k hs → size ≤ k.size → h.size ≤ k.size
EsElegido first hs size h = (k : Hueco) → In k hs → size ≤ k.size → h.pos ≤ k.pos
EsElegido worst hs size h = (k : Hueco) → In k hs → size ≤ k.size → k.size ≤ h.size
EsElegido otro hs size h = ⊥

abbrev pub Rechazo : Memoria → List ℕ → ℕ → Outcome (Codigo × List ℕ × Memoria) → Type 0
Rechazo m tabla size r =
    ((k : Hueco) → In k m.huecos_libres → k.size < size)
    × (r ≡ ok (codigo_rechazo m.huecos_libres size, tabla, m))

abbrev pub Alojamiento : Memoria → List ℕ → ℕ → ℕ → Outcome (Codigo × List ℕ × Memoria) → Type 0
Alojamiento m tabla id size r =
    (h : Hueco) × In h m.huecos_libres
    × (size ≤ h.size)
    × EsElegido m.algoritmo m.huecos_libres size h
    × (r ≡ ok (alojar_en m tabla id size h))

util_In :
    (hs us : List Hueco) (size : ℕ) (k : Hueco)
    → list_filter (segment_fits size) hs ≡ us
    → In k hs
    → size ≤ k.size
    → In k us
util_In hs us size k e i le =
    rw e at (In-list_filter (segment_fits size) hs k i (le→leb size k.size le))

util_fits :
    (hs us : List Hueco) (size : ℕ) (k : Hueco)
    → list_filter (segment_fits size) hs ≡ us
    → In k us
    → In k hs × (size ≤ k.size)
util_fits hs us size k e i =
    let (j, f) = list_filter-In (segment_fits size) hs k (subst (In k) (sym e) i) in
    (j, leb→le size k.size f)

sin_util :
    (hs : List Hueco) (size : ℕ) (k : Hueco)
    → list_filter (segment_fits size) hs ≡ []
    → In k hs
    → k.size < size
sin_util hs size k e i = elim (Bool-cases (leb size k.size)) [
  | inl fits ↦ absurd (util_In hs [] size k e i (leb→le size k.size fits))
  | inr small ↦ ground arith
]

elegir_hueco_lem :
    (c : Commons) (a : Algoritmo) (hs us : List Hueco) (size : ℕ)
    → conocido a ≡ true
    → list_filter (segment_fits size) hs ≡ us
    → us ≢ []
    → (h : Hueco) × (elegir_hueco c a us ≡ some h)
      × In h hs
      × (size ≤ h.size)
      × EsElegido a hs size h
unfolding elegir_hueco
elegir_hueco_lem c best hs us size k e ne =
    let (r, er, ir, le) = c.minimum_least Hueco (λ h. h.size) minimum us (λ a b. refl) ne in
    let (i, f) = util_fits hs us size r e ir in
    (r, er, i, f, λ j ij fits. le j (util_In hs us size j e ij fits))
elegir_hueco_lem c first hs us size k e ne =
    let (r, er, ir, le) = c.minimum_least Hueco (λ h. h.pos) menor_base us (λ a b. refl) ne in
    let (i, f) = util_fits hs us size r e ir in
    (r, er, i, f, λ j ij fits. le j (util_In hs us size j e ij fits))
elegir_hueco_lem c worst hs us size k e ne =
    let (r, er, ir, le) = c.maximum_greatest Hueco (λ h. h.size) maximum us (λ a b. refl) ne in
    let (i, f) = util_fits hs us size r e ir in
    (r, er, i, f, λ j ij fits. le j (util_In hs us size j e ij fits))
elegir_hueco_lem c otro hs us size k e ne = cc

pub calloc_segment_cases :
    (c : Commons) (m : Memoria) (tabla : List ℕ) (id size : ℕ)
    → conocido m.algoritmo ≡ true
    → Rechazo m tabla size (calloc_segment c m tabla id size)
      ⊎ Alojamiento m tabla id size (calloc_segment c m tabla id size)
unfolding calloc_segment
calloc_segment_cases c m tabla id size k = go (list_filter (segment_fits size) m.huecos_libres) refl
  where
    go :
        (us : List Hueco)
        → list_filter (segment_fits size) m.huecos_libres ≡ us
        → Rechazo m tabla size (calloc_segment c m tabla id size)
          ⊎ Alojamiento m tabla id size (calloc_segment c m tabla id size)
    go [] e = inl (λ h i. sin_util m.huecos_libres size h e i, rw (k, e, calloc_segment))
    go (u ∷ us) e =
        let (h, eh, i, f, mejor) =
          elegir_hueco_lem c m.algoritmo m.huecos_libres (u ∷ us) size k e (λ q. cc) in
        inr (h, i, f, mejor, rw (k, e, calloc_segment) (rw eh))

-- Under a known algorithm, if every byte of the user space belongs to exactly one hole or segment,
-- and no other byte to any, then calloc_segment returns, with whatever code, and the same holds of
-- the memory it leaves, whose size is unchanged.
pub calloc_segment-IsTiled :
    (c : Commons) (m : Memoria) (tabla : List ℕ) (id size : ℕ)
    → conocido m.algoritmo ≡ true
    → IsTiled m
    → (codigo : Codigo) × (tabla' : List ℕ) × (m' : Memoria) × (calloc_segment c m tabla id size
        ≡ ok (codigo, tabla', m'))
      × IsTiled m'
      × (m'.tam_memoria ≡ m.tam_memoria)
unfolding alojar_en
calloc_segment-IsTiled c m tabla id size k t = elim (calloc_segment_cases c m tabla id size k) [
  | inl (_, e) ↦ (_, _, _, e, t, refl)
  | inr (h, i, le, _, e) ↦
      (_, _, _, e, λ x. omega (arith, t x, cubre-ocupar_hueco x m.huecos_libres h size i le), refl)
]
