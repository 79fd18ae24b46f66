-- ===== src/Memoria/Servicio/Bucle.antt =====
-- memoria.h: the loop of `compactar_segmentos` and the message that it ends with, when tables and heap
-- hang together.
use unix_os_simulation.Base.{
  ℕ, zero, suc, ◌+◌, ◌≤◌, ◌<◌, ◌≡◌, ◌≢◌, refl, ap, ◌∙◌, inl, inr, List, [], ◌∷◌, ◌++◌, some, ok,
  ◌>>=◌, arith, ◌==◌, ltb, In, Bool-cases, ==_iff,
}
use unix_os_simulation.Commons.{Commons}
use unix_os_simulation.Memoria.{Hueco, Segmento, Memoria, lookup}
use unix_os_simulation.Memoria.Asignacion.{menor_base}
use unix_os_simulation.Memoria.Asignacion.Eleccion.{espacio_libre}
use unix_os_simulation.Memoria.Compactacion.{
  tabla_global, compactar_bucle, compactar_segmentos, enviar_tablas_actualizadas, realloc_segment,
}
use unix_os_simulation.Memoria.Compactacion.Libres.{espacio_libre-realloc_segment}
use unix_os_simulation.Memoria.Compactacion.Terminacion.{
  movida, compactar_paso_cases, suma_bases, suma_bases-movida,
}
use unix_os_simulation.Memoria.Punteros.{
  lookup-veces, veces-In, lookup-In, lookup-put_self, lookup-put_ne,
}
use unix_os_simulation.Memoria.Servicio.Enlaces.{segmento_0, IsEnlazada, Vivos, resolver-Vivos}
use unix_os_simulation.Memoria.Servicio.Pedidos.{Sigue}
use unix_os_simulation.Memoria.Servicio.Unico.{un_hueco, hasta_el_final}
use unix_os_simulation.Memoria.Servicio.Compactada.{
  entradas-Vivos, compactable, alto_en_global, cabe, movida-IsEnlazada, movida-ne-nil,
}

-- All that is free is one hole at the end of the user space; the tables are the same, and each
-- segment has kept its ID and its size and has not moved up.
pub record EsCompactada (m m' : Memoria) : Type 0 where
  pub hueco : Hueco
  pub unico : m'.huecos_libres ≡ hueco ∷ []
  pub entero : hueco.size ≡ espacio_libre m.huecos_libres
  pub final : hueco.pos + hueco.size ≡ m.tam_memoria
  pub sigue : Sigue m m'
  pub tablas : m'.tablas ≡ m.tablas
  pub conserva :
      (p : ℕ) (s : Segmento)
      → lookup p m.segmentos ≡ some s
      → (b : ℕ) × (lookup p m'.segmentos ≡ some (record s { base = b })) × (b ≤ s.base)

global-Vivos : (m : Memoria) → IsEnlazada [] m → Vivos m.segmentos (tabla_global m.tablas)
global-Vivos m v p i = elim (Bool-cases (p == segmento_0)) [
  | inl q ↦ (v.s0, rw ((==_iff p segmento_0).0 q) v.vive)
  | inr q ↦
      lookup-veces p m.segmentos
        (omega (arith, veces-In p (tabla_global m.tablas) i, v.contados p (ground arith)))
]

quieta-EsCompactada :
    (m : Memoria) (h : Hueco)
    → IsEnlazada [] m
    → In h m.huecos_libres
    → ((d : ℕ × Segmento) → In d m.segmentos → (d.1).base ≤ h.pos)
    → ((k : Hueco) → In k m.huecos_libres → h.pos ≤ k.pos)
    → EsCompactada m m
quieta-EsCompactada m h v i bajos menor =
    let u = un_hueco m h (compactable m v) i bajos menor in
    record {
      hueco = h;
      unico = u;
      entero = omega (arith, ap espacio_libre u);
      final = hasta_el_final m h (compactable m v) i bajos menor;
      sigue = (v, refl, refl);
      tablas = refl;
      conserva = λ p s f. (s.base, f, omega arith);
    }

movida-conserva :
    (m : Memoria) (h : Hueco) (e : ℕ × Segmento)
    → lookup e.0 m.segmentos ≡ some e.1
    → h.pos < (e.1).base
    → (p : ℕ) (s : Segmento) → lookup p m.segmentos ≡ some s
    → (b : ℕ) × (lookup p (movida m h e).segmentos ≡ some (record s { base = b })) × (b ≤ s.base)
unfolding realloc_segment
movida-conserva m h e f l p s g = elim (Bool-cases (e.0 == p)) [
  | inl q ↦
      let n = (==_iff e.0 p).0 q in
      (
        h.pos,
        ground (arith, f, g, n, lookup-put_self e.0 (record (e.1) { base = h.pos }) m.segmentos),
        ground arith,
      )
  | inr q ↦ (
    s.base,
    lookup-put_ne e.0 p (record (e.1) { base = h.pos }) m.segmentos (ground arith) ∙ g,
    omega arith,
  )
]

tras_movida :
    (m m' : Memoria) (h : Hueco) (e : ℕ × Segmento)
    → In h m.huecos_libres
    → lookup e.0 m.segmentos ≡ some e.1
    → h.pos < (e.1).base
    → EsCompactada (movida m h e) m'
    → EsCompactada m m'
unfolding realloc_segment
tras_movida m m' h e i f l w = record {
  hueco = w.hueco;
  unico = w.unico;
  entero = w.entero ∙ espacio_libre-realloc_segment m e.0 e.1 h i;
  final = w.final;
  sigue = w.sigue;
  tablas = w.tablas;
  conserva = λ p s g.
      let (b, q, le) = movida-conserva m h e f l p s g in
      let (b', q', le') = w.conserva p (record s { base = b }) q in (b', q', omega arith);
}

-- With a hole and enough fuel the loop leaves a memory with one hole.
pub compactar_bucle-EsCompactada :
    (c : Commons) (fuel : ℕ) (m : Memoria)
    → IsEnlazada [] m
    → m.huecos_libres ≢ []
    → suma_bases m.segmentos < fuel
    → (m' : Memoria) × (compactar_bucle c fuel (tabla_global m.tablas) m ≡ some (ok m'))
      × EsCompactada m m'
unfolding compactar_bucle
compactar_bucle-EsCompactada c zero m v ne l = absurd (omega arith)
compactar_bucle-EsCompactada c (suc fuel) m v ne l =
    let (h, eh, i, menor) =
      c.minimum_least Hueco (λ k. k.pos) menor_base m.huecos_libres (λ a b. refl) ne in
    let (es, ee, a, b) = entradas-Vivos m.segmentos (tabla_global m.tablas) (global-Vivos m v) in
    elim (compactar_paso_cases c (tabla_global m.tablas) m h es eh ee) [
      | inl (sin, q) ↦ (
        m,
        rw (compactar_bucle, q) refl,
        quieta-EsCompactada m h v i
            (λ d j. elim (Bool-cases (ltb h.pos (d.1).base)) [
              | inl g ↦ sin d (
                  a d.0 d.1 (alto_en_global m v d j (ground arith))
                    (lookup-In d m.segmentos v.unicas j))
              | inr g ↦ ground arith
            ])
            menor,
      )
      | inr (e, pr, q) ↦
          let f = b e pr.0 in
          let k = cabe m v h es e i f pr a in
          let (m', r, w) =
            compactar_bucle-EsCompactada c fuel (movida m h e)
              (movida-IsEnlazada m v h es e i f pr a) (movida-ne-nil m v h es e i f pr a)
              (omega (arith, suma_bases-movida m h e f pr.1)) in
          (m', rw (compactar_bucle, q, k) r, tras_movida m m' h e i f pr.1 w)
    ]

In-append_left : {A : Type 0} (xs ys : List A) (a : A) → In a xs → In a (xs ++ ys)
In-append_left [] ys a i = absurd i
In-append_left (x ∷ xs) ys a i = ground (arith, In-append_left xs ys a)

In-append_right : {A : Type 0} (xs ys : List A) (a : A) → In a ys → In a (xs ++ ys)
In-append_right [] ys a i = i
In-append_right (x ∷ xs) ys a i = inr (In-append_right xs ys a i)

mensaje-ok :
    (h : List (ℕ × Segmento)) (ts : List (ℕ × List ℕ))
    → Vivos h (tabla_global ts)
    → (r : List (ℕ × List Segmento)) × (enviar_tablas_actualizadas h ts ≡ ok r)
unfolding enviar_tablas_actualizadas tabla_global
mensaje-ok h [] v = ([], refl)
mensaje-ok h ((pid, t) ∷ ts) v =
    let (ss, e) = resolver-Vivos h t (λ p i. v p (In-append_left t (tabla_global ts) p i)) in
    let (r, f) = mensaje-ok h ts (λ p i. v p (In-append_right t (tabla_global ts) p i)) in
    ((pid, ss) ∷ r, rw (enviar_tablas_actualizadas, e, ◌>>=◌, f) refl)

-- In a memory whose tables and heap hang together, with some hole and one unit of fuel more than
-- the sum of the bases, compactar_segmentos ends and sends the tables; then all that was free is
-- one hole at the end of the user space, the tables are the same, each segment has kept its ID and
-- its size and has not moved up, and tables and heap hang together.
pub compactar_segmentos-EsCompactada :
    (c : Commons) (fuel : ℕ) (m : Memoria)
    → IsEnlazada [] m
    → m.huecos_libres ≢ []
    → suma_bases m.segmentos < fuel
    → (r : List (ℕ × List Segmento)) × (m' : Memoria) × (compactar_segmentos c fuel m
        ≡ some (ok (r, m')))
      × EsCompactada m m'
unfolding compactar_segmentos
compactar_segmentos-EsCompactada c fuel m v ne l =
    let (m', e, w) = compactar_bucle-EsCompactada c fuel m v ne l in
    let (r, f) = mensaje-ok m'.segmentos m'.tablas (global-Vivos m' w.sigue.0) in
    (r, m', rw (compactar_segmentos, e, ◌>>=◌, f) refl, w)
