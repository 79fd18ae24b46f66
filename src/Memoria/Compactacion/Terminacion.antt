-- ===== src/Memoria/Compactacion/Terminacion.antt =====
-- One turn of the loop of `compactar_segmentos`, and that the loop ends: each turn moves a segment
-- down.
use unix_os_simulation.Base.{
  ℕ, zero, suc, ◌+◌, ◌≤◌, ◌<◌, ◌≡◌, refl, subst, sym, ◌⊎◌, inl, inr, Bool, ◌&&◌, List, [], ◌∷◌,
  Option, none, some, Outcome, ok, exits, faults, ◌>>=◌, arith, ltb, ltb→lt, lt→ltb, Bool-cases,
  if◌then◌else◌, In, list_filter, list_filter-In, In-list_filter, Option-cases, Outcome-cases,
  Sale-ok, Sale, Sale-bind,
}
use unix_os_simulation.Commons.{Commons}
use unix_os_simulation.Memoria.{Hueco, Segmento, Memoria, lookup, put}
use unix_os_simulation.Memoria.Asignacion.{menor_base}
use unix_os_simulation.Memoria.Compactacion.{
  compactar_paso, compactar_bucle, realloc_segment, mover_bloque, entradas, base_mayor_a_hueco,
  menor_base_s, en_espacio, compactar_segmentos, tabla_global, enviar_tablas_actualizadas,
}

-- The memory after a turn that moves the segment `e` into the hole `h`.
abbrev pub movida : Memoria → Hueco → ℕ × Segmento → Memoria
movida m h e = record (realloc_segment m e.0 e.1 h) { user_space = mover_bloque m.user_space h e.1 }

-- The lowest of the segments that start above the hole.
abbrev pub EsPrimero : List (ℕ × Segmento) → Hueco → ℕ × Segmento → Type 0
EsPrimero es h e =
    In e es
    × (h.pos < (e.1).base)
    × ((d : ℕ × Segmento) → In d es → h.pos < (d.1).base → (e.1).base ≤ (d.1).base)

abbrev pub caben : Memoria → Hueco → ℕ × Segmento → Bool
caben m h e = en_espacio m h.pos (e.1).limite && en_espacio m (e.1).base (e.1).limite

module _ (c : Commons) (global : List ℕ) (m : Memoria) (h : Hueco) (es : List (ℕ × Segmento))
    (eh : c.list_get_minimum Hueco menor_base m.huecos_libres ≡ some h)
    (ee : entradas m.segmentos global ≡ ok es) where
  abbrev Turno : Type 0
  Turno =
      (((e : ℕ × Segmento) → In e es → (e.1).base ≤ h.pos) × (compactar_paso c global m ≡ ok none))
      ⊎ ((e : ℕ × Segmento) × EsPrimero es h e
          × (compactar_paso c global m
              ≡ (if caben m h e then ok (some (movida m h e)) else faults)))

  turno_filtrado : (fs : List (ℕ × Segmento)) → list_filter (base_mayor_a_hueco h) es ≡ fs → Turno
  unfolding compactar_paso
  turno_filtrado [] q = inl (
    λ e i.
        let j = In-list_filter (base_mayor_a_hueco h) es e i in
        elim (Bool-cases (ltb h.pos (e.1).base)) [
          | inl b ↦ absurd (rw q at (j b))
          | inr b ↦ ground arith
        ],
    rw (compactar_paso, eh, ee, ◌>>=◌, q) refl,
  )
  turno_filtrado (u ∷ us) q =
      let (e, er, i, least) =
        c.minimum_least (ℕ × Segmento) (λ e. (e.1).base) menor_base_s (u ∷ us) (λ a b. refl)
          (λ n. cc) in
      let (j, b) = list_filter-In (base_mayor_a_hueco h) es e (subst (In e) (sym q) i) in
      inr (
        e,
        (
          j,
          ltb→lt _ _ b,
          λ d k l.
              least d
                (subst (In d) q (In-list_filter (base_mayor_a_hueco h) es d k (lt→ltb _ _ l))),
        ),
        rw (compactar_paso, eh, ee, ◌>>=◌, q, er) refl,
      )

  -- A turn ends the loop when no segment starts above the lowest hole, and moves the lowest of
  -- those that do otherwise.
  pub compactar_paso_cases : Turno
  compactar_paso_cases = turno_filtrado (list_filter (base_mayor_a_hueco h) es) refl

-- The segments behind the pointers of the global table.
pub entradas-lookup :
    (t : List (ℕ × Segmento)) (ps : List ℕ)
    → Sale
        (λ es. (e : ℕ × Segmento) → In e es → In e.0 ps × (lookup e.0 t ≡ some e.1))
        (entradas t ps)
entradas-lookup t [] = λ e i. absurd i
entradas-lookup t (p ∷ ps) = elim (Option-cases (lookup p t)) [
  | inl f ↦ rw (f) tt
  | inr (s, f) ↦ rw (f) (
      Sale-bind _ _ (entradas t ps) (λ es. ok ((p, s) ∷ es)) (entradas-lookup t ps)
        (λ es h e. elim [ inl q ↦ rw q (inl refl, f) | inr i ↦ (inr (h e i).0, (h e i).1) ]))
]

-- The sum of the positions at which the segments start: what a turn makes smaller.
abbrev pub suma_bases : List (ℕ × Segmento) → ℕ
suma_bases [] = 0
suma_bases ((p, s) ∷ ss) = s.base + suma_bases ss

suma_bases-put :
    (p : ℕ) (s t : Segmento) (ss : List (ℕ × Segmento))
    → lookup p ss ≡ some s
    → suma_bases (put p t ss) + s.base ≡ suma_bases ss + t.base
suma_bases-put p s t [] e = cc
suma_bases-put p s t ((q, r) ∷ ss) e = ground (arith, suma_bases-put p s t ss)

pub suma_bases-movida :
    (m : Memoria) (h : Hueco) (e : ℕ × Segmento)
    → lookup e.0 m.segmentos ≡ some e.1
    → h.pos < (e.1).base
    → suma_bases (movida m h e).segmentos < suma_bases m.segmentos
unfolding realloc_segment
suma_bases-movida m h (p, s) f l =
    omega (arith, suma_bases-put p s (record s { base = h.pos }) m.segmentos f)

abbrev Baja : Memoria → Option Memoria → Type 0
Baja m none = Unit
Baja m (some m') = suma_bases m'.segmentos < suma_bases m.segmentos

sin_hueco-Baja :
    (c : Commons) (global : List ℕ) (m : Memoria)
    → c.list_get_minimum Hueco menor_base m.huecos_libres ≡ none
    → Sale (Baja m) (compactar_paso c global m)
unfolding compactar_paso
sin_hueco-Baja c [] m eh = rw (compactar_paso, eh) tt
sin_hueco-Baja c (p ∷ ps) m eh = rw (compactar_paso, eh) tt

compactar_paso-Baja :
    (c : Commons) (global : List ℕ) (m : Memoria) → Sale (Baja m) (compactar_paso c global m)
unfolding compactar_paso
compactar_paso-Baja c global m =
    elim (Option-cases (c.list_get_minimum Hueco menor_base m.huecos_libres)) [
      | inl eh ↦ sin_hueco-Baja c global m eh
      | inr (h, eh) ↦ elim (Outcome-cases (entradas m.segmentos global)) [
        | inl (es, ee) ↦ elim (compactar_paso_cases c global m h es eh ee) [
          | inl (sin, q) ↦ rw (q) tt
          | inr (e, (i, l, _), q) ↦
              let f =
                (Sale-ok _ (entradas m.segmentos global) es (entradas-lookup m.segmentos global) ee
                  e i).1 in
              elim (Bool-cases (caben m h e)) [
                | inl b ↦ rw (q, b) (suma_bases-movida m h e f l)
                | inr b ↦ rw (q, b) tt
              ]
        ]
        | inr (inl ee) ↦ rw (compactar_paso, eh, ee) tt
        | inr (inr ee) ↦ rw (compactar_paso, eh, ee) tt
      ]
    ]

pub compactar_bucle-termina :
    (c : Commons) (fuel : ℕ) (global : List ℕ) (m : Memoria)
    → suma_bases m.segmentos < fuel
    → (o : Outcome Memoria) × (compactar_bucle c fuel global m ≡ some o)
unfolding compactar_bucle
compactar_bucle-termina c zero global m l = absurd (omega arith)
compactar_bucle-termina c (suc fuel) global m l =
    sigue (compactar_paso c global m) refl (compactar_paso-Baja c global m)
      (λ m' b. compactar_bucle-termina c fuel global m' (omega arith))
  where
    sigue :
        (r : Outcome (Option Memoria))
        → compactar_paso c global m ≡ r
        → Sale (Baja m) r
        → ((m' : Memoria)
            → suma_bases m'.segmentos < suma_bases m.segmentos
            → (o : Outcome Memoria) × (compactar_bucle c fuel global m' ≡ some o))
        → (o : Outcome Memoria) × (compactar_bucle c (suc fuel) global m ≡ some o)
    sigue (ok none) q b ih = (ok m, rw (compactar_bucle, q) refl)
    sigue (ok (some m')) q b ih = let (o, e) = ih m' b in (o, rw (compactar_bucle, q) e)
    sigue exits q b ih = (exits, rw (compactar_bucle, q) refl)
    sigue faults q b ih = (faults, rw (compactar_bucle, q) refl)

-- The loop of compactar_segmentos ends on every memory, tiled or not: the sum of the positions at
-- which the segments start is lower after each turn, so that sum and one more is fuel enough.
pub compactar_segmentos-termina :
    (c : Commons) (fuel : ℕ) (m : Memoria)
    → suma_bases m.segmentos < fuel
    → (o : Outcome (List (ℕ × List Segmento) × Memoria)) × (compactar_segmentos c fuel m ≡ some o)
unfolding compactar_segmentos
compactar_segmentos-termina c fuel m l =
    let (o, e) = compactar_bucle-termina c fuel (tabla_global m.tablas) m l in
    (
      (do m' ← o; ts ← enviar_tablas_actualizadas m'.segmentos m'.tablas; ok (ts, m')),
      rw (compactar_segmentos, e) refl,
    )
