-- ===== src/Memoria/Servicio/Compactada.antt =====
-- memoria.h: `compactar_segmentos` when tables and heap hang together: it ends, moves every segment
-- down, and leaves one hole behind them.
use unix_os_simulation.Base.{
  ℕ, ◌+◌, ◌-◌, ◌≤◌, ◌<◌, ◌≡◌, ◌≢◌, refl, ap, ◌∙◌, inl, inr, true, List, [], ◌∷◌, some, ok, ◌>>=◌,
  arith, ◌==◌, In, Bool-cases, ==_iff, list_remove, le→leb,
}
use unix_os_simulation.Memoria.{Hueco, Segmento, Memoria, lookup, put}
use unix_os_simulation.Memoria.Huecos.Separacion.{
  alojar_nuevo_hueco-IsSeparada, list_remove-IsSeparada,
}
use unix_os_simulation.Memoria.Asignacion.{es_hueco}
use unix_os_simulation.Memoria.Compactacion.{entradas, tabla_global, realloc_segment}
use unix_os_simulation.Memoria.Compactacion.Adyacencia.{
  IsCompactable, segmento_adyacente, realloc_segment-IsTiled, cubre_segmentos-In, cubre_rango_in,
}
use unix_os_simulation.Memoria.Compactacion.Libres.{alojar_nuevo_hueco-ne-nil}
use unix_os_simulation.Memoria.Compactacion.Terminacion.{movida, EsPrimero, caben}
use unix_os_simulation.Memoria.Punteros.{
  veces, claves, In-claves, lookup-In, In-veces, claves-put, In-put, lookup-put_ne, In-lookup,
}
use unix_os_simulation.Memoria.Servicio.Enlaces.{segmento_0, IsEnlazada, Vivos}

pub entradas-Vivos :
    (h : List (ℕ × Segmento)) (ps : List ℕ)
    → Vivos h ps
    → (es : List (ℕ × Segmento)) × (entradas h ps ≡ ok es)
      × ((p : ℕ) (s : Segmento) → In p ps → lookup p h ≡ some s → In (p, s) es)
      × ((e : ℕ × Segmento) → In e es → lookup e.0 h ≡ some e.1)
entradas-Vivos h [] v = ([], refl, λ p s i. absurd i, λ e i. absurd i)
entradas-Vivos h (q ∷ qs) v =
    let (t, f) = v q (inl refl) in
    let (es, e, a, b) = entradas-Vivos h qs (λ p i. v p (inr i)) in
    (
      (q, t) ∷ es,
      rw (f, ◌>>=◌, e) refl,
      λ p s. elim [ inl k ↦ λ g. ground (arith, f) | inr i ↦ λ g. inr (a p s i g) ],
      λ d. elim [ inl k ↦ rw (k) f | inr i ↦ b d i ],
    )

module _ (m : Memoria) (v : IsEnlazada [] m) where
  pub compactable : IsCompactable m
  compactable = record {
    tiled = v.tiled;
    huecos_pos = v.separada.0;
    segmentos_pos = v.llenos;
    separados = v.separada.1;
  }

  -- Every segment that starts above some position is in the global table.
  pub alto_en_global :
      (d : ℕ × Segmento) → In d m.segmentos → 0 < (d.1).base → In d.0 (tabla_global m.tablas)
  alto_en_global d i l = elim (Bool-cases (d.0 == segmento_0)) [
    | inl q ↦
        let e = lookup-In d m.segmentos v.unicas i in
        absurd (ground (arith, v.vive, v.abajo, (==_iff d.0 segmento_0).0 q))
    | inr q ↦
        In-veces d.0 (tabla_global m.tablas)
          (omega (arith, In-claves d m.segmentos i, v.contados d.0 (ground arith)))
  ]

  -- The first segment above the lowest hole, among those of the global table.
  module _ (h : Hueco) (es : List (ℕ × Segmento)) (e : ℕ × Segmento) (ih : In h m.huecos_libres)
      (f : lookup e.0 m.segmentos ≡ some e.1) (pr : EsPrimero es h e)
      (a : (p : ℕ) (s : Segmento)
        → In p (tabla_global m.tablas)
        → lookup p m.segmentos ≡ some s
        → In (p, s) es) where
    ie : In e m.segmentos
    ie = In-lookup e.0 m.segmentos e.1 f

    junto : h.pos + h.size ≡ (e.1).base
    junto = segmento_adyacente m h e compactable ih ie pr.1 (λ d i l.
        pr.2 d (a d.0 d.1 (alto_en_global d i (omega arith)) (lookup-In d m.segmentos v.unicas i))
          l)

    e-ne-segmento_0 : e.0 ≢ segmento_0
    e-ne-segmento_0 q = let b = v.abajo in let l = pr.1 in ground (arith, f, v.vive)

    pub cabe : caben m h e ≡ true
    cabe =
        let x = (e.1).base + (e.1).limite - 1 in
        let l = v.llenos e ie in
        let top : (e.1).base + (e.1).limite ≤ m.tam_memoria = ground (
          arith,
          v.tiled x,
          cubre_segmentos-In x e m.segmentos ie,
          cubre_rango_in x (e.1).base (e.1).limite,
        ) in
        let below : h.pos + (e.1).limite ≤ m.tam_memoria = omega (arith, top, pr.1) in
        rw (le→leb _ _ top, le→leb _ _ below) refl

    pub movida-IsEnlazada : IsEnlazada [] (movida m h e)
    unfolding realloc_segment
    movida-IsEnlazada = record {
      tiled = realloc_segment-IsTiled m e.0 e.1 h ih f junto v.tiled;
      separada =
          alojar_nuevo_hueco-IsSeparada (list_remove (es_hueco h) m.huecos_libres)
            (h.pos + (e.1).limite) h.size
            (list_remove-IsSeparada (es_hueco h) m.huecos_libres v.separada) (v.separada.0 h ih);
      llenos = λ d i. elim (In-put e.0 e.1 (record (e.1) { base = h.pos }) m.segmentos d f i) [
        | inl old ↦ v.llenos d old
        | inr q ↦ rw (q) (v.llenos e ie)
      ];
      unicas = λ p. omega (arith, v.unicas p, ap (veces p) (mismas p));
      frescas = λ p l. omega (arith, v.frescas p l, ap (veces p) (mismas p));
      s0 = v.s0;
      inicial = v.inicial;
      vive =
          lookup-put_ne e.0 segmento_0 (record (e.1) { base = h.pos }) m.segmentos e-ne-segmento_0
          ∙ v.vive;
      abajo = v.abajo;
      cero = v.cero;
      cabezas = v.cabezas;
      contados = λ p n. omega (arith, v.contados p n, ap (veces p) (mismas p));
    }
      where
        mismas :
            ℕ → claves (put e.0 (record (e.1) { base = h.pos }) m.segmentos) ≡ claves m.segmentos
        mismas p = claves-put e.0 e.1 (record (e.1) { base = h.pos }) m.segmentos f

    pub movida-ne-nil : (movida m h e).huecos_libres ≢ []
    unfolding realloc_segment
    movida-ne-nil =
        alojar_nuevo_hueco-ne-nil (list_remove (es_hueco h) m.huecos_libres) (h.pos + (e.1).limite)
          h.size (v.separada.0 h ih)
