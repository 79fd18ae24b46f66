-- ===== src/Memoria/Compactacion/Adyacencia.antt =====
-- memoria.h: where the segment that the compaction moves stands, and what the holes and the segments
-- cover after its move.
use unix_os_simulation.Base.{
  ℕ, ◌+◌, ◌-◌, ◌≤◌, ◌<◌, ◌≡◌, refl, ap, sym, ◌∙◌, ltb→lt, ◌≢◌, inl, inr, List, [], ◌∷◌, some, arith,
  ltb, In, Bool-cases, list_remove,
}
use unix_os_simulation.Memoria.{Hueco, Segmento, Memoria, lookup, put}
use unix_os_simulation.Memoria.Huecos.Cobertura.{
  cubre, cubre_rango, cubre-alojar_nuevo_hueco, cubre-list_remove, cubre_rango-split,
}
use unix_os_simulation.Memoria.Asignacion.{es_hueco}
use unix_os_simulation.Memoria.Asignacion.Cobertura.{cubre_segmentos, IsTiled, find_es_hueco}
use unix_os_simulation.Memoria.Compactacion.{realloc_segment}

cubre_segmentos-put :
    (x p : ℕ) (s t : Segmento) (h : List (ℕ × Segmento))
    → lookup p h ≡ some s
    → cubre_segmentos x (put p t h) + cubre_rango x s.base s.limite
      ≡ cubre_segmentos x h + cubre_rango x t.base t.limite
cubre_segmentos-put x p s t [] e = cc
cubre_segmentos-put x p s t ((q, r) ∷ h) e = ground (arith, cubre_segmentos-put x p s t h)

-- Moving a segment down into the hole that ends where it starts keeps every byte of the user space
-- in exactly one hole or segment.
pub realloc_segment-IsTiled :
    (m : Memoria) (p : ℕ) (s : Segmento) (h : Hueco)
    → In h m.huecos_libres
    → lookup p m.segmentos ≡ some s
    → h.pos + h.size ≡ s.base
    → IsTiled m
    → IsTiled (realloc_segment m p s h)
unfolding realloc_segment
realloc_segment-IsTiled m p s h i e adj t x = omega (
  arith,
  t x,
  cubre-alojar_nuevo_hueco x (list_remove (es_hueco h) m.huecos_libres) (h.pos + s.limite) h.size,
  cubre-list_remove x (es_hueco h) m.huecos_libres h (find_es_hueco h m.huecos_libres i),
  cubre_segmentos-put x p s (record s { base = h.pos }) m.segmentos e,
  cubre_rango-split x h.pos h.size s.limite s.base adj,
  cubre_rango-split x h.pos s.limite h.size (h.pos + s.limite) refl,
  ap (cubre_rango x h.pos) (swap h.size s.limite),
)
  where
    swap : (a b : ℕ) → a + b ≡ b + a
    swap a b = omega arith

module _ (x : ℕ) where
  pub cubre-In : (h : Hueco) (hs : List Hueco) → In h hs → cubre_rango x h.pos h.size ≤ cubre x hs
  cubre-In h [] i = absurd i
  cubre-In h (k ∷ hs) (inl e) = rw e (omega arith)
  cubre-In h (k ∷ hs) (inr i) = omega (arith, cubre-In h hs i)

  cubre-In_two :
      (h k : Hueco) (hs : List Hueco)
      → In h hs
      → In k hs
      → h ≢ k
      → cubre_rango x h.pos h.size + cubre_rango x k.pos k.size ≤ cubre x hs
  cubre-In_two h k [] i j n = absurd i
  cubre-In_two h k (l ∷ hs) (inl e) (inl f) n = absurd (n (e ∙ sym f))
  cubre-In_two h k (l ∷ hs) (inl e) (inr j) n = rw e (omega (arith, cubre-In k hs j))
  cubre-In_two h k (l ∷ hs) (inr i) (inl f) n = rw f (omega (arith, cubre-In h hs i))
  cubre-In_two h k (l ∷ hs) (inr i) (inr j) n = omega (arith, cubre-In_two h k hs i j n)

  pub cubre_segmentos-In :
      (e : ℕ × Segmento) (ss : List (ℕ × Segmento))
      → In e ss
      → cubre_rango x (e.1).base (e.1).limite ≤ cubre_segmentos x ss
  cubre_segmentos-In e [] i = absurd i
  cubre_segmentos-In e (k ∷ ss) (inl q) = rw q (omega arith)
  cubre_segmentos-In e (k ∷ ss) (inr i) = omega (arith, cubre_segmentos-In e ss i)

  -- A covered byte lies in some hole, or in some segment.
  pub hueco_of_cubre :
      (hs : List Hueco) → 0 < cubre x hs → (h : Hueco) × In h hs × (0 < cubre_rango x h.pos h.size)
  hueco_of_cubre [] c = elim c [ ]
  hueco_of_cubre (h ∷ hs) c = elim (Bool-cases (ltb 0 (cubre_rango x h.pos h.size))) [
    | inl e ↦ (h, inl refl, ltb→lt _ _ e)
    | inr e ↦ let (k, i, d) = hueco_of_cubre hs (ground arith) in (k, inr i, d)
  ]

  pub segmento_of_cubre :
      (ss : List (ℕ × Segmento))
      → 0 < cubre_segmentos x ss
      → (e : ℕ × Segmento) × In e ss × (0 < cubre_rango x (e.1).base (e.1).limite)
  segmento_of_cubre [] c = elim c [ ]
  segmento_of_cubre ((p, s) ∷ ss) c = elim (Bool-cases (ltb 0 (cubre_rango x s.base s.limite))) [
    | inl e ↦ ((p, s), inl refl, ltb→lt _ _ e)
    | inr e ↦ let (k, i, d) = segmento_of_cubre ss (ground arith) in (k, inr i, d)
  ]

pub cubre_rango_in : (x p n : ℕ) → p ≤ x → x < p + n → cubre_rango x p n ≡ 1
unfolding cubre_rango
cubre_rango_in x p n a b = ground arith

pub cubre_rango_pos : (x p n : ℕ) → 0 < cubre_rango x p n → (p ≤ x) × (x < p + n)
unfolding cubre_rango
cubre_rango_pos x p n c = ground arith

-- What the compaction relies on: a tiled user space, no empty hole or segment, and no hole that ends
-- where another one starts.
pub record IsCompactable (m : Memoria) : Type 0 where
  pub tiled : IsTiled m
  pub huecos_pos : (h : Hueco) → In h m.huecos_libres → 0 < h.size
  pub segmentos_pos : (e : ℕ × Segmento) → In e m.segmentos → 0 < (e.1).limite
  pub separados :
      (h k : Hueco) → In h m.huecos_libres → In k m.huecos_libres → h.pos + h.size ≢ k.pos

module _ (m : Memoria) (t : IsTiled m) where
  pub cubre-le : (x : ℕ) → cubre x m.huecos_libres + cubre_segmentos x m.segmentos ≤ 1
  cubre-le x = ground (arith, t x)

  -- No byte is in a hole and in a segment, nor in two holes.
  pub hueco_segmento_apart :
      (x : ℕ) (h : Hueco) (e : ℕ × Segmento)
      → In h m.huecos_libres
      → In e m.segmentos
      → h.pos ≤ x
      → x < h.pos + h.size
      → (e.1).base ≤ x
      → x < (e.1).base + (e.1).limite
      → ⊥
  hueco_segmento_apart x h e i j a b c d = omega (
    arith,
    cubre-le x,
    cubre-In x h m.huecos_libres i,
    cubre_segmentos-In x e m.segmentos j,
    cubre_rango_in x h.pos h.size a b,
    cubre_rango_in x (e.1).base (e.1).limite c d,
  )

  pub huecos_apart :
      (x : ℕ) (h k : Hueco)
      → In h m.huecos_libres
      → In k m.huecos_libres
      → h ≢ k
      → h.pos ≤ x
      → x < h.pos + h.size
      → k.pos ≤ x
      → x < k.pos + k.size
      → ⊥
  huecos_apart x h k i j n a b c d = omega (
    arith,
    cubre-le x,
    cubre-In_two x h k m.huecos_libres i j n,
    cubre_rango_in x h.pos h.size a b,
    cubre_rango_in x k.pos k.size c d,
  )

module _ (m : Memoria) (h : Hueco) (e : ℕ × Segmento) (v : IsCompactable m)
    (i : In h m.huecos_libres) (j : In e m.segmentos) (above : h.pos < (e.1).base) where
  fin : ℕ
  fin = h.pos + h.size

  fin-le-base : fin ≤ (e.1).base
  unfolding fin
  fin-le-base = elim (Bool-cases (ltb (e.1).base fin)) [
    | inl q ↦ absurd (
        hueco_segmento_apart m v.tiled (e.1).base h e i j (omega arith) (ltb→lt _ _ q) (omega arith)
          (omega (arith, v.segmentos_pos e j)))
    | inr q ↦ ground arith
  ]

  fin_covered : 0 < cubre fin m.huecos_libres + cubre_segmentos fin m.segmentos
  fin_covered = ground (
    arith,
    v.tiled fin,
    v.tiled (e.1).base,
    fin-le-base,
    cubre_segmentos-In (e.1).base e m.segmentos j,
    cubre_rango_in (e.1).base (e.1).base (e.1).limite,
    v.segmentos_pos e j,
  )

  no_hueco_at_fin : (k : Hueco) → In k m.huecos_libres → k.pos ≤ fin → fin < k.pos + k.size → ⊥
  unfolding fin
  no_hueco_at_fin k jk a b =
      huecos_apart m v.tiled (fin - 1) h k i jk
        (λ q. omega (arith, ap (λ (r : Hueco). r.pos + r.size) q)) (omega (arith, v.huecos_pos h i))
        (omega (arith, v.huecos_pos h i)) (omega (arith, v.separados h k i jk)) (omega arith)

  segmento_at_fin :
      (d : ℕ × Segmento)
      → In d m.segmentos
      → (d.1).base ≤ fin
      → fin < (d.1).base + (d.1).limite
      → (d.1).base ≡ fin
  unfolding fin
  segmento_at_fin d jd a b = elim (Bool-cases (ltb (d.1).base fin)) [
    | inl q ↦
        let lt = ltb→lt _ _ q in
        absurd (
          hueco_segmento_apart m v.tiled (fin - 1) h d i jd (omega (arith, v.huecos_pos h i))
            (omega (arith, v.huecos_pos h i)) (omega arith) (omega arith))
    | inr q ↦ ground arith
  ]

  -- In a tiled user space with no empty hole or segment and no two adjacent holes, the lowest
  -- segment above a hole starts exactly where the hole ends, as realloc_segment assumes.
  pub segmento_adyacente :
      ((d : ℕ × Segmento) → In d m.segmentos → h.pos < (d.1).base → (e.1).base ≤ (d.1).base)
      → h.pos + h.size ≡ (e.1).base
  unfolding fin
  segmento_adyacente lowest = elim (Bool-cases (ltb 0 (cubre fin m.huecos_libres))) [
    | inl q ↦
        let (k, jk, c) = hueco_of_cubre fin m.huecos_libres (ltb→lt _ _ q) in
        let (a, b) = cubre_rango_pos fin k.pos k.size c in absurd (no_hueco_at_fin k jk a b)
    | inr q ↦
        let (d, jd, c) = segmento_of_cubre fin m.segmentos (ground (arith, fin_covered)) in
        let (a, b) = cubre_rango_pos fin (d.1).base (d.1).limite c in
        omega (arith, segmento_at_fin d jd a b, lowest d jd, v.huecos_pos h i, fin-le-base)
  ]
