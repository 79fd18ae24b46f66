-- ===== src/Memoria/Servicio/Unico.antt =====
-- memoria.h: what holds when no segment starts above the lowest hole, where `compactar_segmentos`
-- leaves its loop: there is one hole, at the end of the user space.
use unix_os_simulation.Base.{
  ℕ, ◌+◌, ◌-◌, ◌≤◌, ◌<◌, ◌≡◌, refl, ap, inl, inr, List, [], ◌∷◌, arith, ltb, ltb→lt, In, Bool-cases,
}
use unix_os_simulation.Memoria.{Hueco, Segmento, Memoria}
use unix_os_simulation.Memoria.Huecos.Cobertura.{cubre, cubre_rango}
use unix_os_simulation.Memoria.Asignacion.{es_hueco}
use unix_os_simulation.Memoria.Compactacion.Adyacencia.{
  IsCompactable, cubre-In, cubre_rango_in, cubre_rango_pos, hueco_segmento_apart, huecos_apart,
  hueco_of_cubre, segmento_of_cubre, cubre-le,
}

solo_uno :
    (h : Hueco) (hs : List Hueco)
    → In h hs
    → 0 < h.size
    → ((k : Hueco) → In k hs → k ≡ h)
    → cubre h.pos hs ≤ 1
    → hs ≡ h ∷ []
solo_uno h [] i p all c = absurd i
solo_uno h (k ∷ []) i p all c = ap (λ x. x ∷ []) (all k (inl refl))
solo_uno h (k ∷ j ∷ js) i p all c =
    let a = cubre_rango_in h.pos h.pos h.size (omega arith) (omega arith) in
    let b = ap (λ (x : Hueco). cubre_rango h.pos x.pos x.size) (all k (inl refl)) in
    let d = ap (λ (x : Hueco). cubre_rango h.pos x.pos x.size) (all j (inr (inl refl))) in
    absurd (omega (arith, a, b, d, c))

Hueco-ext : (h k : Hueco) → h.pos ≡ k.pos → h.size ≡ k.size → h ≡ k
Hueco-ext h k p q = ground arith

module _ (m : Memoria) (h : Hueco) (v : IsCompactable m) (i : In h m.huecos_libres)
    (bajos : (d : ℕ × Segmento) → In d m.segmentos → (d.1).base ≤ h.pos)
    (menor : (k : Hueco) → In k m.huecos_libres → h.pos ≤ k.pos) where
  fin : ℕ
  fin = h.pos + h.size

  debajo : (d : ℕ × Segmento) → In d m.segmentos → (d.1).base + (d.1).limite ≤ h.pos
  debajo d j = elim (Bool-cases (ltb h.pos ((d.1).base + (d.1).limite))) [
    | inl q ↦ absurd (
        hueco_segmento_apart m v.tiled h.pos h d i j (omega arith) (omega (arith, v.huecos_pos h i))
          (bajos d j) (ltb→lt _ _ q))
    | inr q ↦ ground arith
  ]

  hueco_dentro : (k : Hueco) → In k m.huecos_libres → k.pos + k.size ≤ m.tam_memoria
  hueco_dentro k j =
      let p = v.huecos_pos k j in
      let x = k.pos + k.size - 1 in
      ground (arith, v.tiled x, cubre-In x k m.huecos_libres j, cubre_rango_in x k.pos k.size)

  nada_en_fin : (k : Hueco) → In k m.huecos_libres → k.pos ≤ fin → fin < k.pos + k.size → ⊥
  unfolding fin
  nada_en_fin k j a b =
      huecos_apart m v.tiled (fin - 1) h k i j
        (λ q. omega (arith, ap (λ (r : Hueco). r.pos + r.size) q)) (omega (arith, v.huecos_pos h i))
        (omega (arith, v.huecos_pos h i)) (omega (arith, v.separados h k i j)) (omega arith)

  pub hasta_el_final : h.pos + h.size ≡ m.tam_memoria
  unfolding fin
  hasta_el_final = elim (Bool-cases (ltb fin m.tam_memoria)) [
    | inl q ↦ elim (Bool-cases (ltb 0 (cubre fin m.huecos_libres))) [
      | inl c ↦
          let (k, j, d) = hueco_of_cubre fin m.huecos_libres (ltb→lt _ _ c) in
          let (a, b) = cubre_rango_pos fin k.pos k.size d in absurd (nada_en_fin k j a b)
      | inr c ↦
          let (e, j, d) = segmento_of_cubre fin m.segmentos (ground (arith, v.tiled fin)) in
          let (a, b) = cubre_rango_pos fin (e.1).base (e.1).limite d in
          absurd (omega (arith, debajo e j, b))
    ]
    | inr q ↦ ground (arith, hueco_dentro h i)
  ]

  mismo : (k : Hueco) → In k m.huecos_libres → k ≡ h
  mismo k j = elim (Bool-cases (es_hueco h k)) [
    | inl q ↦ Hueco-ext k h (ground arith) (ground arith)
    | inr q ↦ absurd (
        huecos_apart m v.tiled k.pos h k i j
          (λ e. ground (arith, ap (λ (r : Hueco). r.pos) e, ap (λ (r : Hueco). r.size) e))
          (menor k j) (omega (arith, hasta_el_final, hueco_dentro k j, v.huecos_pos k j))
          (omega arith) (omega (arith, v.huecos_pos k j)))
  ]

  pub un_hueco : m.huecos_libres ≡ h ∷ []
  un_hueco =
      solo_uno h m.huecos_libres i (v.huecos_pos h i) mismo
        (omega (arith, cubre-le m v.tiled h.pos))
