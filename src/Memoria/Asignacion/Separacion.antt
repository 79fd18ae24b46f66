-- ===== src/Memoria/Asignacion/Separacion.antt =====
-- memoria.h: the hole that `calloc_segment` cuts off at its start stays apart from the others.
use unix_os_simulation.Base.{
  ℕ, ◌+◌, ◌-◌, ◌≤◌, ◌<◌, ◌≡◌, ◌≢◌, ◌⊎◌, ap, inl, inr, arith, In, ◌==◌, Bool-cases,
}
use unix_os_simulation.Memoria.{Hueco, Memoria}
use unix_os_simulation.Memoria.Huecos.Separacion.{IsSeparada, In-list_remove, In-list_update}
use unix_os_simulation.Memoria.Asignacion.{ocupar_hueco, es_hueco, recortar}
use unix_os_simulation.Memoria.Asignacion.Cobertura.{IsTiled, find_es_hueco}
use unix_os_simulation.Memoria.Compactacion.Adyacencia.{huecos_apart}

module _ (m : Memoria) (h : Hueco) (size : ℕ) (t : IsTiled m) (v : IsSeparada m.huecos_libres)
    (i : In h m.huecos_libres) (pos : 0 < size) (le : size ≤ h.size) where
  In-ocupar_hueco :
      (k : Hueco)
      → In k (ocupar_hueco m.huecos_libres h size)
      → In k m.huecos_libres ⊎ ((k ≡ recortar size h) × (size < h.size))
  unfolding ocupar_hueco
  In-ocupar_hueco k = elim (Bool-cases ((h.size - size) == 0)) [
    | inl full ↦ rw (full) (λ j. inl (In-list_remove (es_hueco h) m.huecos_libres k j))
    | inr part ↦ rw (part) (λ j.
        elim (In-list_update (es_hueco h) (recortar size) m.huecos_libres k h
          (find_es_hueco h m.huecos_libres i) j) [
            | inl old ↦ inl old
            | inr e ↦ inr (e, ground arith)
          ])
  ]

  recorte_apart : (k : Hueco) → In k m.huecos_libres → size < h.size → k.pos + k.size ≢ h.pos + size
  recorte_apart k j l q =
      huecos_apart m t (h.pos + size - 1) k h j i
        (λ e. omega (arith, ap (λ (r : Hueco). r.pos + r.size) e)) (omega (arith, v.0 k j))
        (omega arith) (omega arith) (omega arith)

  pub ocupar_hueco-IsSeparada : IsSeparada (ocupar_hueco m.huecos_libres h size)
  ocupar_hueco-IsSeparada = (
    λ k j. elim (In-ocupar_hueco k j) [ inl old ↦ v.0 k old | inr (e, l) ↦ rw (e) (omega arith) ],
    λ a b ja jb. elim (In-ocupar_hueco a ja) [
      | inl old ↦ elim (In-ocupar_hueco b jb) [
        | inl old' ↦ v.1 a b old old'
        | inr (e, l) ↦ rw (e) (recorte_apart a old l)
      ]
      | inr (e, l) ↦ elim (In-ocupar_hueco b jb) [
        | inl old' ↦ λ q. v.1 h b i old' (omega (arith, q, ap (λ (r : Hueco). r.pos + r.size) e))
        | inr (e', l') ↦ λ q.
            omega (arith, q, ap (λ (r : Hueco). r.pos + r.size) e, ap (λ (r : Hueco). r.pos) e')
      ]
    ],
  )
