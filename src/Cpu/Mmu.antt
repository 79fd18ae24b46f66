-- ===== src/Cpu/Mmu.antt =====
-- cpu.h: `MMU`. Its sums wrap as an `int`; -1 is the error. The segment size of the configuration, by
-- which it divides, is positive.
use unix_os_simulation.Base.{
  ℕ, ◌+◌, ◌/◌, ◌%◌, ◌≤◌, ◌<◌, ◌≡◌, refl, ◌⊎◌, inl, inr, Bool, false, List, none, some, arith, ◌==◌,
  leb, if◌then◌else◌, list_find, list_find-In, In, Bool-cases, Option, sym, ◌∙◌, subst,
  Option-cases, ==_iff,
}
use unix_os_simulation.Base.Int.{ℤ, pos, negsuc, ◌+ℤ◌, quot, rem, leb_ℤ, int_c}
use native.Mathlib.Nat.{mod-lt}
use unix_os_simulation.Biblioteca.{Segmento}

abbrev pub es_el_segmento : ℤ → Segmento → Bool
es_el_segmento (pos n) a = a.id == n
es_el_segmento (negsuc n) a = false

-- `base + desplazamiento + offset > base + limite`; the result comes with the displacement that
-- `*miBase` receives.
unfoldable pub mmu_en : Segmento → ℤ → ℤ → ℤ
mmu_en s desplazamiento offset =
    if leb_ℤ (int_c (pos s.base +ℤ desplazamiento +ℤ offset)) (int_c (pos (s.base + s.limite)))
    then int_c (pos s.base +ℤ desplazamiento)
    else negsuc 0

unfoldable pub mmu : ℕ → List Segmento → ℤ → ℤ → ℤ × ℤ
unfolding mmu_en
mmu tam_max tabla logic_addr offset =
    let desplazamiento = rem logic_addr tam_max in
    elim (list_find (es_el_segmento (quot logic_addr tam_max)) tabla) [
      | none ↦ (negsuc 0, desplazamiento)
      | some s ↦ (mmu_en s desplazamiento offset, desplazamiento)
    ]

-- For a segment size above 0, on a table whose bases, limits and displacements keep the sums with
-- the length of the access below 2 ^ 31, the MMU either refuses a logical address that is not
-- negative, which it does only where the access would pass the end of the first segment with the ID
-- that the address names, or the table has none, or translates it to the address at the
-- displacement of a segment with that ID, and all bytes of the access end inside of that segment.
pub mmu_inside :
    (tam_max a offset : ℕ) (tabla : List Segmento)
    → 0 < tam_max
    → ((s : Segmento)
        → In s tabla
        → (s.base + s.limite < 2147483648) × (s.base + tam_max + offset ≤ 2147483648))
    → (((mmu tam_max tabla (pos a) (pos offset)).0 ≡ negsuc 0)
        × ((s : Segmento)
            → list_find (es_el_segmento (pos (a / tam_max))) tabla ≡ some s
            → s.limite < a % tam_max + offset))
      ⊎ ((s : Segmento) × (p : ℕ) × In s tabla
          × (s.id ≡ a / tam_max)
          × ((mmu tam_max tabla (pos a) (pos offset)).0 ≡ pos p)
          × (p ≡ s.base + a % tam_max)
          × (p + offset ≤ s.base + s.limite))
unfolding mmu
mmu_inside tam_max a offset tabla t chicos =
    elim (Option-cases (list_find (es_el_segmento (pos (a / tam_max))) tabla)) [
      | inl e ↦ inl (rw (e, mmu) refl, λ s f. absurd (ninguno s (sym e ∙ f)))
      | inr (s, e) ↦
          let (i, q) = list_find-In (es_el_segmento (pos (a / tam_max))) tabla s e in
          let (l, b) = chicos s i in
          let m = mod-lt a t in
          elim (Bool-cases (leb (s.base + a % tam_max + offset) (s.base + s.limite))) [
            | inl fits ↦ inr (
              s,
              s.base + a % tam_max,
              i,
              (==_iff _ _).0 q,
              ground (arith, e),
              refl,
              ground arith,
            )
            | inr over ↦ inl (
              ground (arith, e),
              λ r f.
                  let z : s ≡ r = uno s r (sym e ∙ f) in
                  subst (λ x. x.limite < a % tam_max + offset) z (ground arith),
            )
          ]
    ]
  where
    ninguno : (s : Segmento) → ◌≡◌ {A = Option Segmento} none (some s) → ⊥
    ninguno s e = cc

    uno : (s r : Segmento) → some s ≡ some r → s ≡ r
    uno s r e = cc
