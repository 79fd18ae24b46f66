-- ===== src/Memoria/Huecos/Cobertura.antt =====
-- How often a byte of the user space is covered by a list of holes or of segments.
use unix_os_simulation.Base.{
  ℕ, ◌+◌, ◌≡◌, Bool, ◌&&◌, List, [], ◌∷◌, ◌++◌, some, inl, inr, arith, ltb, leb, if◌then◌else◌,
  list_find, list_update, list_remove, Option-cases, list_find-In, ==_iff,
}
use unix_os_simulation.Memoria.{Hueco}
use unix_os_simulation.Memoria.Huecos.{
  es_adyacente_inferior, es_adyacente_superior, expandir, reubicar, alojar_nuevo_hueco,
  crear_hueco_libre,
}

-- 1 at the bytes of the range that starts at `pos`, 0 elsewhere.
unfoldable pub cubre_rango : ℕ → ℕ → ℕ → ℕ
cubre_rango x pos size = if leb pos x && ltb x (pos + size) then 1 else 0

abbrev pub cubre : ℕ → List Hueco → ℕ
cubre x [] = 0
cubre x (h ∷ hs) = cubre_rango x h.pos h.size + cubre x hs

module _ (x : ℕ) where
  pub cubre-append : (hs ks : List Hueco) → cubre x (hs ++ ks) ≡ cubre x hs + cubre x ks
  cubre-append [] ks = omega arith
  cubre-append (h ∷ hs) ks = omega (arith, cubre-append hs ks)

  pub cubre-list_update :
      (p : Hueco → Bool) (f : Hueco → Hueco) (hs : List Hueco) (h : Hueco)
      → list_find p hs ≡ some h
      → cubre x (list_update p f hs) + cubre_rango x h.pos h.size
        ≡ cubre x hs + cubre_rango x (f h).pos (f h).size
  cubre-list_update p f [] h e = cc
  cubre-list_update p f (k ∷ hs) h e = ground (arith, cubre-list_update p f hs h)

  pub cubre-list_remove :
      (p : Hueco → Bool) (hs : List Hueco) (h : Hueco)
      → list_find p hs ≡ some h
      → cubre x (list_remove p hs) + cubre_rango x h.pos h.size ≡ cubre x hs
  cubre-list_remove p [] h e = cc
  cubre-list_remove p (k ∷ hs) h e = ground (arith, cubre-list_remove p hs h)

  -- A range that is cut in two is covered by the parts.
  pub cubre_rango-split :
      (p m n q : ℕ) → p + m ≡ q → cubre_rango x p (m + n) ≡ cubre_rango x p m + cubre_rango x q n
  unfolding cubre_rango
  cubre_rango-split p m n q e = ground arith

  -- The upper neighbour grows downwards.
  cubre_rango-split_below :
      (p m n q : ℕ) → p + n ≡ q → cubre_rango x p (m + n) ≡ cubre_rango x p n + cubre_rango x q m
  unfolding cubre_rango
  cubre_rango-split_below p m n q e = ground arith

  inferior_end :
      (b : ℕ) (hs : List Hueco) (i : Hueco)
      → list_find (es_adyacente_inferior b) hs ≡ some i
      → i.pos + i.size ≡ b
  inferior_end b hs i e = (==_iff _ _).0 (list_find-In _ hs i e).1

  superior_start :
      (b n : ℕ) (hs : List Hueco) (u : Hueco)
      → list_find (es_adyacente_superior b n) hs ≡ some u
      → b + n ≡ u.pos
  superior_start b n hs u e = (==_iff _ _).0 (list_find-In _ hs u e).1

  -- Growing the lower neighbour leaves the upper one where it was found.
  pub find_superior_after :
      (b n : ℕ) (hs : List Hueco) (u : Hueco)
      → list_find (es_adyacente_superior b n) hs ≡ some u
      → list_find
          (es_adyacente_superior b n)
          (list_update (es_adyacente_inferior b) (expandir (n + u.size)) hs)
        ≡ some u
  find_superior_after b n [] u e = e
  find_superior_after b n (h ∷ hs) u e = ground (arith, find_superior_after b n hs u)

  -- On each of the four branches of alojar_nuevo_hueco a byte of the freed range is covered by the
  -- holes once more than before, and every other byte as often as before.
  pub cubre-alojar_nuevo_hueco :
      (hs : List Hueco) (base limite : ℕ)
      → cubre x (alojar_nuevo_hueco hs base limite) ≡ cubre x hs + cubre_rango x base limite
  unfolding alojar_nuevo_hueco crear_hueco_libre
  cubre-alojar_nuevo_hueco hs b n = elim (Option-cases (list_find (es_adyacente_inferior b) hs)) [
    | inl ei ↦ elim (Option-cases (list_find (es_adyacente_superior b n) hs)) [
      | inl es ↦
          rw (ei, es, alojar_nuevo_hueco)
            (omega (arith, cubre-append hs (record { pos = b; size = n } ∷ [])))
      | inr (u, es) ↦
          rw (ei, es, alojar_nuevo_hueco)
            (omega (
              arith,
              cubre-list_update (es_adyacente_superior b n) (reubicar b n) hs u es,
              cubre_rango-split_below b u.size n u.pos (superior_start b n hs u es),
            ))
    ]
    | inr (i, ei) ↦ elim (Option-cases (list_find (es_adyacente_superior b n) hs)) [
      | inl es ↦
          rw (ei, es, alojar_nuevo_hueco)
            (omega (
              arith,
              cubre-list_update (es_adyacente_inferior b) (expandir n) hs i ei,
              cubre_rango-split i.pos i.size n b (inferior_end b hs i ei),
            ))
      | inr (u, es) ↦
          rw (ei, es, alojar_nuevo_hueco)
            (omega (
              arith,
              cubre-list_remove (es_adyacente_superior b n) _ u (find_superior_after b n hs u es),
              cubre-list_update (es_adyacente_inferior b) (expandir (n + u.size)) hs i ei,
              cubre_rango-split i.pos i.size (n + u.size) b (inferior_end b hs i ei),
              cubre_rango-split b n u.size u.pos (superior_start b n hs u es),
            ))
    ]
  ]
