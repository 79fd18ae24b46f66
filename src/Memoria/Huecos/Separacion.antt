-- ===== src/Memoria/Huecos/Separacion.antt =====
-- `alojar_nuevo_hueco` on a list in which no hole ends where another one starts: what its holes are.
use unix_os_simulation.Base.{
  ℕ, ◌+◌, ◌<◌, ◌≡◌, ◌≢◌, ◌⊎◌, refl, sym, ◌∙◌, inl, inr, Bool, List, [], ◌∷◌, ◌++◌, none, some,
  arith, In, list_find, list_update, list_remove, list_find-In, Option-cases, ==_iff, false,
}
use unix_os_simulation.Memoria.{Hueco}
use unix_os_simulation.Memoria.Huecos.{
  alojar_nuevo_hueco, crear_hueco_libre, es_adyacente_inferior, es_adyacente_superior, expandir,
  reubicar,
}

module _ {A : Type 0} (p : A → Bool) where
  pub In-list_remove : (xs : List A) (a : A) → In a (list_remove p xs) → In a xs
  In-list_remove [] a i = i
  In-list_remove (x ∷ xs) a i = ground (arith, In-list_remove xs a)

  pub In-list_update :
      (f : A → A) (xs : List A) (a x : A)
      → list_find p xs ≡ some x
      → In a (list_update p f xs)
      → In a xs ⊎ (a ≡ f x)
  In-list_update f [] a x e i = inl i
  In-list_update f (y ∷ ys) a x e i = ground (arith, In-list_update f ys a x)

  pub list_find_missing : (xs : List A) (a : A) → list_find p xs ≡ none → In a xs → p a ≡ false
  list_find_missing [] a e i = absurd i
  list_find_missing (x ∷ xs) a e i = ground (arith, list_find_missing xs a)

In-append_one : {A : Type 0} (xs : List A) (x a : A) → In a (xs ++ x ∷ []) → In a xs ⊎ (a ≡ x)
In-append_one [] x a i = ground arith
In-append_one (y ∷ ys) x a i = ground (arith, In-append_one ys x a)

-- Where a hole starts after the range from `b` has been freed: where it did, at `b` when no hole
-- ends there, or where the hole that ended at `b` starts; and likewise for its end.
abbrev pub Empieza : List Hueco → ℕ → Hueco → Type 0
Empieza hs b k =
    ((k.pos ≡ b) × ((h : Hueco) → In h hs → h.pos + h.size ≢ b))
    ⊎ ((i : Hueco) × In i hs × (i.pos + i.size ≡ b) × (k.pos ≡ i.pos))

abbrev pub Termina : List Hueco → ℕ → Hueco → Type 0
Termina hs e k =
    ((k.pos + k.size ≡ e) × ((h : Hueco) → In h hs → h.pos ≢ e))
    ⊎ ((u : Hueco) × In u hs × (u.pos ≡ e) × (k.pos + k.size ≡ u.pos + u.size))

module _ (hs : List Hueco) (b n : ℕ) where
  sin_inferior :
      list_find (es_adyacente_inferior b) hs ≡ none → (h : Hueco) → In h hs → h.pos + h.size ≢ b
  sin_inferior e h i q = ground (arith, list_find_missing (es_adyacente_inferior b) hs h e i)

  sin_superior :
      list_find (es_adyacente_superior b n) hs ≡ none → (h : Hueco) → In h hs → h.pos ≢ b + n
  sin_superior e h i q = ground (arith, list_find_missing (es_adyacente_superior b n) hs h e i)

  pub In-alojar_nuevo_hueco :
      (k : Hueco)
      → In k (alojar_nuevo_hueco hs b n)
      → In k hs ⊎ (Empieza hs b k × Termina hs (b + n) k)
  unfolding alojar_nuevo_hueco crear_hueco_libre
  In-alojar_nuevo_hueco k = elim (Option-cases (list_find (es_adyacente_inferior b) hs)) [
    | inl ei ↦ elim (Option-cases (list_find (es_adyacente_superior b n) hs)) [
      | inl es ↦
          rw (ei, es, alojar_nuevo_hueco)
            (λ i. elim (In-append_one hs (record { pos = b; size = n }) k i) [
              | inl old ↦ inl old
              | inr e ↦ rw e (inr (inl (refl, sin_inferior ei), inl (refl, sin_superior es)))
            ])
      | inr (u, es) ↦
          let (iu, qu) = list_find-In (es_adyacente_superior b n) hs u es in
          let at : b + n ≡ u.pos = (==_iff _ _).0 qu in
          rw (ei, es, alojar_nuevo_hueco)
            (λ i. elim (In-list_update (es_adyacente_superior b n) (reubicar b n) hs k u es i) [
              | inl old ↦ inl old
              | inr e ↦
                  rw e (inr (inl (refl, sin_inferior ei), inr (u, iu, sym at, omega (arith, at))))
            ])
    ]
    | inr (l, ei) ↦
        let (il, ql) = list_find-In (es_adyacente_inferior b) hs l ei in
        let al : l.pos + l.size ≡ b = (==_iff _ _).0 ql in
        elim (Option-cases (list_find (es_adyacente_superior b n) hs)) [
          | inl es ↦
              rw (ei, es, alojar_nuevo_hueco)
                (λ i. elim (In-list_update (es_adyacente_inferior b) (expandir n) hs k l ei i) [
                  | inl old ↦ inl old
                  | inr e ↦
                      rw e (inr (inr (l, il, al, refl), inl (omega (arith, al), sin_superior es)))
                ])
          | inr (u, es) ↦
              let (iu, qu) = list_find-In (es_adyacente_superior b n) hs u es in
              let at : b + n ≡ u.pos = (==_iff _ _).0 qu in
              rw (ei, es, alojar_nuevo_hueco)
                (λ i.
                  elim (In-list_update (es_adyacente_inferior b) (expandir (n + u.size)) hs k l ei
                    (In-list_remove (es_adyacente_superior b n) _ k i)) [
                      | inl old ↦ inl old
                      | inr e ↦
                          rw e (
                            inr (inr (l, il, al, refl), inr (u, iu, sym at, omega (arith, al, at))))
                    ])
        ]
  ]

-- No hole ends where another one, or itself, starts, and none is empty.
abbrev pub IsSeparada : List Hueco → Type 0
IsSeparada hs =
    ((h : Hueco) → In h hs → 0 < h.size)
    × ((h k : Hueco) → In h hs → In k hs → h.pos + h.size ≢ k.pos)

module _ (hs : List Hueco) (b n : ℕ) (v : IsSeparada hs) (pos : 0 < n) where
  nuevo_pos : (k : Hueco) → Empieza hs b k → Termina hs (b + n) k → 0 < k.size
  nuevo_pos k (inl (e, _)) (inl (f, _)) = omega arith
  nuevo_pos k (inl (e, _)) (inr (u, iu, at, f)) = omega arith
  nuevo_pos k (inr (l, il, al, e)) (inl (f, _)) = omega arith
  nuevo_pos k (inr (l, il, al, e)) (inr (u, iu, at, f)) = omega (arith, v.0 u iu)

  viejo_nuevo : (h k : Hueco) → In h hs → Empieza hs b k → h.pos + h.size ≢ k.pos
  viejo_nuevo h k i (inl (e, libre)) q = libre h i (q ∙ e)
  viejo_nuevo h k i (inr (l, il, al, e)) q = v.1 h l i il (q ∙ e)

  nuevo_viejo : (h k : Hueco) → In k hs → Termina hs (b + n) h → h.pos + h.size ≢ k.pos
  nuevo_viejo h k i (inl (e, libre)) q = libre k i (sym q ∙ e)
  nuevo_viejo h k i (inr (u, iu, at, e)) q = v.1 u k iu i (sym e ∙ q)

  nuevo_nuevo : (h k : Hueco) → Termina hs (b + n) h → Empieza hs b k → h.pos + h.size ≢ k.pos
  nuevo_nuevo h k (inl (e, _)) (inl (f, _)) q = omega arith
  nuevo_nuevo h k (inl (e, _)) (inr (l, il, al, f)) q = omega arith
  nuevo_nuevo h k (inr (u, iu, at, e)) (inl (f, _)) q = omega arith
  nuevo_nuevo h k (inr (u, iu, at, e)) (inr (l, il, al, f)) q = omega arith

  pub alojar_nuevo_hueco-IsSeparada : IsSeparada (alojar_nuevo_hueco hs b n)
  alojar_nuevo_hueco-IsSeparada = (
    λ k i. elim (In-alojar_nuevo_hueco hs b n k i) [
      | inl old ↦ v.0 k old
      | inr (e, t) ↦ nuevo_pos k e t
    ],
    λ h k i j. elim (In-alojar_nuevo_hueco hs b n h i) [
      | inl old ↦ elim (In-alojar_nuevo_hueco hs b n k j) [
        | inl old' ↦ v.1 h k old old'
        | inr (e, t) ↦ viejo_nuevo h k old e
      ]
      | inr (e, t) ↦ elim (In-alojar_nuevo_hueco hs b n k j) [
        | inl old' ↦ nuevo_viejo h k old' t
        | inr (e', t') ↦ nuevo_nuevo h k t e'
      ]
    ],
  )

pub list_remove-IsSeparada :
    (p : Hueco → Bool) (hs : List Hueco) → IsSeparada hs → IsSeparada (list_remove p hs)
list_remove-IsSeparada p hs v = (
  λ h i. v.0 h (In-list_remove p hs h i),
  λ h k i j. v.1 h k (In-list_remove p hs h i) (In-list_remove p hs k j),
)
