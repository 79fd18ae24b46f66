-- ===== src/Kernel/Recursos/Conservacion.antt =====
-- kernel.h: the instances of a resource: those that are free, those that the processes have asked
-- for, and the PCBs that wait for one.
use unix_os_simulation.Base.{
  ℕ, zero, suc, ◌+◌, ◌≡◌, refl, subst, ◌∙◌, List, [], ◌∷◌, ◌++◌, Option, none, some, ok, >>=-eq-ok,
  Cadena, strcmp_eq, strcmp_eq_refl, ◌==◌, if◌then◌else◌, list_find, list_remove, length,
  length-append, arith,
}
use unix_os_simulation.Kernel.{Kernel, a_ready, adelante}
use unix_os_simulation.Kernel.Diccionario.{
  dictionary_get, dictionary_put, dictionary_remove, suma, suma-put_new, suma-put, get-put,
}
use unix_os_simulation.Kernel.Recursos.{
  con_asignados, copiar_recurso, registrar_en, registrar_recursos_del_proceso, bloquear, tomar,
  wait_en, wait_recurso_lista, quitar_de, quitar_recurso_del_proceso, liberar_recurso_en,
  liberar_recurso_y_actualizar_ready, signal_en, signal_recurso_lista,
}

abbrev pub o_cero : Option ℕ → ℕ
o_cero none = 0
o_cero (some n) = n

abbrev pub o_largo : Option (List ℕ) → ℕ
o_largo none = 0
o_largo (some l) = length l

abbrev pub apariciones : Cadena → List Cadena → ℕ
apariciones r [] = 0
apariciones r (a ∷ xs) = (if strcmp_eq a r then 1 else 0) + apariciones r xs

abbrev pub asignadas : Cadena → Option (List Cadena) → ℕ
asignadas r none = 0
asignadas r (some rs) = apariciones r rs

-- The free instances, the PCBs that wait, and the entries in the lists of the processes.
unfoldable pub libres : Cadena → Kernel → ℕ
libres r k = o_cero (dictionary_get strcmp_eq r k.recursos_disponibles)

unfoldable pub en_espera : Cadena → Kernel → ℕ
en_espera r k = o_largo (dictionary_get strcmp_eq r k.recursos_en_uso)

unfoldable pub asignados : Cadena → Kernel → ℕ
asignados r k = suma ◌==◌ (asignadas r) k.recursos_por_proceso

apariciones-append :
    (r : Cadena) (xs ys : List Cadena)
    → apariciones r (xs ++ ys) ≡ apariciones r xs + apariciones r ys
apariciones-append r [] ys = omega arith
apariciones-append r (a ∷ xs) ys = omega (arith, apariciones-append r xs ys)

apariciones-quitar :
    (r : Cadena) (xs : List Cadena) (a : Cadena)
    → list_find (λ x. strcmp_eq x r) xs ≡ some a
    → suc (apariciones r (list_remove (λ x. strcmp_eq x r) xs)) ≡ apariciones r xs
apariciones-quitar r [] a h = cc
apariciones-quitar r (x ∷ xs) a h = ground (arith, apariciones-quitar r xs a)

asignados-registrar :
    (r : Cadena) (pid : ℕ) (k k' : Kernel)
    → registrar_recursos_del_proceso r pid k ≡ ok k'
    → (asignados r k' ≡ suc (asignados r k))
      × (k'.recursos_disponibles ≡ k.recursos_disponibles)
      × (k'.recursos_en_uso ≡ k.recursos_en_uso)
unfolding asignados registrar_recursos_del_proceso registrar_en copiar_recurso
asignados-registrar r pid k k' h =
    let (b, c, e) = >>=-eq-ok (copiar_recurso r) _ h in
    let z : r ≡ b = copiado b c in
    go (dictionary_get ◌==◌ pid k.recursos_por_proceso) refl (rw (z) e)
  where
    copiado : (b : Cadena) → copiar_recurso r ≡ ok b → r ≡ b
    copiado b c = ground arith

    Bien : Kernel → Type 0
    Bien x =
        (asignados r x ≡ suc (asignados r k))
        × (x.recursos_disponibles ≡ k.recursos_disponibles)
        × (x.recursos_en_uso ≡ k.recursos_en_uso)

    go :
        (o : Option (Option (List Cadena)))
        → dictionary_get ◌==◌ pid k.recursos_por_proceso ≡ o
        → registrar_en o r pid k ≡ ok k'
        → Bien k'
    go none e h =
        let z : con_asignados pid (r ∷ []) k ≡ k' = cc in
        let s = suma-put_new ◌==◌ (asignadas r) pid (some (r ∷ [])) k.recursos_por_proceso e in
        let i = strcmp_eq_refl r in subst Bien z (s ∙ rw (i) (omega arith), refl, refl)
    go (some none) e h = cc
    go (some (some rs)) e h =
        let z : con_asignados pid (rs ++ r ∷ []) k ≡ k' = cc in
        let s =
          suma-put ◌==◌ (asignadas r) pid (some (rs ++ r ∷ [])) (some rs) k.recursos_por_proceso
            e in
        let i = strcmp_eq_refl r in
        let l = apariciones-append r rs (r ∷ []) in
        let u : apariciones r (r ∷ []) ≡ 1 = rw (i) in
        subst Bien z (omega (arith, s, l, u), refl, refl)

ok_inj : {A : Type 0} {a b : A} → ok a ≡ ok b → a ≡ b
ok_inj h = cc

module _ (r : Cadena) where
  -- What is conserved.
  Igual : Kernel → Kernel → Type 0
  Igual k k' =
      libres r k' + asignados r k' + en_espera r k ≡ libres r k + asignados r k + en_espera r k'

  traer :
      (k k1 k2 : Kernel)
      → asignados r k1 ≡ suc (asignados r k)
      → k1.recursos_disponibles ≡ k.recursos_disponibles
      → k1.recursos_en_uso ≡ k.recursos_en_uso
      → libres r k2 + asignados r k2 + suc (en_espera r k1)
        ≡ libres r k1 + asignados r k1 + en_espera r k2
      → Igual k k2
  unfolding libres en_espera Igual
  traer k k1 k2 s i j t =
      let a : libres r k1 ≡ libres r k = rw (i) in
      let b : en_espera r k1 ≡ en_espera r k = rw (j) in omega (arith, a, b, s, t)

  tomar-suma :
      (n pid : ℕ) (k : Kernel)
      → dictionary_get strcmp_eq r k.recursos_disponibles ≡ some n
      → libres r (tomar n r pid k) + asignados r (tomar n r pid k) + suc (en_espera r k)
        ≡ libres r k + asignados r k + en_espera r (tomar n r pid k)
  unfolding libres asignados en_espera tomar bloquear
  tomar-suma zero pid k h = go (dictionary_get strcmp_eq r k.recursos_en_uso) refl
    where
      go :
          (o : Option (List ℕ))
          → dictionary_get strcmp_eq r k.recursos_en_uso ≡ o
          → libres r (bloquear o r pid k) + asignados r (bloquear o r pid k) + suc (o_largo o)
            ≡ libres r k + asignados r k + en_espera r (bloquear o r pid k)
      go none e =
          rw (get-put strcmp_eq r (pid ∷ []) k.recursos_en_uso (strcmp_eq_refl r)) (omega arith)
      go (some l) e =
          let s = length-append l (pid ∷ []) in
          rw (get-put strcmp_eq r (l ++ pid ∷ []) k.recursos_en_uso (strcmp_eq_refl r))
            (omega (arith, s))
  tomar-suma (suc n) pid k h =
      rw (get-put strcmp_eq r n k.recursos_disponibles (strcmp_eq_refl r), h) (omega arith)

  -- A WAIT that returns, on a resource of the configuration, keeps the number of instances: the
  -- free ones and the assigned ones less the PCBs that wait.
  pub wait_recurso_lista-conserva :
      (n pid : ℕ) (k k' : Kernel)
      → dictionary_get strcmp_eq r k.recursos_disponibles ≡ some n
      → wait_recurso_lista r pid k ≡ ok k'
      → libres r k' + asignados r k' + en_espera r k ≡ libres r k + asignados r k + en_espera r k'
  unfolding wait_recurso_lista wait_en Igual
  wait_recurso_lista-conserva n pid k k' e h =
      go (dictionary_get strcmp_eq r k.recursos_disponibles) refl h
    where
      go :
          (o : Option ℕ)
          → dictionary_get strcmp_eq r k.recursos_disponibles ≡ o
          → wait_en o r pid k ≡ ok k'
          → Igual k k'
      go none d h = cc
      go (some m) d h =
          let (k1, a, b) = >>=-eq-ok (registrar_recursos_del_proceso r pid k) _ h in
          let z : tomar m r pid k1 ≡ k' = cc in
          let (s, i, j) = asignados-registrar r pid k k1 a in
          let t = tomar-suma m pid k1 (rw (i) d) in
          subst (λ x. Igual k x) z (traer k k1 (tomar m r pid k1) s i j t)

  -- The list of the process loses one entry.
  asignados-quitar :
      (pid : ℕ) (rs : List Cadena) (a : Cadena) (k : Kernel)
      → dictionary_get ◌==◌ pid k.recursos_por_proceso ≡ some (some rs)
      → list_find (λ x. strcmp_eq x r) rs ≡ some a
      → suc (asignados r (con_asignados pid (list_remove (λ x. strcmp_eq x r) rs) k))
        ≡ asignados r k
  unfolding asignados
  asignados-quitar pid rs a k e f =
      let s =
        suma-put ◌==◌ (asignadas r) pid (some (list_remove (λ x. strcmp_eq x r) rs)) (some rs)
          k.recursos_por_proceso e in
      omega (arith, s, apariciones-quitar r rs a f)

  -- An instance that is released is one more free or one less awaited.
  liberar-suma :
      (n : ℕ) (k k' : Kernel)
      → dictionary_get strcmp_eq r k.recursos_disponibles ≡ some n
      → dictionary_get strcmp_eq r (dictionary_remove strcmp_eq r k.recursos_en_uso) ≡ none
      → liberar_recurso_y_actualizar_ready r k ≡ ok k'
      → (libres r k' + en_espera r k ≡ suc (libres r k + en_espera r k'))
        × (asignados r k' ≡ asignados r k)
  unfolding liberar_recurso_y_actualizar_ready liberar_recurso_en libres en_espera asignados
  liberar-suma n k k' e u = go (dictionary_get strcmp_eq r k.recursos_en_uso) refl
    where
      Bien : Kernel → Type 0
      Bien x =
          (libres r x + en_espera r k ≡ suc (libres r k + en_espera r x))
          × (asignados r x ≡ asignados r k)

      go :
          (o : Option (List ℕ))
          → dictionary_get strcmp_eq r k.recursos_en_uso ≡ o
          → liberar_recurso_en o r k ≡ ok k'
          → Bien k'
      go none d h =
          let z : record k {
            recursos_disponibles = dictionary_put strcmp_eq r (suc n) k.recursos_disponibles;
          }
              ≡ k' =
            ok_inj (rw (e) at h) in
          subst Bien z (
            rw (get-put strcmp_eq r (suc n) k.recursos_disponibles (strcmp_eq_refl r), e)
                (omega arith),
            refl,
          )
      go (some []) d h = cc
      go (some (p ∷ [])) d h =
          let z : a_ready p
                (record k { recursos_en_uso = dictionary_remove strcmp_eq r k.recursos_en_uso })
              ≡ k' =
            ok_inj (rw (e) at h) in
          subst Bien z (rw (u, d) (omega arith), refl)
      go (some (p ∷ q ∷ ps)) d h =
          let z : a_ready p (record k {
            recursos_en_uso = dictionary_put strcmp_eq r (q ∷ ps) k.recursos_en_uso;
          })
              ≡ k' =
            ok_inj (rw (e) at h) in
          subst Bien z (
            rw (get-put strcmp_eq r (q ∷ ps) k.recursos_en_uso (strcmp_eq_refl r), d) (omega arith),
            refl,
          )

  -- A SIGNAL that returns, on a resource of the configuration that the process holds, with at most
  -- one list of waiting PCBs for the resource in the dictionary, keeps the number of instances: the
  -- free ones and the assigned ones less the PCBs that wait.
  pub signal_recurso_lista-conserva :
      (n pid : ℕ) (rs : List Cadena) (a : Cadena) (k k' : Kernel)
      → dictionary_get strcmp_eq r k.recursos_disponibles ≡ some n
      → dictionary_get ◌==◌ pid k.recursos_por_proceso ≡ some (some rs)
      → list_find (λ x. strcmp_eq x r) rs ≡ some a
      → dictionary_get strcmp_eq r (dictionary_remove strcmp_eq r k.recursos_en_uso) ≡ none
      → signal_recurso_lista r pid k ≡ ok k'
      → libres r k' + asignados r k' + en_espera r k ≡ libres r k + asignados r k + en_espera r k'
  unfolding signal_recurso_lista signal_en quitar_recurso_del_proceso quitar_de libres en_espera
      asignados
  signal_recurso_lista-conserva n pid rs a k k' e f g u h =
      let k1 = con_asignados pid (list_remove (λ x. strcmp_eq x r) rs) k in
      let w : liberar_recurso_y_actualizar_ready r (adelante pid k1) ≡ ok k' = rw (e, f) at h in
      let (s, t) = liberar-suma n (adelante pid k1) k' e u w in
      let q = asignados-quitar pid rs a k f g in omega (arith, s, t, q)
