-- ===== src/Kernel/Archivos/Abiertos/Cambios.antt =====
-- kernel.h: the table of open files and their queues, when a file is opened, awaited, closed or its
-- pointer set.
use unix_os_simulation.Base.{
  ℕ, suc, ◌≡◌, ◌≢◌, ◌⊎◌, inl, inr, refl, sym, ap, subst, ◌∙◌, Bool, true, false, List, [], ◌∷◌,
  ◌++◌, none, some, Cadena, strcmp_eq, strcmp_eq_refl, strcmp_eq_sound, ◌==◌, list_remove, In,
  Bool-cases, arith,
}
use unix_os_simulation.Kernel.{Descriptor}
use unix_os_simulation.Kernel.Diccionario.{
  dictionary_get, dictionary_put, dictionary_remove, get-put,
}
use unix_os_simulation.Kernel.Diccionario.Claves.{
  get-put_other, get-remove_other, get-remove_self, Unicas-remove, Unicas-put,
}
use unix_os_simulation.Kernel.Marco.{Archivero}
use unix_os_simulation.Kernel.Archivos.Abiertos.{
  In-append, In-append_last, append-In, Distintos-append, list_remove-In, In-list_remove,
  list_remove-other, Distintos-list_remove, eq_sound, eq_refl, IsAbierto,
}

-- Texts are equal or the test says that they are not.
igual_o_no : (a b : Cadena) → (a ≡ b) ⊎ (strcmp_eq a b ≡ false)
igual_o_no a b = elim (Bool-cases (strcmp_eq a b)) [
  | inl e ↦ inl (strcmp_eq_sound a b e)
  | inr e ↦ inr e
]

distintas : (a b : Cadena) → strcmp_eq a b ≡ false → a ≢ b
distintas a b e c =
    let r : strcmp_eq a b ≡ true = subst (λ x. strcmp_eq a x ≡ true) c (strcmp_eq_refl a) in
    absurd (contradice (strcmp_eq a b) r e)
  where
    contradice : (t : Bool) → t ≡ true → t ≡ false → ⊥
    contradice true x y = cc
    contradice false x y = cc

-- Another queue for a file that has one.
pub IsAbierto-cola :
    (a : Archivero) (name : Cadena) (q c : List ℕ)
    → dictionary_get strcmp_eq name a.a_colas ≡ some c
    → IsAbierto a
    → IsAbierto (record a { a_colas = dictionary_put strcmp_eq name q a.a_colas })
IsAbierto-cola a name q c g s = record {
  distintos = s.distintos;
  frescos = s.frescos;
  vivos = s.vivos;
  unicas = Unicas-put strcmp_eq strcmp_eq_refl strcmp_eq_sound name q a.a_colas s.unicas;
  abiertas = λ n2 q2 e. elim (igual_o_no n2 name) [
    | inl i ↦ let (d, h, x, f, m) = s.abiertas name c g in (d, h, x, f, m ∙ sym i)
    | inr i ↦ s.abiertas n2 q2 (
        sym (
          get-put_other strcmp_eq strcmp_eq_refl strcmp_eq_sound n2 name q a.a_colas
            (distintas n2 name i))
        ∙ e)
  ];
}

-- A new descriptor and an empty queue.
pub IsAbierto-nuevo :
    (a : Archivero) (name : Cadena) (x : Descriptor)
    → x.file_name ≡ name
    → IsAbierto a
    → IsAbierto (record {
      a_descriptores = (a.a_proximo, x) ∷ a.a_descriptores;
      a_proximo = suc a.a_proximo;
      a_gdt = a.a_gdt ++ a.a_proximo ∷ [];
      a_colas = dictionary_put strcmp_eq name [] a.a_colas;
    })
IsAbierto-nuevo a name x m s = record {
  distintos =
      Distintos-append a.a_proximo a.a_gdt s.distintos
        (λ i. omega (arith, s.frescos a.a_proximo i));
  frescos = λ d i. elim (append-In d a.a_proximo a.a_gdt i) [
    | inl h ↦ omega (arith, s.frescos d h)
    | inr e ↦ omega (arith, e)
  ];
  vivos = λ d i. elim (append-In d a.a_proximo a.a_gdt i) [
    | inl h ↦ let (y, g) = s.vivos d h in (y, ground (arith, g, s.frescos d h))
    | inr e ↦ (x, ground (arith, e))
  ];
  unicas = Unicas-put strcmp_eq strcmp_eq_refl strcmp_eq_sound name [] a.a_colas s.unicas;
  abiertas = λ n2 q2 e. elim (igual_o_no n2 name) [
    | inl i ↦ (a.a_proximo, In-append_last a.a_proximo a.a_gdt, x, ground arith, m ∙ sym i)
    | inr i ↦
        let (d, h, y, f, n) = s.abiertas n2 q2 (
          sym (
            get-put_other strcmp_eq strcmp_eq_refl strcmp_eq_sound n2 name [] a.a_colas
              (distintas n2 name i))
          ∙ e) in
        (d, In-append d a.a_gdt (a.a_proximo ∷ []) h, y, ground (arith, f, s.frescos d h), n)
  ];
}

-- A descriptor leaves the table with the queue of its file.
pub IsAbierto-olvido :
    (a : Archivero) (d : ℕ) (x : Descriptor)
    → dictionary_get ◌==◌ d a.a_descriptores ≡ some x
    → IsAbierto a
    → IsAbierto (record {
      a_descriptores = dictionary_remove ◌==◌ d a.a_descriptores;
      a_proximo = a.a_proximo;
      a_gdt = list_remove (λ z. z == d) a.a_gdt;
      a_colas = dictionary_remove strcmp_eq x.file_name a.a_colas;
    })
IsAbierto-olvido a d x g s = record {
  distintos = Distintos-list_remove d a.a_gdt s.distintos;
  frescos = λ e i. s.frescos e (list_remove-In e d a.a_gdt i);
  vivos = λ e i.
      let (y, h) = s.vivos e (list_remove-In e d a.a_gdt i) in
      let n : e ≢ d = λ c.
        list_remove-other d a.a_gdt s.distintos
          (subst (λ z. In z (list_remove (λ z. z == d) a.a_gdt)) c i) in
      (y, get-remove_other ◌==◌ eq_refl eq_sound e d a.a_descriptores n ∙ h);
  unicas = Unicas-remove strcmp_eq strcmp_eq_refl strcmp_eq_sound x.file_name a.a_colas s.unicas;
  abiertas = λ n2 q2 e. elim (igual_o_no n2 x.file_name) [
    | inl i ↦
        let z =
          get-remove_self strcmp_eq strcmp_eq_refl strcmp_eq_sound x.file_name a.a_colas s.unicas in
        absurd (vacia n2 q2 i z e)
    | inr i ↦
        let n = distintas n2 x.file_name i in
        let (d2, h, y, f, m) = s.abiertas n2 q2 (
          sym (get-remove_other strcmp_eq strcmp_eq_refl strcmp_eq_sound n2 x.file_name a.a_colas n)
          ∙ e) in
        let o : d2 ≢ d = λ c. n (sym m ∙ ap (λ (t : Descriptor). t.file_name) (mismo y x d2 c f)) in
        (
          d2,
          In-list_remove d2 d a.a_gdt h o,
          y,
          get-remove_other ◌==◌ eq_refl eq_sound d2 d a.a_descriptores o ∙ f,
          m,
        )
  ];
}
  where
    vacia :
        (n2 : Cadena) (q2 : List ℕ)
        → n2 ≡ x.file_name
        → dictionary_get strcmp_eq x.file_name (dictionary_remove strcmp_eq x.file_name a.a_colas)
          ≡ none
        → dictionary_get strcmp_eq n2 (dictionary_remove strcmp_eq x.file_name a.a_colas) ≡ some q2
        → ⊥
    vacia n2 q2 i z e =
        let w : dictionary_get strcmp_eq x.file_name
              (dictionary_remove strcmp_eq x.file_name a.a_colas)
            ≡ some q2 =
          subst
            (λ n.
              dictionary_get strcmp_eq n (dictionary_remove strcmp_eq x.file_name a.a_colas)
              ≡ some q2)
            i e in
        cc

    mismo :
        (y x0 : Descriptor) (d2 : ℕ)
        → d2 ≡ d
        → dictionary_get ◌==◌ d2 a.a_descriptores ≡ some y
        → y ≡ x
    mismo y x0 d2 c f =
        let w : some y ≡ some x =
          sym (subst (λ z. dictionary_get ◌==◌ z a.a_descriptores ≡ some y) c f) ∙ g in
        cc

-- The pointer of a descriptor is set.
pub IsAbierto-puntero :
    (a : Archivero) (d : ℕ) (x y : Descriptor)
    → dictionary_get ◌==◌ d a.a_descriptores ≡ some x
    → y.file_name ≡ x.file_name
    → IsAbierto a
    → IsAbierto (record a { a_descriptores = dictionary_put ◌==◌ d y a.a_descriptores })
IsAbierto-puntero a d x y g m s = record {
  distintos = s.distintos;
  frescos = s.frescos;
  vivos = λ e i. let (z, h) = s.vivos e i in let (u, v, w) = nuevo e z h in (u, v);
  unicas = s.unicas;
  abiertas = λ n q e.
      let (d2, h, z, f, o) = s.abiertas n q e in
      let (u, v, w) = nuevo d2 z f in (d2, h, u, v, w ∙ o);
}
  where
    nuevo :
        (e : ℕ) (z : Descriptor)
        → dictionary_get ◌==◌ e a.a_descriptores ≡ some z
        → (u : Descriptor) × (dictionary_get ◌==◌ e (dictionary_put ◌==◌ d y a.a_descriptores)
            ≡ some u)
          × (u.file_name ≡ z.file_name)
    nuevo e z h = elim (Bool-cases (e == d)) [
      | inl b ↦
          let c = eq_sound e d b in
          let t : some z ≡ some x =
            sym (subst (λ k. dictionary_get ◌==◌ k a.a_descriptores ≡ some z) c h) ∙ g in
          let v : z ≡ x = cc in
          (
            y,
            subst (λ k. dictionary_get ◌==◌ k (dictionary_put ◌==◌ d y a.a_descriptores) ≡ some y)
                (sym c) (get-put ◌==◌ d y a.a_descriptores (eq_refl d)),
            m ∙ ap (λ (t : Descriptor). t.file_name) (sym v),
          )
      | inr b ↦ (
        z,
        get-put_other ◌==◌ eq_refl eq_sound e d y a.a_descriptores (λ c. ground (arith, b, c)) ∙ h,
        refl,
      )
    ]
