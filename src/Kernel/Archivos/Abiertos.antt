-- ===== src/Kernel/Archivos/Abiertos.antt =====
-- kernel.h: the global table of open files and the queues of the files belong together.
pub mod Cambios
pub mod Operaciones
use unix_os_simulation.Base.{
  ℕ, suc, ◌+◌, ◌<◌, ◌≡◌, ◌≢◌, ◌⊎◌, inl, inr, refl, sym, ap, subst, ◌∙◌, Bool, true, false, List, [],
  ◌∷◌, ◌++◌, Option, none, some, Outcome, ok, deref, ◌>>=◌, Sale, Sale-bind, Sale-bind_any, Sale-eq,
  Sale-mono, Cadena, codes, strcmp_eq, strcmp_eq_refl, strcmp_eq_sound, ◌==◌, ==_iff, if◌then◌else◌,
  if_elim, list_remove, In, arith,
}
use unix_os_simulation.Kernel.{Kernel, Descriptor}
use unix_os_simulation.Kernel.Diccionario.{
  dictionary_get, dictionary_put, dictionary_remove, get-put,
}
use unix_os_simulation.Kernel.Diccionario.Claves.{
  Unicas, get-put_other, get-remove_other, get-remove_self, Unicas-remove, Unicas-put,
}
use unix_os_simulation.Kernel.Marco.{Archivero, archivero}
use unix_os_simulation.Kernel.Archivos.{buscar_descriptor}

abbrev pub Distintos : List ℕ → Type 0
Distintos [] = Unit
Distintos (x ∷ xs) = (In x xs → ⊥) × Distintos xs

pub In-append : (x : ℕ) (xs ys : List ℕ) → In x xs → In x (xs ++ ys)
In-append x [] ys h = absurd h
In-append x (y ∷ xs) ys h = ground (arith, In-append x xs ys)

pub In-append_last : (x : ℕ) (xs : List ℕ) → In x (xs ++ x ∷ [])
In-append_last x [] = inl refl
In-append_last x (y ∷ xs) = inr (In-append_last x xs)

pub append-In : (x y : ℕ) (xs : List ℕ) → In x (xs ++ y ∷ []) → In x xs ⊎ (x ≡ y)
append-In x y [] h = ground (arith, h)
append-In x y (z ∷ xs) h = ground (arith, append-In x y xs)

pub Distintos-append :
    (y : ℕ) (xs : List ℕ) → Distintos xs → (In y xs → ⊥) → Distintos (xs ++ y ∷ [])
Distintos-append y [] d n = (λ h. h, tt)
Distintos-append y (x ∷ xs) (a, d) n = (
  λ h. elim (append-In x y xs h) [ inl i ↦ a i | inr e ↦ n (inl (sym e)) ],
  Distintos-append y xs d (λ i. n (inr i)),
)

pub list_remove-In : (x d : ℕ) (xs : List ℕ) → In x (list_remove (λ z. z == d) xs) → In x xs
list_remove-In x d [] h = absurd h
list_remove-In x d (y ∷ xs) h = ground (arith, list_remove-In x d xs)

pub In-list_remove : (x d : ℕ) (xs : List ℕ) → In x xs → x ≢ d → In x (list_remove (λ z. z == d) xs)
In-list_remove x d [] h n = absurd h
In-list_remove x d (y ∷ xs) h n = ground (arith, In-list_remove x d xs)

pub list_remove-other :
    (d : ℕ) (xs : List ℕ) → Distintos xs → In d (list_remove (λ z. z == d) xs) → ⊥
list_remove-other d [] u h = h
list_remove-other d (y ∷ xs) (a, u) h = ground (arith, a, h, list_remove-other d xs u)

pub Distintos-list_remove :
    (d : ℕ) (xs : List ℕ) → Distintos xs → Distintos (list_remove (λ z. z == d) xs)
Distintos-list_remove d [] u = tt
Distintos-list_remove d (y ∷ xs) (a, u) =
    if_elim Distintos (y == d) u (λ h. a (list_remove-In y d xs h), Distintos-list_remove d xs u)

pub eq_sound : (a b : ℕ) → (a == b) ≡ true → a ≡ b
eq_sound a b e = (==_iff a b).0 e

pub eq_refl : (a : ℕ) → (a == a) ≡ true
eq_refl a = ground arith

-- The addresses of the global table are distinct, below the next one, and lead to descriptors; each
-- file has at most one queue, and a file that has one has a descriptor in the table.
pub record IsAbierto (a : Archivero) : Type 0 where
  pub distintos : Distintos a.a_gdt
  pub frescos : (d : ℕ) → In d a.a_gdt → d < a.a_proximo
  pub vivos :
      (d : ℕ) → In d a.a_gdt → (x : Descriptor) × (dictionary_get ◌==◌ d a.a_descriptores ≡ some x)
  pub unicas : Unicas strcmp_eq a.a_colas
  pub abiertas :
      (name : Cadena) (q : List ℕ)
      → dictionary_get strcmp_eq name a.a_colas ≡ some q
      → (d : ℕ) × In d a.a_gdt
        × (x : Descriptor) × (dictionary_get ◌==◌ d a.a_descriptores ≡ some x)
        × (x.file_name ≡ name)

-- A file that is found nowhere in the table has no queue.
busca :
    (name : Cadena) (h : List (ℕ × Descriptor)) (ds : List ℕ) (d : ℕ) (x : Descriptor)
    → In d ds
    → dictionary_get ◌==◌ d h ≡ some x
    → x.file_name ≡ name
    → buscar_descriptor h name ds ≡ ok none
    → ⊥
unfolding buscar_descriptor
busca name h [] d x i g f e = i
busca name h (y ∷ ds) d x i g f e =
    go (dictionary_get ◌==◌ y h) refl e i (λ m c. busca name h ds d x m g f c)
  where
    go :
        (o : Option Descriptor)
        → dictionary_get ◌==◌ y h ≡ o
        → (deref o >>= λ aux.
            if strcmp_eq aux.file_name name then ok (some y) else buscar_descriptor h name ds)
          ≡ ok none
        → (d ≡ y) ⊎ In d ds
        → (In d ds → buscar_descriptor h name ds ≡ ok none → ⊥)
        → ⊥
    go none c e i r = cc
    go (some aux) c e (inl m) s =
        let r = strcmp_eq_refl name in
        let t : some aux ≡ some x = sym c ∙ (rw (sym m) g) in
        let u : aux ≡ x = cc in
        let v : strcmp_eq aux.file_name name ≡ true = rw (u, f) r in ground (arith, e, v)
    go (some aux) c e (inr m) s = ground (arith, e, s m)

pub IsAbierto-sin :
    (k : Kernel)
    → IsAbierto (archivero k)
    → (name : Cadena) → buscar_descriptor k.descriptores name k.gdt ≡ ok none
    → dictionary_get strcmp_eq name k.colas_archivos ≡ none
unfolding archivero
IsAbierto-sin k a name e = go (dictionary_get strcmp_eq name k.colas_archivos) refl
  where
    go : (o : Option (List ℕ)) → dictionary_get strcmp_eq name k.colas_archivos ≡ o → o ≡ none
    go none g = refl
    go (some q) g =
        let (d, i, x, h, f) = a.abiertas name q g in
        absurd (busca name k.descriptores k.gdt d x i h f e)
