-- ===== src/Consola/Lineas.antt =====
-- What `leer_pseudocodigo` makes of a file of lines.
use unix_os_simulation.Base.{
  ℕ, zero, suc, ◌+◌, ◌<◌, ◌≤◌, ◌≡◌, ◌≢◌, ◌⊎◌, inl, inr, refl, ap, ◌∙◌, Bool, Bool-cases, true,
  false, List, [], ◌∷◌, ◌++◌, append_assoc, Option, none, some, Outcome, ok, exits, faults, ◌>>=◌,
  length, arith, length-append, map, ◌==◌,
}
use unix_os_simulation.Biblioteca.Paquete.RoundTrip.{All}
use unix_os_simulation.Consola.{
  max_leidos, leer_linea, en_linea, es_salto, cortar, bloque, agrega, lineas, procesar,
  leer_pseudocodigo,
}

-- A character of a line of text.
abbrev pub IsVisible : ℕ → Type 0
IsVisible c = (c ≢ 10) × (c ≢ 0)

-- A line that is not empty and fits, with its newline, in what one `fgets` reads.
abbrev pub IsLinea : List ℕ → Type 0
IsLinea l = All IsVisible l × (l ≢ []) × (length l < max_leidos)

-- The file in which each line ends with a newline.
abbrev pub texto : List (List ℕ) → List ℕ
texto [] = []
texto (l ∷ ls) = l ++ 10 ∷ texto ls

leer_linea-salto :
    (n : ℕ) (l f : List ℕ)
    → All IsVisible l
    → length l < n
    → leer_linea n (l ++ 10 ∷ f) ≡ (l ++ 10 ∷ [], false, f)
unfolding leer_linea
leer_linea-salto zero l f h k = absurd (omega arith)
leer_linea-salto (suc n) [] f h k = refl
leer_linea-salto (suc n) (c ∷ cs) f h k =
    let e : (c == 10) ≡ false = ground (arith, h.0.0) in
    rw (e, leer_linea-salto n cs f h.1 (omega arith))

leer_linea-fin :
    (n : ℕ) (l : List ℕ) → All IsVisible l → length l < n → leer_linea n l ≡ (l, true, [])
unfolding leer_linea
leer_linea-fin zero l h k = absurd (omega arith)
leer_linea-fin (suc n) [] h k = refl
leer_linea-fin (suc n) (c ∷ cs) h k =
    let e : (c == 10) ≡ false = ground (arith, h.0.0) in
    rw (e, leer_linea-fin n cs h.1 (omega arith))

cortar-visible : (l : List ℕ) → All IsVisible l → cortar l ≡ l
unfolding cortar
cortar-visible [] h = refl
cortar-visible (c ∷ cs) h =
    let e : (c == 10) ≡ false = ground (arith, h.0.0) in
    let z : (c == 0) ≡ false = ground (arith, h.0.1) in rw (e, z, cortar-visible cs h.1)

cortar-salto : (l : List ℕ) → All IsVisible l → cortar (l ++ 10 ∷ []) ≡ l
unfolding cortar
cortar-salto [] h = refl
cortar-salto (c ∷ cs) h =
    let e : (c == 10) ≡ false = ground (arith, h.0.0) in
    let z : (c == 0) ≡ false = ground (arith, h.0.1) in rw (e, z, cortar-salto cs h.1)

linea-salto :
    (fuel : ℕ) (linea : Option (List ℕ)) (l f : List ℕ)
    → IsLinea l
    → lineas (suc fuel) false linea (l ++ 10 ∷ f) ≡ agrega (bloque l) (lineas fuel false (some l) f)
unfolding lineas procesar en_linea es_salto
linea-salto fuel linea [] f h = absurd (h.1 refl)
linea-salto fuel linea (c ∷ cs) f h =
    let e : (c == 10) ≡ false = ground (arith, h.0.0.0) in
    let q = leer_linea-salto max_leidos (c ∷ cs) f h.0 h.2 in
    rw (lineas, ap (λ r. r.0) q, ap (λ r. r.1) q, ap (λ r. r.2) q, e, cortar-salto (c ∷ cs) h.0)

linea-fin :
    (fuel : ℕ) (linea : Option (List ℕ)) (l : List ℕ)
    → IsLinea l
    → lineas (suc fuel) false linea l ≡ some (ok (bloque l ∷ []))
unfolding lineas procesar en_linea es_salto
linea-fin fuel linea [] h = absurd (h.1 refl)
linea-fin fuel linea (c ∷ cs) h =
    let e : (c == 10) ≡ false = ground (arith, h.0.0.0) in
    let q = leer_linea-fin max_leidos (c ∷ cs) h.0 h.2 in
    rw (lineas, ap (λ r. r.0) q, ap (λ r. r.1) q, e, cortar-visible (c ∷ cs) h.0)

linea-repetida :
    (fuel : ℕ) (l : List ℕ)
    → IsLinea l
    → lineas (suc fuel) false (some l) [] ≡ some (ok (bloque l ∷ []))
unfolding lineas procesar en_linea es_salto leer_linea
linea-repetida fuel [] h = absurd (h.1 refl)
linea-repetida fuel (c ∷ cs) h =
    let e : (c == 10) ≡ false = ground (arith, h.0.0.0) in
    rw (lineas, e, cortar-visible (c ∷ cs) h.0)

leer_linea-length : (n : ℕ) (f : List ℕ) → length (leer_linea n f).2 ≤ length f
unfolding leer_linea
leer_linea-length zero f = omega arith
leer_linea-length (suc n) [] = omega arith
leer_linea-length (suc n) (c ∷ cs) = ground (arith, leer_linea-length n cs)

leer_linea-avanza :
    (n : ℕ) (f : List ℕ)
    → ((leer_linea (suc n) f).1 ≡ true) ⊎ (length (leer_linea (suc n) f).2 < length f)
unfolding leer_linea
leer_linea-avanza n [] = inl refl
leer_linea-avanza n (c ∷ cs) = inr (ground (arith, leer_linea-length n cs))

procesar-termina :
    (linea : Option (List ℕ)) (sigue : Option (List ℕ) → Option (Outcome (List (List ℕ))))
    → ((s : Option (List ℕ)) → (o : Outcome (List (List ℕ))) × (sigue s ≡ some o))
    → (o : Outcome (List (List ℕ))) × (procesar linea sigue ≡ some o)
unfolding procesar
procesar-termina none sigue h = (faults, refl)
procesar-termina (some l) sigue h = elim (Bool-cases (es_salto l)) [
  | inl e ↦ let (o, q) = h (some l) in (o, rw (procesar, e) q)
  | inr e ↦
      let (o, q) = h (some (cortar l)) in
      (
        o >>= λ ls. ok (bloque (cortar l) ∷ ls),
        rw (procesar, e) (ap (agrega (bloque (cortar l))) q),
      )
]

lineas-termina :
    (fuel : ℕ) (feof : Bool) (linea : Option (List ℕ)) (f : List ℕ)
    → (feof ≡ true) ⊎ (length f < fuel)
    → (o : Outcome (List (List ℕ))) × (lineas fuel feof linea f ≡ some o)
unfolding lineas
lineas-termina fuel true linea f h = (ok [], refl)
lineas-termina zero false linea f h = absurd (ground arith)
lineas-termina (suc fuel) false linea f h =
    let r = leer_linea max_leidos f in
    let avanza : (r.1 ≡ true) ⊎ (length r.2 < fuel) = elim (leer_linea-avanza 254 f) [
      | inl e ↦ inl e
      | inr l ↦ inr (ground (arith, h, l))
    ] in
    procesar-termina (en_linea r.0 linea) (λ s. lineas fuel r.1 s r.2)
      (λ s. lineas-termina fuel r.1 s r.2 avanza)

-- The loop of leer_pseudocodigo ends on every file, whatever its bytes are: one turn more than the
-- file has bytes is fuel enough.
pub leer_pseudocodigo-termina :
    (archivo : Option (List ℕ))
    → (o : Outcome (List (List ℕ))) × (leer_pseudocodigo archivo ≡ some o)
unfolding leer_pseudocodigo
leer_pseudocodigo-termina none = (exits, refl)
leer_pseudocodigo-termina (some f) =
    lineas-termina (suc (length f)) false none f (inr (omega arith))

lineas-texto :
    (fuel : ℕ) (linea : Option (List ℕ)) (ls : List (List ℕ)) (u : List ℕ)
    → All IsLinea ls
    → IsLinea u
    → length ls + 1 < fuel
    → (lineas fuel false linea (texto ls ++ u) ≡ some (ok (map bloque ls ++ bloque u ∷ [])))
      × (lineas fuel false linea (texto ls ++ (u ++ 10 ∷ []))
          ≡ some (ok (map bloque ls ++ bloque u ∷ bloque u ∷ [])))
lineas-texto zero linea ls u h i k = absurd (omega arith)
lineas-texto (suc zero) linea ls u h i k = absurd (omega arith)
lineas-texto (suc (suc fuel)) linea [] u h i k = (
  linea-fin (suc fuel) linea u i,
  linea-salto (suc fuel) linea u [] i ∙ ap (agrega (bloque u)) (linea-repetida fuel u i),
)
lineas-texto (suc (suc fuel)) linea (l ∷ ls) u h i k =
    let (a, b) = lineas-texto (suc fuel) (some l) ls u h.1 i (omega arith) in
    (
      rw (append_assoc l (10 ∷ texto ls) u)
          (linea-salto (suc fuel) linea l (texto ls ++ u) h.0 ∙ ap (agrega (bloque l)) a),
      rw (append_assoc l (10 ∷ texto ls) (u ++ 10 ∷ [])) (
          linea-salto (suc fuel) linea l (texto ls ++ (u ++ 10 ∷ [])) h.0
          ∙ ap (agrega (bloque l)) b),
    )

length-texto : (ls : List (List ℕ)) → length ls ≤ length (texto ls)
length-texto [] = omega arith
length-texto (l ∷ ls) = omega (arith, length-append l (10 ∷ texto ls), length-texto ls)

length-IsLinea : (l : List ℕ) → IsLinea l → 0 < length l
length-IsLinea [] h = absurd (h.1 refl)
length-IsLinea (c ∷ cs) h = omega arith

-- Of a file of lines that are not empty, hold neither newlines nor zero bytes and have fewer than
-- 255 characters, leer_pseudocodigo returns the lines in their order when the last line has no
-- newline behind it; when it has one, the last line is returned twice.
pub leer_pseudocodigo-texto :
    (ls : List (List ℕ)) (u : List ℕ)
    → All IsLinea ls
    → IsLinea u
    → (leer_pseudocodigo (some (texto ls ++ u)) ≡ some (ok (map bloque ls ++ bloque u ∷ [])))
      × (leer_pseudocodigo (some (texto ls ++ (u ++ 10 ∷ [])))
          ≡ some (ok (map bloque ls ++ bloque u ∷ bloque u ∷ [])))
unfolding leer_pseudocodigo
leer_pseudocodigo-texto ls u h i =
    let p = length-texto ls in
    let q = length-IsLinea u i in
    let n = length-append (texto ls) u in
    let m = length-append (texto ls) (u ++ 10 ∷ []) in
    let k = length-append u (10 ∷ []) in
    (
      (lineas-texto (suc (length (texto ls ++ u))) none ls u h i (omega (arith, n))).0,
      (lineas-texto (suc (length (texto ls ++ (u ++ 10 ∷ [])))) none ls u h i
          (omega (arith, m, k))).1,
    )
