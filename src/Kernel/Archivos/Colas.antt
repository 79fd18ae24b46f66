-- ===== src/Kernel/Archivos/Colas.antt =====
-- kernel.h: where PCBs stand before and after files are opened and closed.
use unix_os_simulation.Base.{
  ℕ, ◌+◌, ◌≤◌, ◌≡◌, refl, ◌∙◌, Bool, true, false, List, [], ◌∷◌, ◌++◌, Option, none, some, ok,
  deref, Sale, Sale-bind, Sale-bind_any, Sale-eq, Sale-ok, Sale-mono, Cadena, codes, strcmp_eq,
  ◌==◌, list_remove, arith,
}
use unix_os_simulation.Kernel.{Kernel, a_ready}
use unix_os_simulation.Kernel.Diccionario.{
  dictionary_get, suma-put_new, suma-put, suma-put_le, suma-remove,
}
use unix_os_simulation.Kernel.Presencia.{peso, presentes, Suma, peso-append}
use unix_os_simulation.Kernel.Recursos.Presentes.{a_ready-Suma, finalizar-Suma}
use unix_os_simulation.Kernel.Archivos.{
  buscar_descriptor, tabla_de, con_tabla, liberar_cola, liberar_archivo, cerrar, process_f_close,
  esperar_archivo, abrir_nuevo, abrir, process_f_open,
}

module _ (w : ℕ → ℕ) where
  liberar_cola-Suma :
      (name : Cadena) (d : ℕ) (k : Kernel) (o : Option (List ℕ))
      → dictionary_get strcmp_eq name k.colas_archivos ≡ o
      → Sale (λ k'. presentes w k' ≡ presentes w k) (liberar_cola o name d k)
  unfolding liberar_cola presentes
  liberar_cola-Suma name d k none e = tt
  liberar_cola-Suma name d k (some []) e =
      omega (arith, suma-remove strcmp_eq (peso w) name [] k.colas_archivos e)
  liberar_cola-Suma name d k (some (p ∷ ps)) e = omega (
    arith,
    suma-put strcmp_eq (peso w) name ps (p ∷ ps) k.colas_archivos e,
    peso-append w k.consolas_ready (p ∷ []),
  )

  pub liberar_archivo-Suma :
      (d : ℕ) (k : Kernel) → Sale (λ k'. presentes w k' ≡ presentes w k) (liberar_archivo d k)
  unfolding liberar_archivo
  liberar_archivo-Suma d k =
      Sale-bind_any _ (deref (dictionary_get ◌==◌ d k.descriptores)) _
        (λ t. liberar_cola-Suma t.file_name d k _ refl)

  cerrar-Suma :
      (name : Cadena) (pid : ℕ) (k : Kernel) (o : Option ℕ)
      → Sale (Suma w k (w pid)) (cerrar o name pid k)
  unfolding cerrar presentes
  cerrar-Suma name pid k none =
      finalizar-Suma w (codes "F_CLOSE: " ++ name ++ codes " no abierto") pid
        (record k { replanificar = true })
  cerrar-Suma name pid k (some d) =
      let k1 = con_tabla pid (list_remove (λ x. x == d) (tabla_de pid k)) k in
      Sale-mono (liberar_archivo d (a_ready pid k1)) (liberar_archivo-Suma d (a_ready pid k1))
        (λ k' e. e ∙ a_ready-Suma w pid k1)

  pub f_close-Suma :
      (name : Cadena) (pid : ℕ) (k : Kernel) → Sale (Suma w k (w pid)) (process_f_close name pid k)
  unfolding process_f_close
  f_close-Suma name pid k =
      Sale-bind_any _ (buscar_descriptor k.descriptores name (tabla_de pid k)) _
        (λ o. cerrar-Suma name pid k o)

  esperar_archivo-Suma :
      (pid : ℕ) (name : Cadena) (t : List ℕ) (k : Kernel) (o : Option (List ℕ))
      → dictionary_get strcmp_eq name k.colas_archivos ≡ o
      → Sale (Suma w k (w pid)) (esperar_archivo o name pid (con_tabla pid t k))
  unfolding esperar_archivo presentes
  esperar_archivo-Suma pid name t k none e = tt
  esperar_archivo-Suma pid name t k (some c) e = omega (
    arith,
    suma-put strcmp_eq (peso w) name (c ++ pid ∷ []) c k.colas_archivos e,
    peso-append w c (pid ∷ []),
  )

  abrir_nuevo-Suma :
      (pid : ℕ) (answer : Bool) (name : Cadena) (k : Kernel)
      → dictionary_get strcmp_eq name k.colas_archivos ≡ none
      → Sale (Suma w k (w pid)) (abrir_nuevo answer name pid k)
  unfolding abrir_nuevo presentes
  abrir_nuevo-Suma pid false name k e = tt
  abrir_nuevo-Suma pid true name k e =
      omega (arith, suma-put_new strcmp_eq (peso w) name [] k.colas_archivos e)

  -- Whatever the queues of the files are, no PCB is added but the one of the process.
  abrir-le :
      (answer : Bool) (name : Cadena) (pid : ℕ) (k : Kernel) (o : Option ℕ)
      → Sale (λ k'. presentes w k' ≤ presentes w k + w pid) (abrir o answer name pid k)
  unfolding abrir abrir_nuevo presentes
  abrir-le false name pid k none = tt
  abrir-le true name pid k none =
      omega (arith, suma-put_le strcmp_eq (peso w) name [] k.colas_archivos)
  abrir-le answer name pid k (some d) =
      Sale-mono
        (esperar_archivo (dictionary_get strcmp_eq name k.colas_archivos) name pid
          (con_tabla pid (d ∷ tabla_de pid k) k))
        (esperar_archivo-Suma pid name (d ∷ tabla_de pid k) k _ refl) (λ k' e. omega (arith, e))

  pub f_open-le :
      (answer : Bool) (name : Cadena) (pid : ℕ) (k : Kernel)
      → Sale (λ k'. presentes w k' ≤ presentes w k + w pid) (process_f_open answer name pid k)
  unfolding process_f_open
  f_open-le answer name pid k =
      Sale-bind_any _ (buscar_descriptor k.descriptores name k.gdt) _
        (λ o. abrir-le answer name pid k o)

  pub f_open-Suma :
      (answer : Bool) (name : Cadena) (pid : ℕ) (k : Kernel)
      → (buscar_descriptor k.descriptores name k.gdt ≡ ok none
          → dictionary_get strcmp_eq name k.colas_archivos ≡ none)
      → Sale (Suma w k (w pid)) (process_f_open answer name pid k)
  unfolding process_f_open abrir
  f_open-Suma answer name pid k sin =
      Sale-bind (λ o. buscar_descriptor k.descriptores name k.gdt ≡ ok o) (Suma w k (w pid))
        (buscar_descriptor k.descriptores name k.gdt) _ (Sale-eq _ _ (λ o e. e)) go
    where
      go :
          (o : Option ℕ)
          → buscar_descriptor k.descriptores name k.gdt ≡ ok o
          → Sale (Suma w k (w pid)) (abrir o answer name pid k)
      go none e = abrir_nuevo-Suma pid answer name k (sin e)
      go (some d) e = esperar_archivo-Suma pid name (d ∷ tabla_de pid k) k _ refl

-- An F_CLOSE that returns, of a file that the process has open or of one that it has not, puts its
-- PCB into exactly one of the places where PCBs stand, and every PCB else, the one that gets the
-- file included, stands there as often as before, by any weight of the PCBs.
pub process_f_close-presentes :
    (name : Cadena) (pid : ℕ) (k k' : Kernel)
    → process_f_close name pid k ≡ ok k'
    → (w : ℕ → ℕ) → presentes w k' ≡ presentes w k + w pid
process_f_close-presentes name pid k k' h w =
    Sale-ok (Suma w k (w pid)) (process_f_close name pid k) k' (f_close-Suma w name pid k) h

-- An F_OPEN that returns, where a file that is not in the global table has no queue, puts its PCB
-- into exactly one of the places where PCBs stand, and every PCB else stands there as often as
-- before, by any weight of the PCBs.
pub process_f_open-presentes :
    (answer : Bool) (name : Cadena) (pid : ℕ) (k k' : Kernel)
    → (buscar_descriptor k.descriptores name k.gdt ≡ ok none
        → dictionary_get strcmp_eq name k.colas_archivos ≡ none)
    → process_f_open answer name pid k ≡ ok k'
    → (w : ℕ → ℕ) → presentes w k' ≡ presentes w k + w pid
process_f_open-presentes answer name pid k k' sin h w =
    Sale-ok (Suma w k (w pid)) (process_f_open answer name pid k) k'
      (f_open-Suma w answer name pid k sin) h
