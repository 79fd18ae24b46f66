-- ===== src/Kernel/Archivos.antt =====
-- kernel.h: opening and closing of files.
pub mod Colas
pub mod Abiertos
use unix_os_simulation.Base.{
  ℕ, suc, Bool, true, false, List, [], ◌∷◌, ◌++◌, Option, none, some, Outcome, ok, exits, faults,
  deref, ◌>>=◌, Cadena, codes, strcmp_eq, ◌==◌, list_remove, if◌then◌else◌,
}
use unix_os_simulation.Base.Int.{pos}
use unix_os_simulation.Kernel.{
  Kernel, Descriptor, abre_archivo, enviar, a_ready, adelante, finalizar,
}
use unix_os_simulation.Kernel.Diccionario.{dictionary_get, dictionary_put, dictionary_remove}

-- `list_find` with `descriptor_finder`: every pointer on the way is followed.
unfoldable pub buscar_descriptor : List (ℕ × Descriptor) → Cadena → List ℕ → Outcome (Option ℕ)
buscar_descriptor h name [] = ok none
buscar_descriptor h name (d ∷ ds) = do
  aux ← deref (dictionary_get ◌==◌ d h)
  let resto = buscar_descriptor h name ds
  if strcmp_eq aux.file_name name then ok (some d) else resto

abbrev pub tabla_de : ℕ → Kernel → List ℕ
tabla_de pid k = elim (dictionary_get ◌==◌ pid k.tablas_archivos) [ none ↦ [] | some t ↦ t ]

abbrev pub con_tabla : ℕ → List ℕ → Kernel → Kernel
con_tabla pid t k = record k { tablas_archivos = dictionary_put ◌==◌ pid t k.tablas_archivos }

-- The descriptor leaves the global table, and its queue the dictionary.
abbrev pub olvidar : Cadena → ℕ → Kernel → Kernel
olvidar name d k = record k {
  gdt = list_remove (λ x. x == d) k.gdt;
  colas_archivos = dictionary_remove strcmp_eq name k.colas_archivos;
  descriptores = dictionary_remove ◌==◌ d k.descriptores;
}

-- By the queue of the file: nobody waits, or the first that waits goes to the ready queue.
unfoldable pub liberar_cola : Option (List ℕ) → Cadena → ℕ → Kernel → Outcome Kernel
liberar_cola none name d k = faults
liberar_cola (some []) name d k = ok (olvidar name d k)
liberar_cola (some (un_pcb ∷ cola)) name d k = ok (
    a_ready un_pcb (record k {
      replanificar = false;
      colas_archivos = dictionary_put strcmp_eq name cola k.colas_archivos;
    }))

unfoldable pub liberar_archivo : ℕ → Kernel → Outcome Kernel
unfolding liberar_cola
liberar_archivo d k = do
  descr ← deref (dictionary_get ◌==◌ d k.descriptores)
  liberar_cola (dictionary_get strcmp_eq descr.file_name k.colas_archivos) descr.file_name d k

-- A file that the process has not opened ends it.
unfoldable pub cerrar : Option ℕ → Cadena → ℕ → Kernel → Outcome Kernel
unfolding liberar_archivo
cerrar none name pid k = ok (
    finalizar (codes "F_CLOSE: " ++ name ++ codes " no abierto") pid
      (record k { replanificar = true }))
cerrar (some d) name pid k =
    liberar_archivo d (a_ready pid (con_tabla pid (list_remove (λ x. x == d) (tabla_de pid k)) k))

unfoldable pub process_f_close : Cadena → ℕ → Kernel → Outcome Kernel
unfolding cerrar buscar_descriptor
process_f_close name pid k = do
  d ← buscar_descriptor k.descriptores name (tabla_de pid k)
  cerrar d name pid k

-- An open file: the PCB waits in the queue of the file.
unfoldable pub esperar_archivo : Option (List ℕ) → Cadena → ℕ → Kernel → Outcome Kernel
esperar_archivo none name pid k = faults
esperar_archivo (some cola) name pid k = ok (record k {
  colas_archivos = dictionary_put strcmp_eq name (cola ++ pid ∷ []) k.colas_archivos;
})

-- A file that nobody has open: an empty queue, a new descriptor in both tables, and the PCB goes on.
-- Any answer of the file system but 1 ends the kernel.
unfoldable pub abrir_nuevo : Bool → Cadena → ℕ → Kernel → Outcome Kernel
abrir_nuevo answer name pid k =
    if answer
    then ok (
        adelante pid (
          enviar (abre_archivo name) (record (con_tabla pid (k.proximo ∷ tabla_de pid k) k) {
            descriptores =
                (k.proximo, record { file_name = name; pointer = pos 0 }) ∷ k.descriptores;
            proximo = suc k.proximo;
            gdt = k.gdt ++ k.proximo ∷ [];
            colas_archivos = dictionary_put strcmp_eq name [] k.colas_archivos;
          })))
    else exits

unfoldable pub abrir : Option ℕ → Bool → Cadena → ℕ → Kernel → Outcome Kernel
unfolding abrir_nuevo esperar_archivo
abrir none answer name pid k = abrir_nuevo answer name pid k
abrir (some d) answer name pid k =
    esperar_archivo (dictionary_get strcmp_eq name k.colas_archivos) name pid
      (con_tabla pid (d ∷ tabla_de pid k) k)

unfoldable pub process_f_open : Bool → Cadena → ℕ → Kernel → Outcome Kernel
unfolding abrir buscar_descriptor
process_f_open answer name pid k = do
  d ← buscar_descriptor k.descriptores name k.gdt
  abrir d answer name pid k
