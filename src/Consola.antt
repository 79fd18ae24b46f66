-- ===== src/Consola.antt =====
-- Consola/src/Consola.h: how the console reads a file of instructions and sends it to the kernel.
-- A file is the list of its bytes.
pub mod Lineas
pub mod Envio
use unix_os_simulation.Base.{
  ℕ, zero, suc, ◌+◌, Bool, true, false, ◌||◌, List, [], ◌∷◌, ◌++◌, Option, none, some, Outcome, ok,
  exits, faults, ◌>>=◌, length, ◌==◌, if◌then◌else◌,
}
use unix_os_simulation.Biblioteca.Paquete.{
  Paquete, crear_paquete, agregar_cadenas, serializar_paquete,
}

-- MAX_LINE_LENGTH less the place of the zero byte
abbrev pub max_leidos : ℕ
max_leidos = 255

-- `fgets`: what it reads, whether it met the end of the file, and the rest of the file.
unfoldable pub leer_linea : ℕ → List ℕ → List ℕ × Bool × List ℕ
leer_linea zero archivo = ([], false, archivo)
leer_linea (suc n) [] = ([], true, [])
leer_linea (suc n) (c ∷ cs) =
    let r = leer_linea n cs in if c == 10 then (c ∷ [], false, cs) else (c ∷ r.0, r.1, r.2)

-- The buffer keeps its bytes when nothing is read; before the first read it has none.
unfoldable pub en_linea : List ℕ → Option (List ℕ) → Option (List ℕ)
en_linea [] linea = linea
en_linea (c ∷ cs) linea = some (c ∷ cs)

-- `linea[0]=='\n'`
unfoldable pub es_salto : List ℕ → Bool
es_salto [] = false
es_salto (c ∷ cs) = c == 10

-- `linea[strcspn(linea, "\n")] = '\0'`: the string ends at the first newline or zero byte.
unfoldable pub cortar : List ℕ → List ℕ
cortar [] = []
cortar (c ∷ cs) = let rest = cortar cs in if (c == 10) || (c == 0) then [] else c ∷ rest

-- The copy of the string in a block of `strlen(linea) + 1` bytes.
abbrev pub bloque : List ℕ → List ℕ
bloque s = s ++ 0 ∷ []

abbrev pub agrega : List ℕ → Option (Outcome (List (List ℕ))) → Option (Outcome (List (List ℕ)))
agrega l none = none
agrega l (some o) = some (o >>= λ ls. ok (l ∷ ls))

-- The body of the loop behind `fgets`: an empty line is skipped, and the buffer stays as it is.
unfoldable pub procesar :
    Option (List ℕ)
    → (Option (List ℕ) → Option (Outcome (List (List ℕ))))
    → Option (Outcome (List (List ℕ)))
procesar none sigue = some faults
procesar (some l) sigue =
    let rest = sigue (some (if es_salto l then l else cortar l)) in
    if es_salto l then rest else agrega (bloque (cortar l)) rest

-- `while (!feof(archivo_pseudocodigo))`, one unit of fuel for each turn; the flag is `feof`.
unfoldable pub lineas : ℕ → Bool → Option (List ℕ) → List ℕ → Option (Outcome (List (List ℕ)))
unfolding en_linea procesar
lineas fuel true linea archivo = some (ok [])
lineas zero false linea archivo = none
lineas (suc fuel) false linea archivo =
    let r = leer_linea max_leidos archivo in
    procesar (en_linea r.0 linea) (λ s. lineas fuel r.1 s r.2)

-- `none` is a file that cannot be opened. Each turn but the last takes a byte of the file.
unfoldable pub leer_pseudocodigo : Option (List ℕ) → Option (Outcome (List (List ℕ)))
unfolding lineas
leer_pseudocodigo none = some exits
leer_pseudocodigo (some archivo) = lineas (suc (length archivo)) false none archivo

unfoldable pub paquete_instrucciones : List (List ℕ) → Outcome (List ℕ)
unfolding agregar_cadenas
paquete_instrucciones lista = do p ← agregar_cadenas crear_paquete lista; ok (serializar_paquete p)
