-- ===== src/Tests/Programas.antt =====
-- The console on a file of two lines.
use unix_os_simulation.Base.{
  ℕ, ◌<◌, ◌≡◌, refl, length, List, [], ◌∷◌, ◌++◌, some, Outcome, ok, arith,
}
use unix_os_simulation.Biblioteca.OpCode
use unix_os_simulation.Biblioteca.Enteros.{leer_int, int_bytes, int_mod}
use unix_os_simulation.Biblioteca.Paquete.{recibir_paquete, cadena}
use unix_os_simulation.Biblioteca.Paquete.RoundTrip.{IsCadena, valores_bytes}
use unix_os_simulation.Consola.{leer_pseudocodigo, paquete_instrucciones}
use unix_os_simulation.Consola.Lineas.{IsLinea, leer_pseudocodigo-termina, leer_pseudocodigo-texto}
use unix_os_simulation.Consola.Envio.{recibir_paquete-paquete_instrucciones}

-- One letter, and two.
abbrev corta : List ℕ
corta = 65 ∷ []

abbrev larga : List ℕ
larga = 66 ∷ 67 ∷ []

corta-IsLinea : IsLinea corta
corta-IsLinea = (((ground arith, ground arith), tt), ground arith, omega arith)

larga-IsLinea : IsLinea larga
larga-IsLinea =
    (((ground arith, ground arith), ((ground arith, ground arith), tt)), ground arith, omega arith)

abbrev archivo : List ℕ
archivo = 65 ∷ 10 ∷ 66 ∷ 67 ∷ []

abbrev programa : List (List ℕ)
programa = (65 ∷ 0 ∷ []) ∷ (66 ∷ 67 ∷ 0 ∷ []) ∷ []

corta-IsCadena : IsCadena (65 ∷ 0 ∷ [])
unfolding cadena
corta-IsCadena = (refl, omega arith)

larga-IsCadena : IsCadena (66 ∷ 67 ∷ 0 ∷ [])
unfolding cadena
larga-IsCadena = (refl, omega arith)

programa_cabe : length (valores_bytes programa) < int_mod
unfolding int_bytes
programa_cabe = omega arith

leer_pseudocodigo-termina_example :
    (o : Outcome (List (List ℕ))) × (leer_pseudocodigo (some archivo) ≡ some o)
leer_pseudocodigo-termina_example = leer_pseudocodigo-termina (some archivo)

leer_pseudocodigo-texto_example :
    (leer_pseudocodigo (some archivo) ≡ some (ok programa))
    × (leer_pseudocodigo (some (archivo ++ 10 ∷ []))
        ≡ some (ok ((65 ∷ 0 ∷ []) ∷ (66 ∷ 67 ∷ 0 ∷ []) ∷ (66 ∷ 67 ∷ 0 ∷ []) ∷ [])))
leer_pseudocodigo-texto_example =
    leer_pseudocodigo-texto (corta ∷ []) larga (corta-IsLinea, tt) larga-IsLinea

recibir_paquete-paquete_instrucciones_example :
    (sent sock : List ℕ) × (paquete_instrucciones programa ≡ ok sent)
    × (leer_int sent ≡ ok (OpCode.paquete, sock))
    × (recibir_paquete sock ≡ some (ok programa))
recibir_paquete-paquete_instrucciones_example =
    recibir_paquete-paquete_instrucciones programa (corta-IsCadena, (larga-IsCadena, tt))
      programa_cabe
