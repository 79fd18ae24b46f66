-- ===== src/Tests/Listas.antt =====
-- filesys.h at a file of three blocks with a block of pointers, and three free blocks.
use unix_os_simulation.Base.{
  ℕ, ◌↔◌, list_find, List, length, ◌++◌, ◌≡◌, refl, inl, inr, false, true, Bool, [], ◌∷◌, some, ok,
  arith, codes, strcmp_eq, get_elem?, In, ◌==◌, if◌then◌else◌,
}
use unix_os_simulation.Base.Int.{ℤ, pos}
use unix_os_simulation.Biblioteca.Enteros.{int_bytes}
use unix_os_simulation.FileSystem.{Fcb, FileSys, es_el_fcb}
use unix_os_simulation.FileSystem.Inicio.{inicializar_lista_fcb}
use unix_os_simulation.FileSystem.Lista.Reinicio.{inicializar_lista_fcb-reinicia}
use unix_os_simulation.FileSystem.Bitmap.{primer_libre, ocupados}
use unix_os_simulation.FileSystem.Bloques.{ocupar_bloque_libre, liberar_ultimo_bloque_fcb}
use unix_os_simulation.FileSystem.Bloques.Accesos.{con_datos}
use unix_os_simulation.FileSystem.Archivos.{escribir_en, leer_en, truncar_archivo, encontrar_fcb}
use unix_os_simulation.FileSystem.Lista.{IsDimensionado, EsArchivo}
use unix_os_simulation.FileSystem.Lista.Agregar.{Crecido, ocupar_bloque_libre-agrega}
use unix_os_simulation.FileSystem.Lista.Quitar.{Quitado, liberar_ultimo_bloque_fcb-quita}
use unix_os_simulation.FileSystem.Lista.RoundTrip.{Fuera, leer_en-escribir_en}
use unix_os_simulation.FileSystem.Lista.Truncar.{truncar_archivo-achica}
use unix_os_simulation.FileSystem.Lista.Cierre.{Truncado}
use unix_os_simulation.FileSystem.Lista.Crecer.{HayLugar, truncar_archivo-agranda}

abbrev apuntes : Fcb
apuntes = record {
  nombre_archivo = codes "apuntes";
  tamanio = 40;
  puntero_dir = some 16;
  puntero_in = some 64;
  cantidad_indirectos = pos 2;
}

abbrev disco : FileSys
disco = record {
  block_size = 16;
  block_count = 8;
  bitmap = true ∷ true ∷ false ∷ true ∷ true ∷ true ∷ false ∷ false ∷ [];
  datos_bloques = λ x. if x == 64 then 48 else if x == 68 then 80 else 0;
  lista_fcb = apuntes ∷ [];
  archivos = apuntes ∷ [];
}

disco-IsDimensionado : IsDimensionado disco
disco-IsDimensionado = record { enteros = omega arith; puntero = omega arith; bits = omega arith }

apuntes-EsArchivo : EsArchivo disco apuntes (some 4) (1 ∷ 3 ∷ 5 ∷ [])
unfolding int_bytes
apuntes-EsArchivo = record {
  forma = (refl, refl, refl, omega arith, (refl, (refl, tt)));
  tomados = tomados;
  distintos = λ p. ground arith;
}
  where
    tomados : (k : ℕ) → In k (4 ∷ 1 ∷ 3 ∷ 5 ∷ []) → get_elem? disco.bitmap k ≡ some true
    tomados k (inl e) = rw (e) refl
    tomados k (inr (inl e)) = rw (e) refl
    tomados k (inr (inr (inl e))) = rw (e) refl
    tomados k (inr (inr (inr (inl e)))) = rw (e) refl
    tomados k (inr (inr (inr (inr n)))) = absurd n

libre_dos : primer_libre disco.bitmap ≡ some 2
unfolding primer_libre
libre_dos = refl

ocupar_bloque_libre-agrega_example :
    (fs' : FileSys) × (fcb' : Fcb) × (ocupar_bloque_libre disco apuntes ≡ ok (some 2, fs', fcb'))
    × Crecido disco apuntes (1 ∷ 3 ∷ 5 ∷ []) fs' fcb'
ocupar_bloque_libre-agrega_example =
    ocupar_bloque_libre-agrega disco apuntes 2 disco-IsDimensionado libre_dos (some 4)
      (1 ∷ 3 ∷ 5 ∷ []) apuntes-EsArchivo (omega arith)

liberar_ultimo_bloque_fcb-quita_example :
    (fs' : FileSys) × (fcb' : Fcb) × (liberar_ultimo_bloque_fcb disco apuntes ≡ ok (fs', fcb'))
    × Quitado disco apuntes (4 ∷ 1 ∷ 3 ∷ 5 ∷ []) (1 ∷ 3 ∷ []) 5 fs' fcb'
liberar_ultimo_bloque_fcb-quita_example =
    liberar_ultimo_bloque_fcb-quita disco apuntes (some 4) (1 ∷ 3 ∷ []) 5 disco-IsDimensionado
      apuntes-EsArchivo

leer_en-escribir_en_example :
    (d : ℕ → ℕ) × (escribir_en disco apuntes 30 (7 ∷ 8 ∷ 9 ∷ 7 ∷ []) ≡ ok (con_datos d disco))
    × (leer_en (con_datos d disco) apuntes 30 4 ≡ ok (7 ∷ 8 ∷ 9 ∷ 7 ∷ []))
    × EsArchivo (con_datos d disco) apuntes (some 4) (1 ∷ 3 ∷ 5 ∷ [])
    × ((x : ℕ) → Fuera disco (1 ∷ 3 ∷ 5 ∷ []) x → d x ≡ disco.datos_bloques x)
leer_en-escribir_en_example =
    leer_en-escribir_en disco apuntes (some 4) (1 ∷ 3 ∷ 5 ∷ []) disco-IsDimensionado
      apuntes-EsArchivo 30 (7 ∷ 8 ∷ 9 ∷ 7 ∷ []) (omega arith) (omega arith)

-- An FCB is always saved.
abbrev se_guarda : Fcb → Bool
se_guarda fcb = true

encuentra_apuntes : encontrar_fcb (codes "apuntes") disco ≡ some apuntes
unfolding encontrar_fcb strcmp_eq
encuentra_apuntes = refl

truncar_archivo-achica_example :
    (r : ℤ × FileSys) × (truncar_archivo se_guarda (codes "apuntes") 10 disco ≡ ok r)
    × Truncado se_guarda (codes "apuntes") 10 disco apuntes encuentra_apuntes (1 ∷ []) r
    × ((k : ℕ) → In k (3 ∷ 5 ∷ []) → get_elem? (r.1).bitmap k ≡ some false)
truncar_archivo-achica_example =
    truncar_archivo-achica se_guarda (codes "apuntes") 10 disco apuntes encuentra_apuntes (some 4)
      (1 ∷ []) (3 ∷ 5 ∷ []) disco-IsDimensionado apuntes-EsArchivo refl refl (omega arith)

lugar_para_dos : HayLugar disco (1 ∷ 3 ∷ 5 ∷ []) 2
unfolding ocupados
lugar_para_dos = record { libres = omega arith; punteros = omega arith }

truncar_archivo-agranda_example :
    (r : ℤ × FileSys) × (nuevos : List ℕ) × (truncar_archivo se_guarda (codes "apuntes") 70 disco
      ≡ ok r)
    × Truncado se_guarda
        (codes "apuntes")
        70
        disco
        apuntes
        encuentra_apuntes
        ((1 ∷ 3 ∷ 5 ∷ []) ++ nuevos)
        r
    × (length nuevos ≡ 2)
    × ((k : ℕ) → In k nuevos → get_elem? disco.bitmap k ≡ some false)
truncar_archivo-agranda_example =
    truncar_archivo-agranda se_guarda (codes "apuntes") 70 disco apuntes encuentra_apuntes (some 4)
      (1 ∷ 3 ∷ 5 ∷ []) 2 disco-IsDimensionado apuntes-EsArchivo refl refl lugar_para_dos

-- What `malloc` left is a 9.
abbrev nueve : Fcb → ℤ
nueve fcb = pos 9

halla_apuntes : list_find (es_el_fcb (codes "apuntes")) disco.archivos ≡ some apuntes
unfolding strcmp_eq
halla_apuntes = refl

inicializar_lista_fcb-reinicia_example :
    (fcb' : Fcb) × (encontrar_fcb (codes "apuntes") (inicializar_lista_fcb nueve disco) ≡ some fcb')
    × (fcb'.tamanio ≡ 40)
    × (EsArchivo (inicializar_lista_fcb nueve disco) fcb' (some 4) (1 ∷ 3 ∷ 5 ∷ [])
        ↔ (pos 9 ≡ pos 2))
inicializar_lista_fcb-reinicia_example =
    inicializar_lista_fcb-reinicia nueve disco apuntes (codes "apuntes") (some 4) (1 ∷ 3 ∷ 5 ∷ [])
      halla_apuntes apuntes-EsArchivo
