-- ===== src/Tests/Recursos.antt =====
-- kernel.h at a kernel with one resource of which one process holds the only instance.
use unix_os_simulation.Base.{
  ◌+◌, ◌≡◌, refl, [], ◌∷◌, none, some, ok, Cadena, codes, list_find, strcmp_eq,
}
use unix_os_simulation.Kernel.{Kernel, kernel_inicial}
use unix_os_simulation.Kernel.Diccionario.{dictionary_get, dictionary_remove}
use unix_os_simulation.Kernel.Recursos.{
  wait_recurso_lista, signal_recurso_lista, liberar_recursos_del_proceso,
}
use unix_os_simulation.Kernel.Recursos.Conservacion.{
  libres, asignados, en_espera, wait_recurso_lista-conserva, signal_recurso_lista-conserva,
}

abbrev disco : Cadena
disco = codes "DISCO"

-- Process 4 holds the instance, process 9 runs.
abbrev tomado : Kernel
tomado = record (kernel_inicial 4 []) {
  consolas_ready = 6 ∷ [];
  hay_consolas_ready = 1;
  recursos_disponibles = (disco, 0) ∷ [];
  recursos_por_proceso = (4, some (disco ∷ [])) ∷ [];
}

-- Process 9 waits, process 4 runs.
abbrev esperado : Kernel
esperado = record tomado {
  recursos_en_uso = (disco, 9 ∷ []) ∷ [];
  recursos_por_proceso = (4, some (disco ∷ [])) ∷ (9, some (disco ∷ [])) ∷ [];
}

abbrev liberado : Kernel
liberado = record tomado {
  consolas_ready = 4 ∷ 6 ∷ 9 ∷ [];
  hay_consolas_ready = 3;
  recursos_por_proceso = (4, some []) ∷ (9, some (disco ∷ [])) ∷ [];
}

abbrev terminado : Kernel
terminado = record tomado {
  consolas_ready = 6 ∷ 9 ∷ [];
  hay_consolas_ready = 2;
  recursos_por_proceso = (4, none) ∷ (9, some (disco ∷ [])) ∷ [];
}

espera : wait_recurso_lista disco 9 tomado ≡ ok esperado
unfolding wait_recurso_lista strcmp_eq
espera = refl

libera : signal_recurso_lista disco 4 esperado ≡ ok liberado
unfolding signal_recurso_lista strcmp_eq
libera = refl

termina : liberar_recursos_del_proceso 4 esperado ≡ ok terminado
unfolding liberar_recursos_del_proceso strcmp_eq
termina = refl

hay_disco : dictionary_get strcmp_eq disco tomado.recursos_disponibles ≡ some 0
unfolding strcmp_eq
hay_disco = refl

wait_recurso_lista-conserva_example :
    libres disco esperado + asignados disco esperado + en_espera disco tomado
    ≡ libres disco tomado + asignados disco tomado + en_espera disco esperado
wait_recurso_lista-conserva_example =
    wait_recurso_lista-conserva disco 0 9 tomado esperado hay_disco espera

tiene_disco : list_find (λ x. strcmp_eq x disco) (disco ∷ []) ≡ some disco
unfolding strcmp_eq
tiene_disco = refl

una_lista :
    dictionary_get strcmp_eq disco (dictionary_remove strcmp_eq disco esperado.recursos_en_uso)
    ≡ none
unfolding strcmp_eq
una_lista = refl

signal_recurso_lista-conserva_example :
    libres disco liberado + asignados disco liberado + en_espera disco esperado
    ≡ libres disco esperado + asignados disco esperado + en_espera disco liberado
signal_recurso_lista-conserva_example =
    signal_recurso_lista-conserva disco 0 4 (disco ∷ []) disco esperado liberado hay_disco refl
      tiene_disco una_lista libera
