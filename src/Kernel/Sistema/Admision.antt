-- ===== src/Kernel/Sistema/Admision.antt =====
-- kernel.h: which processes are admitted, as a bag that forgets where they stand, and the space for
-- more: the abstract view of the kernel, and what each of its operations does to it.
pub mod Pasos
use unix_os_simulation.Base.{
  ℕ, zero, suc, ◌+◌, ◌-◌, ◌≤◌, ◌<◌, ◌≡◌, refl, sym, ap, subst, ◌∙◌, ◌⊎◌, inl, inr, Bool, true,
  false, ◌&&◌, List, [], ◌∷◌, ◌++◌, Outcome, ok, deref, ◌>>=◌, Sale, Sale-bind, Sale-bind_any,
  Sale-mono, Sale-ok, Sale-all, some, Cadena, ◌==◌, if◌then◌else◌, if_elim, list_find, list_remove,
  ltb, arith,
}
use unix_os_simulation.Base.Int.{ℤ, pos, negsuc}
use unix_os_simulation.Biblioteca.{Segmento, ExecContext, cantidad_registros_cpu}
use unix_os_simulation.Biblioteca.OpCode
use unix_os_simulation.Kernel.{
  Kernel, Hilo, planifica, ejecuta, crea, espera_permiso, compacta, kernel_inicial, fin_de_proceso,
  enviar, adelante,
}
use unix_os_simulation.Kernel.Diccionario.{dictionary_get}
use unix_os_simulation.Kernel.Marco.{archivero, Fijo}
use unix_os_simulation.Kernel.Marco.Recursos.{wait-Fijo, signal-Fijo, liberar_recursos-Fijo}
use unix_os_simulation.Kernel.Recursos.{
  wait_recurso_lista, signal_recurso_lista, liberar_recursos_del_proceso,
}
use unix_os_simulation.Kernel.Archivos.{tabla_de}
use unix_os_simulation.Kernel.Archivos.Abiertos.{IsAbierto}
use unix_os_simulation.Kernel.Archivos.Abiertos.Operaciones.{
  ConArchivos, atender-ConArchivos, cerrar_archivos-ConArchivos,
}
use unix_os_simulation.Kernel.Procesos.{
  crear_pcb, gestionar_nuevas_conexiones, admitir, gestionador_ready, enviar_pcb, correr,
  correr_primero, copiar_registros, recibir_pcb, i_o, retener_pcb,
}
use unix_os_simulation.Kernel.Segmentos.{
  con_segmentos, create_segment, compaction_manager, tomar_permiso, segun_flag,
  create_segment_respuesta, recibir_tablas_compactadas, compactada, delete_segment,
}
use unix_os_simulation.Kernel.Ficheros.{atender, revisar, recieves_filesystem_petition, block_node}
use unix_os_simulation.Kernel.Operaciones.{read_op}
use unix_os_simulation.Kernel.Operaciones.Casos.{read_op_cases}
use unix_os_simulation.Kernel.Salida.{cerrar_archivos, despedir, salir, gestionador_exit}
use unix_os_simulation.Kernel.Sistema.{
  flag_de, volver, ◌⟶◌, ◌⟶*◌, conecta, admite, ordena, corre, vuelve, responde, permite, compacto,
  despierta, revisa, atiende, sale, aqui, luego,
}
use unix_os_simulation.Kernel.Presencia.{peso, peso_hilo, presentes, Suma, peso-append}
use unix_os_simulation.Kernel.Marco.Recursos.{liberar_recursos-Marco}
use unix_os_simulation.Kernel.Marco.Ficheros.{cerrar_archivos-Marco}
use unix_os_simulation.Kernel.Recursos.Presentes.{liberar_recursos-Suma}
use unix_os_simulation.Kernel.Archivos.{liberar_archivo}
use unix_os_simulation.Kernel.Archivos.Abiertos.{IsAbierto-sin}
use unix_os_simulation.Kernel.Archivos.Colas.{liberar_archivo-Suma}
use unix_os_simulation.Kernel.Ficheros.Presentes.{Deja, con_espacio, atender-Queda}
use unix_os_simulation.Kernel.Operaciones.Presentes.{read_op-Deja}
use unix_os_simulation.Memoria.Asignacion.{Codigo, alojado, falta_compactar, sin_espacio}

-- The bag is given by its sums over any weight of the processes.
pub record Carga : Type 0 where
  pub admitidos : (ℕ → ℕ) → ℕ
  pub lugares : ℕ

infix 40 ◌⇒◌
-- Nothing changes, one process takes a free place, or one leaves its place.
pub data ◌⇒◌ (c : Carga) (c' : Carga) : Type 0 where
  queda : ((w : ℕ → ℕ) → c'.admitidos w ≡ c.admitidos w) → c'.lugares ≡ c.lugares → c ⇒ c'
  entra :
      (pid : ℕ)
      → ((w : ℕ → ℕ) → c'.admitidos w ≡ c.admitidos w + w pid)
      → c.lugares ≡ suc c'.lugares
      → c ⇒ c'
  termina :
      (pid : ℕ)
      → ((w : ℕ → ℕ) → c.admitidos w ≡ c'.admitidos w + w pid)
      → c'.lugares ≡ suc c.lugares
      → c ⇒ c'

unfoldable pub carga : Kernel → Carga
carga k = record { admitidos = λ w. presentes w k; lugares = k.hay_espacio_ready }

abbrev pub Queda : Kernel → Kernel → Type 0
Queda k k' =
    ((w : ℕ → ℕ) → presentes w k' ≡ presentes w k) × (k'.hay_espacio_ready ≡ k.hay_espacio_ready)

module _ (w : ℕ → ℕ) where
  pub peso-quitar :
      (pid : ℕ) (xs : List ℕ)
      → list_find (λ x. x == pid) xs ≡ some pid
      → peso w (list_remove (λ x. x == pid) xs) + w pid ≡ peso w xs
  peso-quitar pid [] e = cc
  peso-quitar pid (x ∷ xs) e = ground (arith, peso-quitar pid xs)

  -- The calls that write PCBs.
  pub recibir-Deja :
      (c : ExecContext) (pid : ℕ) (k : Kernel)
      → Sale (λ k'. Deja w 0 k k' × (k'.hilo ≡ k.hilo)) (recibir_pcb c pid k)
  unfolding recibir_pcb presentes
  recibir-Deja c pid k = Sale-bind_any _ (deref (dictionary_get ◌==◌ pid k.pcbs)) _ (λ pcb.
      Sale-bind_any _ (copiar_registros cantidad_registros_cpu c.registros) _
        (λ rs. ((omega arith, refl), refl)))

  pub segmentos-Deja :
      (pid : ℕ) (tabla : List Segmento) (k : Kernel)
      → Sale (λ k'. Deja w 0 k k' × (k'.hilo ≡ k.hilo)) (con_segmentos pid tabla k)
  unfolding con_segmentos presentes
  segmentos-Deja pid tabla k =
      Sale-bind_any _ (deref (dictionary_get ◌==◌ pid k.pcbs)) _
        (λ pcb. ((omega arith, refl), refl))

  pub tablas-Deja :
      (tablas : List (ℕ × List Segmento)) (k : Kernel)
      → Sale (λ k'. Deja w 0 k k' × (k'.hilo ≡ k.hilo)) (recibir_tablas_compactadas tablas k)
  unfolding recibir_tablas_compactadas
  tablas-Deja [] k = ((omega arith, refl), refl)
  tablas-Deja ((pid, tabla) ∷ tablas) k =
      Sale-bind_any _ (deref (list_find (λ p. p == pid) k.global_pcb_list)) _ (λ p.
        Sale-bind _ _ (con_segmentos p tabla k) _ (segmentos-Deja p tabla k) (λ k1 ((a, b), c).
          Sale-mono (recibir_tablas_compactadas tablas k1) (tablas-Deja tablas k1)
            (λ k2 ((d, e), f). ((omega (arith, a, d), e ∙ b), f ∙ c))))

  pub cerrar_archivos-Suma :
      (ds : List ℕ) (k : Kernel)
      → Sale (λ k'. presentes w k' ≡ presentes w k) (cerrar_archivos ds k)
  unfolding cerrar_archivos
  cerrar_archivos-Suma [] k = refl
  cerrar_archivos-Suma (d ∷ ds) k =
      Sale-bind _ _ (liberar_archivo d k) _ (liberar_archivo-Suma w d k)
        (λ k1 s. Sale-mono (cerrar_archivos ds k1) (cerrar_archivos-Suma ds k1) (λ k2 t. t ∙ s))

pub conecta-Queda :
    (cod_op : ℤ) (pid : ℕ) (paquete : List Cadena) (k : Kernel)
    → Queda k (gestionar_nuevas_conexiones cod_op pid paquete k)
unfolding gestionar_nuevas_conexiones crear_pcb presentes
conecta-Queda (pos c) pid paquete k =
    if_elim (Queda k) (c == OpCode.mensaje) (λ w. refl, refl)
      (if_elim (Queda k) (c == OpCode.paquete) (λ w. refl, refl) (λ w. refl, refl))
conecta-Queda (negsuc n) pid paquete k =
    if_elim (Queda k) (n == 0) (λ w. refl, refl) (λ w. refl, refl)

-- The first of the new ones is admitted.
pub admitir-entra :
    (nuevas : List ℕ) (tabla : List Segmento) (k : Kernel)
    → Sale
        (λ k'.
          (pid : ℕ) × ((w : ℕ → ℕ) → presentes w k' ≡ presentes w k + w pid)
          × (k'.hay_espacio_ready ≡ k.hay_espacio_ready))
        (admitir nuevas tabla k)
unfolding admitir presentes
admitir-entra [] tabla k = tt
admitir-entra (pid ∷ nuevas) tabla k =
    Sale-bind_any _ (deref (dictionary_get ◌==◌ pid k.pcbs)) _
      (λ pcb. (pid, λ w. omega (arith, peso-append w k.consolas_ready (pid ∷ [])), refl))

pub correr-Queda :
    (lista : List ℕ) (k : Kernel)
    → lista ≡ k.consolas_ready
    → k.hilo ≡ planifica
    → Sale (Queda k) (correr lista k)
unfolding correr enviar_pcb presentes
correr-Queda [] k e h = tt
correr-Queda (pid ∷ resto) k e h =
    Sale-bind_any (Queda k) (deref (dictionary_get ◌==◌ pid k.pcbs)) _ (λ pcb.
      (λ w. let t = ap (peso w) e in let u = ap (peso_hilo w) h in omega (arith, t, u), refl))

pub segun_flag-Queda :
    (flag : Codigo) (pid : ℕ) (id size : ℤ) (k : Kernel)
    → k.hilo ≡ crea pid id size
    → Queda k (segun_flag (flag_de flag) pid id size k)
unfolding segun_flag compaction_manager presentes
segun_flag-Queda alojado pid id size k e =
    (λ w. let u = ap (peso_hilo w) e in omega (arith, u), refl)
segun_flag-Queda falta_compactar pid id size k e =
    if_elim (Queda k) (ltb 0 k.compaction_blockers)
      (λ w. let u = ap (peso_hilo w) e in omega (arith, u), refl)
      (λ w. let u = ap (peso_hilo w) e in omega (arith, u), refl)
segun_flag-Queda sin_espacio pid id size k e = (
  λ w. let u = ap (peso_hilo w) e in omega (arith, u, peso-append w k.consolas_exit (pid ∷ [])),
  refl,
)

-- The first of the exit queue leaves.
pub salir-termina :
    (lista : List ℕ) (k : Kernel)
    → lista ≡ k.consolas_exit
    → Sale
        (λ k'.
          (pid : ℕ) × ((w : ℕ → ℕ) → presentes w k ≡ presentes w k' + w pid)
          × (k'.hay_espacio_ready ≡ suc k.hay_espacio_ready))
        (salir lista k)
unfolding salir despedir presentes
salir-termina [] k e = tt
salir-termina (pid ∷ resto) k e =
    let k0 = enviar (fin_de_proceso pid) (record k {
      consolas_exit = resto;
      global_pcb_list = list_remove (λ p. p == pid) k.global_pcb_list;
    }) in
    Sale-bind_any _ (deref (dictionary_get ◌==◌ pid k.pcbs)) _ (λ pcb.
      Sale-bind (Queda k0) _ (liberar_recursos_del_proceso pid k0) _
        (con_espacio (λ p. 1) (λ k'. (w : ℕ → ℕ) → presentes w k' ≡ presentes w k0) k0
          (liberar_recursos_del_proceso pid k0)
          (Sale-all (λ w k'. presentes w k' ≡ presentes w k0) (liberar_recursos_del_proceso pid k0)
            (λ w. liberar_recursos-Suma w pid k0))
          (liberar_recursos-Marco pid k0))
        (λ k1 (a, b).
          Sale-bind (Queda k1) _ (cerrar_archivos (tabla_de pid k1) k1) _
            (con_espacio (λ p. 1) (λ k'. (w : ℕ → ℕ) → presentes w k' ≡ presentes w k1) k1
              (cerrar_archivos (tabla_de pid k1) k1)
              (Sale-all (λ w k'. presentes w k' ≡ presentes w k1)
                (cerrar_archivos (tabla_de pid k1) k1)
                (λ w. cerrar_archivos-Suma w (tabla_de pid k1) k1))
              (cerrar_archivos-Marco (tabla_de pid k1) k1))
            (λ k2 (c, d). (
              pid,
              λ w. let t = ap (peso w) e in omega (arith, a w, c w, t),
              omega (arith, b, d),
            ))))
