-- ===== src/Tests/Planificacion.antt =====
-- kernel.h from its start to a compaction that waits for its permission: two processes come in, the
-- first opens a file and asks to write it, the second asks for a segment for which the memory module
-- must compact; then the write is done.
use unix_os_simulation.Base.{
  ◌+◌, ◌<◌, ◌≡◌, ◌≢◌, ◌⊎◌, refl, ◌++◌, ℕ, true, false, List, [], ◌∷◌, none, ok, exits, faults,
  Outcome, Cadena, codes, strcmp_eq, arith, replicate,
}
use unix_os_simulation.Base.Int.{pos, atoi}
use unix_os_simulation.Biblioteca.{ExecContext}
use unix_os_simulation.Biblioteca.OpCode
use unix_os_simulation.Memoria.Asignacion.{falta_compactar}
use unix_os_simulation.Kernel.{
  BlockedNode, Kernel, kernel_inicial, Pcb, Envio, planifica, crea, espera_permiso, compacta,
  pide_segmento, contexto_a_cpu, abre_archivo, accede_archivo, pide_compactacion,
}
use unix_os_simulation.Kernel.Diccionario.{dictionary_get}
use unix_os_simulation.Kernel.Presencia.{uno_si, presentes}
use unix_os_simulation.Kernel.Archivos.{buscar_descriptor, process_f_open}
use unix_os_simulation.Kernel.Procesos.{
  gestionar_nuevas_conexiones, gestionador_ready, correr_primero, recibir_pcb,
}
use unix_os_simulation.Kernel.Segmentos.{create_segment_respuesta, create_segment}
use unix_os_simulation.Kernel.Ficheros.{impide, atender, revisar, recieves_filesystem_petition}
use unix_os_simulation.Kernel.Ficheros.Presentes.{atender-presentes}
use unix_os_simulation.Kernel.Operaciones.{read_op, es_operacion_de_fs}
use unix_os_simulation.Kernel.Operaciones.Presentes.{read_op-presentes}
use unix_os_simulation.Kernel.Sistema.{
  volver, ◌⟶*◌, conecta, admite, corre, vuelve, responde, revisa, atiende, aqui, luego,
}
use unix_os_simulation.Kernel.Sistema.Admision.{◌⇒◌}
use unix_os_simulation.Kernel.Sistema.Semaforos.{bloqueos}
use unix_os_simulation.Kernel.Sistema.Esperas.{
  espera_consola, espera_lugar, espera_tabla, Estado, consola_tomada, lugar_tomado, resto, visto,
  toma_consola, toma_lugar, recibe_tabla, toma_nodo, ◌⟹*◌, y_luego, estado_inicial,
}
use unix_os_simulation.Kernel.Sistema.Esperas.Serie.{libre, en_serie}
use unix_os_simulation.Kernel.Sistema.Esperas.Garantias.{
  primero, retenidos, visto-semaforos, visto-grado,
}
use unix_os_simulation.Kernel.Sistema.Esperas.Refina.{carga_de, visto-refina}
use unix_os_simulation.Kernel.Sistema.Esperas.Permiso.{visto-sin_bloqueo, visto-compacta}

abbrev notas : Cadena
notas = codes "NOTAS"

-- What a call left.
abbrev quedo : Outcome Kernel → Kernel
quedo (ok k) = k
quedo exits = kernel_inicial 0 []
quedo faults = kernel_inicial 0 []

abbrev vuelto : List Cadena → ExecContext
vuelto ps = record {
  pid = 0;
  instrucciones = [];
  program_counter = 1;
  registros = replicate 12 (codes "0000");
  parametros = ps;
  tabla_segmentos = [];
}

abbrev k1 : Kernel
k1 = gestionar_nuevas_conexiones (pos 1) 4 [] (kernel_inicial 2 [])

abbrev k2 : Kernel
k2 = gestionar_nuevas_conexiones (pos 1) 9 [] k1

abbrev k3 : Kernel
k3 = quedo (gestionador_ready [] k2)

abbrev k4 : Kernel
k4 = quedo (gestionador_ready [] k3)

abbrev k5 : Kernel
k5 = quedo (correr_primero k4)

abbrev k6 : Kernel
k6 = quedo (volver OpCode.f_open (vuelto (notas ∷ [])) [] 4 k5)

abbrev k7 : Kernel
k7 = revisar k6

abbrev pcb : ℕ → Pcb
pcb pc = record {
  instrucciones = [];
  program_counter = pc;
  registros = replicate 12 (codes "0000");
  tabla_segmentos = [];
}

abbrev contexto : ℕ → ℕ → Envio
contexto pid pc = contexto_a_cpu (record {
  pid = pid;
  instrucciones = [];
  program_counter = pc;
  registros = replicate 12 (codes "0000");
  parametros = [];
  tabla_segmentos = [];
})

-- Process 4 has the file open.
abbrev k8 : Kernel
k8 = record (kernel_inicial 0 []) {
  pcbs = (4, pcb 1) ∷ (9, pcb 0) ∷ [];
  global_pcb_list = 4 ∷ 9 ∷ [];
  consolas_ready = 4 ∷ 9 ∷ [];
  hay_consolas_ready = 2;
  replanificar = true;
  descriptores = (0, record { file_name = notas; pointer = pos 0 }) ∷ [];
  proximo = 1;
  gdt = 0 ∷ [];
  tablas_archivos = (4, 0 ∷ []) ∷ (9, []) ∷ [];
  colas_archivos = (notas, []) ∷ [];
  enviados =
      pide_segmento 4 (pos 0) (pos 0)
      ∷ pide_segmento 9 (pos 0) (pos 0)
      ∷ contexto 4 0
      ∷ abre_archivo notas
      ∷ [];
}

abbrev k9 : Kernel
k9 = quedo (correr_primero k8)

abbrev k10 : Kernel
k10 = quedo (volver OpCode.f_write (vuelto (notas ∷ codes "0" ∷ codes "4" ∷ [])) [] 4 k9)

abbrev k11 : Kernel
k11 = quedo (correr_primero k10)

-- Process 4 is in the queue of the file system, and process 9 has asked for a segment.
abbrev k12 : Kernel
k12 = record k8 {
  pcbs = (4, pcb 1) ∷ (9, pcb 1) ∷ [];
  consolas_ready = [];
  hay_consolas_ready = 0;
  consolas_blocked =
      record {
        un_pcb = 4;
        parametros = notas ∷ codes "0" ∷ codes "4" ∷ [];
        cod_op = OpCode.f_write;
        impide_compactacion = true;
      }
      ∷ [];
  hay_consolas_blocked = 1;
  compaction_blockers = 1;
  hilo = crea 9 (pos 1) (pos 64);
  enviados = k8.enviados ++ contexto 4 1 ∷ contexto 9 0 ∷ pide_segmento 9 (pos 1) (pos 64) ∷ [];
}

abbrev k13 : Kernel
k13 = record k12 { compaction_required = true; hilo = espera_permiso 9 (pos 1) (pos 64) }

-- The write is done.
abbrev k15 : Kernel
k15 = record k13 {
  consolas_ready = 4 ∷ [];
  hay_consolas_ready = 1;
  consolas_blocked = [];
  hay_consolas_blocked = 0;
  compaction_blockers = 0;
  enviados = k13.enviados ++ accede_archivo OpCode.f_write notas (pos 0) (pos 4) (pos 0) ∷ [];
}

hasta_abrir : kernel_inicial 2 [] ⟶* k8
unfolding gestionar_nuevas_conexiones gestionador_ready correr_primero volver read_op atender
    revisar recibir_pcb es_operacion_de_fs recieves_filesystem_petition process_f_open strcmp_eq
hasta_abrir =
    let p1 : kernel_inicial 2 [] ⟶* k2 =
      luego (luego aqui (conecta (pos 1) 4 [] refl)) (conecta (pos 1) 9 [] refl) in
    let p2 : kernel_inicial 2 [] ⟶* k4 =
      luego (luego p1 (admite [] (omega arith) (omega arith) refl))
        (admite [] (omega arith) (omega arith) refl) in
    let p3 : kernel_inicial 2 [] ⟶* k6 =
      luego (luego p2 (corre refl (omega arith) refl))
        (vuelve OpCode.f_open (vuelto (notas ∷ [])) [] 4 refl refl) in
    luego (luego p3 (revisa refl refl)) (atiende (pos 1) refl (omega arith) refl)

hasta_pedir : kernel_inicial 2 [] ⟶* k12
unfolding correr_primero volver read_op recibir_pcb es_operacion_de_fs recieves_filesystem_petition
    create_segment atoi
hasta_pedir =
    let p1 : kernel_inicial 2 [] ⟶* k10 =
      luego (luego hasta_abrir (corre refl (omega arith) refl))
        (vuelve OpCode.f_write (vuelto (notas ∷ codes "0" ∷ codes "4" ∷ [])) [] 4 refl refl) in
    luego (luego p1 (corre refl (omega arith) refl))
      (vuelve OpCode.create_segment (vuelto (codes "1" ∷ codes "64" ∷ [])) [] 9 refl refl)

hasta_permiso : kernel_inicial 2 [] ⟶* k15
unfolding atender revisar strcmp_eq create_segment_respuesta atoi buscar_descriptor
hasta_permiso =
    let p1 : kernel_inicial 2 [] ⟶* k13 =
      luego hasta_pedir (responde falta_compactar [] 9 (pos 1) (pos 64) refl refl) in
    luego (luego p1 (revisa refl refl)) (atiende (pos 1) refl (omega arith) refl)

-- gestionadorReady has a place for a process of which the table is not there.
abbrev admitiendo : Estado
admitiendo = record { kernel = k2; admision = espera_tabla; espera_fs = false }

hasta_admitir : estado_inicial 2 [] ⟹* admitiendo
unfolding gestionar_nuevas_conexiones
hasta_admitir =
    let p : kernel_inicial 2 [] ⟶* k2 =
      luego (luego aqui (conecta (pos 1) 4 [] refl)) (conecta (pos 1) 9 [] refl) in
    let p1 : estado_inicial 2 []
        ⟹* record { kernel = k2; admision = espera_lugar; espera_fs = false } =
      y_luego (en_serie 2 [] k2 p) (toma_consola refl (omega arith) refl) in
    y_luego p1 (toma_lugar refl (omega arith) refl)

visto-refina_example : carga_de admitiendo ⇒ carga_de (libre k3)
unfolding gestionar_nuevas_conexiones gestionador_ready
visto-refina_example =
    visto-refina 2 [] admitiendo (libre k3) hasta_admitir (recibe_tabla [] k3 refl refl refl)

-- operarFS has sent the write and has no answer yet, while compaction_manager waits.
abbrev escribiendo : Estado
escribiendo = record {
  kernel = record k13 { fs_reviso = true };
  admision = espera_consola;
  espera_fs = true;
}

hasta_escribir : estado_inicial 2 [] ⟹* escribiendo
unfolding revisar create_segment_respuesta
hasta_escribir =
    let p : kernel_inicial 2 [] ⟶* record k13 { fs_reviso = true } =
      luego (luego hasta_pedir (responde falta_compactar [] 9 (pos 1) (pos 64) refl refl))
        (revisa refl refl) in
    y_luego (en_serie 2 [] (record k13 { fs_reviso = true }) p)
      (toma_nodo refl refl (omega arith) refl)

nada_retenido : bloqueos (visto (libre k15)).consolas_blocked + bloqueos (retenidos (libre k15)) ≡ 0
unfolding visto retenidos primero
nada_retenido = refl

visto-semaforos_example :
    ((visto escribiendo).hay_consolas_new + 0 ≡ 0 + 0)
    × ((visto escribiendo).hay_consolas_ready ≡ 0)
    × ((visto escribiendo).hay_consolas_exit ≡ 0)
    × ((visto escribiendo).hay_consolas_blocked ≡ 0)
    × ((visto escribiendo).compaction_blockers ≡ 0 + 1)
unfolding visto retenidos primero resto consola_tomada lugar_tomado impide
visto-semaforos_example = visto-semaforos 2 [] escribiendo hasta_escribir

visto-grado_example :
    presentes (λ pid. 1) (visto escribiendo) + 1 + 0 + (visto escribiendo).hay_espacio_ready ≡ 2
unfolding visto retenidos primero consola_tomada lugar_tomado
visto-grado_example = visto-grado 2 [] escribiendo hasta_escribir

visto-sin_bloqueo_example :
    (0 < (visto escribiendo).compaction_permission)
    ⊎ ((visto escribiendo).fs_reviso ≡ false)
    ⊎ ((escribiendo.espera_fs ≡ true) × (retenidos escribiendo ≢ []))
    ⊎ ((0 < (visto escribiendo).hay_consolas_blocked) × ((visto escribiendo).consolas_blocked ≢ []))
visto-sin_bloqueo_example =
    visto-sin_bloqueo 2 [] escribiendo 9 (pos 1) (pos 64) hasta_escribir refl

visto-compacta_example :
    (s' : Estado) × (libre k15 ⟹* s')
    × ((s'.kernel).hilo ≡ compacta 9 (pos 1) (pos 64))
    × ((s'.kernel).enviados ≡ k15.enviados ++ pide_compactacion ∷ [])
visto-compacta_example =
    visto-compacta 2 [] (libre k15) 9 (pos 1) (pos 64) (en_serie 2 [] k15 hasta_permiso) refl
      nada_retenido

-- The first PCB comes back with an F_OPEN, which is served.
abbrev antes : Kernel
antes = record k5 { hilo = planifica }

abbrev pedido : Kernel
pedido = quedo (read_op OpCode.f_open 4 (notas ∷ []) [] antes)

pide : read_op OpCode.f_open 4 (notas ∷ []) [] antes ≡ ok pedido
unfolding gestionar_nuevas_conexiones gestionador_ready correr_primero read_op es_operacion_de_fs
    recieves_filesystem_petition
pide = refl

read_op-presentes_example : presentes (uno_si 4) pedido ≡ presentes (uno_si 4) antes + uno_si 4 4
read_op-presentes_example =
    read_op-presentes OpCode.f_open 4 (notas ∷ []) [] antes pedido refl pide (uno_si 4)

abre : atender (pos 1) k7 ≡ ok k8
unfolding gestionar_nuevas_conexiones gestionador_ready correr_primero volver read_op atender
    revisar recibir_pcb es_operacion_de_fs recieves_filesystem_petition process_f_open strcmp_eq
abre = refl

sin_colas :
    (name : Cadena)
    → buscar_descriptor k7.descriptores name k7.gdt ≡ ok none
    → dictionary_get strcmp_eq name k7.colas_archivos ≡ none
unfolding gestionar_nuevas_conexiones gestionador_ready correr_primero volver read_op revisar
    recibir_pcb es_operacion_de_fs recieves_filesystem_petition
sin_colas name e = refl

atender-presentes_example :
    (nodo : BlockedNode) × (nodos : List BlockedNode) × (k7.consolas_blocked ≡ nodo ∷ nodos)
    × (k8.consolas_blocked ≡ nodos)
    × ((w : ℕ → ℕ) → presentes w k8 ≡ presentes w k7)
atender-presentes_example = atender-presentes (pos 1) k7 k8 sin_colas abre
