-- ===== src/Kernel/Marco/Ficheros.antt =====
-- kernel.h: what the operations on files and the writes to PCBs leave alone.
use unix_os_simulation.Base.{
  ℕ, refl, Bool, true, false, List, [], ◌∷◌, ◌++◌, Option, none, some, deref, Sale, Sale-bind_any,
  Sale-mono, Cadena, codes, ◌==◌, if_elim, length-append, list_find, list_remove, arith,
}
use unix_os_simulation.Base.Int.{ℤ, es_menos_uno, atoi}
use unix_os_simulation.Biblioteca.{Segmento, ExecContext, cantidad_registros_cpu}
use unix_os_simulation.Kernel.{Kernel, trunca_archivo, borra_segmento, enviar, a_ready}
use unix_os_simulation.Kernel.Marco.{
  quieto, Marco, Marco-trans, Marco-bind, a_ready-Marco, adelante-Marco, finalizar-Marco,
}
use unix_os_simulation.Kernel.Diccionario.{dictionary_get}
use unix_os_simulation.Kernel.Archivos.{
  buscar_descriptor, tabla_de, con_tabla, liberar_cola, liberar_archivo, cerrar, process_f_close,
  esperar_archivo, abrir_nuevo, abrir, process_f_open,
}
use unix_os_simulation.Kernel.Procesos.{copiar_registros, recibir_pcb}
use unix_os_simulation.Kernel.Segmentos.{con_segmentos, recibir_tablas_compactadas, delete_segment}
use unix_os_simulation.Kernel.Ficheros.{
  parametro, es_dos, truncado, f_truncate_process, process_fseek, process_facceso,
}
use unix_os_simulation.Kernel.Salida.{cerrar_archivos}

liberar_cola-Marco :
    (name : Cadena) (d : ℕ) (k : Kernel) (o : Option (List ℕ))
    → Sale (Marco k) (liberar_cola o name d k)
unfolding quieto liberar_cola
liberar_cola-Marco name d k none = tt
liberar_cola-Marco name d k (some []) = (refl, λ c. c)
liberar_cola-Marco name d k (some (p ∷ ps)) =
    (refl, λ c. (omega (arith, length-append k.consolas_ready (p ∷ []), c.0), c.1))

liberar_archivo-Marco : (d : ℕ) (k : Kernel) → Sale (Marco k) (liberar_archivo d k)
unfolding liberar_archivo
liberar_archivo-Marco d k =
    Sale-bind_any (Marco k) (deref (dictionary_get ◌==◌ d k.descriptores)) _
      (λ t. liberar_cola-Marco t.file_name d k _)

pub cerrar_archivos-Marco : (ds : List ℕ) (k : Kernel) → Sale (Marco k) (cerrar_archivos ds k)
unfolding cerrar_archivos
cerrar_archivos-Marco [] k = (refl, λ c. c)
cerrar_archivos-Marco (d ∷ ds) k =
    Marco-bind k (liberar_archivo d k) (cerrar_archivos ds) (liberar_archivo-Marco d k)
      (cerrar_archivos-Marco ds)

cerrar-Marco :
    (name : Cadena) (pid : ℕ) (k : Kernel) (o : Option ℕ) → Sale (Marco k) (cerrar o name pid k)
unfolding quieto cerrar
cerrar-Marco name pid k none =
    finalizar-Marco (codes "F_CLOSE: " ++ name ++ codes " no abierto") pid
      (record k { replanificar = true })
cerrar-Marco name pid k (some d) =
    let k1 = con_tabla pid (list_remove (λ x. x == d) (tabla_de pid k)) k in
    Sale-mono (liberar_archivo d (a_ready pid k1)) (liberar_archivo-Marco d (a_ready pid k1))
      (λ k2 m. Marco-trans k (a_ready pid k1) k2 (a_ready-Marco pid k1) m)

pub f_close-Marco :
    (name : Cadena) (pid : ℕ) (k : Kernel) → Sale (Marco k) (process_f_close name pid k)
unfolding process_f_close
f_close-Marco name pid k =
    Sale-bind_any (Marco k) (buscar_descriptor k.descriptores name (tabla_de pid k)) _
      (cerrar-Marco name pid k)

esperar_archivo-Marco :
    (pid : ℕ) (name : Cadena) (t : List ℕ) (k : Kernel) (o : Option (List ℕ))
    → Sale (Marco k) (esperar_archivo o name pid (con_tabla pid t k))
unfolding quieto esperar_archivo
esperar_archivo-Marco pid name t k none = tt
esperar_archivo-Marco pid name t k (some c) = (refl, λ c. c)

abrir-Marco :
    (answer : Bool) (name : Cadena) (pid : ℕ) (k : Kernel) (o : Option ℕ)
    → Sale (Marco k) (abrir o answer name pid k)
unfolding quieto abrir abrir_nuevo
abrir-Marco false name pid k none = tt
abrir-Marco true name pid k none = (refl, λ c. (omega (arith, c.0), c.1))
abrir-Marco answer name pid k (some d) = esperar_archivo-Marco pid name (d ∷ tabla_de pid k) k _

pub f_open-Marco :
    (answer : Bool) (name : Cadena) (pid : ℕ) (k : Kernel)
    → Sale (Marco k) (process_f_open answer name pid k)
unfolding process_f_open
f_open-Marco answer name pid k =
    Sale-bind_any (Marco k) (buscar_descriptor k.descriptores name k.gdt) _
      (abrir-Marco answer name pid k)

truncado-Marco :
    (confirmation : ℤ) (name : Cadena) (pid : ℕ) (k : Kernel)
    → Marco k (truncado confirmation name pid k)
unfolding quieto truncado
truncado-Marco confirmation name pid k =
    if_elim (Marco k) (es_menos_uno confirmation)
      (finalizar-Marco (codes "F_TRUNCATE: OUT_OF_SPACE") pid (record k { replanificar = true }))
      (if_elim (Marco k) (es_dos confirmation)
        (finalizar-Marco (codes "F_TRUNCATE: " ++ name ++ codes " not found") pid
          (record k { replanificar = true }))
        (adelante-Marco pid k))

pub f_truncate-Marco :
    (confirmation : ℤ) (ps : List Cadena) (pid : ℕ) (k : Kernel)
    → Sale (Marco k) (f_truncate_process confirmation ps pid k)
unfolding f_truncate_process quieto
f_truncate-Marco confirmation ps pid k = Sale-bind_any (Marco k) (parametro 0 ps) _ (λ name.
    Sale-bind_any (Marco k) (parametro 1 ps) _
      (λ size. truncado-Marco confirmation name pid (enviar (trunca_archivo name (atoi size)) k)))

pub fseek-Marco :
    (ps : List Cadena) (pid : ℕ) (k : Kernel) → Sale (Marco k) (process_fseek ps pid k)
unfolding process_fseek quieto
fseek-Marco ps pid k = Sale-bind_any (Marco k) (parametro 0 ps) _ (λ name.
    Sale-bind_any (Marco k) (parametro 1 ps) _ (λ puntero.
      Sale-bind_any (Marco k) (buscar_descriptor k.descriptores name (tabla_de pid k)) _ (λ o.
        Sale-bind_any (Marco k) (deref o) _ (λ d.
          Sale-bind_any (Marco k) (deref (dictionary_get ◌==◌ d k.descriptores)) _
            (λ descr. (refl, λ c. (omega (arith, c.0), c.1)))))))

pub facceso-Marco :
    (cod_op : ℕ) (ps : List Cadena) (pid : ℕ) (k : Kernel)
    → Sale (Marco k) (process_facceso cod_op ps pid k)
unfolding process_facceso quieto
facceso-Marco cod_op ps pid k = Sale-bind_any (Marco k) (parametro 0 ps) _ (λ name.
    Sale-bind_any (Marco k) (buscar_descriptor k.descriptores name k.gdt) _ (λ o.
      Sale-bind_any (Marco k) (deref o) _ (λ d.
        Sale-bind_any (Marco k) (deref (dictionary_get ◌==◌ d k.descriptores)) _ (λ descr.
          Sale-bind_any (Marco k) (parametro 1 ps) _ (λ a.
            Sale-bind_any (Marco k) (parametro 2 ps) _
              (λ b. (refl, λ c. (omega (arith, c.0), c.1))))))))

pub recibir_pcb-Marco :
    (c : ExecContext) (pid : ℕ) (k : Kernel) → Sale (Marco k) (recibir_pcb c pid k)
unfolding recibir_pcb quieto
recibir_pcb-Marco c pid k =
    Sale-bind_any (Marco k) (deref (dictionary_get ◌==◌ pid k.pcbs)) _ (λ pcb.
      Sale-bind_any (Marco k) (copiar_registros cantidad_registros_cpu c.registros) _
        (λ rs. (refl, λ c. c)))

pub con_segmentos-Marco :
    (pid : ℕ) (tabla : List Segmento) (k : Kernel) → Sale (Marco k) (con_segmentos pid tabla k)
unfolding con_segmentos quieto
con_segmentos-Marco pid tabla k =
    Sale-bind_any (Marco k) (deref (dictionary_get ◌==◌ pid k.pcbs)) _ (λ pcb. (refl, λ c. c))

pub delete_segment-Marco :
    (pid : ℕ) (id : ℤ) (tabla : List Segmento) (k : Kernel)
    → Sale (Marco k) (delete_segment pid id tabla k)
unfolding delete_segment quieto
delete_segment-Marco pid id tabla k =
    con_segmentos-Marco pid tabla (enviar (borra_segmento pid id) k)

pub recibir_tablas-Marco :
    (tablas : List (ℕ × List Segmento)) (k : Kernel)
    → Sale (Marco k) (recibir_tablas_compactadas tablas k)
unfolding recibir_tablas_compactadas
recibir_tablas-Marco [] k = (refl, λ c. c)
recibir_tablas-Marco ((pid, tabla) ∷ tablas) k =
    Sale-bind_any (Marco k) (deref (list_find (λ p. p == pid) k.global_pcb_list)) _ (λ un_pcb.
      Marco-bind k (con_segmentos un_pcb tabla k) (recibir_tablas_compactadas tablas)
        (con_segmentos-Marco un_pcb tabla k) (recibir_tablas-Marco tablas))
