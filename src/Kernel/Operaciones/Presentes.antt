-- ===== src/Kernel/Operaciones/Presentes.antt =====
-- kernel.h: where PCBs stand after `readOp` and after the operations on files, and the space for more
-- processes.
use unix_os_simulation.Base.{
  ℕ, ◌+◌, ◌≡◌, refl, ◌∙◌, List, [], ◌∷◌, ok, deref, ◌>>=◌, Sale, Sale-bind, Sale-bind_any, Sale-ok,
  Cadena, ◌==◌, arith,
}
use unix_os_simulation.Base.Int.{ℤ}
use unix_os_simulation.Biblioteca.{Segmento}
use unix_os_simulation.Kernel.{Kernel, BlockedNode, planifica, borra_segmento, enviar, adelante}
use unix_os_simulation.Kernel.Diccionario.{dictionary_get}
use unix_os_simulation.Kernel.Presencia.{presentes, Suma, peso-append, peso_nodos-append}
use unix_os_simulation.Kernel.Marco.Recursos.{wait-Marco, signal-Marco}
use unix_os_simulation.Kernel.Marco.Ficheros.{delete_segment-Marco}
use unix_os_simulation.Kernel.Recursos.{wait_recurso_lista, signal_recurso_lista}
use unix_os_simulation.Kernel.Recursos.Presentes.{
  a_ready-Suma, adelante-Suma, finalizar-Suma, wait-Suma, signal-Suma,
}
use unix_os_simulation.Kernel.Procesos.{i_o}
use unix_os_simulation.Kernel.Segmentos.{con_segmentos, create_segment, delete_segment}
use unix_os_simulation.Kernel.Ficheros.{impide, block_node, recieves_filesystem_petition}
use unix_os_simulation.Kernel.Ficheros.Presentes.{Deja, con_espacio}
use unix_os_simulation.Kernel.Operaciones.{read_op}
use unix_os_simulation.Kernel.Operaciones.Casos.{read_op_cases}

module _ (w : ℕ → ℕ) where
  segmentos-Suma :
      (pid : ℕ) (tabla : List Segmento) (k : Kernel)
      → Sale (λ k'. presentes w k' ≡ presentes w k) (con_segmentos pid tabla k)
  unfolding con_segmentos presentes
  segmentos-Suma pid tabla k =
      Sale-bind_any _ (deref (dictionary_get ◌==◌ pid k.pcbs)) _ (λ pcb. refl)

  delete-Deja :
      (pid : ℕ) (id : ℤ) (tabla : List Segmento) (k : Kernel)
      → Sale (Deja w (w pid) k) (delete_segment pid id tabla k >>= λ k1. ok (adelante pid k1))
  unfolding delete_segment presentes
  delete-Deja pid id tabla k =
      Sale-bind _ (Deja w (w pid) k) (delete_segment pid id tabla k) _
        (con_espacio w (λ k'. presentes w k' ≡ presentes w k) k (delete_segment pid id tabla k)
          (segmentos-Suma pid tabla (enviar (borra_segmento pid id) k))
          (delete_segment-Marco pid id tabla k))
        (λ k1 (e, f). (adelante-Suma w pid k1 ∙ omega (arith, e), f))

  petition-Suma :
      (cod_op pid : ℕ) (ps : List Cadena) (k : Kernel)
      → Suma w k (w pid) (recieves_filesystem_petition cod_op pid ps k)
  unfolding presentes recieves_filesystem_petition block_node
  petition-Suma cod_op pid ps k =
      let n : BlockedNode = record {
        un_pcb = pid;
        parametros = ps;
        cod_op = cod_op;
        impide_compactacion = impide cod_op;
      } in
      omega (arith, peso_nodos-append w k.consolas_blocked (n ∷ []))

  -- When no PCB runs.
  pub read_op-Deja :
      (cod_op pid : ℕ) (ps : List Cadena) (tabla : List Segmento) (k : Kernel)
      → k.hilo ≡ planifica
      → Sale (Deja w (w pid) k) (read_op cod_op pid ps tabla k)
  unfolding presentes create_segment i_o recieves_filesystem_petition block_node
  read_op-Deja cod_op pid ps tabla k e =
      read_op_cases (Deja w (w pid) k) cod_op pid ps tabla k (petition-Suma cod_op pid ps k, refl)
        (a_ready-Suma w pid k, refl) (omega (arith, peso-append w k.consolas_exit (pid ∷ [])), refl)
        (λ r.
          con_espacio w _ k (wait_recurso_lista r pid k) (wait-Suma w r pid k) (wait-Marco r pid k))
        (λ r.
          con_espacio w _ k (signal_recurso_lista r pid k) (signal-Suma w r pid k)
            (signal-Marco r pid k))
        (omega (arith, peso-append w k.durmiendo (pid ∷ [])), refl)
        (λ m. (finalizar-Suma w m pid k, refl)) (λ i z. (rw (e) (omega arith), refl))
        (λ i. delete-Deja pid i tabla k)

-- Whatever the operation is that a process brings back from the CPU, `readOp`, when it returns and
-- no other PCB runs, puts its PCB into exactly one place (the ready, exit or blocked queue, a queue
-- of a resource, the I/O, or the creation of a segment), and every PCB else stands in these places
-- and in the queues of the files as often as before, by any weight of the PCBs.
pub read_op-presentes :
    (cod_op pid : ℕ) (parametros : List Cadena) (tabla : List Segmento) (k k' : Kernel)
    → k.hilo ≡ planifica
    → read_op cod_op pid parametros tabla k ≡ ok k'
    → (w : ℕ → ℕ) → presentes w k' ≡ presentes w k + w pid
read_op-presentes cod_op pid parametros tabla k k' e h w =
    (Sale-ok (Deja w (w pid) k) (read_op cod_op pid parametros tabla k) k'
      (read_op-Deja w cod_op pid parametros tabla k e) h).0
