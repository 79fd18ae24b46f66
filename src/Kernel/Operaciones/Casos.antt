-- ===== src/Kernel/Operaciones/Casos.antt =====
-- kernel.h: what has to be shown of each operation so that it holds after `readOp` and after the
-- `switch` of `operarFS`.
use unix_os_simulation.Base.{
  ℕ, ◌≡◌, true, false, List, Outcome, ok, ◌>>=◌, Sale, Sale-bind_any, Cadena, ◌==◌, if_elim,
  if_elim_eq, arith,
}
use unix_os_simulation.Base.Int.{ℤ, atoi}
use unix_os_simulation.Biblioteca.{Segmento}
use unix_os_simulation.Biblioteca.OpCode
use unix_os_simulation.Kernel.{Kernel, BlockedNode, a_ready, adelante, a_exit, finalizar}
use unix_os_simulation.Kernel.Recursos.{wait_recurso_lista, signal_recurso_lista}
use unix_os_simulation.Kernel.Archivos.{process_f_open, process_f_close}
use unix_os_simulation.Kernel.Procesos.{i_o}
use unix_os_simulation.Kernel.Segmentos.{create_segment, delete_segment}
use unix_os_simulation.Kernel.Ficheros.{
  parametro, impide, recieves_filesystem_petition, f_truncate_process, process_fseek,
  process_facceso, sin_bloqueo, operar, es_uno,
}
use unix_os_simulation.Kernel.Operaciones.{es_operacion_de_fs, segun_operacion, read_op}

module _ (P : Kernel → Type 0) where
  -- A claim on all results of one call.
  abbrev pub Todo : Outcome Kernel → Type 0
  Todo o = Sale P o

  pub read_op_cases :
      (cod_op pid : ℕ) (ps : List Cadena) (tabla : List Segmento) (k : Kernel)
      → P (record (recieves_filesystem_petition cod_op pid ps k) { replanificar = true })
      → P (a_ready pid (record k { replanificar = true }))
      → P (a_exit pid (record k { replanificar = true }))
      → ((r : Cadena) → Sale P (wait_recurso_lista r pid k))
      → ((r : Cadena) → Sale P (signal_recurso_lista r pid k))
      → P (i_o pid (record k { replanificar = true }))
      → ((m : Cadena) → P (finalizar m pid (record k { replanificar = true })))
      → ((id size : ℤ) → P (create_segment pid id size k))
      → ((id : ℤ) → Sale P (delete_segment pid id tabla k >>= λ k1. ok (adelante pid k1)))
      → Sale P (read_op cod_op pid ps tabla k)
  unfolding read_op segun_operacion
  read_op_cases cod_op pid ps tabla k pf py pe pw ps_ pi pm pc pd =
      let uno = Sale-bind_any P (parametro 0 ps) in
      if_elim Todo (es_operacion_de_fs cod_op) pf (
        if_elim Todo (cod_op == OpCode.yield) py (
          if_elim Todo (cod_op == OpCode.exit) pe (
            if_elim Todo (cod_op == OpCode.wait) (uno _ pw) (
              if_elim Todo (cod_op == OpCode.signal) (uno _ ps_) (
                if_elim Todo (cod_op == OpCode.i_o) (uno _ (λ t. pi)) (
                  if_elim Todo (cod_op == OpCode.error) (uno _ pm) (
                    if_elim Todo (cod_op == OpCode.create_segment)
                      (uno _ (λ i. Sale-bind_any P (parametro 1 ps) _ (λ z. pc (atoi i) (atoi z))))
                      (if_elim Todo (cod_op == OpCode.delete_segment) (uno _ (λ i. pd (atoi i)))
                        tt))))))))

  pub operar_cases :
      (respuesta : ℤ) (nodo : BlockedNode) (k : Kernel)
      → (impide nodo.cod_op ≡ false
          → (name : Cadena) → Sale P (process_f_open (es_uno respuesta) name nodo.un_pcb k))
      → (impide nodo.cod_op ≡ false → (name : Cadena) → Sale P (process_f_close name nodo.un_pcb k))
      → (impide nodo.cod_op ≡ false
          → Sale P (f_truncate_process respuesta nodo.parametros nodo.un_pcb k))
      → (impide nodo.cod_op ≡ false → Sale P (process_fseek nodo.parametros nodo.un_pcb k))
      → (impide nodo.cod_op ≡ true
          → (op : ℕ)
          → Sale P (process_facceso op nodo.parametros nodo.un_pcb k >>= λ k1. ok (sin_bloqueo k1)))
      → Sale P (operar respuesta nodo k)
  unfolding operar impide
  operar_cases respuesta nodo k po pc pt pk pa =
      let c = nodo.cod_op in
      if_elim_eq Todo (c == OpCode.f_open)
        (λ e. Sale-bind_any P (parametro 0 nodo.parametros) _ (po (ground arith)))
        (λ n.
          if_elim_eq Todo (c == OpCode.f_close)
            (λ e. Sale-bind_any P (parametro 0 nodo.parametros) _ (pc (ground arith)))
            (λ n.
              if_elim_eq Todo (c == OpCode.f_truncate) (λ e. pt (ground arith))
                (λ n.
                  if_elim_eq Todo (c == OpCode.f_seek) (λ e. pk (ground arith))
                    (λ n.
                      if_elim_eq Todo (c == OpCode.f_write) (λ e. pa (ground arith) OpCode.f_write)
                        (λ n.
                          if_elim_eq Todo (c == OpCode.f_read)
                            (λ e. pa (ground arith) OpCode.f_read) (λ n. tt))))))
