-- ===== src/Kernel/Operaciones.antt =====
-- kernel.h: `es_operacion_de_FS`, which says what goes to the queue of the file system, and `readOp`,
-- which does what the process that comes back from the CPU asked for.
pub mod Casos
pub mod Presentes
pub mod Errores
use unix_os_simulation.Base.{
  ℕ, ◌≡◌, ◌⊎◌, ◌↔◌, Bool, true, false, List, [], ◌∷◌, ◌==◌, if◌then◌else◌, In, arith, Cadena,
  Outcome, ok, exits, ◌>>=◌,
}
use unix_os_simulation.Base.Int.{atoi}
use unix_os_simulation.Biblioteca.{Segmento}
use unix_os_simulation.Biblioteca.OpCode
use unix_os_simulation.Kernel.{Kernel, a_ready, adelante, a_exit, finalizar}
use unix_os_simulation.Kernel.Recursos.{wait_recurso_lista, signal_recurso_lista}
use unix_os_simulation.Kernel.Procesos.{i_o}
use unix_os_simulation.Kernel.Segmentos.{create_segment, delete_segment}
use unix_os_simulation.Kernel.Ficheros.{parametro, recieves_filesystem_petition}

abbrev pub fs_ops : List ℕ
fs_ops =
    OpCode.f_open ∷ OpCode.f_close ∷ OpCode.f_read ∷ OpCode.f_write ∷ OpCode.f_truncate
    ∷ OpCode.f_seek ∷ []

unfoldable pub esta_en : List ℕ → ℕ → Bool
esta_en [] cod_op = false
esta_en (o ∷ os) cod_op = if o == cod_op then true else esta_en os cod_op

unfoldable pub es_operacion_de_fs : ℕ → Bool
unfolding esta_en
es_operacion_de_fs cod_op = esta_en fs_ops cod_op

-- The `switch`. The table is the memory module's answer to DELETE_SEGMENT.
unfoldable pub segun_operacion : ℕ → ℕ → List Cadena → List Segmento → Kernel → Outcome Kernel
segun_operacion cod_op pid parametros tabla k =
    if cod_op == OpCode.yield
    then ok (a_ready pid (record k { replanificar = true }))
    else if cod_op == OpCode.exit
    then ok (a_exit pid (record k { replanificar = true }))
    else if cod_op == OpCode.wait
    then (parametro 0 parametros >>= λ recurso. wait_recurso_lista recurso pid k)
    else if cod_op == OpCode.signal
    then (parametro 0 parametros >>= λ recurso. signal_recurso_lista recurso pid k)
    else if cod_op == OpCode.i_o
    then (parametro 0 parametros >>= λ tiempo. ok (i_o pid (record k { replanificar = true })))
    else if cod_op == OpCode.error
    then (parametro 0 parametros >>= λ mensaje_error.
        ok (finalizar mensaje_error pid (record k { replanificar = true })))
    else if cod_op == OpCode.create_segment
    then (parametro 0 parametros >>= λ id.
        parametro 1 parametros >>= λ size. ok (create_segment pid (atoi id) (atoi size) k))
    else if cod_op == OpCode.delete_segment
    then (parametro 0 parametros >>= λ id.
        delete_segment pid (atoi id) tabla k >>= λ k1. ok (adelante pid k1))
    else exits

unfoldable pub read_op : ℕ → ℕ → List Cadena → List Segmento → Kernel → Outcome Kernel
unfolding segun_operacion es_operacion_de_fs
read_op cod_op pid parametros tabla k =
    if es_operacion_de_fs cod_op
    then ok (record (recieves_filesystem_petition cod_op pid parametros k) { replanificar = true })
    else segun_operacion cod_op pid parametros tabla k

esta_en-In : (os : List ℕ) (cod_op : ℕ) → (esta_en os cod_op ≡ true) ↔ In cod_op os
unfolding esta_en
esta_en-In [] cod_op = (λ e. cc, λ i. absurd i)
esta_en-In (o ∷ os) cod_op =
    let (f, g) = esta_en-In os cod_op in (λ e. ground (arith, f), λ i. ground (arith, g))

-- es_operacion_de_FS answers true exactly for F_OPEN, F_CLOSE, F_READ, F_WRITE, F_TRUNCATE and
-- F_SEEK.
pub es_operacion_de_fs-In :
    (cod_op : ℕ)
    → (es_operacion_de_fs cod_op ≡ true)
      ↔ (cod_op ≡ OpCode.f_open)
        ⊎ (cod_op ≡ OpCode.f_close)
        ⊎ (cod_op ≡ OpCode.f_read)
        ⊎ (cod_op ≡ OpCode.f_write)
        ⊎ (cod_op ≡ OpCode.f_truncate)
        ⊎ (cod_op ≡ OpCode.f_seek)
unfolding es_operacion_de_fs
es_operacion_de_fs-In cod_op =
    let (f, g) = esta_en-In fs_ops cod_op in (λ e. ground (arith, f e), λ i. g (ground arith))
