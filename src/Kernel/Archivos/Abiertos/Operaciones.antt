-- ===== src/Kernel/Archivos/Abiertos/Operaciones.antt =====
-- kernel.h: the table of open files and their queues after each operation on files.
use unix_os_simulation.Base.{
  ℕ, ◌≡◌, refl, Bool, true, false, List, [], ◌∷◌, ◌++◌, Option, none, some, deref, Sale, Sale-bind,
  Sale-bind_any, Cadena, strcmp_eq, ◌==◌, if_elim, list_remove,
}
use unix_os_simulation.Kernel.{Kernel, Descriptor, a_ready}
use unix_os_simulation.Kernel.Diccionario.{dictionary_get}
use unix_os_simulation.Kernel.Marco.{archivero}
use unix_os_simulation.Kernel.Archivos.{
  buscar_descriptor, tabla_de, con_tabla, liberar_cola, liberar_archivo, cerrar, process_f_close,
  esperar_archivo, abrir_nuevo, abrir, process_f_open,
}
use unix_os_simulation.Kernel.Archivos.Abiertos.{IsAbierto}
use unix_os_simulation.Base.Int.{ℤ, pos, atoi, es_menos_uno}
use unix_os_simulation.Kernel.{BlockedNode, Envio, trunca_archivo, enviar}
use unix_os_simulation.Kernel.Archivos.Abiertos.Cambios.{
  IsAbierto-cola, IsAbierto-nuevo, IsAbierto-olvido, IsAbierto-puntero,
}
use unix_os_simulation.Kernel.Ficheros.{
  parametro, es_uno, es_dos, truncado, f_truncate_process, process_fseek, process_facceso, operar,
  atender_en,
}
use unix_os_simulation.Kernel.Operaciones.Casos.{operar_cases}
use unix_os_simulation.Kernel.Salida.{cerrar_archivos}

abbrev pub ConArchivos : Kernel → Type 0
ConArchivos k = IsAbierto (archivero k)

deref-eq : {A : Type 0} (o : Option A) → Sale (λ x. o ≡ some x) (deref o)
deref-eq none = tt
deref-eq (some x) = refl

module _ (k : Kernel) (s : ConArchivos k) where
  liberar_cola-ConArchivos :
      (d : ℕ) (x : Descriptor) (o : Option (List ℕ))
      → dictionary_get ◌==◌ d k.descriptores ≡ some x
      → dictionary_get strcmp_eq x.file_name k.colas_archivos ≡ o
      → Sale ConArchivos (liberar_cola o x.file_name d k)
  unfolding archivero liberar_cola
  liberar_cola-ConArchivos d x none g e = tt
  liberar_cola-ConArchivos d x (some []) g e = IsAbierto-olvido (archivero k) d x g s
  liberar_cola-ConArchivos d x (some (p ∷ ps)) g e =
      IsAbierto-cola (archivero k) x.file_name ps (p ∷ ps) e s

  pub liberar_archivo-ConArchivos : (d : ℕ) → Sale ConArchivos (liberar_archivo d k)
  unfolding liberar_archivo
  liberar_archivo-ConArchivos d =
      Sale-bind (λ x. dictionary_get ◌==◌ d k.descriptores ≡ some x) ConArchivos
        (deref (dictionary_get ◌==◌ d k.descriptores)) _
        (deref-eq (dictionary_get ◌==◌ d k.descriptores))
        (λ x g. liberar_cola-ConArchivos d x _ g refl)

module _ (k : Kernel) (s : ConArchivos k) where
  cerrar-ConArchivos :
      (name : Cadena) (pid : ℕ) (o : Option ℕ) → Sale ConArchivos (cerrar o name pid k)
  unfolding archivero cerrar
  cerrar-ConArchivos name pid none = s
  cerrar-ConArchivos name pid (some d) =
      liberar_archivo-ConArchivos
        (a_ready pid (con_tabla pid (list_remove (λ x. x == d) (tabla_de pid k)) k)) s d

  pub f_close-ConArchivos :
      (name : Cadena) (pid : ℕ) → Sale ConArchivos (process_f_close name pid k)
  unfolding process_f_close
  f_close-ConArchivos name pid =
      Sale-bind_any ConArchivos (buscar_descriptor k.descriptores name (tabla_de pid k)) _
        (cerrar-ConArchivos name pid)

  esperar-ConArchivos :
      (pid : ℕ) (name : Cadena) (t : List ℕ) (o : Option (List ℕ))
      → dictionary_get strcmp_eq name k.colas_archivos ≡ o
      → Sale ConArchivos (esperar_archivo o name pid (con_tabla pid t k))
  unfolding archivero esperar_archivo
  esperar-ConArchivos pid name t none e = tt
  esperar-ConArchivos pid name t (some c) e =
      IsAbierto-cola (archivero k) name (c ++ pid ∷ []) c e s

  abrir-ConArchivos :
      (answer : Bool) (name : Cadena) (pid : ℕ) (o : Option ℕ)
      → Sale ConArchivos (abrir o answer name pid k)
  unfolding archivero abrir abrir_nuevo
  abrir-ConArchivos false name pid none = tt
  abrir-ConArchivos true name pid none =
      IsAbierto-nuevo (archivero k) name (record { file_name = name; pointer = pos 0 }) refl s
  abrir-ConArchivos answer name pid (some d) =
      esperar-ConArchivos pid name (d ∷ tabla_de pid k) _ refl

  pub f_open-ConArchivos :
      (answer : Bool) (name : Cadena) (pid : ℕ)
      → Sale ConArchivos (process_f_open answer name pid k)
  unfolding process_f_open
  f_open-ConArchivos answer name pid =
      Sale-bind_any ConArchivos (buscar_descriptor k.descriptores name k.gdt) _
        (abrir-ConArchivos answer name pid)

  pub fseek-ConArchivos : (ps : List Cadena) (pid : ℕ) → Sale ConArchivos (process_fseek ps pid k)
  unfolding archivero process_fseek
  fseek-ConArchivos ps pid = Sale-bind_any ConArchivos (parametro 0 ps) _ (λ name.
      Sale-bind_any ConArchivos (parametro 1 ps) _ (λ puntero.
        Sale-bind_any ConArchivos (buscar_descriptor k.descriptores name (tabla_de pid k)) _ (λ o.
          Sale-bind_any ConArchivos (deref o) _ (λ d.
            Sale-bind (λ x. dictionary_get ◌==◌ d k.descriptores ≡ some x) ConArchivos
              (deref (dictionary_get ◌==◌ d k.descriptores)) _
              (deref-eq (dictionary_get ◌==◌ d k.descriptores))
              (λ x g.
                IsAbierto-puntero (archivero k) d x (record x { pointer = atoi puntero }) g refl
                  s)))))

  truncado-ConArchivos :
      (c : ℤ) (name : Cadena) (pid : ℕ) (e : Envio) → ConArchivos (truncado c name pid (enviar e k))
  unfolding archivero truncado
  truncado-ConArchivos c name pid e =
      if_elim ConArchivos (es_menos_uno c) s (if_elim ConArchivos (es_dos c) s s)

  f_truncate-ConArchivos :
      (c : ℤ) (ps : List Cadena) (pid : ℕ) → Sale ConArchivos (f_truncate_process c ps pid k)
  unfolding f_truncate_process
  f_truncate-ConArchivos c ps pid = Sale-bind_any ConArchivos (parametro 0 ps) _ (λ name.
      Sale-bind_any ConArchivos (parametro 1 ps) _
        (λ size. truncado-ConArchivos c name pid (trunca_archivo name (atoi size))))

  facceso-ConArchivos :
      (cod_op : ℕ) (ps : List Cadena) (pid : ℕ) → Sale ConArchivos (process_facceso cod_op ps pid k)
  unfolding archivero process_facceso
  facceso-ConArchivos cod_op ps pid = Sale-bind_any ConArchivos (parametro 0 ps) _ (λ name.
      Sale-bind_any ConArchivos (buscar_descriptor k.descriptores name k.gdt) _ (λ o.
        Sale-bind_any ConArchivos (deref o) _ (λ d.
          Sale-bind_any ConArchivos (deref (dictionary_get ◌==◌ d k.descriptores)) _ (λ descr.
            Sale-bind_any ConArchivos (parametro 1 ps) _
              (λ a. Sale-bind_any ConArchivos (parametro 2 ps) _ (λ b. s))))))

  operar-ConArchivos :
      (respuesta : ℤ) (nodo : BlockedNode) → Sale ConArchivos (operar respuesta nodo k)
  unfolding archivero
  operar-ConArchivos respuesta nodo =
      let pid = nodo.un_pcb in
      operar_cases ConArchivos respuesta nodo k (λ e n. f_open-ConArchivos (es_uno respuesta) n pid)
        (λ e n. f_close-ConArchivos n pid)
        (λ e. f_truncate-ConArchivos respuesta nodo.parametros pid)
        (λ e. fseek-ConArchivos nodo.parametros pid)
        (λ e op.
          Sale-bind ConArchivos ConArchivos (process_facceso op nodo.parametros pid k) _
            (facceso-ConArchivos op nodo.parametros pid) (λ k1 t. t))

pub atender-ConArchivos :
    (respuesta : ℤ) (nodos : List BlockedNode) (k : Kernel)
    → ConArchivos k
    → Sale ConArchivos (atender_en nodos respuesta k)
unfolding archivero atender_en
atender-ConArchivos respuesta [] k s = tt
atender-ConArchivos respuesta (nodo ∷ nodos) k s =
    Sale-bind ConArchivos ConArchivos
      (operar respuesta nodo (record k { consolas_blocked = nodos })) _
      (operar-ConArchivos (record k { consolas_blocked = nodos }) s respuesta nodo) (λ k1 t. t)

pub cerrar_archivos-ConArchivos :
    (ds : List ℕ) (k : Kernel) → ConArchivos k → Sale ConArchivos (cerrar_archivos ds k)
unfolding cerrar_archivos
cerrar_archivos-ConArchivos [] k s = s
cerrar_archivos-ConArchivos (d ∷ ds) k s =
    Sale-bind ConArchivos ConArchivos (liberar_archivo d k) _ (liberar_archivo-ConArchivos k s d)
      (λ k1 t. cerrar_archivos-ConArchivos ds k1 t)
