-- ===== src/Kernel/Sistema/Esperas/Serie.antt =====
-- kernel.h: the steps of the threads without waits are steps with waits in which nobody comes between.
use unix_os_simulation.Base.{ℕ, refl, false, List, Cadena}
use unix_os_simulation.Kernel.{Kernel, kernel_inicial}
use unix_os_simulation.Kernel.Sistema.{
  ◌⟶◌, ◌⟶*◌, conecta, admite, ordena, corre, vuelve, responde, permite, compacto, despierta, revisa,
  atiende, sale, aqui, luego,
}
use unix_os_simulation.Kernel.Sistema.Esperas.{
  espera_consola, Estado, Ajeno, toma_consola, toma_lugar, recibe_tabla, toma_nodo, responde_fs,
  ajeno, ◌⟹*◌, quieto_en, y_luego, estado_inicial,
}

-- Neither of the two threads holds anything.
abbrev pub libre : Kernel → Estado
libre k = record { kernel = k; admision = espera_consola; espera_fs = false }

paso-libre : (s : Estado) (k k' : Kernel) → s ⟹* libre k → k ⟶ k' → s ⟹* libre k'
unfolding Ajeno
paso-libre s k k' r (conecta c pid p e) = y_luego r (ajeno k' (conecta c pid p e) tt refl)
paso-libre s k k' r (admite tabla a b e) =
    y_luego (y_luego (y_luego r (toma_consola refl a refl)) (toma_lugar refl b refl))
      (recibe_tabla tabla k' refl e refl)
paso-libre s k k' r (ordena orden a m e) = y_luego r (ajeno k' (ordena orden a m e) tt refl)
paso-libre s k k' r (corre a b e) = y_luego r (ajeno k' (corre a b e) tt refl)
paso-libre s k k' r (vuelve c ctx tabla pid a e) =
    y_luego r (ajeno k' (vuelve c ctx tabla pid a e) tt refl)
paso-libre s k k' r (responde flag tabla pid id size a e) =
    y_luego r (ajeno k' (responde flag tabla pid id size a e) tt refl)
paso-libre s k k' r (permite pid id size a b e) =
    y_luego r (ajeno k' (permite pid id size a b e) tt refl)
paso-libre s k k' r (compacto tablas pid id size a e) =
    y_luego r (ajeno k' (compacto tablas pid id size a e) tt refl)
paso-libre s k k' r (despierta pid a e) = y_luego r (ajeno k' (despierta pid a e) tt refl)
paso-libre s k k' r (revisa a e) = y_luego r (ajeno k' (revisa a e) tt refl)
paso-libre s k k' r (atiende x a b e) =
    y_luego (y_luego r (toma_nodo refl a b refl)) (responde_fs x k' refl e refl)
paso-libre s k k' r (sale b e) = y_luego r (ajeno k' (sale b e) tt refl)

pub en_serie :
    (grado : ℕ) (recursos : List (Cadena × ℕ)) (k : Kernel)
    → kernel_inicial grado recursos ⟶* k
    → estado_inicial grado recursos ⟹* libre k
en_serie grado recursos k aqui = quieto_en
en_serie grado recursos k (luego {k1 = k1} r p) =
    paso-libre (estado_inicial grado recursos) k1 k (en_serie grado recursos k1 r) p
