-- ===== src/Exceptions/Tests.antt =====
-- The handler of a floating point exception, on the screen of the sample kernel.
use ece391_mp.Base.{◌≡◌, refl, arith, false, some, length, ◌==◌, if◌then◌else◌}
use ece391_mp.Screen.Cursor.{Cursor}
use ece391_mp.Screen.Edit.{advance_all}
use ece391_mp.Kernel.{Kernel, mem_of, with_mem}
use ece391_mp.Kernel.Sample.{sample, text_at}
use ece391_mp.Exceptions.{fpu, message, user_ds, returns, freezes, ex_handler}
use ece391_mp.Exceptions.Frozen.{Holds, text_printed, ex_handler_lem}

abbrev loaded : Kernel
loaded = with_mem (text_at 0x430000 (message fpu)) sample

loaded-Holds : Holds (mem_of loaded) 0x430000 (message fpu)
unfolding Holds message
loaded-Holds = (
  refl,
  (
    refl,
    (refl, (refl, (refl, (refl, (refl, (refl, (refl, (refl, (refl, (refl, (refl, refl))))))))))),
  ),
)

loaded-Cursor : Cursor (loaded.keyboard.screen) 0 0
loaded-Cursor = record { column = refl; row = refl; on_page = omega arith }

ex_handler_lem_example :
    (k' : Kernel) × (ex_handler (λ e. 0x430000) 0x440000 0x18 fpu loaded
      ≡ some (if 0x18 == user_ds then returns k' else freezes k'))
    × (k'.keyboard.ports.interrupts ≡ false)
    × Cursor (k'.keyboard.screen) 0 (advance_all (mem_of loaded) 0x430000 (length (message fpu)) 0)
    × (mem_of k' ≡ text_printed (message fpu) 0 0 (mem_of loaded))
ex_handler_lem_example =
    ex_handler_lem (λ e. 0x430000) 0x440000 0x18 0 fpu loaded loaded-Holds (omega arith)
      loaded-Cursor
