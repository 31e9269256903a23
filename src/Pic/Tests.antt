-- ===== src/Pic/Tests.antt =====
-- The interrupt controllers from their state at boot.
use ece391_mp.Base.{◌≡◌, refl, true, []}
use ece391_mp.Pic.{Ports, enable_irq, disable_irq, init}

abbrev boot : Ports
boot = record { master_mask = 0xFF; slave_mask = 0xFF; interrupts = true; out = [] }

init_opens_cascade : (init boot).master_mask ≡ 0xFB
unfolding init ece391_mp.Pic.unmask
init_opens_cascade = refl
