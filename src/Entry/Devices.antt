-- ===== src/Entry/Devices.antt =====
-- What the initialisers that `entry` calls leave of the devices.
use ece391_mp.Base.{◌≡◌, refl, ap, some}
use ece391_mp.Pic.{init, enable_irq, disable_irq, unmask, mask_out}
use ece391_mp.Rtc.{initialize_rtc, change_rate, rate_select}
use ece391_mp.Scheduler.{initialize_pit}
use ece391_mp.Keyboard.{kbrd_init}
use ece391_mp.Paging.{init_paging}
use ece391_mp.Kernel.{Kernel}
use ece391_mp.Entry.{Given, start_devices}

-- With all interrupt lines masked at the start, the initialisers return, and open the lines of the
-- timer, the keyboard, the second controller and the clock and no other; the stack of the TSS is at
-- the end of the kernel's memory, and the page tables are those of `init_paging`.
pub start_devices_lem :
    (g : Given) (k : Kernel)
    → k.keyboard.ports.master_mask ≡ 0xFF
    → k.keyboard.ports.slave_mask ≡ 0xFF
    → (k' : Kernel) × (start_devices g k ≡ some (0, k'))
      × (k'.keyboard.ports.master_mask ≡ 0xF8)
      × (k'.keyboard.ports.slave_mask ≡ 0xFE)
      × (k'.scheduler.tss_esp0 ≡ 0x800000)
      × (k'.scheduler.tables
          ≡ init_paging g.vid_page_table_at g.user_vid_page_table_at k.scheduler.tables)
unfolding start_devices init enable_irq disable_irq initialize_rtc change_rate rate_select
    initialize_pit kbrd_init unmask mask_out
start_devices_lem g k master slave = (
  _,
  refl,
  ap (λ m. unmask (unmask (mask_out (unmask m 2) 0) 0) 1) master,
  ap (λ m. unmask (unmask (mask_out (mask_out m 0) 0) 0) 0) slave,
  refl,
  refl,
)
