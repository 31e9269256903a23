-- ===== src/Entry/Tests.antt =====
-- A start of the sample kernel.
use ece391_mp.Base.{ℕ, ◌≡◌, refl, Bool, true, false, Option, some, none}
use ece391_mp.Kernel.{Kernel}
use ece391_mp.Kernel.Sample.{sample}
use ece391_mp.Process.{Frame, returned, entered, resumed}
use ece391_mp.Entry.{
  multiboot_bootloader_magic, Given, Loaded, Booted, refused, started, load_segments, entry,
  start_devices,
}
use ece391_mp.Paging.{init_paging}
use ece391_mp.Entry.Devices.{start_devices_lem}
use ece391_mp.Entry.Start.{Segments}

abbrev given : Given
given = record {
  ldt = 0x410000;
  ldt_size = 15;
  tss = 0x410100;
  tss_size = 103;
  vid_page_table_at = 0x411000;
  user_vid_page_table_at = 0x412000;
  in_a = 0x26;
  in_b = 0x02;
}

abbrev frame : Frame
frame = record {
  fname = 0x7FF000;
  buf = 0x7FF040;
  args = 0x7FF100;
  elf = 0x430000;
  sorry_text = 0x430100;
  conv_buf = 0x7FF800;
}

-- The texts are empty, and the multiboot information has no flags.
abbrev booted : Option Booted
booted = entry (λ s. 0x600000) 0x7FF800 frame given multiboot_bootloader_magic 0x600100 sample

enters : Option Booted → Bool
enters (some (started l (entered eip k))) = true
enters (some (started l (returned r k))) = false
enters (some (started l (resumed r k))) = false
enters (some (refused k)) = false
enters none = false

eip_of : Option Booted → ℕ
eip_of (some (started l (entered eip k))) = eip
eip_of (some (started l (returned r k))) = 0
eip_of (some (started l (resumed r k))) = 0
eip_of (some (refused k)) = 0
eip_of none = 0

state_of : Option Booted → Kernel
state_of (some (started l (entered eip k))) = k
state_of (some (started l (returned r k))) = k
state_of (some (started l (resumed r k))) = k
state_of (some (refused k)) = k
state_of none = sample

loaded_of : Option Booted → Loaded
loaded_of (some (started l o)) = l
loaded_of (some (refused k)) = load_segments given
loaded_of none = load_segments given

-- The sample kernel with all interrupt lines masked.
abbrev masked : Kernel
masked = record sample {
  keyboard = record (sample.keyboard) {
    ports = record (sample.keyboard.ports) { master_mask = 0xFF; slave_mask = 0xFF };
  };
}

start_devices_lem_example :
    (k' : Kernel) × (start_devices given masked ≡ some (0, k'))
    × (k'.keyboard.ports.master_mask ≡ 0xF8)
    × (k'.keyboard.ports.slave_mask ≡ 0xFE)
    × (k'.scheduler.tss_esp0 ≡ 0x800000)
    × (k'.scheduler.tables ≡ init_paging 0x411000 0x412000 masked.scheduler.tables)
start_devices_lem_example = start_devices_lem given masked refl refl
