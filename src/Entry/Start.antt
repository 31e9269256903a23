-- ===== src/Entry/Start.antt =====
-- What `entry` leaves of the process tables.
use Prim.Native.String.{String}
use ece391_mp.Base.{ℕ, ◌*◌, ◌≡◌}
use ece391_mp.Kernel.{Kernel}
use ece391_mp.Entry.Segments.{SegDesc, low_word, high_word, base_of, limit_of, access_of}
use ece391_mp.Entry.{Given, Loaded}
use ece391_mp.Entry.Keeps.{Keeps}

-- What the processor reads of a descriptor of the GDT.
abbrev Describes : SegDesc → ℕ → ℕ → ℕ → Type 0
Describes d base limit access =
    (base_of (low_word d) (high_word d) ≡ base)
    × (limit_of (low_word d) (high_word d) ≡ limit)
    × (access_of (high_word d) ≡ access)

-- The LDT and the TSS that were given, as present system segments of their types, and the selectors:
-- each is 8 times the number of an entry of the GDT.
pub record Segments (g : Given) (l : Loaded) : Type 0 where
  pub ldt : Describes l.ldt_desc_ptr g.ldt g.ldt_size 0x82
  pub tss : Describes l.tss_desc_ptr g.tss g.tss_size 0x89
  pub registers : (l.ldt_register ≡ 8 * 7) × (l.task_register ≡ 8 * 6)
  pub stack : (l.ldt_segment_selector ≡ 8 * 7) × (l.ss0 ≡ 8 * 3)
