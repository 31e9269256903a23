-- ===== src/Scheduler/Tests.antt =====
-- The scheduler with processes 0, 1 and 2, of which 1 has a child.
use ece391_mp.Base.{ℕ, ◌+◌, ◌≡◌, refl, arith, some, ◌==◌, [], true, if◌then◌else◌, ltb}
use ece391_mp.Base.Int.{pos}
use ece391_mp.Scheduler.{Scheduler, pit_int, switch_to}
use ece391_mp.Scheduler.Turns.{turn, Chosen, entered, pit_int_lem}

abbrev three : Scheduler
three = record {
  process_array = λ p. if ltb p 3 then 1 else 0;
  terminal_array = λ t. pos t;
  curr_terminal = 0;
  leaf = λ p. if p == 1 then 0 else 1;
  terminal = λ p. p;
  saved_esp = λ p. 0x7F0000 + p;
  saved_ebp = λ p. 0x7F1000 + p;
  esp = 0x7FFF00;
  ebp = 0x7FFF80;
  tss_esp0 = 0x7FFFFC;
  tables = record {
    page_directory = λ i. 0;
    vid_page_table = λ i. 0;
    user_vid_page_table = λ i. 0;
  };
  ports = record { master_mask = 0xF8; slave_mask = 0xFE; interrupts = true; out = [] };
}

pit_int_lem_example :
    (e : ℕ) × Chosen (entered three) 0 0 e
    × (pit_int three
        ≡ some (if turn 0 e == 0 then entered three else switch_to 0 (turn 0 e) (entered three)))
pit_int_lem_example = pit_int_lem three 0 refl (omega arith)
