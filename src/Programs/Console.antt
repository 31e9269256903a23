-- ===== src/Programs/Console.antt =====
-- What a process prints through descriptor 1.
use Prim.Native.String.{String}
use ece391_mp.Base.{ℕ, ◌≡◌, ◌≢◌, refl, arith, ap, ◌∙◌, some, false, ◌==◌}
use ece391_mp.Base.Int.{ℤ, pos}
use ece391_mp.Screen.{Screen}
use ece391_mp.Kernel.{Kernel, std_out, mem_of, physical, user, get_curr_pcb_term}
use ece391_mp.Support.{ece391_strlen, ece391_fdputs}
use ece391_mp.Terminal.{terminal_write, write_loop}
use ece391_mp.Descriptors.{sys_write, write_driver}
use ece391_mp.Process.{Frame}
use ece391_mp.Programs.{Act, Calls, put_text}
use ece391_mp.Programs.OnKernel.{kernel_calls}

-- The kernel `k0` with the current process on terminal `t`, and the literals as strings in the memory.
pub record Console (text : String → ℕ) (t : ℕ) (k0 : Kernel) : Type 0 where
  pub size : String → ℕ
  pub front : get_curr_pcb_term k0.scheduler ≡ some t
  pub literal : (s : String) → ece391_strlen (λ a. mem_of k0 (user k0 a)) (text s) ≡ some (size s)
  pub placed : (s : String) → (text s ≢ 0) × (user k0 (text s) ≢ 0)

-- The screen with the text `s`, behind what is on it.
abbrev pub screen_with :
    (t : ℕ) (k0 : Kernel) (text : String → ℕ) → Console text t k0 → String → Screen
screen_with t k0 text console s =
    write_loop (console.size s) t (user k0 (text s)) 0 k0.keyboard.screen

-- `k` has the memory and the process tables of `k0`, and descriptor 1 of `pid` is the terminal.
pub record Shows (pid : ℕ) (k0 k : Kernel) : Type 0 where
  pub screen : k.keyboard.screen ≡ k0.keyboard.screen
  pub scheduler : k.scheduler ≡ k0.scheduler
  pub image : k.boot_block ≡ k0.boot_block
  pub output : (k.file_array pid 1).fop_jump_table ≡ std_out

module _ (pid t : ℕ) (k0 : Kernel) (text : String → ℕ) (f : Frame) (child : ℕ → Act Kernel ℤ)
    (sys_int_table : ℤ → Act Kernel ℤ) (console : Console text t k0) where
  abbrev pub c : Calls Kernel
  c = kernel_calls pid text f child sys_int_table

  abbrev pub said : String → Screen
  said s = screen_with t k0 text console s

  open console use {size, front, literal, placed}

  console_write :
      (s : String) (k : Kernel)
      → Shows pid k0 k
      → (k' : Kernel) × (sys_write pid (pos 1) (text s) (size s) k ≡ some (pos (size s), k'))
        × (k'.keyboard.screen ≡ said s)
  unfolding sys_write write_driver terminal_write
  console_write s k shows =
      let (there, there') = placed s in
      let g = k.file_array pid 1 in
      let row : g.fop_jump_table ≡ std_out = shows.output in
      let where_to : get_curr_pcb_term k.scheduler ≡ some t =
        ap get_curr_pcb_term shows.scheduler ∙ front in
      let a = user k (text s) in
      let same : a ≡ user k0 (text s) =
        ap (λ x. physical x.tables.page_directory (text s)) shows.scheduler in
      let mapped : (a == 0) ≡ false = ground (arith, same, there') in
      let valid : (text s == 0) ≡ false = ground (arith, there) in
      let done = terminal_write t a (size s) k.keyboard in
      (
        record k { keyboard = done.1 },
        rw (valid, sys_write)
            (rw (row, write_driver)
              (rw (where_to, write_driver) (rw (mapped, terminal_write) refl))),
        rw (mapped, terminal_write)
            (ap (λ b. write_loop (size s) t b 0 k.keyboard.screen) same
              ∙ ap (write_loop (size s) t (user k0 (text s)) 0) shows.screen),
      )

  -- A literal is printed behind what is on the screen.
  pub put_text-said :
      (s : String) (k : Kernel)
      → Shows pid k0 k
      → (k' : Kernel) × (put_text c (text s) k ≡ some (pos (size s), k'))
        × (k'.keyboard.screen ≡ said s)
  unfolding put_text ece391_fdputs
  put_text-said s k shows =
      let literal' : ece391_strlen (λ a. mem_of k (user k a)) (text s) ≡ some (size s) =
        ap (λ m. ece391_strlen m (text s))
          (λ i a. (shows.screen i).mem (physical (shows.scheduler i).tables.page_directory a))
        ∙ literal s in
      let (k', run, shown) = console_write s k shows in
      (k', rw (literal', put_text, ece391_fdputs) run, shown)
