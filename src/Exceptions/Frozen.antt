-- ===== src/Exceptions/Frozen.antt =====
-- What a handler shows, and when it returns.
use ece391_mp.Base.{
  ℕ, ◌+◌, ◌-◌, inl, inr, length, Bool-cases, ◌<◌, ◌≤◌, ◌≡◌, ◌≢◌, refl, arith, ap, ◌∙◌, Bool, true,
  false, not, ◌&&◌, some, List, [], ◌∷◌, ◌==◌, if◌then◌else◌,
}
use mathlib.Core.Path.{subst}
use ece391_mp.Base.Mem.{Mem}
use ece391_mp.Str.{scan_limit}
use ece391_mp.Str.Length.{IsStr}
use ece391_mp.Pic.{cli}
use ece391_mp.Screen.{Screen}
use ece391_mp.Screen.Cursor.{Cursor, advance, printed}
use ece391_mp.Screen.Edit.{advance_all}
use ece391_mp.Screen.Terminals.{pages_end}
use ece391_mp.Printf.Plain.{printed_all, printf_plain}
use ece391_mp.Kernel.{Kernel, mem_of}
use ece391_mp.Exceptions.{
  Exception, divide_error, debug, nmi_int, breakpoint, overflow, bound_range_exceeded,
  opcode_invalid, no_device, double_fault, coprocessor_segment_overrun, tss_invalid, no_segment,
  stack_fault, gp_fault, page_fault, fpu, alignment_check, machine_check, simd, message, user_ds,
  returns, freezes, ex_handler,
}

-- The bytes stand from `a` on, with a NUL behind them.
unfoldable pub Holds : Mem → ℕ → List ℕ → Type 0
Holds m a [] = m a ≡ 0
Holds m a (c ∷ text) = (m a ≡ c) × Holds m (a + 1) text

-- No NUL and no `%`.
unfoldable plain : List ℕ → Bool
plain [] = true
plain (c ∷ text) = not (c == 0) && not (c == b'%') && plain text

tail_of : (a b : Bool) {c : Bool} → (a && b && c) ≡ true → c ≡ true
tail_of a b e = ground arith

Holds-plain :
    (m : Mem) (a : ℕ) (text : List ℕ)
    → Holds m a text
    → plain text ≡ true
    → ((j : ℕ) → j < length text → (m (a + j) ≢ 0) × (m (a + j) ≢ b'%')) × (m (a + length text) ≡ 0)
unfolding Holds plain
Holds-plain m a [] holds p =
    (λ j lt. absurd (omega arith), subst (λ b. m b ≡ 0) (omega arith) holds)
Holds-plain m a (c ∷ text) (here, rest) p =
    let (inside, end) =
      Holds-plain m (a + 1) text rest (tail_of (not (c == 0)) (not (c == b'%')) p) in
    (
      λ j lt. elim (Bool-cases (j == 0)) [
        | inl first ↦
            let at : m (a + j) ≡ c = subst (λ b. m b ≡ c) (ground arith) here in
            (ground (arith, at, p), ground (arith, at, p))
        | inr later ↦
            let at : a + 1 + (j - 1) ≡ a + j = ground (arith, later) in
            subst (λ b. (m b ≢ 0) × (m b ≢ b'%')) at (inside (j - 1) (ground (arith, later, lt)))
      ],
      subst (λ b. m b ≡ 0) (omega arith) end,
    )

message-plain : (e : Exception) → (plain (message e) ≡ true) × (length (message e) < 40)
unfolding plain message
message-plain divide_error = (refl, omega arith)
message-plain debug = (refl, omega arith)
message-plain nmi_int = (refl, omega arith)
message-plain breakpoint = (refl, omega arith)
message-plain overflow = (refl, omega arith)
message-plain bound_range_exceeded = (refl, omega arith)
message-plain opcode_invalid = (refl, omega arith)
message-plain no_device = (refl, omega arith)
message-plain double_fault = (refl, omega arith)
message-plain coprocessor_segment_overrun = (refl, omega arith)
message-plain tss_invalid = (refl, omega arith)
message-plain no_segment = (refl, omega arith)
message-plain stack_fault = (refl, omega arith)
message-plain gp_fault = (refl, omega arith)
message-plain page_fault = (refl, omega arith)
message-plain fpu = (refl, omega arith)
message-plain alignment_check = (refl, omega arith)
message-plain machine_check = (refl, omega arith)
message-plain simd = (refl, omega arith)

Holds-IsStr :
    (m : Mem) (a : ℕ) (e : Exception) → Holds m a (message e) → IsStr m a (length (message e))
unfolding scan_limit
Holds-IsStr m a e holds =
    let (plain_text, small) = message-plain e in
    let (inside, end) = Holds-plain m a (message e) holds plain_text in
    record { nonzero = λ j lt. (inside j lt).0; nul = end; small = omega arith }

abbrev off_with : Screen → Kernel → Kernel
off_with screen k = record k {
  keyboard = record (k.keyboard) { ports = cli k.keyboard.ports; screen = screen };
}

-- The memory when the characters are printed at cell `p` of terminal `t`, one after the other.
unfoldable pub text_printed : List ℕ → ℕ → ℕ → Mem → Mem
text_printed [] t p m = m
text_printed (c ∷ text) t p m = text_printed text t (advance c p) (printed c t p m)

Holds-printed :
    (str : Mem) (a : ℕ) (text : List ℕ) (t p : ℕ) (m : Mem)
    → Holds str a text
    → printed_all str a (length text) t p m ≡ text_printed text t p m
unfolding Holds printed_all text_printed
Holds-printed str a [] t p m holds = refl
Holds-printed str a (c ∷ text) t p m (here, rest) =
    ap (λ v. printed_all str (a + 1) (length text) t (advance v p) (printed v t p m)) here
    ∙ Holds-printed str (a + 1) text t (advance c p) (printed c t p m) rest

-- A handler whose text is in memory above the pages of the screen, on a screen whose cursor is on its
-- page: the memory is what printing the characters of the text makes of it, one after the other from
-- the cursor on, the cursor is behind them, and the interrupts are off; the handler returns when the
-- data segment was that of user code, and otherwise it never does.
pub ex_handler_lem :
    (text_at : Exception → ℕ) (conv_buf ds p : ℕ) (e : Exception) (k : Kernel)
    → Holds (mem_of k) (text_at e) (message e)
    → pages_end ≤ text_at e
    → Cursor k.keyboard.screen k.keyboard.screen.curr_terminal p
    → (k' : Kernel) × (ex_handler text_at conv_buf ds e k
        ≡ some (if ds == user_ds then returns k' else freezes k'))
      × (k'.keyboard.ports.interrupts ≡ false)
      × Cursor k'.keyboard.screen k.keyboard.screen.curr_terminal
          (advance_all (mem_of k) (text_at e) (length (message e)) p)
      × (mem_of k' ≡ text_printed (message e) k.keyboard.screen.curr_terminal p (mem_of k))
unfolding ex_handler
ex_handler_lem text_at conv_buf ds p e k holds above at =
    let (plain_text, small) = message-plain e in
    let (inside, end) = Holds-plain (mem_of k) (text_at e) (message e) holds plain_text in
    let (screen, run, done, written) =
      printf_plain conv_buf (text_at e) (length (message e)) [] k.keyboard.screen
        (Holds-IsStr (mem_of k) (text_at e) e holds) (λ j lt. (inside j lt).1) above at in
    (
      off_with screen k,
      rw (run, ex_handler) refl,
      refl,
      done,
      written
          ∙ Holds-printed (mem_of k) (text_at e) (message e) k.keyboard.screen.curr_terminal p
              (mem_of k) holds,
    )
