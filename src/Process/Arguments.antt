-- ===== src/Process/Arguments.antt =====
-- What `getargs` delivers, and which pointers `vidmap` accepts.
use ece391_mp.Base.{
  ℕ, zero, suc, ◌+◌, ◌-◌, ◌^◌, ◌<◌, ◌≤◌, ◌≡◌, ◌≢◌, ◌⊎◌, refl, arith, sym, ◌∙◌, ◌==◌, ltb, leb, ◌||◌,
  ◌&&◌, false, if◌then◌else◌, some,
}
use ece391_mp.Base.Int.{pos, negsuc}
use ece391_mp.Base.Mem.{Mem, write, load32, SameOutside}
use ece391_mp.Str.Length.{IsStr, strlen-IsStr}
use ece391_mp.Str.Copy.{Apart, padded, strcpy_lem}
use ece391_mp.FileSystem.{success}
use ece391_mp.Kernel.{Kernel, mem_of, with_mem, user, pcb_at}
use ece391_mp.Process.{args_size, clear_array, user_vid_mem, four_mb}
use ece391_mp.Process.Args.{store32, getargs, vidmap}

clear_array_lem :
    (n : ℕ) (m : Mem) (a i x : ℕ)
    → clear_array n m a i x ≡ (if leb (a + i) x && ltb x (a + i + n) then 0 else m x)
unfolding clear_array
clear_array_lem zero m a i x = ground arith
clear_array_lem (suc n) m a i x = ground (arith, clear_array_lem n (write m (a + i) 0) a (i + 1) x)

clear_array-away :
    (n : ℕ) (m : Mem) (a b k j : ℕ)
    → Apart a n b k
    → j < k
    → clear_array n m a 0 (b + j) ≡ m (b + j)
clear_array-away n m a b k j apart lt = ground (arith, clear_array_lem n m a 0 (b + j), apart)

Apart-less : {n n' a b : ℕ} (k : ℕ) → n ≤ n' → Apart a n' b k → Apart a n b k
Apart-less k le apart = ground (arith, le, apart)

unset : {a b : ℕ} → a ≢ 0 → b ≢ 0 → ((a == 0) || (b == 0)) ≡ false
unset there more = ground (arith, there, more)

not_less : {a b : ℕ} → a ≤ b → ltb b a ≡ false
not_less le = ground (arith, le)

-- A copied string in a cleared buffer.
cleared_copy :
    (a b len v x : ℕ) (m : Mem)
    → len < args_size
    → Apart a args_size b (len + 1)
    → let cleared = clear_array args_size m a 0 in
      v ≡ (if leb a x && ltb x (a + len + 1) then padded cleared b len (x - a) else cleared x)
      → v ≡ (if leb a x && ltb x (a + args_size) then padded m b len (x - a) else m x)
cleared_copy a b len v x m short apart e = ground (
  arith,
  e,
  clear_array_lem args_size m a 0 x,
  clear_array-away args_size m a b (len + 1) (x - a) apart,
)

-- A string beside the cleared bytes is the same string.
clear_array-IsStr :
    (n : ℕ) (m : Mem) (a s len : ℕ)
    → IsStr m s len
    → Apart a n s (len + 1)
    → IsStr (clear_array n m a 0) s len
clear_array-IsStr n m a s len is apart = record {
  nonzero = λ j lt e.
      is.nonzero j lt (sym (clear_array-away n m a s (len + 1) j apart (omega arith)) ∙ e);
  nul = clear_array-away n m a s (len + 1) len apart (omega arith) ∙ is.nul;
  small = is.small;
}

-- The argument of the current process arrives, when it is a string of at most `nbytes` bytes and
-- lies apart from the buffer: the 1024 bytes of the buffer hold it, filled up with zeros, and nothing
-- else changes, also when `nbytes` is less than 1024.
pub getargs_lem :
    (buf nbytes pid len : ℕ) (k : Kernel)
    → buf ≢ 0
    → nbytes ≢ 0
    → k.scheduler.terminal_array k.scheduler.curr_terminal ≡ pos pid
    → IsStr (mem_of k) (pcb_at pid) len
    → len ≤ nbytes
    → len < args_size
    → Apart (user k buf) args_size (pcb_at pid) (len + 1)
    → (m : Mem) × (getargs buf nbytes k ≡ some (success, with_mem m k))
      × ((x : ℕ)
          → m x ≡ (
              if leb (user k buf) x && ltb x (user k buf + args_size)
              then padded (mem_of k) (pcb_at pid) len (x - user k buf)
              else mem_of k x))
unfolding getargs
getargs_lem buf nbytes pid len k there more runs is fits short apart =
    let cleared = clear_array args_size (mem_of k) (user k buf) 0 in
    let kept = clear_array-IsStr args_size (mem_of k) (user k buf) (pcb_at pid) len is apart in
    let (m, copies, at) =
      strcpy_lem cleared (user k buf) (pcb_at pid) len kept
        (Apart-less (len + 1) (omega arith) apart) in
    (
      m,
      rw (unset there more, getargs)
          (rw (runs, getargs)
            (rw (strlen-IsStr is, getargs) (rw (not_less fits, getargs) (rw copies refl)))),
      λ x. cleared_copy (user k buf) (pcb_at pid) len (m x) x (mem_of k) short apart (at x),
    )

store32-load32 : (m : Mem) (a v : ℕ) → v < 2 ^ 32 → load32 (store32 m a v) a ≡ v
unfolding load32 store32
store32-load32 m a v small = ground (arith, small)

store32-outside : (m : Mem) (a v : ℕ) → SameOutside a 4 m (store32 m a v)
unfolding store32
store32-outside m a v x out = ground (arith, out)

vidmap_tests :
    (a : ℕ)
    → 0x8000000 ≤ a
    → a < 0x8400000
    → ((a == 0) ≡ false) × (ltb a (user_vid_mem - four_mb) ≡ false) × (leb user_vid_mem a ≡ false)
vidmap_tests a low high = (ground arith, ground arith, ground arith)

-- `vidmap` accepts a pointer when it is in the 4 MB page of the process, at 128 MB: the word there is
-- then 0x8400000, and memory outside it is as it was. It refuses every other pointer, NULL included,
-- and changes nothing.
pub vidmap_lem :
    (screen_start : ℕ) (k : Kernel)
    → let (r, k') = vidmap screen_start k in
      ((0x8000000 ≤ screen_start)
        → screen_start < 0x8400000
        → (r ≡ pos 0)
          × (load32 (mem_of k') (user k screen_start) ≡ 0x8400000)
          × SameOutside (user k screen_start) 4 (mem_of k) (mem_of k'))
      × ((screen_start < 0x8000000) ⊎ (0x8400000 ≤ screen_start) → (r ≡ negsuc 0) × (k' ≡ k))
unfolding vidmap
vidmap_lem screen_start k = (
  λ low high.
      let (e1, e2, e3) = vidmap_tests screen_start low high in
      rw (e1, vidmap)
        (rw (e2, vidmap)
          (rw (e3, vidmap)
            (
              refl,
              store32-load32 (mem_of k) (user k screen_start) user_vid_mem (omega arith),
              store32-outside (mem_of k) (user k screen_start) user_vid_mem,
            ))),
  λ out. ground (arith, out),
)
