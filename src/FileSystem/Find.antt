-- ===== src/FileSystem/Find.antt =====
-- `read_dentry_by_name` finds the first entry with the name.
use ece391_mp.Base.{
  ℕ, zero, suc, ◌+◌, ◌<◌, ◌≤◌, ◌≡◌, ◌≢◌, ◌↔◌, ◌⊎◌, refl, arith, false, ltb, ◌==◌, inl, inr, some,
  Bool-cases, ==_iff, ap, if◌then◌else◌, sym, ◌∙◌,
}
use native.Mathlib.Decide.{dec_lt}
use ece391_mp.Base.Int.{ℤ, pos, eqb_ℤ, eqb_ℤ→eq, eq→eqb_ℤ}
use ece391_mp.Base.Mem.{Mem, IsBytes}
use ece391_mp.Str.{strncmp}
use ece391_mp.Str.Length.{IsStr, strlen-IsStr}
use ece391_mp.Str.Compare.{Agree, strncmp_iff}
use ece391_mp.FileSystem.{
  Lookup, found, missing, dentry_at, num_dentries, name_size, next_bits, find_dentry,
  read_dentry_by_name,
}

-- The name asked for and the entry's agree as strings in the 32 bytes of a name.
abbrev pub Matches : Mem → ℕ → ℕ → Type 0
Matches m fname entry = Agree m fname entry name_size

-- Each entry's name ends in a NUL somewhere (a name of 32 bytes in the fields behind it).
abbrev pub NamesEnd : Mem → ℕ → Type 0
NamesEnd m boot_block = (i : ℕ) → i < num_dentries → (l : ℕ) × IsStr m (dentry_at boot_block i) l

-- What a scan of the entries from index `i` up to `e` returns.
pub data Outcome (m : Mem) (boot_block fname i e : ℕ) : Lookup → Type 0 where
  first :
      (j : ℕ)
      → i ≤ j
      → j < e
      → Matches m fname (dentry_at boot_block j)
      → ((l : ℕ) → i ≤ l → l < j → ¬ (Matches m fname (dentry_at boot_block l)))
      → Outcome m boot_block fname i e (found (dentry_at boot_block j))
  nowhere :
      ((l : ℕ) → i ≤ l → l < e → ¬ (Matches m fname (dentry_at boot_block l)))
      → Outcome m boot_block fname i e missing

module _ {m : Mem} (bytes : IsBytes m) {fname n : ℕ} (name : IsStr m fname n) where
  -- `num_bits` covers the name: it is 32, or the name is shorter and it is at least its length.
  abbrev Covers : ℕ → Type 0
  Covers bits = (bits ≡ name_size) ⊎ ((n < name_size) × (n ≤ bits))

  -- Where no NUL stands below `i`, `i` is at most the length of the name.
  below_end : (i : ℕ) → ((j : ℕ) → j < i → m (fname + j) ≢ 0) → i ≤ n
  below_end i nz = elim (dec_lt n i) [ yes lt ↦ absurd (nz n lt name.nul) | no ge ↦ omega arith ]

  Agree-end :
      (entry l bits : ℕ)
      → IsStr m entry l
      → n ≡ bits
      → l ≤ bits
      → Agree m fname entry bits
      → m (fname + n) ≡ m (entry + n)
  Agree-end entry l bits e same le h =
      let l_is : l ≡ n = elim (dec_lt l n) [
        | yes lt ↦ absurd (
            name.nonzero l lt (h l (omega arith) (λ j below. name.nonzero j (omega arith)) ∙ e.nul))
        | no ge ↦ omega arith
      ] in
      name.nul ∙ sym e.nul ∙ ap (λ x. m (entry + x)) l_is

  widen :
      (entry l bits : ℕ)
      → IsStr m entry l
      → Covers bits
      → (bits ≡ name_size) ⊎ (l ≤ bits)
      → Agree m fname entry bits
      → Matches m fname entry
  widen entry l bits e covers long h i lt nz = elim (dec_lt i bits) [
    | yes inside ↦ h i inside nz
    | no outside ↦
        let le = below_end i nz in
        let same : n ≡ bits = omega arith in
        let at : i ≡ n = omega arith in rw at (Agree-end entry l bits e same (omega arith) h)
  ]

  narrow : (entry bits : ℕ) → Covers bits → Matches m fname entry → Agree m fname entry bits
  narrow entry bits covers h i lt nz = h i (omega (arith, below_end i nz)) nz

  strncmp-Matches :
      (entry l bits : ℕ)
      → IsStr m entry l
      → Covers bits
      → (bits ≡ name_size) ⊎ (l ≤ bits)
      → (strncmp m fname entry bits ≡ pos 0) ↔ Matches m fname entry
  strncmp-Matches entry l bits e covers long =
      let iff = strncmp_iff m fname entry bits bytes in
      (λ z. widen entry l bits e covers long (iff.0 z), λ h. iff.1 (narrow entry bits covers h))

  -- The update of `num_bits` returns, and leaves it covering the name and the entry's name.
  next_bits-Covers :
      (entry l bits : ℕ)
      → IsStr m entry l
      → Covers bits
      → (bits' : ℕ) × (next_bits m entry bits ≡ some bits')
        × Covers bits'
        × ((bits' ≡ name_size) ⊎ (l ≤ bits'))
  unfolding next_bits
  next_bits-Covers entry l bits e covers = elim (Bool-cases (bits == name_size)) [
    | inl full ↦ (bits, rw (full, next_bits), covers, inl ((==_iff bits name_size).0 full))
    | inr open_bits ↦ (
      (if ltb bits l then l else bits),
      rw (open_bits, strlen-IsStr e, next_bits),
      ground arith,
      ground arith,
    )
  ]

  earlier :
      {e : ℕ} (boot_block i : ℕ)
      → ¬ (Matches m fname (dentry_at boot_block i))
      → (l : ℕ) → (i + 1 ≤ l → l < e → ¬ (Matches m fname (dentry_at boot_block l)))
      → i ≤ l
      → l < e
      → ¬ (Matches m fname (dentry_at boot_block l))
  earlier boot_block i miss l later le lt = elim (dec_lt i l) [
    | yes above ↦ later (omega arith) lt
    | no at ↦ let same : l ≡ i = omega arith in rw same miss
  ]

  Outcome-later :
      (boot_block i : ℕ) {r : Lookup}
      → ¬ (Matches m fname (dentry_at boot_block i))
      → Outcome m boot_block fname (i + 1) num_dentries r
      → Outcome m boot_block fname i num_dentries r
  Outcome-later boot_block i miss (first j ge lt hit before) =
      first j (omega arith) lt hit (λ l le below. earlier boot_block i miss l (before l) le below)
  Outcome-later boot_block i miss (nowhere before) =
      nowhere (λ l le below. earlier boot_block i miss l (before l) le below)

  not_here : {P : Type 0} (z : ℤ) → (P → z ≡ pos 0) → eqb_ℤ z (pos 0) ≡ false → ¬ P
  not_here z back miss p = cc (eq→eqb_ℤ z (pos 0) (back p))

  find_dentry-Outcome :
      (k boot_block bits i : ℕ)
      → i + k ≡ num_dentries
      → NamesEnd m boot_block
      → Covers bits
      → (r : Lookup) × (find_dentry k m boot_block fname bits i ≡ some r)
        × Outcome m boot_block fname i num_dentries r
  unfolding find_dentry
  find_dentry-Outcome zero boot_block bits i e names covers =
      (missing, refl, nowhere (λ l ge lt. absurd (omega arith)))
  find_dentry-Outcome (suc k) boot_block bits i e names covers =
      let entry = dentry_at boot_block i in
      let (l, ends) = names i (omega arith) in
      let (bits', step, covers', long) = next_bits-Covers entry l bits ends covers in
      let iff = strncmp-Matches entry l bits' ends covers' long in
      let test = strncmp m fname entry bits' in
      elim (Bool-cases (eqb_ℤ test (pos 0))) [
        | inl hit ↦ (
          found entry,
          rw (step, find_dentry) (rw (hit, find_dentry)),
          first i (omega arith) (omega arith) (iff.0 (eqb_ℤ→eq test (pos 0) hit))
              (λ l ge lt. absurd (omega arith)),
        )
        | inr miss ↦
            let (r, run, out) =
              find_dentry-Outcome k boot_block bits' (i + 1) (omega arith) names covers' in
            (
              r,
              rw (step, find_dentry) (rw (miss, find_dentry) run),
              Outcome-later boot_block i (not_here test (iff.1) miss) out,
            )
      ]

  -- For a name of at least one character, a directory whose names each end in memory and a `dentry`
  -- that is not NULL, `read_dentry_by_name` returns the first entry whose name agrees with the
  -- given one in 32 bytes, or FAILURE where no entry does.
  pub read_dentry_by_name_lem :
      (boot_block dentry : ℕ)
      → NamesEnd m boot_block
      → dentry ≢ 0
      → 0 < n
      → (r : Lookup) × (read_dentry_by_name m boot_block fname dentry ≡ some r)
        × Outcome m boot_block fname 0 num_dentries r
  unfolding read_dentry_by_name
  read_dentry_by_name_lem boot_block dentry names nonnull nonempty =
      let bits = if ltb name_size n then name_size else n in
      let (r, run, out) =
        find_dentry-Outcome num_dentries boot_block bits 0 (omega arith) names (ground arith) in
      let given : (dentry == 0) ≡ false = ground arith in
      let some_bits : ((if ltb name_size n then name_size else n) == 0) ≡ false = ground arith in
      (
        r,
        rw (given, read_dentry_by_name)
            (rw (strlen-IsStr name, read_dentry_by_name) (rw some_bits run)),
        out,
      )
