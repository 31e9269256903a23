-- ===== src/Keyboard/Layout.antt =====
-- The characters of the keys, by shift and caps lock.
use ece391_mp.Base.{
  ℕ, ◌+◌, ◌-◌, ◌<◌, ◌≡◌, true, refl, leb, ◌&&◌, ◌==◌, get_or, if◌then◌else◌, all_below,
  all_below_sound, ==_iff,
}
use ece391_mp.Keyboard.{select_key}
use ece391_mp.Keyboard.Codes.{
  kbrdscancode, capskbrdscancode, shiftkbrdscancode, capsshiftkbrdscancode,
}

-- A letter in the other case; every other character as it is.
unfoldable pub other_case : ℕ → ℕ
other_case c =
    if leb b'a' c && leb c b'z' then c - 32 else if leb b'A' c && leb c b'Z' then c + 32 else c

-- The character of a key in the state `shift`, `caps`.
abbrev pub character : ℕ → ℕ → ℕ → ℕ
character shift caps scancode = select_key shift caps scancode (get_or kbrdscancode scancode 0)

caps_table :
    all_below 2 (λ shift.
      all_below 128
        (λ scancode. character shift 1 scancode == other_case (character shift 0 scancode)))
    ≡ true
unfolding all_below other_case select_key kbrdscancode capskbrdscancode shiftkbrdscancode
    capsshiftkbrdscancode
caps_table = refl

-- Caps lock changes the case of letters, and no other character, with shift up or down.
pub select_key_caps :
    (shift scancode : ℕ)
    → shift < 2
    → scancode < 128
    → character shift 1 scancode ≡ other_case (character shift 0 scancode)
select_key_caps shift scancode one code =
    let at = all_below_sound 2 _ shift caps_table one in
    (==_iff _ _).0 (all_below_sound 128 _ scancode at code)
