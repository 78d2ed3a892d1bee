-- ===== src/Core/Rom.antt =====
-- Core/ROM.cpp and Core/ROM.hpp: the program ROM and the debug overlay above it.
pub mod Laws
use calc_u.Base.{
  ℕ, ◌-◌, ◌%◌, Bool, true, false, ◌&&◌, ◌||◌, Option, none, some, if◌then◌else◌, leb, ltb, ◌==◌,
}

abbrev pub ti59_words : ℕ
ti59_words = 6144

abbrev pub ti58_words : ℕ
ti58_words = 5120

abbrev pub overlay_base : ℕ
overlay_base = 0x1800

abbrev pub overlay_end : ℕ
overlay_end = 0x1FFF

abbrev pub overlay_words : ℕ
overlay_words = 2048

pub record Rom : Type 0 where
  pub words : ℕ → ℕ
  pub size : ℕ
  pub overlay : ℕ → ℕ
  pub overlay_valid : ℕ → Bool

abbrev pub init : Rom
init = record { words = λ i. 0; size = 0; overlay = λ i. 0; overlay_valid = λ i. false }

-- `none` is the failed assertion on the size.
unfoldable pub load : Rom → (ℕ → ℕ) → ℕ → Option Rom
load m src count =
    if count == ti58_words || count == ti59_words
    then some (record m { words = λ i. if ltb i count then src i else m.words i; size = count })
    else none

unfoldable pub read : Rom → ℕ → ℕ
read m addr =
    if leb overlay_base addr && leb addr overlay_end && m.overlay_valid (addr - overlay_base)
    then m.overlay (addr - overlay_base) % 8192
    else if leb m.size addr
    then 0
    else m.words addr % 8192

unfoldable pub clear_overlay : Rom → Rom
clear_overlay m = record m { overlay = λ i. 0; overlay_valid = λ i. false }

-- The words of the overlay, or `none` with the ROM unchanged when they are too many.
unfoldable pub load_overlay : Rom → (ℕ → ℕ) → ℕ → Option Rom
unfolding clear_overlay
load_overlay m src count =
    if ltb overlay_words count
    then none
    else some (record (clear_overlay m) {
      overlay = λ i. if ltb i count then src i % 8192 else 0;
      overlay_valid = λ i. ltb i count;
    })
