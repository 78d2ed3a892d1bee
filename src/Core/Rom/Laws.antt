-- ===== src/Core/Rom/Laws.antt =====
-- Reads of the ROM: 13 bits, and the overlay over the ROM.
use calc_u.Base.{ℕ, ◌-◌, ◌%◌, ◌≤◌, ◌<◌, ◌≡◌, ◌&&◌, some, if◌then◌else◌, leb, ltb, arith}
use calc_u.Core.Rom.{Rom, overlay_base, overlay_words, read, clear_overlay, load_overlay}

-- Every word that is read has 13 bits, whatever was loaded.
pub read-lt : (m : Rom) (addr : ℕ) → read m addr < 8192
unfolding read
read-lt m addr = ground arith

-- An overlay that fits is read at its addresses, cut to 13 bits; elsewhere the words of the ROM
-- without an overlay are read.
pub read-load_overlay :
    (m : Rom) (src : ℕ → ℕ) (count addr : ℕ)
    → count ≤ overlay_words
    → (m' : Rom) × (load_overlay m src count ≡ some m')
      × (read m' addr ≡ (
          if leb overlay_base addr && ltb (addr - overlay_base) count
          then src (addr - overlay_base) % 8192
          else read (clear_overlay m) addr))
unfolding load_overlay clear_overlay read
read-load_overlay m src count addr h = (
  record (clear_overlay m) {
    overlay = λ i. if ltb i count then src i % 8192 else 0;
    overlay_valid = λ i. ltb i count;
  },
  ground arith,
  ground arith,
)
