-- ===== src/Core/Ram/Laws.antt =====
-- What the RAM's operations do to a nibble, and the persistence round trip.
use calc_u.Base.{
  upd, ℕ, ◌+◌, ◌*◌, ◌/◌, ◌%◌, ◌<◌, ◌≡◌, refl, ap, ◌&&◌, some, if◌then◌else◌, leb, ltb, ◌==◌, arith,
}
use calc_u.Core.Ram.{Ram, total_regs, nibbles, read, write, clear_reg, serialise, deserialise}

-- A write in range succeeds, is read back clamped to four bits, and changes no other nibble.
pub read-write :
    (m : Ram) (reg nibble val r i : ℕ)
    → reg < total_regs
    → nibble < nibbles
    → r < total_regs
    → i < nibbles
    → (m' : Ram) × (write m reg nibble val ≡ some m')
      × (read m' r i ≡ (if r == reg && i == nibble then some (val % 16) else read m r i))
      × (m'.max_regs ≡ m.max_regs)
unfolding read write
read-write m reg nibble val r i h k p q = (
  record m { cells = upd m.cells reg (upd (m.cells reg) nibble (val % 16)) },
  ground arith,
  ground arith,
  refl,
)

-- Clearing `count` registers clears those from `reg` on that exist, and no other.
pub read-clear_reg :
    (m : Ram) (reg count r i : ℕ)
    → r < total_regs
    → i < nibbles
    → read (clear_reg m reg count) r i
      ≡ (if leb reg r && ltb r (reg + count) then some 0 else read m r i)
unfolding read clear_reg
read-clear_reg m reg count r i h k = ground arith

-- The saved bytes bring back every nibble of the chip, and only those are read.
pub read-deserialise :
    (m n : Ram) (r i : ℕ)
    → r < total_regs
    → i < nibbles
    → read (deserialise n (serialise m)) r i ≡ read m r i
unfolding read deserialise serialise
read-deserialise m n r i h k =
    let row : (r * nibbles + i) / nibbles ≡ r = omega arith in
    let column : (r * nibbles + i) % nibbles ≡ i = omega arith in
    ground (
      arith,
      row,
      column,
      ap (λ (a : ℕ). m.cells a i) row,
      ap (λ (b : ℕ). m.cells ((r * nibbles + i) / nibbles) b) column,
    )
