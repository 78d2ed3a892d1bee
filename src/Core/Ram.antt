-- ===== src/Core/Ram.antt =====
-- Core/RAM.cpp and Core/RAM.hpp: 120 registers of 16 nibbles. An assertion that fails is `none`.
pub mod Laws
use calc_u.Base.{
  ℕ, ◌+◌, ◌-◌, ◌*◌, ◌/◌, ◌%◌, Bool, ◌&&◌, Option, none, some, if◌then◌else◌, leb, ltb, ◌==◌, upd,
}

abbrev pub total_regs : ℕ
total_regs = 120

abbrev pub nibbles : ℕ
nibbles = 16

pub record Ram : Type 0 where
  pub max_regs : ℕ
  pub cells : ℕ → ℕ → ℕ

abbrev pub init : Ram
init = record { max_regs = total_regs; cells = λ r i. 0 }

unfoldable pub clear : Ram → Ram
clear m = record m { cells = λ r i. 0 }

unfoldable pub read : Ram → ℕ → ℕ → Option ℕ
read m reg nibble =
    if ltb reg total_regs && ltb nibble nibbles then some (m.cells reg nibble) else none

unfoldable pub write : Ram → ℕ → ℕ → ℕ → Option Ram
write m reg nibble val =
    if ltb reg total_regs && ltb nibble nibbles
    then some (record m { cells = upd m.cells reg (upd (m.cells reg) nibble (val % 16)) })
    else none

unfoldable pub read_reg : Ram → ℕ → Option (ℕ → ℕ)
read_reg m reg = if ltb reg total_regs then some (m.cells reg) else none

-- `memcpy` of one register.
unfoldable pub write_reg : Ram → ℕ → (ℕ → ℕ) → Option Ram
write_reg m reg src =
    if ltb reg total_regs
    then some
        (record m { cells = upd m.cells reg (λ i. if ltb i nibbles then src i else m.cells reg i) })
    else none

-- A register index below 0 does not occur: it comes from a byte.
unfoldable pub clear_reg : Ram → ℕ → ℕ → Ram
clear_reg m reg count =
    let n = if ltb total_regs (reg + count) then total_regs - reg else count in
    if leb total_regs reg
    then m
    else record m { cells = λ r i. if leb reg r && ltb r (reg + n) then 0 else m.cells r i }

-- A negative limit takes the branch of 0.
unfoldable pub set_limit : Ram → ℕ → Ram
set_limit m n = record m { max_regs = if ltb 0 n && leb n total_regs then n else total_regs }

-- The bytes that `serialise` writes, by offset.
unfoldable pub serialise : Ram → ℕ → ℕ
serialise m k = m.cells (k / nibbles) (k % nibbles)

unfoldable pub deserialise : Ram → (ℕ → ℕ) → Ram
deserialise m src = record m {
  cells = λ r i. if ltb r total_regs && ltb i nibbles then src (r * nibbles + i) else m.cells r i;
}
