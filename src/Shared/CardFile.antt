-- ===== src/Shared/CardFile.antt =====
-- Shared/CardFile.cpp: the magnetic card bank that a CARD block describes (`buildCardBank`). The card
-- file formats are left out.
pub mod Laws
use calc_u.Base.{
  ℕ, zero, suc, ◌+◌, ◌-◌, ◌*◌, ◌/◌, ◌%◌, Bool, true, false, not, ◌&&◌, if◌then◌else◌, leb, ltb,
  ◌==◌, List, [], ◌∷◌, ◌++◌, Option, none, some, upd, u8, bit_or,
}
use calc_u.Core.Alu.{Nibbles}
use calc_u.Shared.Bcd.{encode_register_line}

pub record RegisterValue : Type 0 where
  pub reg_num : ℕ
  pub nibbles : Nibbles
  pub is_hidden : Bool

-- A card's contents: steps are addresses with their keycodes.
pub record CardDefinition : Type 0 where
  pub bank : ℕ
  pub protect : Bool
  pub partition_max_step : Option ℕ
  pub program_steps : List (ℕ × ℕ)
  pub registers : List RegisterValue

abbrev pub bank_regs : ℕ
bank_regs = 30

unfoldable pub page_byte_of_bank : ℕ → ℕ
page_byte_of_bank bank = u8 (bit_or 0x10 ((bank - 1) * 3))

unfoldable pub bank_of_page_byte : ℕ → ℕ
bank_of_page_byte page = page % 16 / 3 + 1

abbrev pub first_reg : CardDefinition → ℕ
first_reg card = bank_regs * (card.bank - 1)

-- The raw register lies in the bank.
abbrev pub is_in_bank : ℕ → ℕ → Bool
is_in_bank first reg = leb first reg && ltb reg (first + bank_regs)

-- The steps of the bank, each as two decimal nibbles.
unfoldable pub put_steps : ℕ → List (ℕ × ℕ) → (ℕ → Nibbles) → ℕ → Nibbles
put_steps first [] regs = regs
put_steps first ((addr, keycode) ∷ ss) regs =
    let reg = addr / 8 - first in
    let units = upd (regs reg) (addr % 8 * 2) (keycode % 10) in
    let both = upd units (addr % 8 * 2 + 1) (keycode / 10) in
    put_steps first ss (if is_in_bank first (addr / 8) then upd regs reg both else regs)

-- Data register n is raw register 119 - n.
unfoldable pub put_registers : ℕ → List RegisterValue → (ℕ → Nibbles) → ℕ → Nibbles
put_registers first [] regs = regs
put_registers first (g ∷ gs) regs =
    let raw = 119 - g.reg_num in
    put_registers first gs (
      if not g.is_hidden && leb g.reg_num 119 && is_in_bank first raw
      then upd regs (raw - first) g.nibbles
      else regs)

abbrev pub nibble_sum : ℕ → Nibbles → ℕ → ℕ
nibble_sum zero n i = 0
nibble_sum (suc k) n i = n i + nibble_sum k n (i + 1)

-- The bytes and the sum of the nibbles of `k` registers from `r` on.
abbrev pub register_bytes : ℕ → (ℕ → Nibbles) → ℕ → List ℕ
register_bytes zero regs r = []
register_bytes (suc k) regs r = encode_register_line (regs r) ++ register_bytes k regs (r + 1)

abbrev pub register_sum : ℕ → (ℕ → Nibbles) → ℕ → ℕ
register_sum zero regs r = 0
register_sum (suc k) regs r = nibble_sum 16 (regs r) 0 + register_sum k regs (r + 1)

abbrev pub partition_of : CardDefinition → ℕ → ℕ
partition_of card program_regs =
    elim card.partition_max_step [ none ↦ program_regs | some last ↦ (last + 1) / 8 ] / 10

-- The thirty registers of the bank.
unfoldable pub bank_registers : CardDefinition → ℕ → Nibbles
unfolding put_steps put_registers
bank_registers card =
    put_registers (first_reg card) card.registers
      (put_steps (first_reg card) card.program_steps (λ r i. 0))

-- The header's first three bytes.
abbrev pub header_bytes : CardDefinition → ℕ → List ℕ
header_bytes card partition =
    u8 (bit_or 0x10 partition)
    ∷ u8 (bit_or 0x10 (if leb (3 * card.bank) partition then 1 else 0))
    ∷ page_byte_of_bank card.bank
    ∷ []

abbrev pub low_sum : List ℕ → ℕ
low_sum [] = 0
low_sum (b ∷ bs) = b % 16 + low_sum bs

unfoldable pub build_card_bank : CardDefinition → ℕ → List ℕ
unfolding bank_registers page_byte_of_bank
build_card_bank card program_regs =
    let header = header_bytes card (partition_of card program_regs) in
    let regs = bank_registers card in
    let sum = (low_sum header + register_sum bank_regs regs 0) % 16 in
    header
    ++ ((if card.protect then 0x10 else 0x00) ∷ register_bytes bank_regs regs 0)
    ++ (sum ∷ sum ∷ [])
