-- ===== src/Shared/ConstantMemory.antt =====
-- Shared/ConstantMemory.cpp: the file of the TI-58C's constant memory. The cue card's lines are
-- another component's: an interface.
pub mod Registers
pub mod RoundTrip
pub mod Cues
pub mod PowerOn
mod Examples
use calc_u.Base.{
  ℕ, zero, suc, ◌+◌, ◌*◌, ◌-◌, ◌/◌, ◌%◌, Bool, true, false, ◌&&◌, if◌then◌else◌, leb, ltb, ◌==◌,
  List, [], ◌∷◌, ◌++◌, Option, none, some, ◌>>=◌, map_some, get_or, length, slice, drop, ℤ, pos,
  negsuc,
}
use calc_u.Core.Alu.{Nibbles}
use calc_u.Core.Cpu.Printer.{text}
use calc_u.Shared.TextUtil.{starts_with, split_lines, parse_dec}
use calc_u.Shared.TextUtil.Trim.{trim, split_on}
use calc_u.Shared.Bcd.{register_line_hex, parse_register_line_hex, decode_register_line}
use calc_u.Shared.CardText.{join_lines, row_label}
use calc_u.Shared.CardText.Reader.{CueFormat}

abbrev pub constant_memory_bytes : ℕ
constant_memory_bytes = 1920

-- Two dashes of U+2500, in UTF-8.
abbrev pub rule : List ℕ
rule = 0xE2 ∷ 0x94 ∷ 0x80 ∷ 0xE2 ∷ 0x94 ∷ 0x80 ∷ []

abbrev pub heading : List ℕ
heading = rule ++ (text " Registers (raw values) " ++ rule)

abbrev pub register_of : List ℕ → ℕ → Nibbles
register_of ram reg i = get_or ram (reg * 16 + i) 0

-- The first `n` nibbles are 0.
abbrev pub is_zero : ℕ → Nibbles → Bool
is_zero zero n = true
is_zero (suc k) n = (n k == 0) && is_zero k n

abbrev pub register_line : List ℕ → ℕ → List ℕ
register_line ram reg = row_label reg ++ (32 ∷ register_line_hex (register_of ram reg))

-- The lines of `n` registers from `reg` on: none beyond the end of the memory, and none of zeroes.
unfoldable pub register_lines : ℕ → List ℕ → ℕ → List (List ℕ)
unfolding register_line_hex
register_lines zero ram reg = []
register_lines (suc n) ram reg =
    let rest = register_lines n ram (reg + 1) in
    let more = register_line ram reg ∷ rest in
    if ltb (length ram) (reg * 16 + 16)
    then []
    else if is_zero 16 (register_of ram reg)
    then rest
    else more

-- The parts of a register's line.
abbrev pub register_index : Option ℤ → Option ℕ
register_index none = none
register_index (some (negsuc k)) = none
register_index (some (pos n)) = if leb 120 n then none else some n

pub record Contents {ℓ} (Cue : Type ℓ) : Type ℓ where
  pub ram : ℕ → ℕ
  pub cue_card : Option Cue
  pub in_cue_card : Bool

module _ {ℓ} {Cue : Type ℓ} where
  unfoldable pub store_register : ℕ → List ℕ → Contents Cue → Contents Cue
  unfolding decode_register_line
  store_register reg bytes c = record c {
    ram = λ j.
        if leb (reg * 16) j && ltb j (reg * 16 + 16)
        then decode_register_line bytes (j - reg * 16)
        else c.ram j;
  }

  -- Two parts: the label behind its letter, and the bytes.
  unfoldable pub read_parts : List (List ℕ) → Contents Cue → Option (Contents Cue)
  unfolding parse_dec parse_register_line_hex trim store_register
  read_parts (label ∷ rest ∷ []) c = do
    reg ← register_index (parse_dec (drop 1 label))
    bytes ← parse_register_line_hex (trim rest)
    some (store_register reg bytes c)
  read_parts _ c = none

  module _ (cues : CueFormat Cue) where
    abbrev read_cue_line : List ℕ → Option Cue → Option Cue
    read_cue_line line none = none
    read_cue_line line (some cue) = some (cues.parse_line line cue)

    unfoldable pub read_trimmed : List ℕ → Contents Cue → Option (Contents Cue)
    unfolding starts_with split_on read_parts
    read_trimmed [] c = some c
    read_trimmed (l ∷ ls) c =
        if starts_with (l ∷ ls) (text "CUECARD:")
        then some (record c { in_cue_card = true; cue_card = some cues.fresh })
        else if starts_with (l ∷ ls) rule
        then some (record c { in_cue_card = false })
        else if c.in_cue_card
        then some (record c { cue_card = read_cue_line (l ∷ ls) c.cue_card })
        else if l == 82
        then read_parts (split_on (l ∷ ls) (text ":")) c
        else some c

    unfoldable pub read_lines : List (List ℕ) → Contents Cue → Option (Contents Cue)
    unfolding trim read_trimmed
    read_lines [] c = some c
    read_lines (l ∷ ls) c = read_trimmed (trim l) c >>= read_lines ls

    abbrev pub no_contents : Contents Cue
    no_contents = record { ram = λ i. 0; cue_card = none; in_cue_card = false }

    -- The memory's bytes, and the cue card.
    unfoldable pub decode_constant_memory : List ℕ → Option (List ℕ × Option Cue)
    unfolding split_lines read_lines
    decode_constant_memory s =
        map_some (λ c. (slice c.ram 0 constant_memory_bytes, c.cue_card))
          (read_lines (split_lines s) no_contents)

    abbrev pub given_cue_lines : Option Cue → List (List ℕ)
    given_cue_lines none = []
    given_cue_lines (some cue) = text "CUECARD:" ∷ (cues.encode_lines cue ++ ([] ∷ []))

    unfoldable pub encode_constant_memory : List ℕ → Option Cue → List ℕ
    unfolding register_lines
    encode_constant_memory ram cue =
        join_lines (given_cue_lines cue ++ (heading ∷ register_lines 120 ram 0))
