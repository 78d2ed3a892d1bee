-- ===== src/Shared/CardText.antt =====
-- Shared/CardFile.cpp: the text of a magnetic card, one side of it: its rows of data, its header and
-- the lines that both are written as. The cue card's lines are another component's: an interface.
pub mod Side
pub mod Reader
pub mod Version1
pub mod Lines
pub mod Rows
pub mod Headers
pub mod Values
pub mod Building
pub mod Sound
pub mod Words
pub mod Steps
pub mod Image
pub mod Sides
pub mod RoundTrip
pub mod Files
pub mod Plain
mod Examples
use calc_u.Base.{
  ℕ, zero, suc, ◌+◌, ◌-◌, ◌*◌, ◌/◌, ◌%◌, Bool, true, false, ◌&&◌, if◌then◌else◌, leb, ltb, ◌==◌,
  List, [], ◌∷◌, ◌++◌, Option, none, some, get_or, upd, u8, bit_or, slice, ◌>>=◌, map_some, ℤ, pos,
  negsuc, shr, bit_and,
}
use mathlib.Core.List.{reverse}
use calc_u.Core.Alu.{Nibbles}
use calc_u.Core.Cpu.Printer.{text}
use calc_u.Shared.TextUtil.{space, parse_hex, parse_dec}
use calc_u.Shared.TextUtil.Trim.{trim, before, behind, to_lower, text_eq, to_string}
use calc_u.Shared.Bcd.{
  encode_register_line, decode_register_line, hex_byte, parse_register_line_hex,
}
use calc_u.Shared.CardFile.{page_byte_of_bank, bank_of_page_byte}

abbrev pub card_bank_bytes : ℕ
card_bank_bytes = 246

abbrev pub rows_per_bank : ℕ
rows_per_bank = 30

abbrev pub joined_byte : Nibbles → ℕ → ℕ
joined_byte n i = u8 (bit_or (n (2 * i) * 16) (n (2 * i + 1)))

abbrev is_row : List ℕ → Bool
is_row [] = false
is_row (c ∷ cs) = c == 82

-- The bytes behind the colon stand in the reverse order of a register's line.
unfoldable pub row_bytes : List ℕ → Option (List ℕ)
unfolding behind trim parse_register_line_hex decode_register_line
row_bytes line = do
  rest ← behind 58 line
  file_bytes ← parse_register_line_hex (trim rest)
  some (slice (joined_byte (decode_register_line (reverse file_bytes))) 0 8)

-- The eight bytes of a row "R###: ...", whose label is informational only.
unfoldable pub decode_card_row : List ℕ → Option (List ℕ)
unfolding row_bytes
decode_card_row line = if is_row line then row_bytes line else none

-- The two nibbles of each byte, of row `row` of a bank.
abbrev pub row_nibbles : List ℕ → ℕ → Nibbles
row_nibbles bank row i =
    let b = get_or bank (4 + row * 8 + i / 2) 0 in if i % 2 == 0 then shr b 4 else bit_and b 0x0F

abbrev pub spaced_bytes : List ℕ → List ℕ
spaced_bytes [] = []
spaced_bytes (b ∷ bs) = (space ∷ hex_byte b) ++ spaced_bytes bs

-- `R%03d:`, for a number below 1000.
abbrev pub row_label : ℕ → List ℕ
row_label n = 82 ∷ (48 + n / 100) ∷ (48 + n / 10 % 10) ∷ (48 + n % 10) ∷ 58 ∷ []

unfoldable pub row_line : List ℕ → ℕ → ℕ → List ℕ
unfolding encode_register_line
row_line bank first row =
    row_label (first + row) ++ spaced_bytes (reverse (encode_register_line (row_nibbles bank row)))

abbrev pub row_lines : List ℕ → ℕ → ℕ → ℕ → List (List ℕ)
row_lines bank first zero row = []
row_lines bank first (suc n) row = row_line bank first row ∷ row_lines bank first n (row + 1)

abbrev pub partition_line : ℕ → List ℕ
partition_line b = text "Partition: " ++ hex_byte b

abbrev pub data_type_line : ℕ → List ℕ
data_type_line b = text "DataType: " ++ (if b == 0x11 then text "program" else text "data")

abbrev pub bank_line : ℕ → List ℕ
bank_line n = text "Bank: " ++ to_string n

abbrev pub protection_line : ℕ → List ℕ
protection_line b = text "Protection: " ++ (if b == 0x10 then text "yes" else text "no")

abbrev pub checksum_line : ℕ → List ℕ
checksum_line b = text "Checksum: " ++ hex_byte b

-- One side's header and data, the same in both versions. What a short bank lacks is a default.
unfoldable pub side_lines : List ℕ → List (List ℕ)
unfolding row_line bank_of_page_byte to_string
side_lines bank =
    let n = bank_of_page_byte (get_or bank 2 0x10) in
    text "HEADER:"
    ∷ partition_line (get_or bank 0 0)
    ∷ data_type_line (get_or bank 1 0x11)
    ∷ bank_line n
    ∷ protection_line (get_or bank 3 0)
    ∷ checksum_line (get_or bank 244 0)
    ∷ []
    ∷ text "DATA:"
    ∷ row_lines bank ((n - 1) * 30) rows_per_bank 0

-- A newline before each line but the first.
abbrev pub later_lines : List (List ℕ) → List ℕ
later_lines [] = []
later_lines (l ∷ ls) = 10 ∷ (l ++ later_lines ls)

abbrev pub join_lines : List (List ℕ) → List ℕ
join_lines [] = []
join_lines (l ∷ ls) = l ++ later_lines ls

-- What one line of a header sets.
pub data Entry : Type 0 where
  partition data_type bank protection checksum : ℕ → Entry

abbrev pub byte_value : List ℕ → Option ℕ
byte_value val = parse_hex val >>= (λ v. if leb v 0xFF then some v else none)

abbrev pub bank_value : Option ℤ → Option ℕ
bank_value none = none
bank_value (some (negsuc k)) = none
bank_value (some (pos n)) = if leb 1 n && leb n 4 then some (page_byte_of_bank n) else none

-- One of two words, each with its byte.
abbrev choice : List ℕ → List ℕ → ℕ → List ℕ → ℕ → Option ℕ
choice val yes_word a no_word b =
    if text_eq val yes_word then some a else if text_eq val no_word then some b else none

unfoldable pub field_entry : List ℕ → List ℕ → Option Entry
unfolding text_eq parse_hex parse_dec page_byte_of_bank
field_entry key val =
    if text_eq key (text "partition")
    then map_some partition (byte_value val)
    else if text_eq key (text "datatype")
    then map_some data_type (choice val (text "program") 0x11 (text "data") 0x10)
    else if text_eq key (text "bank")
    then map_some bank (bank_value (parse_dec val))
    else if text_eq key (text "protection")
    then map_some protection (choice val (text "yes") 0x10 (text "no") 0x00)
    else if text_eq key (text "checksum")
    then map_some checksum (byte_value val)
    else none

-- The key and the value of a header's line.
unfoldable pub header_entry : List ℕ → Option Entry
unfolding before behind trim to_lower field_entry
header_entry line = do
  rest ← behind 58 line
  field_entry (to_lower (trim (before 58 line))) (to_lower (trim rest))
