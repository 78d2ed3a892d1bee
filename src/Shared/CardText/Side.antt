-- ===== src/Shared/CardText/Side.antt =====
-- Shared/CardFile.cpp: the side of a card that is being read from its text (`SideBuilder`).
use calc_u.Base.{
  ℕ, ◌+◌, ◌-◌, ◌*◌, Bool, true, false, ◌&&◌, if◌then◌else◌, leb, ltb, ◌==◌, List, Option, none,
  get_or, upd, map_some, length,
}
use calc_u.Shared.CardText.{
  rows_per_bank, Entry, partition, data_type, bank, protection, checksum, decode_card_row,
  header_entry,
}

-- A side that is being read; every field is required.
pub record SideBuilder : Type 0 where
  pub has_partition : Bool
  pub has_data_type : Bool
  pub has_bank : Bool
  pub has_protection : Bool
  pub has_checksum : Bool
  pub bytes : ℕ → ℕ
  pub rows : ℕ

abbrev pub new_side : SideBuilder
new_side = record {
  has_partition = false;
  has_data_type = false;
  has_bank = false;
  has_protection = false;
  has_checksum = false;
  bytes = λ i. 0;
  rows = 0;
}

unfoldable pub put_entry : Entry → SideBuilder → SideBuilder
put_entry (partition v) sb = record sb { has_partition = true; bytes = upd sb.bytes 0 v }
put_entry (data_type v) sb = record sb { has_data_type = true; bytes = upd sb.bytes 1 v }
put_entry (bank v) sb = record sb { has_bank = true; bytes = upd sb.bytes 2 v }
put_entry (protection v) sb = record sb { has_protection = true; bytes = upd sb.bytes 3 v }
put_entry (checksum v) sb = record sb {
  has_checksum = true;
  bytes = upd (upd sb.bytes 245 v) 244 v;
}

unfoldable pub header_line : List ℕ → SideBuilder → Option SideBuilder
unfolding header_entry put_entry
header_line line sb = map_some (λ e. put_entry e sb) (header_entry line)

-- `std::copy` of a row.
unfoldable pub put_row : List ℕ → SideBuilder → SideBuilder
put_row row sb =
    let at = 4 + sb.rows * 8 in
    record sb {
      bytes =
          λ i. if leb at i && ltb i (at + length row) then get_or row (i - at) 0 else sb.bytes i;
      rows = sb.rows + 1;
    }

unfoldable pub data_line : List ℕ → SideBuilder → Option SideBuilder
unfolding decode_card_row put_row
data_line line sb =
    if leb rows_per_bank sb.rows
    then none
    else map_some (λ row. put_row row sb) (decode_card_row line)

unfoldable pub complete : SideBuilder → Bool
complete sb =
    sb.has_partition
    && sb.has_data_type
    && sb.has_bank
    && sb.has_protection
    && sb.has_checksum
    && (sb.rows == rows_per_bank)
