-- ===== src/Core/Cpu/CardReader.antt =====
-- The magnetic card reader: IN CRD, OUT CRD, CRD_OFF, CRD_READ, CRD_WRITE, and the two calls by
-- which the host inserts and ejects a card.
pub mod Laws
use calc_u.Base.{
  ℕ, ◌+◌, ◌-◌, ◌*◌, ◌/◌, ◌%◌, Bool, true, false, ◌&&◌, if◌then◌else◌, ◌==◌, ltb, leb, upd, copy,
  slice, List, [], Option, none, some, u8, u16, bit_or, clear8,
}
use calc_u.Core.Alu.{Nibbles}
use calc_u.Core.Cpu.State.{Cpu, Card, Flags}

abbrev pub bank_bytes : ℕ
bank_bytes = 246

abbrev pub card_bytes : ℕ
card_bytes = 984

-- A change of the card reader alone.
abbrev pub with_card : Cpu → Card → Cpu
with_card c k = record c { card = k }

-- The card-switch key is down while no card is in.
abbrev pub switch_key : Bool → Cpu → ℕ → ℕ
switch_key true c = upd c.key c.card.switch_col (bit_or (c.key c.card.switch_col) 16)
switch_key false c = upd c.key c.card.switch_col (clear8 (c.key c.card.switch_col) 16)

-- The value for EXT, and the reader after the read.
unfoldable pub read_byte : Card → ℕ × Card
read_byte k =
    if k.present && k.mode == 1 && ltb k.ptr bank_bytes
    then (u16 (k.bank k.ptr * 16), record k { ptr = k.ptr + 1 })
    else (0, k)

unfoldable pub in_crd : Cpu → Cpu
unfolding read_byte
in_crd c =
    let (e, k) = read_byte c.card in
    record c { ext = e; card = k; flags = record (c.flags) { ext_valid = true } }

unfoldable pub write_byte : ℕ → Card → Card
write_byte kr k =
    if k.present && k.mode == 2 && ltb k.ptr bank_bytes
    then record k { bank = upd k.bank k.ptr (kr / 16 % 256); ptr = k.ptr + 1 }
    else k

unfoldable pub out_crd : Cpu → Cpu
unfolding write_byte
out_crd c = with_card c (write_byte c.kr c.card)

-- The bank that byte 2 names: page nibbles 0, 3, 6 and 9.
abbrev pub bank_index : Nibbles → ℕ
bank_index bank = bank 2 % 16 / 3

-- The buffer back into the card after a write, the next page after a read.
unfoldable pub store_bank : Card → Card
store_bank k =
    if k.mode == 2
    then (if ltb (bank_index k.bank) 4
        then (record k {
          full = λ j.
              if leb (bank_index k.bank * bank_bytes) j
                && ltb j (bank_index k.bank * bank_bytes + bank_bytes)
              then k.bank (j - bank_index k.bank * bank_bytes)
              else k.full j;
          last_written = some (bank_index k.bank);
        })
        else k)
    else if k.mode == 1
    then record k { bank = upd k.bank 2 ((k.bank 2 + 3) % 16) }
    else k

unfoldable pub crd_off : Cpu → Cpu
unfolding store_bank
crd_off c = record c {
  card = record (store_bank c.card) { mode = 0; ptr = 0; present = false };
  key = switch_key true c;
}

unfoldable pub load_bank : Card → Card
load_bank k =
    if k.mode == 0
    then (record k {
      bank =
          if ltb (bank_index k.bank) 4
          then copy k.bank k.full (bank_index k.bank * bank_bytes) bank_bytes
          else k.bank;
      mode = 1;
      ptr = 0;
    })
    else k

unfoldable pub crd_read : Cpu → Cpu
unfolding load_bank
crd_read c = with_card c (load_bank c.card)

unfoldable pub start_write : Card → Card
start_write k = if k.mode == 0 then record k { mode = 2; ptr = 0 } else k

unfoldable pub crd_write : Cpu → Cpu
unfolding start_write
crd_write c = with_card c (start_write c.card)

-- The 984 bytes of an inserted card; `none` is a null pointer.
unfoldable pub card_image : Option Nibbles → ℕ → Nibbles
card_image none count j = 0
card_image (some bytes) count j =
    if count == 0
    then 0
    else if leb card_bytes count
    then if ltb j card_bytes then bytes j else 0
    else if count == bank_bytes
    then if ltb j bank_bytes then bytes j else 0
    else if ltb j count
    then bytes j
    else 0

unfoldable pub insert_card : Option Nibbles → ℕ → Cpu → Cpu
unfolding card_image
insert_card bytes count c = record c {
  card = record (c.card) {
    full = card_image bytes count;
    bank = λ j. 0;
    ptr = 0;
    mode = 0;
    last_written = none;
    present = true;
    waiting = false;
  };
  key = switch_key false c;
}

-- The bytes of the bank that was written, and the card out of the reader.
unfoldable pub card_eject : Cpu → List ℕ × Cpu
card_eject c =
    let out = record (c.card) { present = false; waiting = false; mode = 0 } in
    elim c.card.last_written [
      | none ↦ ([], record c { card = out; key = switch_key true c })
      | some b ↦ if ltb 3 b then ([], record c { card = out; key = switch_key true c }) else (
        slice c.card.full (b * bank_bytes) bank_bytes,
        record c { card = record out { last_written = none }; key = switch_key true c },
      )
    ]
