-- ===== src/Shared/CardText/Values.antt =====
-- What the lines of a side can set, whatever they are.
use calc_u.Base.{
  ℕ, zero, suc, ◌+◌, ◌≤◌, ◌<◌, ◌≡◌, refl, inl, inr, Bool, true, false, ◌&&◌, if◌then◌else◌, leb,
  List, Option, none, some, ◌>>=◌, map_some, ℤ, pos, negsuc, slice, get_or, length, arith,
}
use mathlib.Core.List.{reverse}
use calc_u.Core.Cpu.Printer.{text}
use calc_u.Shared.TextUtil.{parse_hex, parse_dec}
use calc_u.Shared.TextUtil.Trim.{text_eq, before, behind, trim, to_lower}
use calc_u.Shared.Bcd.{parse_register_line_hex, decode_register_line}
use calc_u.Shared.CardFile.{page_byte_of_bank}
use calc_u.Shared.CardText.{
  Entry, partition, data_type, bank, protection, checksum, byte_value, bank_value, choice,
  field_entry, header_entry, joined_byte, row_bytes, decode_card_row,
}
use calc_u.Shared.CardText.Headers.{IsDataType, IsPageByte, IsProtection}

-- What holds of a result, if there is one.
abbrev pub Holds {ℓ} : {A : Type ℓ} → (A → Type 0) → Option A → Type 0
Holds P none = 0 ≤ 0
Holds P (some a) = P a

pub bind-Holds {ℓ κ} :
    {A : Type ℓ} {B : Type κ} (P : A → Type 0) (Q : B → Type 0) (o : Option A) (f : A → Option B)
    → Holds P o
    → ((a : A) → P a → Holds Q (f a))
    → Holds Q (o >>= f)
bind-Holds P Q none f h k = omega arith
bind-Holds P Q (some a) f h k = k a h

pub map-Holds {ℓ κ} :
    {A : Type ℓ} {B : Type κ} (P : A → Type 0) (Q : B → Type 0) (o : Option A) (f : A → B)
    → Holds P o
    → ((a : A) → P a → Q (f a))
    → Holds Q (map_some f o)
map-Holds P Q none f h k = omega arith
map-Holds P Q (some a) f h k = k a h

pub if-Holds {ℓ} :
    {A : Type ℓ} (P : A → Type 0) (b : Bool) (o p : Option A)
    → (b ≡ true → Holds P o)
    → (b ≡ false → Holds P p)
    → Holds P (if b then o else p)
if-Holds P true o p h k = h refl
if-Holds P false o p h k = k refl

-- An entry that a header may have.
abbrev pub IsEntry : Entry → Type 0
IsEntry (partition v) = v < 256
IsEntry (data_type v) = IsDataType v
IsEntry (bank v) = IsPageByte v
IsEntry (protection v) = IsProtection v
IsEntry (checksum v) = v < 256

nothing {ℓ} : {A : Type ℓ} (P : A → Type 0) → Holds P none
nothing P = omega arith

byte_value-Holds : (val : List ℕ) → Holds (λ v. v < 256) (byte_value val)
byte_value-Holds val =
    bind-Holds (λ v. 0 ≤ v) (λ v. v < 256) (parse_hex val)
      (λ v. if leb v 0xFF then some v else none) (any (parse_hex val))
      (λ v l.
        if-Holds (λ v. v < 256) (leb v 0xFF) (some v) none (λ e. ground (arith, e))
          (λ e. nothing (λ v. v < 256)))
  where
    any : (o : Option ℕ) → Holds (λ v. 0 ≤ v) o
    any none = omega arith
    any (some v) = omega arith

choice-Holds :
    (P : ℕ → Type 0) (val w v : List ℕ) (a b : ℕ) → P a → P b → Holds P (choice val w a v b)
choice-Holds P val w v a b h k =
    if-Holds P (text_eq val w) (some a) (if text_eq val v then some b else none) (λ e. h)
      (λ e. if-Holds P (text_eq val v) (some b) none (λ d. k) (λ d. nothing P))

bank_value-Holds : (o : Option ℤ) → Holds IsPageByte (bank_value o)
bank_value-Holds none = omega arith
bank_value-Holds (some (negsuc k)) = omega arith
bank_value-Holds (some (pos n)) =
    if-Holds IsPageByte (leb 1 n && leb n 4) (some (page_byte_of_bank n)) none
      (λ e. (n, ground (arith, e), ground (arith, e), refl)) (λ e. nothing IsPageByte)

field_entry-Holds : (key val : List ℕ) → Holds IsEntry (field_entry key val)
unfolding field_entry
field_entry-Holds key val =
    if-Holds IsEntry (text_eq key (text "partition")) _ _
      (λ e.
        map-Holds (λ v. v < 256) IsEntry (byte_value val) partition (byte_value-Holds val)
          (λ v l. l))
      (λ e.
        if-Holds IsEntry (text_eq key (text "datatype")) _ _
          (λ e.
            map-Holds IsDataType IsEntry (choice val (text "program") 0x11 (text "data") 0x10)
              data_type
              (choice-Holds IsDataType val (text "program") (text "data") 0x11 0x10 (inr refl)
                (inl refl))
              (λ v l. l))
          (λ e.
            if-Holds IsEntry (text_eq key (text "bank")) _ _
              (λ e.
                map-Holds IsPageByte IsEntry (bank_value (parse_dec val)) bank
                  (bank_value-Holds (parse_dec val)) (λ v l. l))
              (λ e.
                if-Holds IsEntry (text_eq key (text "protection")) _ _
                  (λ e.
                    map-Holds IsProtection IsEntry (choice val (text "yes") 0x10 (text "no") 0x00)
                      protection
                      (choice-Holds IsProtection val (text "yes") (text "no") 0x10 0x00 (inr refl)
                        (inl refl))
                      (λ v l. l))
                  (λ e.
                    if-Holds IsEntry (text_eq key (text "checksum")) _ _
                      (λ e.
                        map-Holds (λ v. v < 256) IsEntry (byte_value val) checksum
                          (byte_value-Holds val) (λ v l. l))
                      (λ e. nothing IsEntry)))))

any_text : (o : Option (List ℕ)) → Holds (λ r. 0 ≤ 0) o
any_text none = omega arith
any_text (some r) = omega arith

pub header_entry-Holds : (line : List ℕ) → Holds IsEntry (header_entry line)
unfolding header_entry
header_entry-Holds line =
    bind-Holds (λ r. 0 ≤ 0) IsEntry (behind 58 line) _ (any_text (behind 58 line))
      (λ rest h. field_entry-Holds (to_lower (trim (before 58 line))) (to_lower (trim rest)))

-- Eight bytes.
abbrev pub IsEight : List ℕ → Type 0
IsEight row = (length row ≡ 8) × ((k : ℕ) → get_or row k 0 < 256)

pub slice-bytes : (f : ℕ → ℕ) (lo n k : ℕ) → ((i : ℕ) → f i < 256) → get_or (slice f lo n) k 0 < 256
slice-bytes f lo zero k h = omega arith
slice-bytes f lo (suc n) zero h = h lo
slice-bytes f lo (suc n) (suc k) h = slice-bytes f (lo + 1) n k h

pub decode_card_row-Holds : (line : List ℕ) → Holds IsEight (decode_card_row line)
unfolding decode_card_row row_bytes
decode_card_row-Holds line =
    if-Holds IsEight _ (row_bytes line) none
      (λ e.
        bind-Holds (λ r. 0 ≤ 0) IsEight (behind 58 line) _ (any_text (behind 58 line))
          (λ rest h.
            bind-Holds (λ r. 0 ≤ 0) IsEight (parse_register_line_hex (trim rest)) _
              (any_text (parse_register_line_hex (trim rest)))
              (λ bytes g. (
                refl,
                λ k.
                    slice-bytes (joined_byte (decode_register_line (reverse bytes))) 0 8 k
                      (λ i. omega arith),
              ))))
      (λ e. nothing IsEight)
