-- ===== src/Shared/CardText/Headers.antt =====
-- The lines of a header read back what they were written from.
use calc_u.Base.{
  ℕ, zero, suc, ◌≤◌, ◌<◌, ◌≡◌, ◌⊎◌, refl, ap, sym, inl, inr, Bool, true, false, ◌==◌, List, [], ◌∷◌,
  Option, none, some, arith, all_below, table, ==_iff, length, get_or,
}
use calc_u.Shared.TextUtil.{starts_with, parse_hex, parse_dec, hex_value, hex_digit, dec_value}
use calc_u.Shared.TextUtil.Trim.{
  strip_inline_comment, to_upper, to_lower, text_eq, before, behind, trim, space_of, space_at,
  space_before, trim_left, trim_right, to_string, digits,
}
use calc_u.Shared.CardFile.{page_byte_of_bank, bank_of_page_byte}
use calc_u.Shared.CardText.{
  Entry, partition, data_type, bank, protection, checksum, partition_line, data_type_line,
  bank_line, protection_line, checksum_line, header_entry, field_entry,
}
use calc_u.Shared.CardText.Reader.{Keyword, other_word, keyword_of}

abbrev pub other_entry : Keyword → List ℕ → Option Entry
other_entry other_word line = header_entry line
other_entry _ line = none

-- The entry of a stripped line that is no keyword.
abbrev pub plain_entry : List ℕ → Option Entry
plain_entry [] = none
plain_entry (c ∷ cs) = other_entry (keyword_of (to_upper (c ∷ cs))) (c ∷ cs)

abbrev same_entry : Entry → Entry → Bool
same_entry (partition v) (partition w) = v == w
same_entry (data_type v) (data_type w) = v == w
same_entry (bank v) (bank w) = v == w
same_entry (protection v) (protection w) = v == w
same_entry (checksum v) (checksum w) = v == w
same_entry _ _ = false

abbrev gives_entry : Option Entry → Entry → Bool
gives_entry none e = false
gives_entry (some f) e = same_entry f e

same_entry-eq : (f e : Entry) → same_entry f e ≡ true → f ≡ e
same_entry-eq (partition v) (partition w) h = ap partition ((==_iff v w).0 h)
same_entry-eq (data_type v) (data_type w) h = ap data_type ((==_iff v w).0 h)
same_entry-eq (bank v) (bank w) h = ap bank ((==_iff v w).0 h)
same_entry-eq (protection v) (protection w) h = ap protection ((==_iff v w).0 h)
same_entry-eq (checksum v) (checksum w) h = ap checksum ((==_iff v w).0 h)
same_entry-eq _ _ h = cc

gives_entry-some : (o : Option Entry) (e : Entry) → gives_entry o e ≡ true → o ≡ some e
gives_entry-some none e h = cc
gives_entry-some (some f) e h = ap some (same_entry-eq f e h)

unfoldable entry_of : List ℕ → Option Entry
unfolding strip_inline_comment trim trim_left trim_right space_before space_at space_of before
    behind to_upper to_lower keyword_of text_eq starts_with header_entry field_entry parse_hex
    hex_value hex_digit parse_dec dec_value page_byte_of_bank
entry_of raw = plain_entry (strip_inline_comment raw)

partition_table :
    all_below 256 (λ b. gives_entry (entry_of (partition_line b)) (partition b)) ≡ true
unfolding all_below entry_of
partition_table = refl

checksum_table : all_below 256 (λ b. gives_entry (entry_of (checksum_line b)) (checksum b)) ≡ true
unfolding all_below entry_of
checksum_table = refl

pub entry-partition_line :
    (b : ℕ) → b < 256 → plain_entry (strip_inline_comment (partition_line b)) ≡ some (partition b)
entry-partition_line b h =
    unfold entry_of in gives_entry-some _ (partition b) (table 256 _ partition_table b h)

pub entry-checksum_line :
    (b : ℕ) → b < 256 → plain_entry (strip_inline_comment (checksum_line b)) ≡ some (checksum b)
entry-checksum_line b h =
    unfold entry_of in gives_entry-some _ (checksum b) (table 256 _ checksum_table b h)

-- Program or data.
abbrev pub IsDataType : ℕ → Type 0
IsDataType b = (b ≡ 0x10) ⊎ (b ≡ 0x11)

data_type_16 : gives_entry (entry_of (data_type_line 16)) (data_type 16) ≡ true
unfolding entry_of
data_type_16 = refl

data_type_17 : gives_entry (entry_of (data_type_line 17)) (data_type 17) ≡ true
unfolding entry_of
data_type_17 = refl

pub entry-data_type_line :
    (b : ℕ)
    → IsDataType b
    → plain_entry (strip_inline_comment (data_type_line b)) ≡ some (data_type b)
entry-data_type_line b (inl e) =
    rw e (unfold entry_of in gives_entry-some _ (data_type 16) data_type_16)
entry-data_type_line b (inr e) =
    rw e (unfold entry_of in gives_entry-some _ (data_type 17) data_type_17)

abbrev pub IsProtection : ℕ → Type 0
IsProtection b = (b ≡ 0x00) ⊎ (b ≡ 0x10)

protection_0 : gives_entry (entry_of (protection_line 0)) (protection 0) ≡ true
unfolding entry_of
protection_0 = refl

protection_16 : gives_entry (entry_of (protection_line 16)) (protection 16) ≡ true
unfolding entry_of
protection_16 = refl

pub entry-protection_line :
    (b : ℕ)
    → IsProtection b
    → plain_entry (strip_inline_comment (protection_line b)) ≡ some (protection b)
entry-protection_line b (inl e) =
    rw e (unfold entry_of in gives_entry-some _ (protection 0) protection_0)
entry-protection_line b (inr e) =
    rw e (unfold entry_of in gives_entry-some _ (protection 16) protection_16)

-- The page byte of a bank from 1 to 4.
abbrev pub IsPageByte : ℕ → Type 0
IsPageByte b = (n : ℕ) × (1 ≤ n) × (n ≤ 4) × (page_byte_of_bank n ≡ b)

page_bytes : (b : ℕ) → IsPageByte b → (b ≡ 0x10) ⊎ ((b ≡ 0x13) ⊎ ((b ≡ 0x16) ⊎ (b ≡ 0x19)))
unfolding page_byte_of_bank
page_bytes b (zero, h, k, e) = absurd (omega arith)
page_bytes b (suc zero, h, k, e) = inl (sym e)
page_bytes b (suc (suc zero), h, k, e) = inr (inl (sym e))
page_bytes b (suc (suc (suc zero)), h, k, e) = inr (inr (inl (sym e)))
page_bytes b (suc (suc (suc (suc zero))), h, k, e) = inr (inr (inr (sym e)))
page_bytes b (suc (suc (suc (suc (suc n)))), h, k, e) = absurd (omega arith)

bank_1 : gives_entry (entry_of (bank_line (bank_of_page_byte 16))) (bank 16) ≡ true
unfolding entry_of bank_of_page_byte to_string digits
bank_1 = refl

bank_2 : gives_entry (entry_of (bank_line (bank_of_page_byte 19))) (bank 19) ≡ true
unfolding entry_of bank_of_page_byte to_string digits
bank_2 = refl

bank_3 : gives_entry (entry_of (bank_line (bank_of_page_byte 22))) (bank 22) ≡ true
unfolding entry_of bank_of_page_byte to_string digits
bank_3 = refl

bank_4 : gives_entry (entry_of (bank_line (bank_of_page_byte 25))) (bank 25) ≡ true
unfolding entry_of bank_of_page_byte to_string digits
bank_4 = refl

pub entry-bank_line :
    (b : ℕ)
    → IsPageByte b
    → plain_entry (strip_inline_comment (bank_line (bank_of_page_byte b))) ≡ some (bank b)
entry-bank_line b h = elim (page_bytes b h) [
  | inl e ↦ rw e (unfold entry_of in gives_entry-some _ (bank 0x10) bank_1)
  | inr (inl e) ↦ rw e (unfold entry_of in gives_entry-some _ (bank 0x13) bank_2)
  | inr (inr (inl e)) ↦ rw e (unfold entry_of in gives_entry-some _ (bank 0x16) bank_3)
  | inr (inr (inr e)) ↦ rw e (unfold entry_of in gives_entry-some _ (bank 0x19) bank_4)
]

-- Such a bank's registers begin below 91.
pub first_register-le : (b : ℕ) → IsPageByte b → bank_of_page_byte b ≤ 4
unfolding bank_of_page_byte
first_register-le b h = elim (page_bytes b h) [
  | inl e ↦ rw e (omega arith)
  | inr (inl e) ↦ rw e (omega arith)
  | inr (inr (inl e)) ↦ rw e (omega arith)
  | inr (inr (inr e)) ↦ rw e (omega arith)
]

-- The 246 bytes of a side whose header can be written: program or data, a bank from 1 to 4,
-- protected or not, and the checksum twice.
pub record IsCardBank (image : List ℕ) : Type 0 where
  pub sized : length image ≡ 246
  pub each : (k : ℕ) → get_or image k 0 < 256
  pub typed : IsDataType (get_or image 1 0)
  pub paged : IsPageByte (get_or image 2 0)
  pub protected : IsProtection (get_or image 3 0)
  pub summed : get_or image 245 0 ≡ get_or image 244 0

-- A side of a card, written or not.
abbrev pub AreCardBanks : Option (List ℕ) → Type 0
AreCardBanks none = 0 ≤ 0
AreCardBanks (some image) = IsCardBank image
