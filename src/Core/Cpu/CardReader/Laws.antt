-- ===== src/Core/Cpu/CardReader/Laws.antt =====
-- A written card comes back byte for byte: what OUT CRD sends is what the host gets at eject, and
-- what the host inserts is what IN CRD reads.
use calc_u.Base.{
  ℕ, zero, suc, ◌+◌, ◌-◌, ◌*◌, ◌/◌, ◌%◌, ◌≤◌, ◌<◌, ◌≡◌, refl, ap, ◌∙◌, sym, true, Bool-cases, false,
  ◌&&◌, if◌then◌else◌, ◌==◌, ltb, leb, lt→ltb, upd, slice, length, get_or, List, [], ◌∷◌, some,
  arith, inl, inr,
}
use calc_u.Core.Alu.{Nibbles}
use calc_u.Core.Cpu.State.{Cpu, Card}
use calc_u.Core.Cpu.CardReader.{
  bank_bytes, bank_index, read_byte, write_byte, store_bank, load_bank, start_write, in_crd,
  out_crd, crd_off, crd_read, crd_write, card_image, insert_card, card_eject,
}

-- OUT CRD for each byte, which KR holds in bits 11 to 4.
unfoldable pub write_all : List ℕ → Cpu → Cpu
write_all [] c = c
write_all (b ∷ r) c = write_all r (out_crd (record c { kr = b * 16 }))

-- IN CRD `n` times: the bytes that EXT shows.
unfoldable pub read_all : ℕ → Cpu → List ℕ
read_all zero c = []
read_all (suc n) c = let d = in_crd c in d.ext / 16 ∷ read_all n d

abbrev pub AreBytes : List ℕ → Type 0
AreBytes [] = Unit {0}
AreBytes (b ∷ r) = (b < 256) × AreBytes r

abbrev write_card : List ℕ → Card → Card
write_card [] k = k
write_card (b ∷ r) k = write_card r (write_byte (b * 16) k)

write_all-card : (bs : List ℕ) (c : Cpu) → (write_all bs c).card ≡ write_card bs c.card
unfolding write_all out_crd
write_all-card [] c = refl
write_all-card (b ∷ r) c = write_all-card r (out_crd (record c { kr = b * 16 }))

-- The slots from the pointer on hold the bytes, the others are as before.
abbrev written : List ℕ → Card → Nibbles
written bs k j =
    if leb k.ptr j && ltb j (k.ptr + length bs) then get_or bs (j - k.ptr) 0 else k.bank j

write_byte_lem :
    (b : ℕ) (k : Card)
    → b < 256
    → k.present ≡ true
    → k.mode ≡ 2
    → k.ptr < bank_bytes
    → write_byte (b * 16) k ≡ record k { bank = upd k.bank k.ptr b; ptr = k.ptr + 1 }
unfolding write_byte
write_byte_lem b k h p m l =
    let e : b * 16 / 16 % 256 ≡ b = omega arith in rw (p, m, lt→ltb k.ptr bank_bytes l, e) refl

get_or-cons :
    (b : ℕ) (r : List ℕ) (i : ℕ) → get_or (b ∷ r) i 0 ≡ (if i == 0 then b else get_or r (i - 1) 0)
get_or-cons b r zero = refl
get_or-cons b r (suc i) = let e : suc i - 1 ≡ i = omega arith in rw e (ground arith)

write_card-bank :
    (bs : List ℕ) (k : Card) (j : ℕ)
    → AreBytes bs
    → k.present ≡ true
    → k.mode ≡ 2
    → k.ptr + length bs ≤ bank_bytes
    → (write_card bs k).bank j ≡ written bs k j
write_card-bank [] k j h p m l = ground arith
write_card-bank (b ∷ r) k j (h, hs) p m l =
    let next = record k { bank = upd k.bank k.ptr b; ptr = k.ptr + 1 } in
    ap (λ x. (write_card r x).bank j) (write_byte_lem b k h p m (omega arith))
    ∙ write_card-bank r next j hs p m (omega arith)
    ∙ ground (arith, get_or-cons b r (j - k.ptr))

write_byte-rest :
    (kr : ℕ) (k : Card)
    → let q = write_byte kr k in (q.present ≡ k.present) × (q.mode ≡ k.mode) × (q.full ≡ k.full)
unfolding write_byte
write_byte-rest kr k = elim (Bool-cases (k.present && k.mode == 2 && ltb k.ptr bank_bytes)) [
  | inl t ↦ rw t (refl, refl, refl)
  | inr f ↦ rw f (refl, refl, refl)
]

write_card-rest :
    (bs : List ℕ) (k : Card)
    → let q = write_card bs k in (q.present ≡ k.present) × (q.mode ≡ k.mode) × (q.full ≡ k.full)
write_card-rest [] k = (refl, refl, refl)
write_card-rest (b ∷ r) k =
    let (p, m, f) = write_byte-rest (b * 16) k in
    let (p', m', f') = write_card-rest r (write_byte (b * 16) k) in (p' ∙ p, m' ∙ m, f' ∙ f)

-- A list is the slice of an array that holds its entries.
slice-list :
    (f : Nibbles) (lo : ℕ) (bs : List ℕ)
    → ((i : ℕ) → i < length bs → f (lo + i) ≡ get_or bs i 0)
    → slice f lo (length bs) ≡ bs
slice-list f lo [] h = refl
slice-list f lo (b ∷ r) h =
    let e : lo + 0 ≡ lo = omega arith in
    let first : f lo ≡ b = ap f (sym e) ∙ h 0 (omega arith) in
    let rest : (i : ℕ) → i < length r → f (lo + 1 + i) ≡ get_or r i 0 =
      λ i l. let a : lo + 1 + i ≡ lo + suc i = omega arith in ap f a ∙ h (suc i) (omega arith) in
    rw (first, slice-list f (lo + 1) r rest) refl

-- What the host gets of a reader that has written the bank `k.bank`.
store-eject :
    (c : Cpu)
    → c.card.mode ≡ 2
    → bank_index c.card.bank < 4
    → (card_eject (crd_off c)).0
      ≡ slice (store_bank c.card).full (bank_index c.card.bank * bank_bytes) bank_bytes
unfolding card_eject crd_off store_bank
store-eject c m h =
    let below : ltb 3 (bank_index c.card.bank) ≡ false = ground arith in
    rw (m, lt→ltb (bank_index c.card.bank) 4 h, below) refl

store-full :
    (k : Card) (i : ℕ)
    → k.mode ≡ 2
    → bank_index k.bank < 4
    → i < bank_bytes
    → (store_bank k).full (bank_index k.bank * bank_bytes + i) ≡ k.bank i
unfolding store_bank
store-full k i m h l =
    let back : bank_index k.bank * bank_bytes + i - bank_index k.bank * bank_bytes ≡ i =
      omega arith in
    rw (m, lt→ltb (bank_index k.bank) 4 h) (ground (arith, ap k.bank back))

bank-eject :
    (d : Cpu) (bs : List ℕ)
    → length bs ≡ bank_bytes
    → d.card.mode ≡ 2
    → get_or bs 2 0 % 16 / 3 < 4
    → ((j : ℕ) → j < bank_bytes → d.card.bank j ≡ get_or bs j 0)
    → (card_eject (crd_off d)).0 ≡ bs
bank-eject d bs n m page bytes =
    let f = (store_bank d.card).full in
    let lo = bank_index d.card.bank * bank_bytes in
    let below : bank_index d.card.bank < 4 = rw (bytes 2 (omega arith)) page in
    store-eject d m below
    ∙ ap (slice f lo) (sym n)
    ∙ slice-list f lo bs (λ i l. store-full d.card i m below (omega arith) ∙ bytes i (omega arith))

-- With a card in and no operation on, CRD_WRITE, 246 times OUT CRD, a byte each, and CRD_OFF put
-- the bytes on the card, and at eject the host gets them, if byte 2 names one of the four banks.
pub write_all-eject :
    (bs : List ℕ) (c : Cpu)
    → length bs ≡ bank_bytes
    → AreBytes bs
    → get_or bs 2 0 % 16 / 3 < 4
    → c.card.present ≡ true
    → c.card.mode ≡ 0
    → (card_eject (crd_off (write_all bs (crd_write c)))).0 ≡ bs
unfolding crd_write start_write
write_all-eject bs c n h page p m =
    let k = record (c.card) { mode = 2; ptr = 0 } in
    let d = write_all bs (crd_write c) in
    let start : (crd_write c).card ≡ k = rw m refl in
    let card : d.card ≡ write_card bs k =
      write_all-card bs (crd_write c) ∙ ap (write_card bs) start in
    let (p', m', f') = write_card-rest bs k in
    let bytes : (j : ℕ) → j < bank_bytes → (write_card bs k).bank j ≡ get_or bs j 0 = λ j l.
      let e : j - 0 ≡ j = omega arith in
      write_card-bank bs k j h p refl (omega arith) ∙ ground (arith, ap (λ i. get_or bs i 0) e) in
    bank-eject d bs n (ap (λ x. x.mode) card ∙ m') page (λ j l. ap (λ x. x.bank j) card ∙ bytes j l)

read_byte_lem :
    (k : Card)
    → k.present ≡ true
    → k.mode ≡ 1
    → k.ptr < bank_bytes
    → k.bank k.ptr < 256
    → read_byte k ≡ (k.bank k.ptr * 16, record k { ptr = k.ptr + 1 })
unfolding read_byte
read_byte_lem k p m l h =
    let e : k.bank k.ptr * 16 % 65536 ≡ k.bank k.ptr * 16 = omega arith in
    rw (p, m, lt→ltb k.ptr bank_bytes l, e) refl

abbrev after_read : Cpu → Cpu
after_read c = record c {
  ext = c.card.bank c.card.ptr * 16;
  card = record (c.card) { ptr = c.card.ptr + 1 };
  flags = record (c.flags) { ext_valid = true };
}

in_crd_lem :
    (c : Cpu)
    → c.card.present ≡ true
    → c.card.mode ≡ 1
    → c.card.ptr < bank_bytes
    → c.card.bank c.card.ptr < 256
    → in_crd c ≡ after_read c
unfolding in_crd
in_crd_lem c p m l h = rw (read_byte_lem c.card p m l h) refl

slice-ext :
    (f g : Nibbles) (lo n : ℕ)
    → ((j : ℕ) → lo ≤ j → j < lo + n → f j ≡ g j)
    → slice f lo n ≡ slice g lo n
slice-ext f g lo zero h = refl
slice-ext f g lo (suc n) h =
    let first : f lo ≡ g lo = h lo (omega arith) (omega arith) in
    let rest = slice-ext f g (lo + 1) n (λ j p q. h j (omega arith) (omega arith)) in
    rw (first, rest) refl

read_all-slice :
    (n : ℕ) (c : Cpu)
    → c.card.present ≡ true
    → c.card.mode ≡ 1
    → c.card.ptr + n ≤ bank_bytes
    → ((j : ℕ) → c.card.bank j < 256)
    → read_all n c ≡ slice c.card.bank c.card.ptr n
unfolding read_all
read_all-slice zero c p m l h = refl
read_all-slice (suc n) c p m l h =
    let next = after_read c in
    let b : c.card.bank c.card.ptr * 16 / 16 ≡ c.card.bank c.card.ptr = omega arith in
    rw (in_crd_lem c p m (omega arith) (h c.card.ptr), b, read_all-slice n next p m (omega arith) h)
      refl

inserted :
    (c : Cpu) (f : Nibbles)
    → let k = (crd_read (insert_card (some f) bank_bytes c)).card in
      (k.present ≡ true) × (k.mode ≡ 1) × (k.ptr ≡ 0)
unfolding crd_read load_bank insert_card
inserted c f = (refl, refl, refl)

inserted-bank :
    (c : Cpu) (f : Nibbles) (j : ℕ)
    → (crd_read (insert_card (some f) bank_bytes c)).card.bank j
      ≡ (if ltb j bank_bytes then f j else 0)
unfolding crd_read load_bank insert_card card_image
inserted-bank c f j = let e : 0 + j ≡ j = omega arith in rw e (ground arith)

-- The bytes of an inserted bank, up to all 246, are what IN CRD reads after CRD_READ, one byte at
-- each, in their order.
pub read_all-insert :
    (f : Nibbles) (n : ℕ) (c : Cpu)
    → n ≤ bank_bytes
    → ((j : ℕ) → f j < 256)
    → read_all n (crd_read (insert_card (some f) bank_bytes c)) ≡ slice f 0 n
read_all-insert f n c l h =
    let d = crd_read (insert_card (some f) bank_bytes c) in
    let (p, m, z) = inserted c f in
    let bytes : (j : ℕ) → d.card.bank j < 256 = λ j. ground (arith, inserted-bank c f j, h j) in
    let start : 0 + n ≤ bank_bytes = omega arith in
    read_all-slice n d p m (rw z start) bytes
    ∙ ap (λ o. slice d.card.bank o n) z
    ∙ slice-ext d.card.bank f 0 n (λ j u v. ground (arith, inserted-bank c f j))
