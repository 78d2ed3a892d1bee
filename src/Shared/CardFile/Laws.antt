-- ===== src/Shared/CardFile/Laws.antt =====
-- The checksum of a card bank, from its bytes.
use calc_u.Base.{
  ℕ, zero, suc, ◌+◌, ◌-◌, ◌*◌, ◌/◌, ◌%◌, ◌≤◌, ◌<◌, ◌≡◌, refl, ap, sym, inl, inr, Bool, true, false,
  not, ◌&&◌, if◌then◌else◌, leb, ◌==◌, List, [], ◌∷◌, ◌++◌, upd, arith, length,
}
use calc_u.Core.Alu.{Nibbles}
use calc_u.Shared.Bcd.{encode_register_line, line_byte}
use calc_u.Base.{Bool-cases}
use calc_u.Shared.CardFile.{put_steps, put_registers, is_in_bank, first_reg}
use calc_u.Shared.Bcd.Laws.{AreNibbles, byte_join}
use calc_u.Shared.CardFile.{
  RegisterValue, CardDefinition, bank_regs, nibble_sum, register_bytes, register_sum,
  bank_registers, build_card_bank, low_sum, header_bytes, partition_of,
}

-- Both nibbles of each byte.
abbrev pub byte_sum : List ℕ → ℕ
byte_sum [] = 0
byte_sum (b ∷ bs) = b / 16 + b % 16 + byte_sum bs

byte_sum-append : (xs ys : List ℕ) → byte_sum (xs ++ ys) ≡ byte_sum xs + byte_sum ys
byte_sum-append [] ys = omega arith
byte_sum-append (x ∷ xs) ys = omega (arith, byte_sum-append xs ys)

byte_nibbles :
    (n : Nibbles) (k : ℕ)
    → AreNibbles n
    → k < 8
    → line_byte n k / 16 + line_byte n k % 16 ≡ n (14 - 2 * k) + n (14 - 2 * k + 1)
byte_nibbles n k h l =
    let a = h (14 - 2 * k) (omega arith) in
    let b = h (14 - 2 * k + 1) (omega arith) in
    let e = byte_join (n (14 - 2 * k)) (n (14 - 2 * k + 1)) a b in omega (arith, e, a, b)

line_sum : (n : Nibbles) → AreNibbles n → byte_sum (encode_register_line n) ≡ nibble_sum 16 n 0
unfolding encode_register_line
line_sum n h = omega (
  arith,
  byte_nibbles n 0 h (omega arith),
  byte_nibbles n 1 h (omega arith),
  byte_nibbles n 2 h (omega arith),
  byte_nibbles n 3 h (omega arith),
  byte_nibbles n 4 h (omega arith),
  byte_nibbles n 5 h (omega arith),
  byte_nibbles n 6 h (omega arith),
  byte_nibbles n 7 h (omega arith),
)

registers_sum :
    (k r : ℕ) (regs : ℕ → Nibbles)
    → ((r : ℕ) → AreNibbles (regs r))
    → byte_sum (register_bytes k regs r) ≡ register_sum k regs r
registers_sum zero r regs h = refl
registers_sum (suc k) r regs h = omega (
  arith,
  byte_sum-append (encode_register_line (regs r)) (register_bytes k regs (r + 1)),
  line_sum (regs r) (h r),
  registers_sum k (r + 1) regs h,
)

-- Every register holds nibbles.
abbrev AreAllNibbles : (ℕ → Nibbles) → Type 0
AreAllNibbles regs = (r : ℕ) → AreNibbles (regs r)

abbrev pub AreKeycodes : List (ℕ × ℕ) → Type 0
AreKeycodes [] = 0 ≤ 0
AreKeycodes ((addr, keycode) ∷ ss) = (keycode < 160) × AreKeycodes ss

abbrev pub AreRegisters : List RegisterValue → Type 0
AreRegisters [] = 0 ≤ 0
AreRegisters (g ∷ gs) = AreNibbles g.nibbles × AreRegisters gs

upd-AreNibbles : (n : Nibbles) (j v : ℕ) → AreNibbles n → v < 16 → AreNibbles (upd n j v)
upd-AreNibbles n j v h l i k = elim (Bool-cases (i == j)) [ inl t ↦ rw t l | inr f ↦ rw f (h i k) ]

upd-AreAllNibbles :
    (regs : ℕ → Nibbles) (r : ℕ) (n : Nibbles)
    → AreAllNibbles regs
    → AreNibbles n
    → AreAllNibbles (upd regs r n)
upd-AreAllNibbles regs r n h k q i l = elim (Bool-cases (q == r)) [
  | inl t ↦ rw t (k i l)
  | inr f ↦ rw f (h q i l)
]

if-AreAllNibbles :
    (b : Bool) (p q : ℕ → Nibbles)
    → AreAllNibbles p
    → AreAllNibbles q
    → AreAllNibbles (if b then p else q)
if-AreAllNibbles true p q h k = h
if-AreAllNibbles false p q h k = k

put_steps-AreAllNibbles :
    (first : ℕ) (ss : List (ℕ × ℕ)) (regs : ℕ → Nibbles)
    → AreKeycodes ss
    → AreAllNibbles regs
    → AreAllNibbles (put_steps first ss regs)
unfolding put_steps
put_steps-AreAllNibbles first [] regs h k = k
put_steps-AreAllNibbles first ((addr, code) ∷ ss) regs (l, h) k =
    let reg = addr / 8 - first in
    let units = upd (regs reg) (addr % 8 * 2) (code % 10) in
    let both = upd units (addr % 8 * 2 + 1) (code / 10) in
    put_steps-AreAllNibbles first ss
      (if is_in_bank first (addr / 8) then upd regs reg both else regs) h
      (if-AreAllNibbles (is_in_bank first (addr / 8)) (upd regs reg both) regs
        (upd-AreAllNibbles regs reg both k (
          upd-AreNibbles units (addr % 8 * 2 + 1) (code / 10)
            (upd-AreNibbles (regs reg) (addr % 8 * 2) (code % 10) (k reg) (omega arith))
            (omega (arith, l))))
        k)

put_registers-AreAllNibbles :
    (first : ℕ) (gs : List RegisterValue) (regs : ℕ → Nibbles)
    → AreRegisters gs
    → AreAllNibbles regs
    → AreAllNibbles (put_registers first gs regs)
unfolding put_registers
put_registers-AreAllNibbles first [] regs h k = k
put_registers-AreAllNibbles first (g ∷ gs) regs (l, h) k =
    let raw = 119 - g.reg_num in
    let test = not g.is_hidden && leb g.reg_num 119 && is_in_bank first raw in
    put_registers-AreAllNibbles first gs (if test then upd regs (raw - first) g.nibbles else regs) h
      (if-AreAllNibbles test (upd regs (raw - first) g.nibbles) regs
        (upd-AreAllNibbles regs (raw - first) g.nibbles k l) k)

length-register_bytes : (k r : ℕ) (regs : ℕ → Nibbles) → length (register_bytes k regs r) ≡ 8 * k
unfolding encode_register_line
length-register_bytes zero r regs = refl
length-register_bytes (suc k) r regs = omega (arith, length-register_bytes k (r + 1) regs)

-- From keycodes below 160 and registers of nibbles, a card bank has 246 bytes: three of the
-- header, the protection, 240 of data, and twice the checksum, which is the sum of the header's
-- low nibbles and of both nibbles of every byte of data, modulo 16.
pub build_card_bank_lem :
    (card : CardDefinition) (program_regs : ℕ)
    → AreKeycodes card.program_steps
    → AreRegisters card.registers
    → (header body : List ℕ) × (c : ℕ) × (build_card_bank card program_regs
        ≡ header ++ ((if card.protect then 0x10 else 0x00) ∷ body) ++ (c ∷ c ∷ []))
      × (length header ≡ 3)
      × (length body ≡ 240)
      × (c ≡ (low_sum header + byte_sum body) % 16)
unfolding build_card_bank bank_registers
build_card_bank_lem card program_regs h k =
    let header = header_bytes card (partition_of card program_regs) in
    let regs = bank_registers card in
    let all : AreAllNibbles regs =
      put_registers-AreAllNibbles (first_reg card) card.registers
        (put_steps (first_reg card) card.program_steps (λ r i. 0)) k
        (put_steps-AreAllNibbles (first_reg card) card.program_steps (λ r i. 0) h
          (λ r i l. omega arith)) in
    let body = register_bytes bank_regs regs 0 in
    (
      header,
      body,
      (low_sum header + register_sum bank_regs regs 0) % 16,
      refl,
      refl,
      length-register_bytes bank_regs 0 regs,
      ap (λ n. (low_sum header + n) % 16) (sym (registers_sum bank_regs 0 regs all)),
    )
