-- ===== src/Core/Cpu/Keyboard/Laws.antt =====
-- The keyboard scan: one line of the current row is found, none or several are not.
use calc_u.Base.{
  ℕ, zero, suc, ◌+◌, ◌*◌, ◌/◌, ◌%◌, ◌^◌, ◌<◌, ◌≡◌, refl, ap, ◌∙◌, inl, inr, ◌≢◌, true, false, ◌||◌,
  if◌then◌else◌, ◌==◌, arith, bit, bit_and, bit_or, any_bit, bit_or-lt, bit_xor-lt, bit_and-lt,
  bit_and-lt_left, bit-and, bit-lt, bit-pow, any_bit-pow, all_below, table, Bool-cases, ==_iff, shr,
}
use calc_u.Core.Cpu.State.{Cpu}
use calc_u.Core.Cpu.Keyboard.{line_mask, reject_chord, lowest_bit, line_fuel, key_code, exec_key}

-- The lines of the current row that the opcode asks for and that are down.
abbrev pub matched : ℕ → Cpu → ℕ
matched opcode c = bit_and (line_mask opcode) (c.key c.digit)

line_mask-lt : (opcode : ℕ) → line_mask opcode < 2 ^ 7
unfolding line_mask
line_mask-lt opcode =
    bit_xor-lt 7 (bit_or (bit_and opcode 0x07) (bit_and (shr opcode 1) 0x78)) 0x7F
      (bit_or-lt 7 (bit_and opcode 0x07) (bit_and (shr opcode 1) 0x78)
        (bit_and-lt 7 opcode 0x07 (omega arith)) (bit_and-lt 7 (shr opcode 1) 0x78 (omega arith)))
      (omega arith)

matched-lt : (opcode : ℕ) (c : Cpu) → matched opcode c < 128
matched-lt opcode c = bit_and-lt_left 7 (line_mask opcode) (c.key c.digit) (line_mask-lt opcode)

-- How many of the seven lines are set.
abbrev pub line_count : ℕ → ℕ → ℕ
line_count zero m = 0
line_count (suc n) m = m % 2 + line_count n (m / 2)

chord_table : all_below 128 (λ m. (line_count 7 m == 1) || (reject_chord m == 0)) ≡ true
unfolding all_below reject_chord
chord_table = refl

reject_chord-zero : (m : ℕ) → m < 128 → line_count 7 m ≢ 1 → reject_chord m ≡ 0
reject_chord-zero m h n =
    let t = table 128 _ chord_table m h in
    elim (Bool-cases (line_count 7 m == 1)) [
      | inl e ↦ absurd (n ((==_iff _ _).0 e))
      | inr e ↦ (==_iff _ _).0 (ground (arith, e, t))
    ]

lowest_table : all_below 7 (λ b. lowest_bit line_fuel 0 (2 ^ b) == b) ≡ true
unfolding all_below lowest_bit
lowest_table = refl

lowest_bit-pow : (b : ℕ) → b < 7 → lowest_bit line_fuel 0 (2 ^ b) ≡ b
lowest_bit-pow b h = (==_iff _ _).0 (table 7 _ lowest_table b h)

single_table : all_below 7 (λ b. reject_chord (2 ^ b) == 2 ^ b) ≡ true
unfolding all_below reject_chord
single_table = refl

reject_chord-pow : (b : ℕ) → b < 7 → reject_chord (2 ^ b) ≡ 2 ^ b
reject_chord-pow b h = (==_iff _ _).0 (table 7 _ single_table b h)

code_table : all_below 16 (λ d. all_below 7 (λ b. key_code d b == d * 16 + b * 256)) ≡ true
unfolding all_below
code_table = refl

key_code_lem : (d b : ℕ) → d < 16 → b < 7 → key_code d b ≡ d * 16 + b * 256
key_code_lem d b h k = (==_iff _ _).0 (table 7 _ (table 16 _ code_table d h) b k)

row-pow :
    (opcode : ℕ) (c : Cpu) (b : ℕ)
    → matched opcode c ≡ 2 ^ b
    → any_bit (c.key c.digit) (2 ^ b) ≡ true
row-pow opcode c b e =
    any_bit-pow (c.key c.digit) b
    ∙ ground (
      arith,
      bit-and (line_mask opcode) (c.key c.digit) b,
      ap (λ m. bit m b) e,
      bit-pow b b,
      bit-lt (line_mask opcode) b,
      bit-lt (c.key c.digit) b,
    )

any_bit-zero : (w : ℕ) → any_bit w 0 ≡ false
any_bit-zero w = ground (arith, bit_and-lt 0 w 0 (omega arith))

-- In scan-all mode, in a row below 16, exactly one matched line is a key: COND falls, KR holds the
-- row and the line, and HOLD is as before.
pub exec_key-found :
    (opcode : ℕ) (c : Cpu) (b : ℕ)
    → any_bit opcode 0x0008 ≡ false
    → c.digit < 16
    → b < 7
    → matched opcode c ≡ 2 ^ b
    → let d = exec_key opcode c in
      (d.flags.cond ≡ false) × (d.kr ≡ c.digit * 16 + b * 256) × (d.flags.hold ≡ c.flags.hold)
unfolding exec_key
exec_key-found opcode c b scan dh bh e =
    let pressed : any_bit (c.key c.digit) (2 ^ b) ≡ true = row-pow opcode c b e in
    rw (scan, e, reject_chord-pow b bh, pressed, lowest_bit-pow b bh)
      (refl, key_code_lem c.digit b dh bh, refl)

-- In scan-all mode any other number of matched lines leaves COND and KR alone, and the
-- instruction is held until digit 0.
pub exec_key-ignored :
    (opcode : ℕ) (c : Cpu)
    → any_bit opcode 0x0008 ≡ false
    → line_count 7 (matched opcode c) ≢ 1
    → let d = exec_key opcode c in
      (d.flags.cond ≡ c.flags.cond)
      × (d.kr ≡ c.kr)
      × (d.flags.hold ≡ (if c.digit == 0 then c.flags.hold else true))
unfolding exec_key
exec_key-ignored opcode c scan n =
    let none : reject_chord (matched opcode c) ≡ 0 =
      reject_chord-zero (matched opcode c) (matched-lt opcode c) n in
    rw (scan, none, any_bit-zero (c.key c.digit)) (ground arith)
