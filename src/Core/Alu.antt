-- ===== src/Core/Alu.antt =====
-- Core/TMC0501.cpp: the field masks, `alu()` and `xch()`. The five working registers are one
-- store, so an operand that is the destination itself is read from the store as the loop goes on.
pub mod Frame
pub mod Digit
pub mod Decimal
pub mod Field
pub mod Outside
pub mod Aliasing
pub mod Shift
pub mod ShiftRight
pub mod Exchange
mod Examples
use calc_u.Base.{
  ℕ, zero, suc, ◌+◌, ◌-◌, ◌%◌, Bool, true, false, not, ◌&&◌, ◌∷◌, List, [], if◌then◌else◌, ◌==◌,
  leb, ltb, u8, upd, get_or, bit_or,
}

-- The 16-nibble registers A to E.
pub data Reg : Type 0 where
  ra rb rc rd re : Reg

abbrev pub same_reg : Reg → Reg → Bool
same_reg ra ra = true
same_reg rb rb = true
same_reg rc rc = true
same_reg rd rd = true
same_reg re re = true
same_reg _ _ = false

abbrev pub Nibbles : Type 0
Nibbles = ℕ → ℕ

abbrev pub Regs : Type 0
Regs = Reg → Nibbles

-- `r[i] = v`
abbrev pub put : Regs → Reg → ℕ → ℕ → Regs
put rs r i v q = if same_reg q r then upd (rs r) i v else rs q

pub record MaskInfo : Type 0 where
  pub start : ℕ
  pub stop : ℕ
  pub cpos : ℕ
  pub cval : ℕ

abbrev mask : ℕ → ℕ → ℕ → ℕ → MaskInfo
mask s e p v = record { start = s; stop = e; cpos = p; cval = v }

abbrev pub no_mask : MaskInfo
no_mask = mask 0xFF 0 0 0

abbrev mask_table : List MaskInfo
mask_table =
    no_mask
    ∷ mask 0 15 0 0
    ∷ mask 0 0 0 0
    ∷ mask 0 0 0 1
    ∷ mask 0 0 0 0x0C
    ∷ mask 3 3 3 1
    ∷ mask 1 2 1 0
    ∷ mask 1 2 1 1
    ∷ no_mask
    ∷ mask 3 15 3 0
    ∷ no_mask
    ∷ mask 3 15 3 5
    ∷ mask 1 15 1 0
    ∷ mask 1 15 3 1
    ∷ mask 1 15 15 1
    ∷ mask 1 15 1 1
    ∷ []

unfoldable pub mask_info : ℕ → MaskInfo
mask_info i = get_or mask_table i no_mask

pub data AluOp : Type 0 where
  alu_add alu_shl alu_sub alu_shr : AluOp

-- `op >= ALU_SUB`
abbrev pub negates : AluOp → Bool
negates alu_add = false
negates alu_shl = false
negates alu_sub = true
negates alu_shr = true

-- `op & 0x1`
abbrev pub shifts : AluOp → Bool
shifts alu_add = false
shifts alu_shl = true
shifts alu_sub = false
shifts alu_shr = true

-- A source pointer: null, one of the registers, or a buffer that is none of them.
pub data Source : Type 0 where
  null : Source
  reg : Reg → Source
  buffer : Nibbles → Source

-- The destination: null, or a register.
pub data Dest : Type 0 where
  nowhere : Dest
  into : Reg → Dest

-- What `alu()` reads and writes: the registers, `Sout`, `R5`, COND, and its locals.
pub record AluState : Type 0 where
  pub regs : Regs
  pub sout : Nibbles
  pub r5 : ℕ
  pub cond : Bool
  pub carry : ℕ
  pub shl : ℕ

-- A null operand adds nothing.
abbrev pub read : Regs → Source → Nibbles
read rs null i = 0
read rs (reg r) i = rs r i
read rs (buffer f) i = f i

-- `sum` after the constant is joined in: `srcY[i]`, with `cval` OR-ed at `cpos`.
abbrev pub operand : MaskInfo → Nibbles → Nibbles
operand m y i = if i == m.cpos then bit_or (y i) m.cval else y i

-- `sum` before the correction, in `uint8_t` arithmetic.
unfoldable pub raw_sum : AluOp → ℕ → ℕ → ℕ → ℕ
raw_sum op x y carry =
    let sum = u8 (y + carry) in u8 ((if negates op then u8 (256 - sum) else sum) + x)

-- Digit 0 wraps at 16, the others at 10.
unfoldable pub carry_out : ℕ → ℕ → ℕ
carry_out i sum = if i == 0 then if leb 16 sum then 1 else 0 else if leb 10 sum then 1 else 0

unfoldable pub corrected : AluOp → ℕ → ℕ → ℕ
corrected op i sum =
    if i == 0
    then if leb 16 sum then sum % 16 else sum
    else if leb 10 sum
    then if negates op then u8 (sum + 10) else sum - 10
    else sum

abbrev pub in_field : MaskInfo → ℕ → Bool
in_field m i = leb m.start i && leb i m.stop

-- The store into `dst` at digit `i`.
unfoldable pub write_digit : Dest → AluOp → MaskInfo → ℕ → ℕ → ℕ → ℕ → Regs → Regs
write_digit nowhere op m i sum shl shr rs = rs
write_digit (into r) alu_add m i sum shl shr rs = put rs r i sum
write_digit (into r) alu_sub m i sum shl shr rs = put rs r i sum
write_digit (into r) alu_shl m i sum shl shr rs = put rs r i shl
write_digit (into r) alu_shr m i sum shl shr rs =
    let moved = if ltb m.start i then put rs r (i - 1) shr else rs in
    if i == m.stop then put moved r i 0 else moved

-- `shl = sum` stands under `if (dst)`.
abbrev next_shl : Dest → ℕ → ℕ → ℕ
next_shl nowhere sum shl = shl
next_shl (into r) sum shl = sum

module _ (dst : Dest) (src_x src_y : Source) (m : MaskInfo) (op : AluOp) where
  -- One round of the loop.
  unfoldable pub alu_digit : ℕ → AluState → AluState
  unfolding raw_sum carry_out corrected write_digit
  alu_digit i s =
      let carry = if i == m.start then 0 else s.carry in
      let shl = if i == m.start then 0 else s.shl in
      let x = read s.regs src_x i in
      let y = operand m (read s.regs src_y) i in
      let raw = raw_sum op x y carry in
      let sum = corrected op i raw in
      let out = carry_out i raw in
      let inside = in_field m i in
      record {
        regs = if inside then write_digit dst op m i sum shl (bit_or y x) s.regs else s.regs;
        sout = upd s.sout i (if inside then raw % 16 else 0);
        r5 = if inside && i == m.cpos then sum else s.r5;
        cond = if inside && i == m.stop && not (shifts op) && out == 1 then false else s.cond;
        carry = out;
        shl = if inside then next_shl dst sum shl else shl;
      }

  -- `n` rounds from digit `i` on.
  unfoldable pub alu_loop : ℕ → ℕ → AluState → AluState
  alu_loop zero i s = s
  alu_loop (suc n) i s = alu_loop n (suc i) (alu_digit i s)

  unfoldable pub alu : AluState → AluState
  alu s = alu_loop 16 0 (record s { carry = 0; shl = 0 })

-- The loop of `xch()`, `n` digits from `i` on. Each swap reads both before it writes.
unfoldable pub xch_loop : Reg → Reg → ℕ → ℕ → Regs → Regs
xch_loop a b zero i rs = rs
xch_loop a b (suc n) i rs = xch_loop a b n (suc i) (put (put rs a i (rs b i)) b i (rs a i))

unfoldable pub xch : Reg → Reg → MaskInfo → Regs → Regs
unfolding xch_loop
xch a b m rs = if m.start == 0xFF then rs else xch_loop a b (m.stop + 1 - m.start) m.start rs
