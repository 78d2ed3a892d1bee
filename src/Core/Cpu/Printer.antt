-- ===== src/Core/Cpu/Printer.antt =====
-- The PC-100 printer: the OUT PRT and PRT opcodes, BUSY, and the code line in progress.
pub mod Laws
pub mod Timing
use Prim.Native.Char.{code}
use Prim.Native.String.{String}
use calc_u.Base.{
  ℕ, zero, suc, ◌+◌, ◌-◌, ◌*◌, ◌/◌, ◌%◌, Bool, true, false, ◌&&◌, if◌then◌else◌, ◌==◌, ltb, leb,
  upd, min, List, [], ◌∷◌, ◌++◌, Option, none, some, get_or, u32,
}
use calc_u.Core.Cpu.State.{CodeLine, blank_line, Printer}

abbrev pub line_cycles : ℕ
line_cycles = 4165

abbrev pub feed_cycles : ℕ
feed_cycles = 1370

abbrev pub row_cycles : ℕ
row_cycles = 508

abbrev pub row_start_cycles : ℕ
row_start_cycles = 18

abbrev pub column_cycles : ℕ
column_cycles = 64

-- The code points of a text.
abbrev pub text : String → List ℕ
text String.[] = []
text (String.◌∷◌ c s) = code c ∷ text s

abbrev prn_table : List String
prn_table =
    " " ∷ "0" ∷ "1" ∷ "2" ∷ "3" ∷ "4" ∷ "5" ∷ "6" ∷ "7" ∷ "8" ∷ "9" ∷ "A" ∷ "B" ∷ "C" ∷ "D" ∷ "E"
    ∷ "-" ∷ "F" ∷ "G" ∷ "H" ∷ "I" ∷ "J" ∷ "K" ∷ "L" ∷ "M" ∷ "N" ∷ "O" ∷ "P" ∷ "Q" ∷ "R" ∷ "S" ∷ "T"
    ∷ "." ∷ "U" ∷ "V" ∷ "W" ∷ "X" ∷ "Y" ∷ "Z" ∷ "+" ∷ "x" ∷ "*" ∷ "√" ∷ "π" ∷ "e" ∷ "(" ∷ ")" ∷ ","
    ∷ "↑" ∷ "%" ∷ "⇄" ∷ "/" ∷ "=" ∷ "'" ∷ "ˣ" ∷ "x̄" ∷ "²" ∷ "?" ∷ "÷" ∷ "!" ∷ "Ⅱ" ∷ "▴" ∷ "∏" ∷ "∑"
    ∷ []

unfoldable pub prn_code : ℕ → List ℕ
prn_code i = text (get_or prn_table i " ")

-- The entry is that one character and no more.
is_char : ℕ → List ℕ → Bool
is_char c [] = false
is_char c (x ∷ []) = x == c
is_char c (x ∷ y ∷ r) = false

index_of_char : ℕ → List String → ℕ → ℕ
index_of_char c [] i = 0
index_of_char c (s ∷ r) i = elim (is_char c (text s)) [
  | true ↦ i
  | false ↦ index_of_char c r (i + 1)
]

unfoldable pub prn_char_to_code : ℕ → ℕ
unfolding is_char index_of_char
prn_char_to_code c = index_of_char c prn_table 0

-- The function codes with their mnemonics; the sentinel is the end of the list.
abbrev prn_str : List (ℕ × String)
prn_str =
    (0x00, "   ")
    ∷ (0x11, " = ")
    ∷ (0x12, " - ")
    ∷ (0x13, " + ")
    ∷ (0x16, " / ")
    ∷ (0x17, " x ")
    ∷ (0x1A, "xsY")
    ∷ (0x1B, "Y^x")
    ∷ (0x21, "CLR")
    ∷ (0x22, "INV")
    ∷ (0x23, "DPT")
    ∷ (0x26, "CE ")
    ∷ (0x27, "+/-")
    ∷ (0x2D, "EE ")
    ∷ (0x31, "e^x")
    ∷ (0x33, "x^2")
    ∷ (0x36, "1/x")
    ∷ (0x3C, "sX ")
    ∷ (0x3D, "X_Y")
    ∷ (0x51, "LNX")
    ∷ (0x53, "PRM")
    ∷ (0x54, " % ")
    ∷ (0x56, "COS")
    ∷ (0x57, "SIN")
    ∷ (0x5D, "TAN")
    ∷ (0x61, "SUM")
    ∷ (0x66, "STO")
    ∷ (0x67, "pi ")
    ∷ (0x68, "RCL")
    ∷ (0x69, "S+ ")
    ∷ (0x70, "ERR")
    ∷ (0x71, " { ")
    ∷ (0x72, " ) ")
    ∷ (0x73, "LRN")
    ∷ (0x74, "RUN")
    ∷ (0x76, "HLT")
    ∷ (0x78, "STP")
    ∷ (0x7A, "GTO")
    ∷ (0x7C, "IF ")
    ∷ []

find_mnemonic : ℕ → List (ℕ × String) → Option (List ℕ)
find_mnemonic c [] = none
find_mnemonic c ((k, s) ∷ r) = if c == k then some (text s) else find_mnemonic c r

-- One slot of the buffer; `m_prnPtr` stays at 20 until the next write wraps it.
unfoldable pub put_slot : List ℕ → ℕ → Printer → Printer
put_slot t c p =
    let slot = p.ptr % 20 in
    record p { buf = upd p.buf slot t; code_buf = upd p.code_buf slot c; ptr = slot + 1 }

unfoldable pub out_prt : ℕ → Printer → Printer
unfolding prn_code put_slot
out_prt kr p = let c = kr / 16 % 64 in if p.ready then put_slot (prn_code c) c p else p

-- The characters last to first.
put_reversed : List ℕ → Printer → Printer
put_reversed [] p = p
put_reversed (c ∷ r) p = put_slot (c ∷ []) (prn_char_to_code c) (put_reversed r p)

unfoldable pub out_prt_func : ℕ → Printer → Printer
unfolding find_mnemonic put_reversed put_slot prn_char_to_code
out_prt_func kr p =
    if p.ready
    then elim (find_mnemonic (kr / 16 % 128) prn_str) [ none ↦ p | some s ↦ put_reversed s p ]
    else p

unfoldable pub prt_clear : Printer → Printer
prt_clear p = record p { buf = λ i. text " "; code_buf = λ i. 0; ptr = 0; ready = true }

unfoldable pub prt_step : Printer → Printer
unfolding put_slot
prt_step p = if p.ready then put_slot (text " ") 0 p else p

-- The dot columns of the row in progress that have started, and the heat of the last.
unfoldable pub cut_columns : ℕ → ℕ
cut_columns elapsed =
    let into = elapsed % row_cycles in
    if ltb (elapsed / row_cycles) 7 && leb row_start_cycles into
    then min 5 ((into - row_start_cycles) / column_cycles + 1)
    else 0

unfoldable pub cut_heat : ℕ → ℕ
unfolding cut_columns
cut_heat elapsed =
    let into = elapsed % row_cycles in
    if ltb (elapsed / row_cycles) 7 && leb row_start_cycles into
    then into - row_start_cycles - (cut_columns elapsed - 1) * column_cycles
    else 0

unfoldable pub cut_line : ℕ → CodeLine → CodeLine
unfolding cut_columns cut_heat
cut_line elapsed l = record l {
  row_count = min 7 (elapsed / row_cycles);
  partial_columns = cut_columns elapsed;
  partial_heat = min 255 (cut_heat elapsed);
}

unfoldable pub flush_pending_code_line : ℕ → Printer → Printer
unfolding cut_line
flush_pending_code_line elapsed p =
    if p.has_pending
    then (record p {
      pending = cut_line elapsed p.pending;
      code_lines = p.code_lines ++ cut_line elapsed p.pending ∷ [];
      has_pending = false;
    })
    else p

-- `kPrinterLineCycles - m_prnBusyCycles` in `uint32_t`.
unfoldable pub flush_pending_if_active : Printer → Printer
unfolding flush_pending_code_line
flush_pending_if_active p =
    if p.has_pending
    then flush_pending_code_line (u32 (line_cycles + 4294967296 - p.busy_cycles)) p
    else p

-- The slots from `n - 1` down to 0.
unfoldable pub line_text : (ℕ → List ℕ) → ℕ → List ℕ
line_text buf zero = []
line_text buf (suc n) = buf n ++ line_text buf n

-- PRT.GO. The Boolean is whether BUSY is set.
unfoldable pub prt_print : Printer → Printer × Bool
unfolding flush_pending_if_active line_text
prt_print p =
    if p.ready
    then (if ltb 0 p.busy_cycles && p.has_pending then (flush_pending_if_active p, false) else (
      record p {
        pending = record (p.pending) {
          codes = λ i. if ltb i 20 then p.code_buf (19 - i) else p.pending.codes i;
        };
        has_pending = true;
        lines = p.lines ++ line_text p.buf 20 ∷ [];
        busy_cycles = line_cycles;
      },
      true,
    ))
    else (p, false)

-- PRT.FEED always sets BUSY.
unfoldable pub prt_feed : Printer → Printer
unfolding flush_pending_if_active
prt_feed p =
    let q = flush_pending_if_active p in
    record q {
      lines = q.lines ++ [] ∷ [];
      code_lines = q.code_lines ++ blank_line ∷ [];
      busy_cycles = feed_cycles;
    }

-- The countdown at the top of `step()`. The Boolean is whether BUSY drops.
unfoldable pub busy_tick : Printer → Printer × Bool
unfolding flush_pending_code_line
busy_tick p =
    if ltb 0 p.busy_cycles
    then (let q = record p { busy_cycles = p.busy_cycles - 1 } in
        if q.busy_cycles == 0 then (flush_pending_code_line line_cycles q, true) else (q, false))
    else (p, false)

unfoldable pub drain_lines : Printer → List (List ℕ) × Printer
drain_lines p = (p.lines, record p { lines = [] })

unfoldable pub drain_code_lines : Printer → List CodeLine × Printer
drain_code_lines p = (p.code_lines, record p { code_lines = [] })

-- The buffer as it would be printed.
unfoldable pub printer_buffer_content : Printer → List ℕ
unfolding line_text
printer_buffer_content p = line_text p.buf 20
