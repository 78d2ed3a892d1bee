-- ===== src/Core/Cpu/Printer/Laws.antt =====
-- The printer's lines: each text line has its code line, and BUSY lasts as long as the line.
use calc_u.Base.{
  ℕ, ◌+◌, ◌-◌, ◌/◌, ◌%◌, ◌≤◌, ◌≡◌, refl, Bool, true, false, List, [], ◌∷◌, Option, none, some,
  length, length-append, arith, if◌then◌else◌, u32,
}
use calc_u.Core.Cpu.State.{blank_line, Printer}
use calc_u.Core.Cpu.Printer.{
  line_cycles, cut_line, flush_pending_code_line, flush_pending_if_active, put_slot, out_prt,
  out_prt_func, put_reversed, prt_clear, prt_step, find_mnemonic, prn_str, prt_print, prt_feed,
  busy_tick, line_text,
}

-- What the CPU does to the printer between two drains.
pub data PrinterOp : Type 0 where
  write_code : ℕ → PrinterOp
  write_function : ℕ → PrinterOp
  clear : PrinterOp
  skip : PrinterOp
  print : PrinterOp
  feed : PrinterOp
  tick : PrinterOp

unfoldable pub apply : PrinterOp → Printer → Printer
apply (write_code kr) p = out_prt kr p
apply (write_function kr) p = out_prt_func kr p
apply clear p = prt_clear p
apply skip p = prt_step p
apply print p = (prt_print p).0
apply feed p = prt_feed p
apply tick p = (busy_tick p).0

unfoldable pub apply_all : List PrinterOp → Printer → Printer
apply_all [] p = p
apply_all (o ∷ r) p = apply_all r (apply o p)

abbrev pub pending_count : Printer → ℕ
pending_count p = if p.has_pending then 1 else 0

-- The mechanism runs while a line is pending, and never longer than a line takes; the text lines
-- are the code lines and the one pending.
abbrev pub IsConsistent : Printer → Type 0
IsConsistent p =
    (p.busy_cycles ≤ line_cycles)
    × (pending_count p ≤ p.busy_cycles)
    × (length p.lines ≡ length p.code_lines + pending_count p)

-- What the invariant reads is left alone by the writes into the line buffer.
abbrev SameLines : Printer → Printer → Type 0
SameLines p q =
    (p.busy_cycles ≡ q.busy_cycles)
    × (p.has_pending ≡ q.has_pending)
    × (p.lines ≡ q.lines)
    × (p.code_lines ≡ q.code_lines)

same-IsConsistent : (p q : Printer) → SameLines p q → IsConsistent q → IsConsistent p
same-IsConsistent p q (b, h, l, k) i = rw (b, h, l, k) i

put_reversed-SameLines : (t : List ℕ) (p : Printer) → SameLines (put_reversed t p) p
unfolding put_reversed put_slot
put_reversed-SameLines [] p = (refl, refl, refl, refl)
put_reversed-SameLines (c ∷ r) p = put_reversed-SameLines r p

mnemonic-SameLines :
    (o : Option (List ℕ)) (p : Printer)
    → SameLines (elim o [ none ↦ p | some s ↦ put_reversed s p ]) p
mnemonic-SameLines none p = (refl, refl, refl, refl)
mnemonic-SameLines (some s) p = put_reversed-SameLines s p

ready-SameLines : (b : Bool) (p q : Printer) → SameLines q p → SameLines (if b then q else p) p
ready-SameLines true p q h = h
ready-SameLines false p q h = (refl, refl, refl, refl)

function-SameLines : (kr : ℕ) (p : Printer) → SameLines (out_prt_func kr p) p
unfolding out_prt_func
function-SameLines kr p =
    ready-SameLines p.ready p _ (mnemonic-SameLines (find_mnemonic (kr / 16 % 128) prn_str) p)

flush-IsConsistent :
    (e : ℕ) (p : Printer)
    → p.busy_cycles ≤ line_cycles
    → length p.lines ≡ length p.code_lines + pending_count p
    → let q = flush_pending_code_line e p in
      IsConsistent q × (q.has_pending ≡ false) × (q.busy_cycles ≡ p.busy_cycles)
unfolding flush_pending_code_line
flush-IsConsistent e p b l = ground (arith, length-append p.code_lines (cut_line e p.pending ∷ []))

flush_active-IsConsistent :
    (p : Printer)
    → IsConsistent p
    → let q = flush_pending_if_active p in
      IsConsistent q × (q.has_pending ≡ false) × (q.busy_cycles ≡ p.busy_cycles)
unfolding flush_pending_if_active flush_pending_code_line
flush_active-IsConsistent p (b, z, l) =
    let elapsed = u32 (line_cycles + 4294967296 - p.busy_cycles) in
    ground (arith, length-append p.code_lines (cut_line elapsed p.pending ∷ []))

print-IsConsistent : (p : Printer) → IsConsistent p → IsConsistent (prt_print p).0
unfolding prt_print
print-IsConsistent p i =
    let ((b, z, l), idle, same) = flush_active-IsConsistent p i in
    let ends = length-append p.lines (line_text p.buf 20 ∷ []) in ground (arith, i, b, z, l, ends)

feed-IsConsistent : (p : Printer) → IsConsistent p → IsConsistent (prt_feed p)
unfolding prt_feed
feed-IsConsistent p i =
    let q = flush_pending_if_active p in
    let (j, idle, same) = flush_active-IsConsistent p i in
    ground (
      arith,
      j,
      idle,
      length-append q.lines ([] ∷ []),
      length-append q.code_lines (blank_line ∷ []),
    )

tick-IsConsistent : (p : Printer) → IsConsistent p → IsConsistent (busy_tick p).0
unfolding busy_tick
tick-IsConsistent p (b, z, l) =
    let q = record p { busy_cycles = p.busy_cycles - 1 } in
    let (j, idle, same) = flush-IsConsistent line_cycles q (omega arith) l in ground (arith, j)

apply-IsConsistent : (o : PrinterOp) (p : Printer) → IsConsistent p → IsConsistent (apply o p)
unfolding apply out_prt out_prt_func put_slot prt_clear prt_step
apply-IsConsistent (write_code kr) p i = ground (arith, i)
apply-IsConsistent (write_function kr) p i =
    same-IsConsistent (out_prt_func kr p) p (function-SameLines kr p) i
apply-IsConsistent clear p i = i
apply-IsConsistent skip p i = ground (arith, i)
apply-IsConsistent print p i = print-IsConsistent p i
apply-IsConsistent feed p i = feed-IsConsistent p i
apply-IsConsistent tick p i = tick-IsConsistent p i

-- Every sequence of printer operations keeps the text lines and the code lines in step: there is
-- a code line for each text line but the pending one, and a pending line has cycles left.
pub apply_all-IsConsistent :
    (os : List PrinterOp) (p : Printer) → IsConsistent p → IsConsistent (apply_all os p)
unfolding apply_all
apply_all-IsConsistent [] p i = i
apply_all-IsConsistent (o ∷ r) p i = apply_all-IsConsistent r (apply o p) (apply-IsConsistent o p i)
