-- ===== src/Core/Cpu/Printer/Timing.antt =====
-- How long a printed line takes, and what is on paper when it is stopped.
use calc_u.Base.{
  ℕ, zero, suc, ◌+◌, ◌-◌, ◌*◌, ◌≤◌, ◌<◌, ◌≡◌, refl, ap, ◌∙◌, length, length-append, true, false, [],
  ◌∷◌, ◌++◌, arith, if◌then◌else◌, ltb, u32, lt→ltb,
}
use calc_u.Core.Cpu.State.{CodeLine, Printer}
use calc_u.Core.Cpu.Printer.{
  line_cycles, cut_line, cut_columns, cut_heat, flush_pending_code_line, flush_pending_if_active,
  prt_print, busy_tick, line_text,
}

-- The dot columns on paper.
abbrev pub ink : CodeLine → ℕ
ink l = l.row_count * 5 + l.partial_columns

-- A line cut later shows no fewer dot columns, never more than seven rows of five, and the clamp
-- of its heat to a byte never acts.
pub cut_line-ink :
    (d e : ℕ) (l : CodeLine)
    → d ≤ e
    → (ink (cut_line d l) ≤ ink (cut_line e l))
      × (ink (cut_line e l) ≤ 35)
      × ((cut_line e l).partial_heat ≡ cut_heat e)
unfolding cut_line cut_columns cut_heat
cut_line-ink d e l h = (ground arith, ground arith, ground arith)

-- `n` cycles of the mechanism.
unfoldable pub ticks : ℕ → Printer → Printer
ticks zero p = p
ticks (suc n) p = (busy_tick (ticks n p)).0

abbrev with_cycles : Printer → ℕ → Printer
with_cycles p n = record p { busy_cycles = n }

tick_running :
    (p : Printer) → 1 < p.busy_cycles → (busy_tick p).0 ≡ with_cycles p (p.busy_cycles - 1)
unfolding busy_tick
tick_running p h = ground arith

ticks_running :
    (n : ℕ) (p : Printer) → n < p.busy_cycles → ticks n p ≡ with_cycles p (p.busy_cycles - n)
unfolding ticks
ticks_running zero p h =
    let e : p.busy_cycles ≡ p.busy_cycles - 0 = omega arith in ap (with_cycles p) e
ticks_running (suc n) p h =
    let e : p.busy_cycles - n - 1 ≡ p.busy_cycles - suc n = omega arith in
    ap (λ q. (busy_tick q).0) (ticks_running n p (omega arith))
    ∙ (tick_running (with_cycles p (p.busy_cycles - n)) (omega arith) ∙ ap (with_cycles p) e)

-- The line that PRT.GO takes from the buffer: the last slot first.
abbrev pub printed_codes : Printer → CodeLine
printed_codes p = record (p.pending) {
  codes = λ i. if ltb i 20 then p.code_buf (19 - i) else p.pending.codes i;
}

abbrev started : Printer → Printer
started p = record p {
  pending = printed_codes p;
  has_pending = true;
  lines = p.lines ++ line_text p.buf 20 ∷ [];
  busy_cycles = line_cycles;
}

print-started :
    (p : Printer) → p.ready ≡ true → p.has_pending ≡ false → prt_print p ≡ (started p, true)
unfolding prt_print
print-started p r f = ground arith

ticks-started :
    (p : Printer) (n : ℕ)
    → p.ready ≡ true
    → p.has_pending ≡ false
    → n < line_cycles
    → ticks n (prt_print p).0 ≡ with_cycles (started p) (line_cycles - n)
ticks-started p n r f h =
    ap (λ x. ticks n (x.0)) (print-started p r f) ∙ ticks_running n (started p) h

abbrev full_line : CodeLine → CodeLine
full_line l = record l { row_count = 7; partial_columns = 0; partial_heat = 0 }

abbrev finished : Printer → Printer
finished p = record p {
  busy_cycles = 0;
  has_pending = false;
  pending = full_line p.pending;
  code_lines = p.code_lines ++ full_line p.pending ∷ [];
}

last_tick : (p : Printer) → p.has_pending ≡ true → (busy_tick (with_cycles p 1)).0 ≡ finished p
unfolding busy_tick flush_pending_code_line cut_line cut_columns cut_heat
last_tick p f = rw f refl

ticks-suc : (n : ℕ) (p : Printer) → ticks (suc n) p ≡ (busy_tick (ticks n p)).0
unfolding ticks
ticks-suc n p = refl

ticks-full :
    (p : Printer)
    → p.ready ≡ true
    → p.has_pending ≡ false
    → ticks line_cycles (prt_print p).0 ≡ finished (started p)
ticks-full p r f =
    ticks-suc 4164 (prt_print p).0
    ∙ ap (λ q. (busy_tick q).0) (ticks-started p 4164 r f (omega arith))
    ∙ last_tick (started p) refl

-- A ready printer with no line pending takes a line: after 4165 undisturbed cycles the mechanism
-- rests, one text line is queued, and the code line is queued with all seven rows.
pub ticks-print :
    (p : Printer)
    → p.ready ≡ true
    → p.has_pending ≡ false
    → let q = ticks line_cycles (prt_print p).0 in
      (q.busy_cycles ≡ 0)
      × (q.has_pending ≡ false)
      × (length q.lines ≡ length p.lines + 1)
      × (q.code_lines
          ≡ p.code_lines
            ++ record (printed_codes p) { row_count = 7; partial_columns = 0; partial_heat = 0 }
              ∷ [])
ticks-print p r f =
    rw (ticks-full p r f) (refl, refl, length-append p.lines (line_text p.buf 20 ∷ []), refl)

stop :
    (p : Printer) (left n : ℕ)
    → p.ready ≡ true
    → p.has_pending ≡ true
    → 0 < left
    → left + n ≡ line_cycles
    → let q = prt_print (with_cycles p left) in
      (q.1 ≡ false)
      × (q.0.has_pending ≡ false)
      × (q.0.lines ≡ p.lines)
      × (q.0.code_lines ≡ p.code_lines ++ cut_line n p.pending ∷ [])
unfolding prt_print flush_pending_if_active flush_pending_code_line
stop p left n r f l e =
    let elapsed : u32 (line_cycles + 4294967296 - left) ≡ n = omega arith in
    rw (r, f, lt→ltb 0 left l, elapsed) (refl, refl, refl, refl)

-- PRT.GO again `n` cycles, fewer than 4165, into the line of a ready printer stops that line: the
-- queue gets the dots that those cycles put on paper, and no new line starts.
pub print-stop :
    (p : Printer) (n : ℕ)
    → p.ready ≡ true
    → p.has_pending ≡ false
    → n < line_cycles
    → let q = prt_print (ticks n (prt_print p).0) in
      (q.1 ≡ false)
      × (q.0.has_pending ≡ false)
      × (length q.0.lines ≡ length p.lines + 1)
      × (q.0.code_lines ≡ p.code_lines ++ cut_line n (printed_codes p) ∷ [])
print-stop p n r f h =
    let (quiet, none, lines, codes) =
      stop (started p) (line_cycles - n) n r refl (omega arith) (omega arith) in
    rw (ticks-started p n r f h)
      (quiet, none, ap length lines ∙ length-append p.lines (line_text p.buf 20 ∷ []), codes)
