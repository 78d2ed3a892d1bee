-- ===== src/Core/Cpu/Step/Laws.antt =====
-- What one step does to the digit counter, the address and the flags, whatever the opcode.
use calc_u.Base.{
  ℕ, zero, suc, ◌+◌, ◌-◌, ◌*◌, ◌/◌, ◌%◌, ◌≤◌, ◌<◌, ◌≡◌, refl, ap, ◌∙◌, Bool, true, false, not,
  if◌then◌else◌, ◌==◌, arith, bit, any_bit, any_bit-xor, any_bit-pow, u16,
}
use calc_u.Core.Cpu.State.{Cpu, Flags, flag_word, weigh}
use calc_u.Core.Cpu.Kept.{execute-Kept}
use calc_u.Core.Cpu.Multiplex.{post_operation}
use calc_u.Core.Cpu.Tracing.{begin_next_step}
use calc_u.Core.Rom.{read}
use calc_u.Core.Cpu.Step.{
  tick_printer, advance_windows, prologue, execute, branch_taken, branch_target, exec_branch,
  next_address, count_ticks, trace_weight, latch_preg, note_step_boundary, account, step, steps,
  branch_step, plain_step,
}

weigh-le : (b : Bool) (w : ℕ) → weigh b w ≤ w
weigh-le true w = omega arith
weigh-le false w = omega arith

weigh-unit : (b : Bool) (w : ℕ) → weigh b w ≡ weigh b 1 * w
weigh-unit true w = omega arith
weigh-unit false w = omega arith

bit-eleven : (x : ℕ) → bit x 11 ≡ x / 2048 % 2
bit-eleven x = omega arith

-- Bit 11 of the flag word is COND.
flag_word-cond : (f : Flags) → bit (flag_word f) 11 ≡ weigh f.cond 1
unfolding flag_word
flag_word-cond f =
    bit-eleven (flag_word f)
    ∙ omega (
      arith,
      weigh-le f.idle 0x0001,
      weigh-le f.hold 0x0002,
      weigh-le f.jump 0x0004,
      weigh-le f.recall 0x0010,
      weigh-le f.store 0x0020,
      weigh-le f.ram_op 0x0040,
      weigh-le f.ram_read 0x0080,
      weigh-le f.ram_write 0x0100,
      weigh-le f.ext_valid 0x0200,
      weigh-le f.io_valid 0x0400,
      weigh-le f.cond 1,
      weigh-unit f.cond 0x0800,
      weigh-unit f.busy 0x8000,
    )

branch_taken_lem :
    (opcode : ℕ) (c : Cpu) → branch_taken opcode c ≡ (weigh c.flags.cond 1 == bit opcode 11)
unfolding branch_taken
branch_taken_lem opcode c =
    rw (any_bit-xor (flag_word c.flags) opcode 11, flag_word-cond c.flags) (ground arith)

-- A branch is taken exactly when COND is bit 11 of its opcode; it goes forth or back by the ten
-- bits of its offset, and falls through to the next address otherwise.
pub exec_branch_lem :
    (opcode : ℕ) (c : Cpu)
    → let offset = opcode / 2 % 1024 in
      (exec_branch opcode c).addr ≡ (
        if not (weigh c.flags.cond 1 == bit opcode 11)
        then u16 (c.addr + 1)
        else if opcode % 2 == 1
        then u16 (c.addr + 65536 - offset)
        else u16 (c.addr + offset))
unfolding exec_branch branch_target
exec_branch_lem opcode c =
    let d = record c { flags = record (c.flags) { jump = true } } in
    rw (branch_taken_lem opcode d, any_bit-pow opcode 0) (ground arith)

-- What the end of a step leaves alone.
abbrev pub SameCore : Cpu → Cpu → Type 0
SameCore c d =
    (d.digit ≡ c.digit)
    × (d.addr ≡ c.addr)
    × (d.rom ≡ c.rom)
    × (d.flags ≡ c.flags)
    × (d.variant ≡ c.variant)

note-SameCore :
    (c : Cpu) → let d = (note_step_boundary c).0 in SameCore c d × (d.kr ≡ c.kr) × (d.preg ≡ c.preg)
unfolding note_step_boundary
note-SameCore c = ground arith

latch-SameCore : (c : Cpu) → SameCore c (latch_preg c)
unfolding latch_preg
latch-SameCore c = ground arith

-- The state after the part that all instructions share, and before the decoding.
pub prologue_lem :
    (c : Cpu)
    → let d = prologue c in
      (d.digit ≡ (if c.digit == 0 then 15 else c.digit - 1))
      × (d.addr ≡ c.addr)
      × (d.rom ≡ c.rom)
      × (d.pending_opcode ≡ read c.rom c.addr)
      × (d.kr ≡ c.kr)
      × (d.preg ≡ c.preg)
      × (d.flags.hold ≡ false)
      × (d.variant ≡ c.variant)
unfolding prologue tick_printer begin_next_step advance_windows
prologue_lem c = (refl, refl, refl, refl, refl, refl, refl, refl)

pub plain_step-cpu :
    (d : Cpu)
    → (plain_step d).cpu
      ≡ (note_step_boundary
          (latch_preg (account (next_address (post_operation (execute d.pending_opcode d)))))).0
unfolding plain_step
plain_step-cpu d = refl

branch_step-cpu :
    (b : Bool) (d : Cpu)
    → (branch_step b d).cpu
      ≡ (note_step_boundary (account (post_operation (exec_branch d.pending_opcode d)))).0
unfolding branch_step
branch_step-cpu b d = refl

pub step-if :
    (c : Cpu) (b : Bool)
    → any_bit (prologue c).pending_opcode 0x1000 ≡ b
    → step c ≡ (if b then branch_step c.last_poll (prologue c) else plain_step (prologue c))
unfolding step
step-if c b h =
    ap (λ t. if t then branch_step c.last_poll (prologue c) else plain_step (prologue c)) h

next_address_lem :
    (c : Cpu)
    → let d = next_address c in
      (d.digit ≡ c.digit)
      × (d.rom ≡ c.rom)
      × (d.flags ≡ c.flags)
      × (d.kr ≡ c.kr)
      × (d.addr
          ≡ (if c.flags.hold then c.addr else if c.preg == 0 then u16 (c.addr + 1) else c.preg))
      × (d.preg ≡ (if c.flags.hold then c.preg else 0))
unfolding next_address
next_address_lem c = ground arith

tail-SameCore :
    (c : Cpu) → SameCore c (account c) × ((account c).kr ≡ c.kr) × ((account c).preg ≡ c.preg)
unfolding account count_ticks trace_weight
tail-SameCore c = ((refl, refl, refl, refl, refl), refl, refl)

post-SameCore :
    (c : Cpu)
    → SameCore c (post_operation c)
      × ((post_operation c).kr ≡ c.kr)
      × ((post_operation c).preg ≡ c.preg)
unfolding post_operation
post-SameCore c = ((refl, refl, refl, refl, refl), refl, refl)

-- The end of a step: the address follows HOLD, then the pending redirect, then the count.
pub finish_lem :
    (x : Cpu)
    → let e = (note_step_boundary (latch_preg (account (next_address (post_operation x))))).0 in
      (e.digit ≡ x.digit)
      × (e.rom ≡ x.rom)
      × (e.flags ≡ x.flags)
      × (e.addr
          ≡ (if x.flags.hold then x.addr else if x.preg == 0 then u16 (x.addr + 1) else x.preg))
finish_lem x =
    let p = post_operation x in
    let n = next_address p in
    let ((d1, a1, r1, f1, _), _, p1) = post-SameCore x in
    let (d2, r2, f2, _, a2, _) = next_address_lem p in
    let ((d3, a3, r3, f3, _), _, _) = tail-SameCore n in
    let (d4, a4, r4, f4, _) = latch-SameCore (account n) in
    let ((d5, a5, r5, f5, _), _, _) = note-SameCore (latch_preg (account n)) in
    (
      d5 ∙ d4 ∙ d3 ∙ d2 ∙ d1,
      r5 ∙ r4 ∙ r3 ∙ r2 ∙ r1,
      f5 ∙ f4 ∙ f3 ∙ f2 ∙ f1,
      a5 ∙ a4 ∙ a3 ∙ a2 ∙ rw (f1, a1, p1) refl,
    )

finish_branch_lem :
    (x : Cpu)
    → let e = (note_step_boundary (account (post_operation x))).0 in
      (e.digit ≡ x.digit) × (e.addr ≡ x.addr)
finish_branch_lem x =
    let p = post_operation x in
    let ((d1, a1, _, _, _), _, _) = post-SameCore x in
    let ((d3, a3, _, _, _), _, _) = tail-SameCore p in
    let ((d5, a5, _, _, _), _, _) = note-SameCore (account p) in (d5 ∙ d3 ∙ d1, a5 ∙ a3 ∙ a1)

branch-digit : (opcode : ℕ) (c : Cpu) → (exec_branch opcode c).digit ≡ c.digit
unfolding exec_branch
branch-digit opcode c = refl

-- A branch instruction goes where COND sends it: COND is bit 11 of the opcode, or the step falls
-- through.
pub step-branch :
    (c : Cpu)
    → any_bit (read c.rom c.addr) 0x1000 ≡ true
    → let opcode = read c.rom c.addr in
      let offset = opcode / 2 % 1024 in
      (step c).cpu.addr ≡ (
        if not (weigh (prologue c).flags.cond 1 == bit opcode 11)
        then u16 (c.addr + 1)
        else if opcode % 2 == 1
        then u16 (c.addr + 65536 - offset)
        else u16 (c.addr + offset))
step-branch c h =
    let (_, a, _, o, _, _, _, _) = prologue_lem c in
    let d = prologue c in
    let taken : any_bit d.pending_opcode 0x1000 ≡ true = ap (λ w. any_bit w 0x1000) o ∙ h in
    ap (λ r. r.cpu.addr) (step-if c true taken)
    ∙ ap (λ e. e.addr) (branch_step-cpu c.last_poll d)
    ∙ (finish_branch_lem (exec_branch d.pending_opcode d)).1
    ∙ exec_branch_lem d.pending_opcode d
    ∙ rw (o, a) refl

-- Any other instruction stays at its address while HOLD is set after it; else it goes to the
-- redirect that PREG holds, if any, or to the next address.
pub step-plain :
    (c : Cpu)
    → any_bit (read c.rom c.addr) 0x1000 ≡ false
    → let x = execute (read c.rom c.addr) (prologue c) in
      (step c).cpu.addr
      ≡ (if x.flags.hold then c.addr else if x.preg == 0 then u16 (c.addr + 1) else x.preg)
step-plain c h =
    let (_, a, _, o, _, _, _, _) = prologue_lem c in
    let d = prologue c in
    let plain : any_bit d.pending_opcode 0x1000 ≡ false = ap (λ w. any_bit w 0x1000) o ∙ h in
    let (_, _, _, to) = finish_lem (execute d.pending_opcode d) in
    let (_, same, _, _) = execute-Kept d.pending_opcode d in
    ap (λ r. r.cpu.addr) (step-if c false plain)
    ∙ ap (λ e. e.addr) (plain_step-cpu d)
    ∙ to
    ∙ rw (same, o, a) refl

step-digit_lem :
    (c : Cpu) (b : Bool)
    → any_bit (prologue c).pending_opcode 0x1000 ≡ b
    → (step c).cpu.digit ≡ (prologue c).digit
step-digit_lem c true h =
    let d = prologue c in
    ap (λ r. r.cpu.digit) (step-if c true h)
    ∙ ap (λ e. e.digit) (branch_step-cpu c.last_poll d)
    ∙ (finish_branch_lem (exec_branch d.pending_opcode d)).0
    ∙ branch-digit d.pending_opcode d
step-digit_lem c false h =
    let d = prologue c in
    ap (λ r. r.cpu.digit) (step-if c false h)
    ∙ ap (λ e. e.digit) (plain_step-cpu d)
    ∙ (finish_lem (execute d.pending_opcode d)).0
    ∙ (execute-Kept d.pending_opcode d).0

-- Whatever the opcode, a step counts the digit down, from 0 to 15.
pub step-digit : (c : Cpu) → (step c).cpu.digit ≡ (if c.digit == 0 then 15 else c.digit - 1)
step-digit c = step-digit_lem c _ refl ∙ (prologue_lem c).0

-- From a digit below 16, whatever the program, the digit after `n` steps is `n` below the start,
-- modulo 16.
pub steps-digit : (n : ℕ) (c : Cpu) → c.digit < 16 → (steps n c).digit ≡ (c.digit + 15 * n) % 16
unfolding steps
steps-digit zero c h = omega arith
steps-digit (suc n) c h =
    let d = (step c).cpu in
    let e = step-digit c in
    let below : d.digit < 16 = ground (arith, e) in steps-digit n d below ∙ ground (arith, e)

latch-quiet :
    (c : Cpu)
    → any_bit c.kr 0x2 ≡ false
    → ((latch_preg c).kr ≡ c.kr) × ((latch_preg c).preg ≡ c.preg)
unfolding latch_preg
latch-quiet c h = rw h (refl, refl)

-- KR and PREG over the end of a step that latches no redirect.
pub finish-kr :
    (x : Cpu)
    → any_bit x.kr 0x2 ≡ false
    → let e = (note_step_boundary (latch_preg (account (next_address (post_operation x))))).0 in
      (e.kr ≡ x.kr) × (e.preg ≡ (if x.flags.hold then x.preg else 0))
finish-kr x h =
    let p = post_operation x in
    let n = next_address p in
    let ((_, _, _, f1, _), k1, p1) = post-SameCore x in
    let (_, _, _, k2, _, p2) = next_address_lem p in
    let (_, k3, p3) = tail-SameCore n in
    let quiet : any_bit (account n).kr 0x2 ≡ false = ap (λ w. any_bit w 0x2) (k3 ∙ k2 ∙ k1) ∙ h in
    let (k4, p4) = latch-quiet (account n) quiet in
    let (_, k5, p5) = note-SameCore (latch_preg (account n)) in
    (k5 ∙ k4 ∙ k3 ∙ k2 ∙ k1, p5 ∙ p4 ∙ p3 ∙ p2 ∙ rw (f1, p1) refl)
