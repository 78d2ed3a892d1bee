-- ===== src/Core/Cpu/Step/Waiting.antt =====
-- WAIT Dn: the instruction is held until the digit counter reaches n, and no longer.
use calc_u.Base.{
  ℕ, zero, suc, ◌+◌, ◌-◌, ◌*◌, ◌/◌, ◌%◌, ◌<◌, ◌≡◌, refl, ap, ◌∙◌, false, not, if◌then◌else◌, ◌==◌,
  arith, any_bit, u16,
}
use calc_u.Core.Cpu.State.{Cpu}
use calc_u.Core.Rom.{read}
use calc_u.Core.Cpu.Control.{arg, exec_wait, exec_control}
use calc_u.Core.Cpu.Multiplex.{post_operation}
use calc_u.Core.Cpu.Step.{
  prologue, execute, next_address, account, latch_preg, note_step_boundary, step, steps,
}
use calc_u.Core.Cpu.Step.Laws.{prologue_lem, plain_step-cpu, step-if, finish_lem, finish-kr}

-- A WAIT opcode: 0x0An0.
abbrev pub IsWait : ℕ → Type 0
IsWait w = (any_bit w 0x1000 ≡ false) × (w / 256 % 16 ≡ 10) × (w % 16 ≡ 0)

-- The processor stands at the WAIT opcode `w`, and no redirect is pending or about to be latched.
abbrev pub StandsAt : ℕ → Cpu → Type 0
StandsAt w c = (c.digit < 16) × (read c.rom c.addr ≡ w) × (c.preg ≡ 0) × (any_bit c.kr 0x2 ≡ false)

execute-wait : (w : ℕ) (c : Cpu) → IsWait w → execute w c ≡ exec_wait w c
unfolding execute exec_control
execute-wait w c (_, class, sub) = rw (class, sub) refl

exec_wait_lem :
    (w : ℕ) (c : Cpu)
    → c.flags.hold ≡ false
    → let d = exec_wait w c in
      (d.digit ≡ c.digit)
      × (d.rom ≡ c.rom)
      × (d.addr ≡ c.addr)
      × (d.kr ≡ c.kr)
      × (d.preg ≡ c.preg)
      × (d.flags.hold ≡ not (c.digit == arg w))
unfolding exec_wait
exec_wait_lem w c h = (refl, refl, refl, refl, refl, rw h (ground arith))

abbrev down : ℕ → ℕ
down n = if n == 0 then 15 else n - 1

wait_step :
    (w : ℕ) (c : Cpu)
    → IsWait w
    → StandsAt w c
    → let e = (step c).cpu in
      (e.digit ≡ down c.digit)
      × (e.rom ≡ c.rom)
      × (e.addr ≡ (if down c.digit == arg w then u16 (c.addr + 1) else c.addr))
      × (e.preg ≡ 0)
      × (e.kr ≡ c.kr)
wait_step w c wait (lt, at, none, quiet) =
    let d = prologue c in
    let (dig, a, r, o, k, p, hold, _) = prologue_lem c in
    let op : d.pending_opcode ≡ w = o ∙ at in
    let x = exec_wait w d in
    let (d1, r1, a1, k1, p1, h1) = exec_wait_lem w d hold in
    let (d2, r2, f2, a2) = finish_lem x in
    let (k2, p2) = finish-kr x (ap (λ n. any_bit n 0x2) (k1 ∙ k) ∙ quiet) in
    let plain : any_bit d.pending_opcode 0x1000 ≡ false = ap (λ n. any_bit n 0x1000) op ∙ wait.0 in
    let whole : (step c).cpu
        ≡ (note_step_boundary (latch_preg (account (next_address (post_operation x))))).0 =
      ap (λ s. s.cpu) (step-if c false plain)
      ∙ plain_step-cpu d
      ∙ ap (λ y. (note_step_boundary (latch_preg (account (next_address (post_operation y))))).0)
          (ap (λ n. execute n d) op ∙ execute-wait w d wait) in
    rw whole (
      d2 ∙ d1 ∙ dig,
      r2 ∙ r1 ∙ r,
      a2 ∙ rw (h1, a1, p1, dig, a, p, none) (ground arith),
      p2 ∙ rw (p1, p, none) (ground arith),
      k2 ∙ k1 ∙ k,
    )

-- The processor at a WAIT whose digit comes up after `k` more digits.
wait_turns :
    (k w : ℕ) (c : Cpu)
    → IsWait w
    → StandsAt w c
    → k < 16
    → arg w ≡ (c.digit + 15 * suc k) % 16
    → ((steps k c).addr ≡ c.addr)
      × ((steps (suc k) c).addr ≡ u16 (c.addr + 1))
      × ((steps (suc k) c).digit ≡ arg w)
unfolding steps
wait_turns zero w c wait stands l e =
    let (dig, _, to, _, _) = wait_step w c wait stands in
    (refl, ground (arith, to, e, stands.0), ground (arith, dig, e, stands.0))
wait_turns (suc k) w c wait (lt, at, none, quiet) l e =
    let d = (step c).cpu in
    let (dig, r, to, p, kr) = wait_step w c wait (lt, at, none, quiet) in
    let held : d.addr ≡ c.addr = ground (arith, to, e, lt) in
    let stands : StandsAt w d =
      (ground (arith, dig, lt), rw (r, held) at, p, ap (λ n. any_bit n 0x2) kr ∙ quiet) in
    let (stay, go, last) =
      wait_turns k w d wait stands (omega arith) (ground (arith, dig, e, lt)) in
    (stay ∙ held, go ∙ ap (λ n. u16 (n + 1)) held, last)

-- A WAIT for digit n is left after at most sixteen steps: it holds the address while the counter
-- runs down to n, and in the step that counts to n the next address is taken.
pub steps-wait :
    (w : ℕ) (c : Cpu)
    → IsWait w
    → StandsAt w c
    → let k = (c.digit + 15 - arg w) % 16 in
      ((steps k c).addr ≡ c.addr)
      × ((steps (suc k) c).addr ≡ u16 (c.addr + 1))
      × ((steps (suc k) c).digit ≡ arg w)
steps-wait w c wait stands =
    let k = (c.digit + 15 - arg w) % 16 in
    wait_turns k w c wait stands (omega arith) (omega (arith, stands.0))
