-- ===== src/Core/Machine/Memory/Laws.antt =====
-- What program steps and data registers read back.
use calc_u.Base.{
  ℕ, zero, suc, ◌+◌, ◌*◌, ◌/◌, ◌%◌, ◌≤◌, ◌<◌, ◌≡◌, refl, ap, ◌∙◌, true, false, ◌&&◌, some,
  if◌then◌else◌, ltb, leb, ◌==◌, ℤ, pos, negsuc, min, upd, arith, inl, inr, Bool-cases, ==_iff,
}
use calc_u.Core.Ram.{Ram, read, write}
use calc_u.Core.Cpu.State.{Cpu}
use calc_u.Core.Machine.Memory.{
  with_ram, total_steps, store_program_step, store_program, write_program, write_program_step,
  read_program_step, data_reg_count, data_reg_ram_index, set_partition_program_regs,
  partition_program_regs,
}

-- The keycode that two nibbles of the RAM hold.
abbrev pub code_at : Ram → ℕ → ℕ
code_at m addr =
    (m.cells (addr / 8) (addr % 8 * 2 + 1) * 10 + m.cells (addr / 8) (addr % 8 * 2)) % 256

abbrev stored : Ram → ℕ → ℕ → Ram
stored m addr k =
    let r = addr / 8 in
    let i = addr % 8 * 2 in
    let one = upd m.cells r (upd (m.cells r) i (k % 10 % 16)) in
    record m { cells = upd one r (upd (one r) (i + 1) (k / 10 % 16)) }

store_program_step_lem :
    (addr k : ℕ) (m : Ram)
    → addr < total_steps
    → store_program_step addr k m ≡ some (stored m addr k)
unfolding store_program_step write
store_program_step_lem addr k m h =
    let a : ltb (addr / 8) 120 ≡ true = ground arith in
    let b : ltb (addr % 8 * 2) 16 ≡ true = ground arith in
    let c : ltb (addr % 8 * 2 + 1) 16 ≡ true = ground arith in rw (a, b, c) refl

upd_cell :
    (f : ℕ → ℕ → ℕ) (r i v q j : ℕ)
    → upd f r (upd (f r) i v) q j ≡ (if q == r && j == i then v else f q j)
upd_cell f r i v q j = elim (Bool-cases (q == r)) [
  | inl e ↦ rw ((==_iff q r).0 e) (ground arith)
  | inr n ↦ rw n refl
]

stored_cell :
    (m : Ram) (addr k q j : ℕ)
    → (stored m addr k).cells q j ≡ (
        if q == addr / 8 && j == addr % 8 * 2 + 1
        then k / 10 % 16
        else if q == addr / 8 && j == addr % 8 * 2
        then k % 10 % 16
        else m.cells q j)
stored_cell m addr k q j =
    upd_cell (upd m.cells (addr / 8) (upd (m.cells (addr / 8)) (addr % 8 * 2) (k % 10 % 16)))
      (addr / 8) (addr % 8 * 2 + 1) (k / 10 % 16) q j
    ∙ rw (upd_cell m.cells (addr / 8) (addr % 8 * 2) (k % 10 % 16) q j) refl

code_at-stored :
    (addr k b : ℕ) (m : Ram)
    → k < 160
    → code_at (stored m addr k) b ≡ (if b == addr then k else code_at m b)
code_at-stored addr k b m h =
    rw (stored_cell m addr k (b / 8) (b % 8 * 2 + 1), stored_cell m addr k (b / 8) (b % 8 * 2))
      (elim (Bool-cases (b == addr)) [
        | inl e ↦ rw ((==_iff b addr).0 e) (ground arith)
        | inr n ↦ elim (Bool-cases (b / 8 == addr / 8)) [
          | inl p ↦
              let a : (b % 8 * 2 + 1 == addr % 8 * 2 + 1) ≡ false = ground (arith, n, p) in
              let c : (b % 8 * 2 == addr % 8 * 2) ≡ false = ground (arith, n, p) in
              let d : (b % 8 * 2 + 1 == addr % 8 * 2) ≡ false = ground arith in
              let e : (b % 8 * 2 == addr % 8 * 2 + 1) ≡ false = ground arith in
              rw (n, p, a, c, d, e) refl
          | inr q ↦ rw (n, q) refl
        ]
      ])

read_program_step_lem :
    (b : ℕ) (c : Cpu) → b < total_steps → read_program_step (pos b) c ≡ some (code_at c.ram b)
unfolding read_program_step read
read_program_step_lem b c h =
    let p : ltb (b / 8) 120 ≡ true = ground arith in
    let q : ltb (b % 8 * 2) 16 ≡ true = ground arith in
    let r : ltb (b % 8 * 2 + 1) 16 ≡ true = ground arith in
    let s : leb 960 b ≡ false = ground arith in rw (p, q, r, s) refl

-- A keycode below 160 that is written at a step is read back there, no other step changes, and
-- neither the write nor a read fails.
pub write_program_step-read :
    (a b k : ℕ) (c : Cpu)
    → a < total_steps
    → b < total_steps
    → k < 160
    → (d : Cpu) × (write_program_step (pos a) k c ≡ some d)
      × (read_program_step (pos b) d ≡ (if b == a then some k else read_program_step (pos b) c))
unfolding write_program_step
write_program_step-read a b k c h i j =
    let t : ltb a 960 ≡ true = ground arith in
    let d = with_ram c (stored c.ram a k) in
    (
      d,
      rw (t, store_program_step_lem a k c.ram h) refl,
      read_program_step_lem b d i
          ∙ ap (λ n. some n) (code_at-stored a k b c.ram j)
          ∙ rw (read_program_step_lem b c i) (ground arith),
    )

store_program_lem :
    (n addr : ℕ) (bytes : ℕ → ℕ) (m : Ram)
    → addr + n ≤ total_steps
    → ((i : ℕ) → bytes i < 160)
    → (m' : Ram) × (store_program n addr bytes m ≡ some m')
      × ((b : ℕ) → code_at m' b ≡ (if leb addr b && ltb b (addr + n) then bytes b else code_at m b))
unfolding store_program
store_program_lem zero addr bytes m h k = (m, refl, λ b. ground arith)
store_program_lem (suc n) addr bytes m h k =
    let (m', e, f) =
      store_program_lem n (addr + 1) bytes (stored m addr (bytes addr)) (omega arith) k in
    (
      m',
      rw (store_program_step_lem addr (bytes addr) m (omega arith)) e,
      λ b.
          f b
          ∙ rw (code_at-stored addr (bytes addr) b m (k addr)) (elim (Bool-cases (b == addr)) [
            | inl t ↦ rw ((==_iff b addr).0 t) (ground arith)
            | inr n ↦ ground (arith, n)
          ]),
    )

-- A program of keycodes below 160 is read back step by step; what does not fit is cut, the steps
-- behind it are left alone, and no write fails.
pub write_program-read :
    (bytes : ℕ → ℕ) (count b : ℕ) (c : Cpu)
    → ((i : ℕ) → bytes i < 160)
    → b < total_steps
    → (d : Cpu) × (write_program bytes (pos count) c ≡ some d)
      × (read_program_step (pos b) d
          ≡ (if ltb b count then some (bytes b) else read_program_step (pos b) c))
unfolding write_program
write_program-read bytes count b c k h =
    let n = min count total_steps in
    let (m, e, f) = store_program_lem n 0 bytes c.ram (omega arith) k in
    (
      with_ram c m,
      rw e refl,
      read_program_step_lem b (with_ram c m) h
          ∙ ap (λ n. some n) (f b)
          ∙ rw (read_program_step_lem b c h) (ground arith),
    )

index_lem :
    (r i : ℕ) (c : Cpu)
    → data_reg_ram_index (pos r) c ≡ some i
    → (r + i + 1 ≡ data_reg_count c) × (i < c.ram.max_regs)
unfolding data_reg_ram_index
index_lem r i c h = ground (arith, h)

-- The RAM register of a data register exists, and two data registers never share one.
pub data_reg_ram_index_unique :
    (r s : ℤ) (c : Cpu) (i : ℕ)
    → data_reg_ram_index r c ≡ some i
    → data_reg_ram_index s c ≡ some i
    → (i < c.ram.max_regs) × (r ≡ s)
unfolding data_reg_ram_index
data_reg_ram_index_unique (pos r) (pos s) c i h k =
    let (p, q) = index_lem r i c h in
    let (p', _) = index_lem s i c k in let same : r ≡ s = omega (arith, p, p') in (q, ap pos same)
data_reg_ram_index_unique (pos r) (negsuc s) c i h k = ground (arith, k)
data_reg_ram_index_unique (negsuc r) s c i h k = ground (arith, h)

-- The number of program registers that OP 17 sets is read back in tens, up to 150.
pub partition-set :
    (regs : ℕ) (c : Cpu)
    → regs < 160
    → partition_program_regs (set_partition_program_regs regs c) ≡ regs / 10 * 10
unfolding partition_program_regs set_partition_program_regs
partition-set regs c h = ground arith
