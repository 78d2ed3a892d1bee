-- ===== src/Shared/StateApplier/Program.antt =====
-- The program that a state file, or a reload, leaves in the machine.
use calc_u.Base.{
  ℕ, zero, suc, ◌+◌, ◌≤◌, ◌<◌, ◌≡◌, refl, ap, ◌∙◌, inl, inr, Bool, true, false, ◌&&◌, if◌then◌else◌,
  leb, ltb, ◌==◌, List, [], ◌∷◌, Option, none, some, ◌>>=◌, map_some, pos, upd, min, arith,
  Bool-cases,
}
use calc_u.Core.Ram.{write_reg}
use calc_u.Core.Cpu.Reset.{set_scom_nibble}
use calc_u.Core.Machine.{Machine, reset}
use calc_u.Core.Machine.Memory.{
  total_steps, write_program, read_program_step, write_ram_reg, set_partition_program_regs,
  with_ram,
}
use calc_u.Core.Machine.Memory.Laws.{write_program-read, write_program_step-read}
use calc_u.Shared.Model.{Model, ti59, ti58, ti58c, info, max_step}
use calc_u.Shared.StateFile.{LoadStateResult, ReloadStage}
use calc_u.Shared.CardFile.Laws.{AreKeycodes}
use calc_u.Shared.StateApplier.{
  on_cpu, program_size, program_image, write_steps, write_registers, set_partition,
  partition_to_set, clear_registers, extra_register_base, apply_state, reload_steps, repartition,
  apply_reload,
}
use calc_u.Shared.StateApplier.Startup.{booted, run_startup_lem}

-- The keycode that a list gives a step last, or what it was.
abbrev pub last_code {ℓ} : {A : Type ℓ} → (ℕ → A) → List (ℕ × ℕ) → ℕ → A → A
last_code f [] b old = old
last_code f ((addr, keycode) ∷ ss) b old = last_code f ss b (if b == addr then f keycode else old)

program_size_lem : (ss : List (ℕ × ℕ)) (top : ℕ) → program_size ss top (top + 1) ≡ top + 1
program_size_lem [] top = refl
program_size_lem ((addr, k) ∷ ss) top =
    let out : (leb (top + 1) addr && leb addr top) ≡ false = ground arith in
    rw out (program_size_lem ss top)

program_image_lem :
    (ss : List (ℕ × ℕ)) (size b : ℕ) (image : ℕ → ℕ)
    → b < size
    → program_image ss size image b ≡ last_code (λ k. k) ss b (image b)
program_image_lem [] size b image h = refl
program_image_lem ((addr, k) ∷ ss) size b image h =
    program_image_lem ss size b (if ltb addr size then upd image addr k else image) h
    ∙ ap (last_code (λ k. k) ss b) (one (ltb addr size) refl)
  where
    one :
        (t : Bool)
        → t ≡ ltb addr size
        → (if t then upd image addr k else image) b ≡ (if b == addr then k else image b)
    one true e = refl
    one false e = let other : (b == addr) ≡ false = ground (arith, e, h) in rw other refl

image-bound :
    (ss : List (ℕ × ℕ)) (size i : ℕ) (image : ℕ → ℕ)
    → AreKeycodes ss
    → ((i : ℕ) → image i < 160)
    → program_image ss size image i < 160
image-bound [] size i image h k = k i
image-bound ((addr, c) ∷ ss) size i image (l, h) k =
    image-bound ss size i (if ltb addr size then upd image addr c else image) h
      (λ j. ground (arith, k j, l))

write_ram_reg_lem :
    (reg : ℕ) (m : Machine)
    → reg < 120
    → (m' : Machine) × (on_cpu (write_ram_reg (pos reg) (λ i. 0)) m ≡ some m')
      × (m'.cpu.scom ≡ m.cpu.scom)
unfolding write_ram_reg write_reg
write_ram_reg_lem reg m h =
    let a : leb 120 reg ≡ false = ground (arith, h) in
    let b : ltb reg 120 ≡ true = ground (arith, h) in
    let old = m.cpu.ram.cells in
    let cleared = upd old reg (λ i. if ltb i 16 then 0 else old reg i) in
    let ram = record (m.cpu.ram) { cells = cleared } in
    (record m { cpu = with_ram m.cpu ram }, rw (a, b) refl, refl)

-- Clearing registers of the RAM always succeeds, and leaves the partition alone.
clear_registers_lem :
    (n reg : ℕ) (m : Machine)
    → reg + n ≤ 120
    → (m' : Machine) × (clear_registers n reg m ≡ some m') × (m'.cpu.scom ≡ m.cpu.scom)
unfolding clear_registers
clear_registers_lem zero reg m h = (m, refl, refl)
clear_registers_lem (suc n) reg m h =
    let (d, e, p) = write_ram_reg_lem reg m (omega (arith, h)) in
    let (m', f, q) = clear_registers_lem n (reg + 1) d (omega (arith, h)) in
    (m', ap (λ (o : Option Machine). o >>= clear_registers n (reg + 1)) e ∙ f, q ∙ p)

max_step-lt : (model : Model) → max_step (info model) < total_steps
unfolding info
max_step-lt ti59 = omega arith
max_step-lt ti58 = omega arith
max_step-lt ti58c = omega arith

-- The written program is the listed steps, and zeroes between them.
write_steps_lem :
    (ss : List (ℕ × ℕ)) (model : Model) (b : ℕ) (m : Machine)
    → AreKeycodes ss
    → b ≤ max_step (info model)
    → (m' : Machine) × (write_steps ss model (max_step (info model) + 1) m ≡ some m')
      × (read_program_step (pos b) m'.cpu ≡ some (last_code (λ k. k) ss b 0))
unfolding write_steps
write_steps_lem ss model b m h k =
    let top = max_step (info model) in
    let image = program_image ss (top + 1) (λ i. 0) in
    let size : min (program_size ss top (top + 1)) (top + 1) ≡ top + 1 =
      omega (arith, program_size_lem ss top) in
    let (d, e, f) =
      write_program-read image (top + 1) b m.cpu
        (λ i. image-bound ss (top + 1) i (λ j. 0) h (λ j. omega arith))
        (omega (arith, max_step-lt model, k)) in
    let fits : ltb b (top + 1) ≡ true = ground (arith, k) in
    (
      record m { cpu = d },
      ap (λ n. on_cpu (write_program (program_image ss n (λ i. 0)) (pos n)) m) size
          ∙ ap (map_some (λ c. record m { cpu = c })) e,
      f ∙ rw fits (ap some (program_image_lem ss (top + 1) b (λ i. 0) (omega (arith, k)))),
    )

-- A state file that lists no registers, with keycodes below 160, always loads, and then each step
-- of the model reads as its last listed keycode, or 0 if it is not listed.
pub apply_state-read :
    (r : LoadStateResult) (model : Model) (m : Machine) (b : ℕ)
    → r.registers ≡ []
    → AreKeycodes r.program_steps
    → b ≤ max_step (info model)
    → (m' : Machine) × (apply_state r model m ≡ some m')
      × (read_program_step (pos b) m'.cpu ≡ some (last_code (λ k. k) r.program_steps b 0))
unfolding apply_state write_registers
apply_state-read r model m b e h k =
    let i = info model in
    let m2 = set_partition (partition_to_set r i) (booted (reset m)) in
    let n = if i.has_constant_memory then extra_register_base else 120 in
    let (m3, p, _) = clear_registers_lem n 0 m2 (small i.has_constant_memory) in
    let (m4, q, f) = write_steps_lem r.program_steps model b m3 h k in
    (m4, rw (run_startup_lem (reset m), p, q, e) refl, f)
  where
    small : (b : Bool) → 0 + (if b then extra_register_base else 120) ≤ 120
    small true = omega arith
    small false = omega arith

reload_steps_lem :
    (ss : List (ℕ × ℕ)) (top b : ℕ) (m : Machine)
    → AreKeycodes ss
    → top < total_steps
    → b ≤ top
    → (m' : Machine) × (reload_steps ss top m ≡ some m')
      × (read_program_step (pos b) m'.cpu
          ≡ last_code (λ k. some k) ss b (read_program_step (pos b) m.cpu))
unfolding reload_steps
reload_steps_lem [] top b m h t k = (m, refl, refl)
reload_steps_lem ((addr, code) ∷ ss) top b m (l, h) t k = elim (Bool-cases (leb addr top)) [
  | inl y ↦
      let (d, e, f) =
        write_program_step-read addr b code m.cpu (ground (arith, y, t)) (omega (arith, k, t)) l in
      let (m', p, q) = reload_steps_lem ss top b (record m { cpu = d }) h t k in
      (m', rw (y, e) p, q ∙ ap (last_code (λ k. some k) ss b) f)
  | inr n ↦
      let (m', p, q) = reload_steps_lem ss top b m h t k in
      let other : (b == addr) ≡ false = ground (arith, n, k) in (m', rw n p, rw other q)
]

repartition-read :
    (o : Option ℕ) (m : Machine) (b : ℕ)
    → read_program_step (pos b) (repartition o m).cpu ≡ read_program_step (pos b) m.cpu
unfolding set_partition set_partition_program_regs set_scom_nibble read_program_step
repartition-read none m b = refl
repartition-read (some last) m b = refl

-- A reload that lists no registers, with keycodes below 160, always succeeds, whatever partition it
-- sets, and changes no step of the model but the listed ones, which read as listed last.
pub apply_reload-read :
    (stage : ReloadStage) (model : Model) (m : Machine) (b : ℕ)
    → stage.registers ≡ []
    → AreKeycodes stage.program_steps
    → b ≤ max_step (info model)
    → (m' : Machine) × (apply_reload stage model m ≡ some m')
      × (read_program_step (pos b) m'.cpu
          ≡ last_code (λ k. some k) stage.program_steps b (read_program_step (pos b) m.cpu))
unfolding apply_reload write_registers
apply_reload-read stage model m b e h k =
    let start = repartition stage.partition_max_step m in
    let (m', p, q) =
      reload_steps_lem stage.program_steps (max_step (info model)) b start h (max_step-lt model)
        k in
    (
      m',
      rw (p, e) refl,
      q
          ∙ ap (last_code (λ k. some k) stage.program_steps b)
              (repartition-read stage.partition_max_step m b),
    )
