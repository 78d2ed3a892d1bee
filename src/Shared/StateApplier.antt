-- ===== src/Shared/StateApplier.antt =====
-- Shared/StateApplier.cpp: a parsed state file is written into a machine; power-on and the resets.
-- `none` is a failed assertion of the RAM, or a startup that does not end on its fuel.
pub mod Startup
pub mod Program
pub mod Resets
mod Examples
use calc_u.Base.{
  ℕ, zero, suc, ◌+◌, ◌-◌, ◌*◌, ◌/◌, Bool, true, false, not, ◌&&◌, if◌then◌else◌, leb, ltb, ◌==◌,
  List, [], ◌∷◌, Option, none, some, length, get_or, upd, ◌>>=◌, map_some, ℤ, pos, min,
}
use calc_u.Core.Cpu.State.{Cpu}
use calc_u.Core.Machine.{Machine, reset}
use calc_u.Core.Machine.Running.{step_n}
use calc_u.Core.Machine.Memory.{
  write_program, write_program_step, write_data_register, write_ram_reg, set_partition_program_regs,
  serialise_ram, deserialise_ram,
}
use calc_u.Shared.Model.{Model, ModelInfo, info, max_step}
use calc_u.Shared.CardFile.{RegisterValue}
use calc_u.Shared.StateFile.{LoadStateResult, ReloadStage}

-- An operation on the processor's memory, on the machine.
abbrev pub on_cpu : (Cpu → Option Cpu) → Machine → Option Machine
on_cpu f m = map_some (λ c. record m { cpu = c }) (f m.cpu)

abbrev pub with_cpu : (Cpu → Cpu) → Machine → Machine
with_cpu f m = record m { cpu = f m.cpu }

abbrev pub startup_steps : ℕ
startup_steps = 300000

-- The loop until `limit` steps are done, on fuel; a breakpoint ends a round early.
unfoldable pub startup_loop : ℕ → ℕ → ℕ → Machine → Option Machine
unfolding step_n
startup_loop zero done limit m = if ltb done limit then none else some m
startup_loop (suc f) done limit m =
    let (n, m') = step_n (limit - done) true m in
    let rest = startup_loop f (done + n) limit m' in if ltb done limit then rest else some m

-- A round makes a step at least, so as many rounds as steps are enough.
unfoldable pub run_startup : Machine → Option Machine
unfolding startup_loop
run_startup m = startup_loop startup_steps 0 startup_steps m

abbrev pub extra_register_base : ℕ
extra_register_base = 60

-- At least up to the last listed step that exists.
abbrev pub program_size : List (ℕ × ℕ) → ℕ → ℕ → ℕ
program_size [] top steps = steps
program_size ((addr, keycode) ∷ ss) top steps =
    program_size ss top (if leb steps addr && leb addr top then addr + 1 else steps)

-- The listed steps that fit, over zeroes.
abbrev pub program_image : List (ℕ × ℕ) → ℕ → (ℕ → ℕ) → ℕ → ℕ
program_image [] size image = image
program_image ((addr, keycode) ∷ ss) size image =
    program_image ss size (if ltb addr size then upd image addr keycode else image)

unfoldable pub write_steps : List (ℕ × ℕ) → Model → ℕ → Machine → Option Machine
unfolding write_program info
write_steps ss model steps m =
    let top = max_step (info model) in
    let size = min (program_size ss top steps) (top + 1) in
    on_cpu (write_program (program_image ss size (λ i. 0)) (pos size)) m

-- Extra registers go straight to the raw RAM.
unfoldable pub write_register : RegisterValue → Machine → Option Machine
unfolding write_data_register write_ram_reg
write_register g m =
    on_cpu
      (if g.is_hidden
        then write_ram_reg (pos (extra_register_base + g.reg_num)) g.nibbles
        else write_data_register (pos g.reg_num) g.nibbles)
      m

unfoldable pub write_registers : List RegisterValue → Machine → Option Machine
unfolding write_register
write_registers [] m = some m
write_registers (g ∷ gs) m = write_register g m >>= write_registers gs

unfoldable pub set_partition : ℕ → Machine → Machine
unfolding set_partition_program_regs
set_partition last m = with_cpu (set_partition_program_regs ((last + 1) / 8)) m

-- The two numbers that the message names: the file's last step, and the model's.
unfoldable pub state_file_partition_error : LoadStateResult → Model → Option (ℕ × ℕ)
unfolding info
state_file_partition_error r model =
    let top = max_step (info model) in
    if r.partition_was_explicit && ltb top r.partition_max_step
    then some (r.partition_max_step, top)
    else none

-- `n` registers from `reg` on become zero.
unfoldable pub clear_registers : ℕ → ℕ → Machine → Option Machine
unfolding write_ram_reg
clear_registers zero reg m = some m
clear_registers (suc n) reg m =
    on_cpu (write_ram_reg (pos reg) (λ i. 0)) m >>= clear_registers n (reg + 1)

abbrev pub partition_to_set : LoadStateResult → ModelInfo → ℕ
partition_to_set r i =
    if not i.large_memory && not r.partition_was_explicit then 239 else r.partition_max_step

unfoldable pub apply_state : LoadStateResult → Model → Machine → Option Machine
unfolding run_startup set_partition clear_registers write_steps write_registers reset info
apply_state r model m = do
  let i = info model
  m1 ← run_startup (reset m)
  let m2 = set_partition (partition_to_set r i) m1
  m3 ← clear_registers (if i.has_constant_memory then extra_register_base else 120) 0 m2
  m4 ← write_steps r.program_steps model (max_step i + 1) m3
  write_registers r.registers m4

-- The listed steps that the model has, one by one.
unfoldable pub reload_steps : List (ℕ × ℕ) → ℕ → Machine → Option Machine
unfolding write_program_step
reload_steps [] top m = some m
reload_steps ((addr, keycode) ∷ ss) top m =
    (if leb addr top then on_cpu (write_program_step (pos addr) keycode) m else some m)
    >>= reload_steps ss top

abbrev pub repartition : Option ℕ → Machine → Machine
repartition none m = m
repartition (some last) m = set_partition last m

unfoldable pub apply_reload : ReloadStage → Model → Machine → Option Machine
unfolding set_partition reload_steps write_registers info
apply_reload stage model m =
    reload_steps stage.program_steps (max_step (info model))
      (repartition stage.partition_max_step m)
    >>= write_registers stage.registers

abbrev pub saved_size : ℕ
saved_size = 1920

-- Saved memory is restored if there is any, and enough of it.
unfoldable pub restore : Option (List ℕ) → Machine → Machine
unfolding deserialise_ram
restore none m = m
restore (some ram) m =
    if leb saved_size (length ram) then with_cpu (deserialise_ram (λ i. get_or ram i 0)) m else m

unfoldable pub power_on : Model → Option (List ℕ) → Machine → Option Machine
unfolding run_startup restore info
power_on model saved m =
    if (info model).has_constant_memory then map_some (restore saved) (run_startup m) else some m

-- The other models' memory is kept aside until the ROM's reset routine has cleared it.
unfoldable pub soft_reset : Model → Option (List ℕ) → Machine → Option Machine
unfolding run_startup restore reset info serialise_ram deserialise_ram
soft_reset model saved m =
    if (info model).has_constant_memory
    then some (restore saved (reset m))
    else map_some (with_cpu (deserialise_ram (serialise_ram m.cpu))) (run_startup (reset m))

unfoldable pub clean_reset : Model → Machine → Machine
unfolding deserialise_ram reset info
clean_reset model m =
    reset (if (info model).has_constant_memory then with_cpu (deserialise_ram (λ i. 0)) m else m)
