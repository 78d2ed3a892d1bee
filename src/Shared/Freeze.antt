-- ===== src/Shared/Freeze.antt =====
-- Shared/FreezeController.cpp: the debugger's two armed freezes.
pub mod Laws
use calc_u.Base.{
  ℕ, Bool, true, false, not, ◌&&◌, ◌||◌, ◌==◌, Option, none, some, if◌then◌else◌, List, [], ◌∷◌,
}
use calc_u.Shared.Model.{PcRange, contains}

pub data FreezeOwner : Type 0 where
  cpu calculator : FreezeOwner

pub record FreezeController : Type 0 where
  pub scan_loop : PcRange
  pub scan_armed : Bool
  pub seen_loop : Bool
  pub arm_pc : ℕ
  pub pc_armed : Bool

abbrev pub init : PcRange → FreezeController
init loop = record {
  scan_loop = loop;
  scan_armed = false;
  seen_loop = false;
  arm_pc = 0xFFFF;
  pc_armed = false;
}

unfoldable pub arm_scan_loop_exit : ℕ → FreezeController → FreezeController
arm_scan_loop_exit pc f = record f {
  pc_armed = false;
  seen_loop = false;
  arm_pc = pc;
  scan_armed = true;
}

unfoldable pub disarm_scan_loop_exit : FreezeController → FreezeController
disarm_scan_loop_exit f = record f { seen_loop = false; scan_armed = false }

unfoldable pub arm_pc_change : FreezeController → FreezeController
unfolding disarm_scan_loop_exit
arm_pc_change f = record (disarm_scan_loop_exit f) { pc_armed = true }

unfoldable pub disarm_pc_change : FreezeController → FreezeController
disarm_pc_change f = record f { pc_armed = false }

-- The panel whose freeze fires after an instruction, and the controller then.
unfoldable pub check_step : ℕ → Bool → FreezeController → Option FreezeOwner × FreezeController
unfolding disarm_scan_loop_exit contains
check_step pc at_boundary f =
    if at_boundary && f.pc_armed
    then (some calculator, record f { pc_armed = false })
    else if not f.scan_armed
    then (none, f)
    else if contains f.scan_loop pc
    then (none, record f { seen_loop = true })
    else if f.seen_loop || (pc == 0 && not (f.arm_pc == 0))
    then (some cpu, disarm_scan_loop_exit f)
    else (none, f)

-- The operations on a controller, from the panels and from the run loop.
pub data Op : Type 0 where
  arm_scan : ℕ → Op
  arm_change : Op
  disarm_scan : Op
  disarm_change : Op
  instruction : ℕ → Bool → Op

unfoldable pub apply : Op → FreezeController → FreezeController
unfolding arm_scan_loop_exit arm_pc_change disarm_scan_loop_exit disarm_pc_change check_step
apply (arm_scan pc) f = arm_scan_loop_exit pc f
apply arm_change f = arm_pc_change f
apply disarm_scan f = disarm_scan_loop_exit f
apply disarm_change f = disarm_pc_change f
apply (instruction pc at_boundary) f = (check_step pc at_boundary f).1

unfoldable pub apply_all : List Op → FreezeController → FreezeController
unfolding apply
apply_all [] f = f
apply_all (o ∷ os) f = apply_all os (apply o f)
