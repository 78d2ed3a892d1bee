-- ===== src/Core/Machine/Breakpoints.antt =====
-- The machine's breakpoints are a set of addresses, whatever the order of the calls.
use calc_u.Base.{ℕ, ◌≡◌, refl, ap, ◌∙◌, Bool, false, not, ◌&&◌, ◌||◌, ◌==◌, List, [], ◌∷◌}
use calc_u.Core.Cpu.Tracing
use calc_u.Core.Cpu.Tracing.{has_breakpoint}
use calc_u.Core.Cpu.Tracing.Laws.{IsSorted, has-add, has-remove, add-IsSorted, remove-IsSorted}
use calc_u.Core.Machine.{Machine}
use calc_u.Core.Machine.Panel.{add_breakpoint, remove_breakpoint, clear_breakpoints}

pub data Call : Type 0 where
  add remove : ℕ → Call
  clear : Call

-- The calls on the machine.
abbrev pub call : Call → Machine → Machine
call (add pc) m = add_breakpoint pc m
call (remove pc) m = remove_breakpoint pc m
call clear m = clear_breakpoints m

abbrev pub call_all : List Call → Machine → Machine
call_all [] m = m
call_all (c ∷ cs) m = call_all cs (call c m)

-- The specification: a set of addresses by its test.
abbrev pub specify : Call → (ℕ → Bool) → ℕ → Bool
specify (add pc) has x = x == pc || has x
specify (remove pc) has x = not (x == pc) && has x
specify clear has x = false

abbrev pub specify_all : List Call → (ℕ → Bool) → ℕ → Bool
specify_all [] has = has
specify_all (c ∷ cs) has = specify_all cs (specify c has)

-- The machine's list is sorted and has the members of the set.
abbrev pub Implements : Machine → (ℕ → Bool) → Type 0
Implements m has =
    IsSorted m.cpu.trace.breakpoints × ((x : ℕ) → has_breakpoint x m.cpu.trace.breakpoints ≡ has x)

call-Implements :
    (c : Call) (m : Machine) (has : ℕ → Bool)
    → Implements m has
    → Implements (call c m) (specify c has)
unfolding add_breakpoint remove_breakpoint clear_breakpoints Tracing.clear_breakpoints
    has_breakpoint
call-Implements (add pc) m has (s, h) = (
  add-IsSorted pc m.cpu.trace.breakpoints s,
  λ x. has-add x pc m.cpu.trace.breakpoints ∙ ap (λ b. x == pc || b) (h x),
)
call-Implements (remove pc) m has (s, h) = (
  remove-IsSorted pc m.cpu.trace.breakpoints s,
  λ x. has-remove x pc m.cpu.trace.breakpoints s ∙ ap (λ b. not (x == pc) && b) (h x),
)
call-Implements clear m has (s, h) = (tt, λ x. refl)

-- After any calls the breakpoint list is strictly ascending, and finds exactly the addresses of
-- the set that the same calls make: those added and not removed or cleared since.
pub call_all-Implements :
    (cs : List Call) (m : Machine) (has : ℕ → Bool)
    → Implements m has
    → Implements (call_all cs m) (specify_all cs has)
call_all-Implements [] m has h = h
call_all-Implements (c ∷ cs) m has h =
    call_all-Implements cs (call c m) (specify c has) (call-Implements c m has h)
