-- ===== src/Shared/Freeze/Laws.antt =====
-- When the armed freezes fire.
use calc_u.Base.{
  ℕ, ◌≡◌, refl, ap, sym, ◌∙◌, ◌≢◌, Bool, true, false, not, ◌&&◌, ◌||◌, ◌==◌, Option, none, some,
  List, [], ◌∷◌, ◌++◌, arith,
}
use calc_u.Shared.Model.{PcRange, contains}
use calc_u.Shared.Freeze.{
  FreezeController, FreezeOwner, cpu, calculator, check_step, Op, apply, apply_all, arm_scan,
  arm_change, disarm_scan, disarm_change, instruction, arm_scan_loop_exit, disarm_scan_loop_exit,
  arm_pc_change, disarm_pc_change,
}

-- At most one freeze is armed, and the loop was seen only while its freeze is armed.
abbrev pub IsExclusive : FreezeController → Type 0
IsExclusive f = (f.scan_armed && f.pc_armed ≡ false) × (f.seen_loop && not f.scan_armed ≡ false)

check_step-IsExclusive :
    (pc : ℕ) (b : Bool) (f : FreezeController) → IsExclusive f → IsExclusive (check_step pc b f).1
unfolding check_step disarm_scan_loop_exit
check_step-IsExclusive pc b f (h, k) = ground (arith, h, k)

apply-IsExclusive : (o : Op) (f : FreezeController) → IsExclusive f → IsExclusive (apply o f)
unfolding apply arm_scan_loop_exit disarm_scan_loop_exit arm_pc_change disarm_pc_change
apply-IsExclusive (arm_scan pc) f (h, k) = (refl, refl)
apply-IsExclusive arm_change f (h, k) = (refl, refl)
apply-IsExclusive disarm_scan f (h, k) = (refl, refl)
apply-IsExclusive disarm_change f (h, k) = (ground (arith, h), k)
apply-IsExclusive (instruction pc b) f h = check_step-IsExclusive pc b f h

-- Whatever the panels and the run loop do to it, a controller has at most one freeze armed.
pub apply_all-IsExclusive :
    (os : List Op) (f : FreezeController) → IsExclusive f → IsExclusive (apply_all os f)
unfolding apply_all
apply_all-IsExclusive [] f h = h
apply_all-IsExclusive (o ∷ os) f h = apply_all-IsExclusive os (apply o f) (apply-IsExclusive o f h)

abbrev Watched : Type 0
Watched = Option FreezeOwner × List (ℕ × Bool) × FreezeController

-- What follows a check: the rest of the run unless a freeze fired.
abbrev resumed :
    (FreezeController → Watched) → List (ℕ × Bool) → Option FreezeOwner × FreezeController → Watched
resumed more is (none, f) = more f
resumed more is (some owner, f) = (some owner, is, f)

-- The run loop over the instructions to come: the freeze that fires first, and what is left.
unfoldable pub watch : List (ℕ × Bool) → FreezeController → Watched
watch [] f = (none, [], f)
watch ((pc, b) ∷ is) f = resumed (watch is) is (check_step pc b f)

abbrev pub AreInside : PcRange → Bool → List (ℕ × Bool) → Type 0
AreInside r v [] = v ≡ v
AreInside r v ((pc, b) ∷ is) = (contains r pc ≡ v) × AreInside r v is

abbrev pub AvoidZero : List (ℕ × Bool) → Type 0
AvoidZero [] = true ≡ true
AvoidZero ((pc, b) ∷ is) = (pc ≢ 0) × AvoidZero is

abbrev pub AreNoBoundary : List (ℕ × Bool) → Type 0
AreNoBoundary [] = true ≡ true
AreNoBoundary ((pc, b) ∷ is) = (b ≡ false) × AreNoBoundary is

-- A controller on which FREEZE ON START is armed.
abbrev IsArmed : Bool → FreezeController → Type 0
IsArmed seen f = (f.scan_armed ≡ true) × (f.pc_armed ≡ false) × (f.seen_loop ≡ seen)

-- No freeze fires outside the loop before it was seen.
check_outside :
    (pc : ℕ) (b : Bool) (f : FreezeController)
    → IsArmed false f
    → contains f.scan_loop pc ≡ false
    → pc ≢ 0
    → check_step pc b f ≡ (none, f)
unfolding check_step
check_outside pc b f (h, k, l) out n =
    let one : (b && f.pc_armed) ≡ false = ground (arith, k) in
    let two : not f.scan_armed ≡ false = ground (arith, h) in
    let three : (f.seen_loop || (pc == 0 && not (f.arm_pc == 0))) ≡ false = ground (arith, l, n) in
    simp (one, two, out, three) refl

abbrev seen : FreezeController → FreezeController
seen f = record f { seen_loop = true }

check_inside :
    (pc : ℕ) (b v : Bool) (f : FreezeController)
    → IsArmed v f
    → contains f.scan_loop pc ≡ true
    → check_step pc b f ≡ (none, seen f)
unfolding check_step
check_inside pc b v f (h, k, l) inside =
    let one : (b && f.pc_armed) ≡ false = ground (arith, k) in
    let two : not f.scan_armed ≡ false = ground (arith, h) in simp (one, two, inside) refl

check_exit :
    (pc : ℕ) (b : Bool) (f : FreezeController)
    → IsArmed true f
    → contains f.scan_loop pc ≡ false
    → check_step pc b f ≡ (some cpu, disarm_scan_loop_exit f)
unfolding check_step
check_exit pc b f (h, k, l) out =
    let one : (b && f.pc_armed) ≡ false = ground (arith, k) in
    let two : not f.scan_armed ≡ false = ground (arith, h) in
    let three : (f.seen_loop || (pc == 0 && not (f.arm_pc == 0))) ≡ true = ground (arith, l) in
    simp (one, two, out, three) refl

watch-next :
    (pc : ℕ) (b : Bool) (is : List (ℕ × Bool)) (f : FreezeController)
    (r : Option FreezeOwner × FreezeController)
    → check_step pc b f ≡ r
    → watch ((pc, b) ∷ is) f ≡ resumed (watch is) is r
unfolding watch
watch-next pc b is f r h = ap (resumed (watch is) is) h

watch_outside :
    (os is : List (ℕ × Bool)) (f : FreezeController)
    → IsArmed false f
    → AreInside f.scan_loop false os
    → AvoidZero os
    → watch (os ++ is) f ≡ watch is f
watch_outside [] is f h k z = refl
watch_outside ((pc, b) ∷ os) is f h (k, r) (z, zs) =
    watch-next pc b (os ++ is) f _ (check_outside pc b f h k z) ∙ watch_outside os is f h r zs

watch_inside :
    (os is : List (ℕ × Bool)) (f : FreezeController)
    → IsArmed true f
    → AreInside f.scan_loop true os
    → watch (os ++ is) f ≡ watch is f
watch_inside [] is f h k = refl
watch_inside ((pc, b) ∷ os) is f h (k, r) =
    watch-next pc b (os ++ is) f _ (check_inside pc b true f h k)
    ∙ watch_inside os is (seen f) (h.0, h.1, refl) r
    ∙ ap (λ v. watch is (record f { seen_loop = v })) (sym (h.2))

-- FREEZE ON START fires once the processor has been in the scan loop and leaves it: not while it
-- runs outside the loop before, if it does not come to address 0 there (at which the freeze fires
-- too), not in the loop, and at the first instruction after it; then it is off, and the rest of the
-- run is watched without it.
pub watch-scan :
    (outside inside rest : List (ℕ × Bool)) (first exit : ℕ × Bool) (at : ℕ) (f : FreezeController)
    → AreInside f.scan_loop false outside
    → AvoidZero outside
    → contains f.scan_loop first.0 ≡ true
    → AreInside f.scan_loop true inside
    → contains f.scan_loop exit.0 ≡ false
    → let armed = arm_scan_loop_exit at f in
      watch (outside ++ (first ∷ (inside ++ (exit ∷ rest)))) armed
      ≡ (some cpu, rest, disarm_scan_loop_exit armed)
unfolding arm_scan_loop_exit disarm_scan_loop_exit
watch-scan outside inside rest (p, a) (q, b) at f out zero one more two =
    let armed = arm_scan_loop_exit at f in
    watch_outside outside ((p, a) ∷ (inside ++ ((q, b) ∷ rest))) armed (refl, refl, refl) out zero
    ∙ watch-next p a (inside ++ ((q, b) ∷ rest)) armed _
        (check_inside p a false armed (refl, refl, refl) one)
    ∙ watch_inside inside ((q, b) ∷ rest) (seen armed) (refl, refl, refl) more
    ∙ watch-next q b rest (seen armed) _ (check_exit q b (seen armed) (refl, refl, refl) two)

check_quiet :
    (pc : ℕ) (f : FreezeController) → f.scan_armed ≡ false → check_step pc false f ≡ (none, f)
unfolding check_step
check_quiet pc f h = let two : not f.scan_armed ≡ true = ground (arith, h) in simp two refl

check_boundary :
    (pc : ℕ) (f : FreezeController)
    → f.pc_armed ≡ true
    → check_step pc true f ≡ (some calculator, disarm_pc_change f)
unfolding check_step disarm_pc_change
check_boundary pc f h = let one : (true && f.pc_armed) ≡ true = ground (arith, h) in simp one refl

watch_quiet :
    (os is : List (ℕ × Bool)) (f : FreezeController)
    → f.scan_armed ≡ false
    → AreNoBoundary os
    → watch (os ++ is) f ≡ watch is f
watch_quiet [] is f h k = refl
watch_quiet ((pc, b) ∷ os) is f h (k, r) =
    ap (λ v. watch ((pc, v) ∷ (os ++ is)) f) k
    ∙ watch-next pc false (os ++ is) f _ (check_quiet pc f h)
    ∙ watch_quiet os is f h r

-- An armed freeze on the next step fires at the first step boundary, and only there.
pub watch-change :
    (before rest : List (ℕ × Bool)) (pc : ℕ) (f : FreezeController)
    → AreNoBoundary before
    → let armed = arm_pc_change f in
      watch (before ++ ((pc, true) ∷ rest)) armed ≡ (some calculator, rest, disarm_pc_change armed)
unfolding arm_pc_change disarm_pc_change
watch-change before rest pc f h =
    let armed = arm_pc_change f in
    watch_quiet before ((pc, true) ∷ rest) armed refl h
    ∙ watch-next pc true rest armed _ (check_boundary pc armed refl)
