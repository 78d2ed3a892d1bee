-- ===== src/Core/Cpu/Tracing/Laws.antt =====
-- The breakpoint list is a sorted set, and a drain hands over no more frames than the ring holds.
use calc_u.Base.{
  ℕ, zero, suc, ◌+◌, ◌≤◌, ◌<◌, ◌≡◌, refl, false, not, ◌&&◌, ◌||◌, if◌then◌else◌, ◌==◌, ltb, leb,
  List, [], ◌∷◌, arith, length, u32, Bool-cases, inl, inr, ltb→lt,
}
use calc_u.Core.Cpu.State.{Trace}
use calc_u.Core.Cpu.Tracing.{
  add_breakpoint, remove_breakpoint, has_breakpoint, drain_cpu_frames, behind, catch_up,
  frame_ring_size, ring_slice,
}

-- The first address, if there is one, is above `y`.
abbrev pub HeadAbove : ℕ → List ℕ → Type 0
HeadAbove y [] = Unit {0}
HeadAbove y (x ∷ r) = y < x

-- Strictly ascending.
abbrev pub IsSorted : List ℕ → Type 0
IsSorted [] = Unit {0}
IsSorted (x ∷ r) = HeadAbove x r × IsSorted r

has-below : (x b : ℕ) (bs : List ℕ) → IsSorted (b ∷ bs) → x ≤ b → has_breakpoint x bs ≡ false
unfolding has_breakpoint
has-below x b [] h l = refl
has-below x b (y ∷ r) (k, h) l = ground arith

-- After an insertion the list has the new address and what it had.
pub has-add :
    (x pc : ℕ) (bs : List ℕ)
    → has_breakpoint x (add_breakpoint pc bs) ≡ (x == pc || has_breakpoint x bs)
unfolding has_breakpoint add_breakpoint
has-add x pc [] = ground arith
has-add x pc (b ∷ bs) = ground (arith, has-add x pc bs)

-- After a removal from a sorted list it has what it had but that address.
pub has-remove :
    (x pc : ℕ) (bs : List ℕ)
    → IsSorted bs
    → has_breakpoint x (remove_breakpoint pc bs) ≡ (not (x == pc) && has_breakpoint x bs)
unfolding has_breakpoint remove_breakpoint
has-remove x pc [] h = ground arith
has-remove x pc (b ∷ bs) h = elim (Bool-cases (leb x b)) [
  | inl t ↦ ground (arith, has-remove x pc bs (h.1), t, has-below x b bs h (ground (arith, t)))
  | inr f ↦ ground (arith, has-remove x pc bs (h.1), f)
]

add-HeadAbove :
    (y pc : ℕ) (bs : List ℕ) → y < pc → HeadAbove y bs → HeadAbove y (add_breakpoint pc bs)
unfolding add_breakpoint
add-HeadAbove y pc [] l h = l
add-HeadAbove y pc (b ∷ bs) l h = elim (Bool-cases (ltb b pc)) [
  | inl t ↦ rw t h
  | inr f ↦ rw f (elim (Bool-cases (b == pc)) [ inl e ↦ rw e h | inr n ↦ rw n l ])
]

-- An insertion keeps the list strictly ascending.
pub add-IsSorted : (pc : ℕ) (bs : List ℕ) → IsSorted bs → IsSorted (add_breakpoint pc bs)
unfolding add_breakpoint
add-IsSorted pc [] h = (tt, tt)
add-IsSorted pc (b ∷ bs) (k, h) = elim (Bool-cases (ltb b pc)) [
  | inl t ↦ rw t (add-HeadAbove b pc bs (ltb→lt b pc t) k, add-IsSorted pc bs h)
  | inr f ↦ rw f (elim (Bool-cases (b == pc)) [
    | inl e ↦ rw e (k, h)
    | inr n ↦ rw n (ground (arith, f, n), (k, h))
  ])
]

remove-HeadAbove :
    (y pc : ℕ) (bs : List ℕ) → IsSorted bs → HeadAbove y bs → HeadAbove y (remove_breakpoint pc bs)
unfolding remove_breakpoint
remove-HeadAbove y pc [] h l = l
remove-HeadAbove y pc (b ∷ []) h l = elim (Bool-cases (ltb b pc)) [
  | inl t ↦ rw t l
  | inr f ↦ rw f (elim (Bool-cases (b == pc)) [ inl e ↦ rw e tt | inr n ↦ rw n l ])
]
remove-HeadAbove y pc (b ∷ x ∷ r) (k, h) l = elim (Bool-cases (ltb b pc)) [
  | inl t ↦ rw t l
  | inr f ↦
      rw f (elim (Bool-cases (b == pc)) [ inl e ↦ rw e (omega (arith, k, l)) | inr n ↦ rw n l ])
]

-- A removal keeps the list strictly ascending.
pub remove-IsSorted : (pc : ℕ) (bs : List ℕ) → IsSorted bs → IsSorted (remove_breakpoint pc bs)
unfolding remove_breakpoint
remove-IsSorted pc [] h = h
remove-IsSorted pc (b ∷ bs) (k, h) = elim (Bool-cases (ltb b pc)) [
  | inl t ↦ rw t (remove-HeadAbove b pc bs h k, remove-IsSorted pc bs h)
  | inr f ↦ rw f (elim (Bool-cases (b == pc)) [ inl e ↦ rw e h | inr n ↦ rw n (k, h) ])
]

length-ring_slice : (t : Trace) (from n : ℕ) → length (ring_slice t from n) ≡ n
unfolding ring_slice
length-ring_slice t from zero = refl
length-ring_slice t from (suc n) = omega (arith, length-ring_slice t (u32 (from + 1)) n)

-- With 32-bit counters and `max` above 0, a drain accounts for every frame written since the
-- last: those lost to the ring, those handed over and those left add up; it hands over at most
-- `max`, and the ring holds what it hands over and leaves.
pub drain_cpu_frames_lem :
    (max : ℕ) (t : Trace)
    → 0 < max
    → t.head < 4294967296
    → t.disk_cursor < 4294967296
    → let d = drain_cpu_frames max t in
      (d.lost + length d.frames + behind d.trace ≡ behind t)
      × (length d.frames ≤ max)
      × (length d.frames + behind d.trace ≤ frame_ring_size)
unfolding drain_cpu_frames
drain_cpu_frames_lem max t h p q =
    let u = catch_up t in
    let count = if ltb (behind u) max then behind u else max in
    let n = length-ring_slice u u.disk_cursor count in ground (arith, n)
