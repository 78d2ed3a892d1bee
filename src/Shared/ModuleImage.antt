-- ===== src/Shared/ModuleImage.antt =====
-- Shared/ModuleImage.cpp: a library module's program table, and the step that an address is.
pub mod Laws
use calc_u.Base.{
  ℕ, zero, suc, ◌+◌, ◌-◌, ◌*◌, ◌/◌, ◌%◌, Bool, true, false, ◌&&◌, ◌||◌, if◌then◌else◌, leb, ltb,
  ◌==◌, List, [], ◌∷◌, Option, none, some, length, get_elem?, get_or, ◌>>=◌, map_some, any_bit,
}

pub data ProgramSource : Type 0 where
  user_program solid_state rom solid_state_return fast_mode : ProgramSource

unfoldable pub program_source_from : ℕ → ℕ → ProgramSource
program_source_from flag rom_pc =
    if any_bit flag 0x1
    then solid_state
    else if any_bit flag 0x8
    then rom
    else if flag == 0
    then user_program
    else if flag == 2
        && ((leb 0x1193 rom_pc && leb rom_pc 0x1194) || (leb 0x14F9 rom_pc && leb rom_pc 0x1506))
    then solid_state_return
    else fast_mode

pub record ModuleImage : Type 0 where
  pub keycodes : List ℕ
  -- the start of each program and the end behind it
  pub ranges : List (ℕ × ℕ)

abbrev pub bcd : ℕ → ℕ
bcd b = b / 16 * 10 + b % 16

abbrev keycodes_of : List ℕ → List ℕ
keycodes_of [] = []
keycodes_of (b ∷ bs) = bcd b ∷ keycodes_of bs

-- `n` start pointers from entry `entry` on; `none` when the table is cut short.
unfoldable pub boundaries : ℕ → ℕ → List ℕ → Option (List ℕ)
boundaries zero entry raw = some []
boundaries (suc n) entry raw =
    let off = 2 * entry in
    let rest = boundaries n (entry + 1) raw in
    if leb (length raw) (off + 1)
    then none
    else map_some (λ bs. (bcd (get_or raw off 0) * 100 + bcd (get_or raw (off + 1) 0)) ∷ bs) rest

-- The programs between neighbouring boundaries; `none` when one is empty or beyond the image.
unfoldable pub ranges_of : ℕ → List ℕ → Option (List (ℕ × ℕ))
ranges_of limit [] = some []
ranges_of limit (lo ∷ []) = some []
ranges_of limit (lo ∷ hi ∷ bs) =
    let rest = ranges_of limit (hi ∷ bs) in
    if ltb lo hi && leb hi limit then map_some (λ rs. (lo, hi) ∷ rs) rest else none

-- No table is an empty one.
abbrev pub or_empty : Option (List (ℕ × ℕ)) → List (ℕ × ℕ)
or_empty none = []
or_empty (some rs) = rs

-- The error text is left out: it is given where `ranges_of` is `none`.
unfoldable pub parse : List ℕ → ModuleImage
unfolding boundaries ranges_of
parse raw =
    let count = bcd (get_or raw 0 0) in
    record {
      keycodes = keycodes_of raw;
      ranges =
          if leb (length raw) 2 || count == 0
          then []
          else or_empty (boundaries (count + 1) 1 raw >>= ranges_of (length raw));
    }

pub record LibStep : Type 0 where
  pub program : ℕ
  pub step : ℕ
  pub lo : ℕ
  pub hi : ℕ

-- The first program, from number `i + 1` on, that holds the address.
unfoldable pub find_step : ℕ → ℕ → List (ℕ × ℕ) → Option LibStep
find_step pc i [] = none
find_step pc i ((lo, hi) ∷ rs) =
    let rest = find_step pc (i + 1) rs in
    if leb lo pc && ltb pc hi
    then some (record { program = i + 1; step = pc - lo; lo = lo; hi = hi })
    else rest

unfoldable pub library_step : ModuleImage → ℕ → Option LibStep
unfolding find_step
library_step m pc = if pc == 0xFFFF then none else find_step pc 0 m.ranges
