-- ===== src/Shared/StateApplier/Resets.antt =====
-- What a reset leaves of the RAM.
use calc_u.Base.{
  ℕ, ◌+◌, ◌*◌, ◌≤◌, ◌<◌, ◌≡◌, refl, ap, ◌∙◌, true, ◌&&◌, List, none, some, map_some, Bool, inl, inr,
  Bool-cases, ltb, leb, arith, length, get_or,
}
use calc_u.Core.Ram.{read, deserialise}
use calc_u.Core.Ram.Laws.{read-deserialise}
use calc_u.Core.Cpu.Reset
use calc_u.Core.Cpu.Keyboard.{press_key, set_key}
use calc_u.Core.Machine.{Machine, reset, card_switch_col}
use calc_u.Core.Cpu.State.{Cpu}
use calc_u.Core.Machine.Memory.{serialise_ram, deserialise_ram}
use calc_u.Shared.Model.{Model, ti59, ti58, ti58c, info}
use calc_u.Shared.StateApplier.{with_cpu, saved_size, restore, power_on, soft_reset}
use calc_u.Shared.StateApplier.Startup.{booted, run_startup_lem}

-- Every nibble of the RAM is the same.
abbrev pub HasSameRam : Machine → Machine → Type 0
HasSameRam m m' = (r i : ℕ) → r < 120 → i < 16 → read m'.cpu.ram r i ≡ read m.cpu.ram r i

put_back : (m n : Machine) → HasSameRam m (with_cpu (deserialise_ram (serialise_ram m.cpu)) n)
unfolding deserialise_ram serialise_ram
put_back m n r i h k = read-deserialise m.cpu.ram n.cpu.ram r i h k

press_key-ram : (row col : ℕ) (c : Cpu) → (press_key row col c).ram ≡ c.ram
unfolding press_key
press_key-ram row col c = elim (Bool-cases (ltb col 16 && ltb row 7)) [
  | inl t ↦ rw t refl
  | inr f ↦ rw f refl
]

switches-ram :
    (connected trace : Bool) (c : Cpu)
    → (Reset.set_printer_trace trace (Reset.set_printer_connected connected c)).ram ≡ c.ram
unfolding Reset.set_printer_connected Reset.set_printer_trace set_key
switches-ram connected trace c = refl

cpu_reset-ram : (c : Cpu) → (Reset.reset c).ram ≡ c.ram
unfolding Reset.reset
cpu_reset-ram c = refl

reset-ram : (m : Machine) → HasSameRam m (reset m)
unfolding reset
reset-ram m r i h k =
    let col = card_switch_col m.cpu.variant in
    let c = press_key 4 col (Reset.reset m.cpu) in
    ap (λ t. read t r i)
      (switches-ram m.printer_connected m.printer_trace c
        ∙ press_key-ram 4 col (Reset.reset m.cpu)
        ∙ cpu_reset-ram m.cpu)

-- With no saved memory a soft reset always succeeds, and every nibble of the RAM is what it was
-- before: on the models whose ROM clears the RAM too, and whatever breakpoints are set.
pub soft_reset-HasSameRam :
    (model : Model) (m : Machine)
    → (m' : Machine) × (soft_reset model none m ≡ some m') × HasSameRam m m'
unfolding soft_reset info restore
soft_reset-HasSameRam ti59 m =
    let n = booted (reset m) in
    let put = with_cpu (deserialise_ram (serialise_ram m.cpu)) in
    (put n, ap (map_some put) (run_startup_lem (reset m)), put_back m n)
soft_reset-HasSameRam ti58 m =
    let n = booted (reset m) in
    let put = with_cpu (deserialise_ram (serialise_ram m.cpu)) in
    (put n, ap (map_some put) (run_startup_lem (reset m)), put_back m n)
soft_reset-HasSameRam ti58c m = (reset m, refl, reset-ram m)

restore-ram :
    (ram : List ℕ) (m : Machine) (r i : ℕ)
    → saved_size ≤ length ram
    → r < 120
    → i < 16
    → read (restore (some ram) m).cpu.ram r i ≡ some (get_or ram (r * 16 + i) 0)
unfolding restore deserialise_ram deserialise read
restore-ram ram m r i h k l =
    let big : leb saved_size (length ram) ≡ true = ground (arith, h) in
    rw big (ground (arith, k, l))

-- On the TI-58C both power-on and a soft reset succeed with a saved memory of at least 1920 bytes,
-- and then nibble i of register r is its byte 16 r + i: the startup's writes do not survive.
pub saved-restored :
    (ram : List ℕ) (m : Machine)
    → saved_size ≤ length ram
    → (a b : Machine) × (power_on ti58c (some ram) m ≡ some a)
      × (soft_reset ti58c (some ram) m ≡ some b)
      × ((r i : ℕ)
          → r < 120
          → i < 16
          → (read a.cpu.ram r i ≡ some (get_or ram (r * 16 + i) 0))
            × (read b.cpu.ram r i ≡ some (get_or ram (r * 16 + i) 0)))
unfolding power_on soft_reset info
saved-restored ram m h = (
  restore (some ram) (booted m),
  restore (some ram) (reset m),
  ap (map_some (restore (some ram))) (run_startup_lem m),
  refl,
  λ r i k l. (restore-ram ram (booted m) r i h k l, restore-ram ram (reset m) r i h k l),
)
