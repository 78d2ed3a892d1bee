-- ===== src/Shared/ConstantMemory/PowerOn.antt =====
-- The constant memory survives power-off: through its file, and into a machine that is powered on.
use calc_u.Base.{
  ℕ, zero, suc, ◌+◌, ◌*◌, ◌/◌, ◌%◌, ◌<◌, ◌≡◌, ap, sym, ◌∙◌, List, Option, some, get_or, slice,
  arith, length-slice,
}
use calc_u.Core.Machine.{Machine}
use calc_u.Core.Ram.{serialise}
use calc_u.Core.Machine.Memory.{serialise_ram}
use calc_u.Shared.Bcd.Laws.{get_or-slice}
use calc_u.Shared.CardText.Reader.{CueFormat}
use calc_u.Shared.ConstantMemory.{decode_constant_memory, encode_constant_memory}
use calc_u.Core.Ram.{Ram, read}
use calc_u.Shared.Model.{ti58c}
use calc_u.Shared.StateApplier.{power_on}
use calc_u.Shared.StateApplier.Resets.{HasSameRam, saved-restored}
use calc_u.Shared.ConstantMemory.RoundTrip.{IsMemory}
use calc_u.Shared.ConstantMemory.Cues.{IsWritable, reparsed, decode-encode_memory}

-- The memory that the machine hands over.
abbrev pub saved_ram : Machine → List ℕ
saved_ram m = slice (serialise_ram m.cpu) 0 1920

-- Every nibble of the RAM is one.
abbrev pub HasNibbles : Machine → Type 0
HasNibbles m = (r i : ℕ) → m.cpu.ram.cells r i < 16

saved_ram-nibble : (f : ℕ → ℕ) (lo n k : ℕ) → ((i : ℕ) → f i < 16) → get_or (slice f lo n) k 0 < 16
saved_ram-nibble f lo zero k h = omega arith
saved_ram-nibble f lo (suc n) zero h = h lo
saved_ram-nibble f lo (suc n) (suc k) h = saved_ram-nibble f (lo + 1) n k h

saved_ram-IsMemory : (m : Machine) → HasNibbles m → IsMemory (saved_ram m)
unfolding serialise_ram serialise
saved_ram-IsMemory m h = (
  length-slice (serialise_ram m.cpu) 0 1920,
  λ k. saved_ram-nibble (serialise_ram m.cpu) 0 1920 k (λ i. h (i / 16) (i % 16)),
)

saved_ram-byte :
    (m : Machine) (r i : ℕ)
    → r < 120
    → i < 16
    → get_or (saved_ram m) (r * 16 + i) 0 ≡ m.cpu.ram.cells r i
unfolding serialise_ram serialise
saved_ram-byte m r i h k =
    let row : (0 + (r * 16 + i)) / 16 ≡ r = omega (arith, k) in
    let column : (0 + (r * 16 + i)) % 16 ≡ i = omega (arith, k) in
    get_or-slice (serialise_ram m.cpu) 0 1920 (r * 16 + i) 0 (omega (arith, h, k))
    ∙ ap (λ a. m.cpu.ram.cells a ((0 + (r * 16 + i)) % 16)) row
    ∙ ap (m.cpu.ram.cells r) column

read_lem : (m : Ram) (r i : ℕ) → r < 120 → i < 16 → read m r i ≡ some (m.cells r i)
unfolding read
read_lem m r i h k = ground (arith, h, k)

-- A TI-58C whose memory is written to its file, with the user's cue card or without one, and that
-- is powered on from the file, succeeds and has the RAM that it was switched off with: each nibble
-- of the 120 registers, if they are nibbles. The cue card read back is what the cue card's parser
-- makes of the lines written for it, if these have no control characters and none is a heading.
pub power_on-decode {ℓ} :
    {Cue : Type ℓ} (cues : CueFormat Cue) (cue : Option Cue) (off on : Machine)
    → HasNibbles off
    → IsWritable cues cue
    → (ram : List ℕ) × (a : Machine) × (decode_constant_memory cues
          (encode_constant_memory cues (saved_ram off) cue)
        ≡ some (ram, reparsed cues cue))
      × (power_on ti58c (some ram) on ≡ some a)
      × HasSameRam off a
power_on-decode cues cue off on h w =
    let ram = saved_ram off in
    let v = saved_ram-IsMemory off h in
    let (a, _, p, _, q) = saved-restored ram on (omega (arith, v.0)) in
    (
      ram,
      a,
      decode-encode_memory cues ram cue v w,
      p,
      λ r i k l.
          (q r i k l).0 ∙ ap some (saved_ram-byte off r i k l) ∙ sym (read_lem off.cpu.ram r i k l),
    )
