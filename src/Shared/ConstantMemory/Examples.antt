-- ===== src/Shared/ConstantMemory/Examples.antt =====
-- A memory that is saved and restored.
use calc_u.Base.{
  ℕ, ◌*◌, ◌+◌, ◌%◌, ◌≡◌, refl, true, false, List, [], ◌∷◌, ◌++◌, some, if◌then◌else◌, ◌==◌, arith,
}
use calc_u.Core.Cpu.State
use calc_u.Core.Cpu.Printer.{text}
use calc_u.Shared.TextUtil.{starts_with}
use calc_u.Shared.TextUtil.Trim.{trim, trim_left, trim_right, space_before, space_at, space_of}
use calc_u.Core.Ram
use calc_u.Core.Machine.{Machine, new_cpu, init}
use calc_u.Shared.Model.{ti58c}
use calc_u.Shared.CardText.Reader.{CueFormat}
use calc_u.Shared.StateApplier.{power_on}
use calc_u.Shared.StateApplier.Resets.{HasSameRam}
use calc_u.Shared.ConstantMemory.{decode_constant_memory, encode_constant_memory}
use calc_u.Shared.ConstantMemory.PowerOn.{HasNibbles, saved_ram, power_on-decode}

-- A cue card that is its lines.
abbrev cues : CueFormat (List (List ℕ))
cues = record {
  fresh = [];
  parse_line = λ l c. c ++ (l ∷ []);
  encode_lines = λ c. c;
  on_magnet_card = λ c. c;
  without_banks = λ c. c;
}

-- Register 7 is not zero.
abbrev off : Machine
off = record {
  cpu = record new_cpu {
    ram = record Ram.init { cells = λ r i. if r == 7 then (i * 5 + 3) % 10 else 0 };
  };
  printer_connected = true;
  printer_trace = false;
}

off-HasNibbles : HasNibbles off
off-HasNibbles r i = ground arith

abbrev cue : List (List ℕ)
cue = text "TITLE: Lander" ∷ text "A: Start" ∷ []

power_on-decode_example :
    (ram : List ℕ) × (a : Machine) × (decode_constant_memory cues
        (encode_constant_memory cues (saved_ram off) (some cue))
      ≡ some (ram, some cue))
    × (power_on ti58c (some ram) (init State.ti58c) ≡ some a)
    × HasSameRam off a
unfolding trim trim_left trim_right space_before space_at space_of starts_with
power_on-decode_example =
    power_on-decode cues (some cue) off (init State.ti58c) off-HasNibbles
      ((omega arith, (omega arith, omega arith)), ((refl, refl), ((refl, refl), omega arith)))
