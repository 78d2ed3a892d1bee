-- ===== src/Shared/Model.antt =====
-- Shared/MachineModelInfo.hpp and the clocks of Core/MachineVariant.hpp: the facts of each model
-- that the run loop keys off. Names and file names are left out.
use calc_u.Base.{ℕ, Bool, true, false, ◌&&◌, ◌||◌, leb, if◌then◌else◌}
use calc_u.Core.Cpu.State.{MachineVariant, has_large_memory}
use calc_u.Core.Cpu.State

pub data Model : Type 0 where
  ti59 ti58 ti58c : Model

unfoldable pub to_variant : Model → MachineVariant
to_variant ti59 = State.ti59
to_variant ti58 = State.ti58
to_variant ti58c = State.ti58c

-- An inclusive range of addresses, with an optional second span.
pub record PcRange : Type 0 where
  pub lo : ℕ
  pub hi : ℕ
  pub extra_lo : ℕ
  pub extra_hi : ℕ

unfoldable pub contains : PcRange → ℕ → Bool
contains r pc = (leb r.lo pc && leb pc r.hi) || (leb r.extra_lo pc && leb pc r.extra_hi)

-- The second span is empty unless set.
abbrev span : ℕ → ℕ → PcRange
span lo hi = record { lo = lo; hi = hi; extra_lo = 1; extra_hi = 0 }

abbrev spans : ℕ → ℕ → ℕ → ℕ → PcRange
spans lo hi extra_lo extra_hi = record {
  lo = lo;
  hi = hi;
  extra_lo = extra_lo;
  extra_hi = extra_hi;
}

unfoldable pub resonator_hz : MachineVariant → ℕ
resonator_hz State.ti59 = 455000
resonator_hz State.ti58 = 384000
resonator_hz State.ti58c = 394000

pub record ModelInfo : Type 0 where
  pub rom_word_count : ℕ
  pub has_constant_memory : Bool
  pub large_memory : Bool
  pub has_card_reader : Bool
  pub extra_register_count : ℕ
  pub scan_loop : PcRange
  pub idle_and_key_detect : PcRange
  pub card_wait : PcRange

unfoldable pub info : Model → ModelInfo
info ti59 = record {
  rom_word_count = 6144;
  has_constant_memory = false;
  large_memory = true;
  has_card_reader = true;
  extra_register_count = 0;
  scan_loop = span 0x063C 0x0660;
  idle_and_key_detect = span 0x0627 0x0660;
  card_wait = span 0x16B2 0x16B7;
}
info ti58 = record {
  rom_word_count = 6144;
  has_constant_memory = false;
  large_memory = false;
  has_card_reader = false;
  extra_register_count = 0;
  scan_loop = spans 0x063C 0x0660 0x0459 0x045B;
  idle_and_key_detect = spans 0x0627 0x0660 0x0459 0x045B;
  card_wait = span 1 0;
}
info ti58c = record {
  rom_word_count = 6144;
  has_constant_memory = true;
  large_memory = false;
  has_card_reader = false;
  extra_register_count = 4;
  scan_loop = spans 0x063D 0x0659 0x0A25 0x0A2E;
  idle_and_key_detect = spans 0x0627 0x0659 0x0A25 0x0A30;
  card_wait = span 1 0;
}

abbrev pub max_step : ModelInfo → ℕ
max_step i = if i.large_memory then 959 else 479
