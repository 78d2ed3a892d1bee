-- ===== src/Shared/ConstantMemory/Cues.antt =====
-- The whole file of the constant memory, with its cue card, is read back.
use calc_u.Base.{
  ℕ, ◌≤◌, ◌≡◌, refl, ap, sym, ◌∙◌, true, false, List, [], ◌∷◌, ◌++◌, Option, none, some, ◌>>=◌,
  map_some, get_or, slice, arith, slice_same, slice-get_or,
}
use calc_u.Core.Cpu.Printer.{text}
use calc_u.Shared.TextUtil.{starts_with, split_lines}
use calc_u.Shared.TextUtil.Laws.{append_assoc}
use calc_u.Shared.TextUtil.Trim.{trim, space_of, space_at, space_before, trim_left, trim_right}
use calc_u.Shared.CardText.Lines.{IsOneLine, AreOneLine, split_lines-join_lines}
use calc_u.Shared.CardText.Reader.{CueFormat}
use calc_u.Shared.ConstantMemory.{
  rule, heading, register_lines, Contents, read_trimmed, read_lines, no_contents, given_cue_lines,
  decode_constant_memory, encode_constant_memory,
}
use calc_u.Shared.ConstantMemory.RoundTrip.{
  IsMemory, inside_memory, read-register_lines, register_lines-AreOneLine,
}

append-AreOneLine : (ks ls : List (List ℕ)) → AreOneLine ks → AreOneLine ls → AreOneLine (ks ++ ls)
append-AreOneLine [] ls h k = k
append-AreOneLine (l ∷ ks) ls (h, hs) k = (h, append-AreOneLine ks ls hs k)

module _ {ℓ} {Cue : Type ℓ} (cues : CueFormat Cue) where
  heading-trim : trim heading ≡ heading
  unfolding trim trim_left trim_right space_before space_at space_of
  heading-trim = refl

  read-heading :
      (c : Contents Cue) → read_trimmed cues heading c ≡ some (record c { in_cue_card = false })
  unfolding read_trimmed starts_with
  read-heading c = refl

  cue_heading-trim : trim (text "CUECARD:") ≡ text "CUECARD:"
  unfolding trim trim_left trim_right space_before space_at space_of
  cue_heading-trim = refl

  read-cue_heading :
      (c : Contents Cue)
      → read_trimmed cues (text "CUECARD:") c
        ≡ some (record c { in_cue_card = true; cue_card = some cues.fresh })
  unfolding read_trimmed starts_with
  read-cue_heading c = refl

  heading-IsOneLine : IsOneLine heading
  heading-IsOneLine = omega arith

  -- A cue card's line that is neither the start of a cue card nor a section's heading.
  abbrev pub IsCueLine : List ℕ → Type 0
  IsCueLine l =
      (starts_with (trim l) (text "CUECARD:") ≡ false) × (starts_with (trim l) rule ≡ false)

  abbrev pub AreCueLines : List (List ℕ) → Type 0
  AreCueLines [] = 0 ≤ 0
  AreCueLines (l ∷ ls) = IsCueLine l × AreCueLines ls

  read-blank : (c : Contents Cue) → read_trimmed cues (trim []) c ≡ some c
  unfolding read_trimmed trim
  read-blank c = refl

  -- What the cue card's parser makes of lines, one by one; blank ones are passed over.
  abbrev parsed_line : List ℕ → Cue → Cue
  parsed_line [] cue = cue
  parsed_line (c ∷ cs) cue = cues.parse_line (c ∷ cs) cue

  abbrev pub parsed_lines : List (List ℕ) → Cue → Cue
  parsed_lines [] cue = cue
  parsed_lines (l ∷ ls) cue = parsed_lines ls (parsed_line (trim l) cue)

  abbrev inside_cue : Cue → Contents Cue
  inside_cue cue = record { ram = λ i. 0; cue_card = some cue; in_cue_card = true }

  read_trimmed-cue :
      (l : List ℕ) (cue : Cue)
      → starts_with l (text "CUECARD:") ≡ false
      → starts_with l rule ≡ false
      → read_trimmed cues l (inside_cue cue) ≡ some (inside_cue (parsed_line l cue))
  unfolding read_trimmed
  read_trimmed-cue [] cue h k = refl
  read_trimmed-cue (c ∷ cs) cue h k = rw (h, k) refl

  read_lines-cons :
      (l : List ℕ) (ls : List (List ℕ)) (c d : Contents Cue)
      → read_trimmed cues (trim l) c ≡ some d
      → read_lines cues (l ∷ ls) c ≡ read_lines cues ls d
  unfolding read_lines
  read_lines-cons l ls c d h = ap (λ (o : Option (Contents Cue)). o >>= read_lines cues ls) h

  read_lines-cue :
      (ls rest : List (List ℕ)) (cue : Cue)
      → AreCueLines ls
      → read_lines cues (ls ++ rest) (inside_cue cue)
        ≡ read_lines cues rest (inside_cue (parsed_lines ls cue))
  read_lines-cue [] rest cue h = refl
  read_lines-cue (l ∷ ls) rest cue ((h, k), hs) =
      read_lines-cons l (ls ++ rest) (inside_cue cue) (inside_cue (parsed_line (trim l) cue))
        (read_trimmed-cue (trim l) cue h k)
      ∙ read_lines-cue ls rest (parsed_line (trim l) cue) hs

  -- What is known of the cue card's lines: each is one line, and none ends the section.
  abbrev pub IsWritable : Option Cue → Type 0
  IsWritable none = 0 ≤ 0
  IsWritable (some cue) = AreOneLine (cues.encode_lines cue) × AreCueLines (cues.encode_lines cue)

  -- The cue card that its own parser makes of its own lines.
  abbrev pub reparsed : Option Cue → Option Cue
  reparsed none = none
  reparsed (some cue) = some (parsed_lines (cues.encode_lines cue) cues.fresh)

  abbrev before_registers : Option Cue → Contents Cue
  before_registers cue = record (no_contents cues) { cue_card = reparsed cue }

  read-preamble :
      (cue : Option Cue) (rest : List (List ℕ))
      → IsWritable cue
      → read_lines cues (given_cue_lines cues cue ++ (heading ∷ rest)) (no_contents cues)
        ≡ read_lines cues rest (before_registers cue)
  read-preamble none rest h = read_lines-cons heading rest (no_contents cues) (no_contents cues) (
      ap (λ l. read_trimmed cues l (no_contents cues)) heading-trim
      ∙ read-heading (no_contents cues))
  read-preamble (some cue) rest (_, h) =
      let ls = cues.encode_lines cue in
      let inside = inside_cue (parsed_lines ls cues.fresh) in
      read_lines-cons (text "CUECARD:") ((ls ++ ([] ∷ [])) ++ (heading ∷ rest)) (no_contents cues)
        (inside_cue cues.fresh)
        (ap (λ l. read_trimmed cues l (no_contents cues)) cue_heading-trim
          ∙ read-cue_heading (no_contents cues))
      ∙ ap (λ t. read_lines cues t (inside_cue cues.fresh))
          (append_assoc ls ([] ∷ []) (heading ∷ rest))
      ∙ read_lines-cue ls ([] ∷ heading ∷ rest) cues.fresh h
      ∙ read_lines-cons [] (heading ∷ rest) inside inside (read-blank inside)
      ∙ read_lines-cons heading rest inside (before_registers (some cue))
          (ap (λ l. read_trimmed cues l inside) heading-trim ∙ read-heading inside)

  file_lines : Option Cue → List ℕ → List (List ℕ)
  file_lines cue ram = given_cue_lines cues cue ++ (heading ∷ register_lines 120 ram 0)

  split_lines-file :
      (cue : Option Cue) (ram : List ℕ)
      → IsWritable cue
      → split_lines (encode_constant_memory cues ram cue) ≡ file_lines cue ram
  unfolding encode_constant_memory file_lines
  split_lines-file none ram h =
      split_lines-join_lines heading (register_lines 120 ram 0) heading-IsOneLine
        (register_lines-AreOneLine cues 120 0 ram (omega arith))
  split_lines-file (some cue) ram (h, _) =
      let registers = register_lines-AreOneLine cues 120 0 ram (omega arith) in
      let ls = cues.encode_lines cue in
      split_lines-join_lines (text "CUECARD:") _ (omega arith) (
        append-AreOneLine (ls ++ ([] ∷ [])) (heading ∷ register_lines 120 ram 0)
          (append-AreOneLine ls ([] ∷ []) h (omega arith, omega arith))
          (heading-IsOneLine, registers))

  -- The file of the constant memory decodes to the 120 registers that it was written from, those of
  -- zeroes, which have no line, included, and to the cue card that the cue card's parser makes of
  -- the lines of the cue card written, if there is one: these are lines without control characters,
  -- and none is a heading.
  pub decode-encode_memory :
      (ram : List ℕ) (cue : Option Cue)
      → IsMemory ram
      → IsWritable cue
      → decode_constant_memory cues (encode_constant_memory cues ram cue) ≡ some (ram, reparsed cue)
  unfolding decode_constant_memory file_lines
  decode-encode_memory ram cue v w =
      let c = before_registers cue in
      let (f, e, q) = read-register_lines cues 120 0 ram c v (omega arith) refl (λ j l. refl) in
      let last : Contents Cue → List ℕ × Option Cue = λ c. (slice c.ram 0 1920, c.cue_card) in
      ap (λ ls. map_some last (read_lines cues ls (no_contents cues))) (split_lines-file cue ram w)
      ∙ ap (map_some last) (read-preamble cue (register_lines 120 ram 0) w ∙ e)
      ∙ ap (λ l. some (l, reparsed cue))
          (slice_same f (λ k. get_or ram k 0) 0 1920
              (λ k l. q k ∙ inside_memory k (get_or ram k 0) 0 l)
            ∙ ap (slice (λ k. get_or ram k 0) 0) (sym v.0)
            ∙ slice-get_or 0 ram)
