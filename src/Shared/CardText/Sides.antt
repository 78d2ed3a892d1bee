-- ===== src/Shared/CardText/Sides.antt =====
-- The reader over all lines of one side.
use calc_u.Base.{
  ℕ, ◌+◌, ◌-◌, ◌*◌, ◌<◌, ◌≡◌, refl, ap, ◌∙◌, List, [], ◌∷◌, ◌++◌, Option, none, some, arith, get_or,
  length,
}
use calc_u.Core.Cpu.Printer.{text}
use calc_u.Shared.TextUtil.Trim.{strip_inline_comment, to_upper, trim, before}
use calc_u.Shared.CardFile.{bank_of_page_byte}
use calc_u.Shared.CardText.{
  partition_line, data_type_line, bank_line, protection_line, checksum_line, side_lines,
}
use calc_u.Shared.CardText.Side.{SideBuilder, new_side}
use calc_u.Shared.CardText.Reader.{
  CueFormat, CardDocument, set_side, Section, side_section, header_section, data_section, Reading,
  finish_in, read_keyword, read_line, read_lines, header_word, data_word, keyword_of, Keyword,
  read_stripped,
}
use calc_u.Shared.CardText.Words.{strip_header, upper_header, strip_data, upper_data}
use calc_u.Shared.CardText.Headers.{
  IsCardBank, plain_entry, first_register-le, entry-partition_line, entry-data_type_line,
  entry-bank_line, entry-protection_line, entry-checksum_line,
}
use calc_u.Shared.CardText.Image.{headed, IsFull, get_or-default, headed-rows}
use calc_u.Shared.CardText.Steps.{put_rows, inside, next_line, next-entry, next-rows}

module _ {ℓ} {Cue : Type ℓ} (cues : CueFormat Cue) where
  -- A line that is a keyword.
  pub word_line :
      (raw line : List ℕ) (k : Keyword) (st : Reading Cue)
      → strip_inline_comment raw ≡ line
      → keyword_of (to_upper line) ≡ k
      → 0 < length line
      → read_line cues raw st ≡ read_keyword cues k line st
  unfolding read_line
  word_line raw [] k st e h l = absurd (omega arith)
  word_line raw (c ∷ cs) k st e h l =
      ap (λ t. read_stripped cues t st) e ∙ ap (λ w. read_keyword cues w (c ∷ cs) st) h

  pub next-empty :
      (rest : List (List ℕ)) (sec : Section) (side : Option SideBuilder) (i : ℕ)
      (doc : CardDocument Cue)
      → read_lines cues ([] ∷ rest) (inside cues sec side i doc)
        ≡ read_lines cues rest (inside cues sec side i doc)
  next-empty rest sec side i doc = next_line cues [] rest sec side i doc _ empty_line
    where
      empty_line :
          read_line cues [] (inside cues sec side i doc) ≡ some (inside cues sec side i doc)
      empty_line = unfold read_line strip_inline_comment before trim in refl

  next-header_word :
      (rest : List (List ℕ)) (sb : SideBuilder) (i : ℕ) (doc : CardDocument Cue)
      → read_lines cues (text "HEADER:" ∷ rest) (inside cues side_section (some sb) i doc)
        ≡ read_lines cues rest (inside cues header_section (some sb) i doc)
  next-header_word rest sb i doc =
      next_line cues (text "HEADER:") rest side_section (some sb) i doc _ (
        word_line (text "HEADER:") (text "HEADER:") header_word
          (inside cues side_section (some sb) i doc) strip_header upper_header (omega arith)
        ∙ unfold read_keyword in refl)

  next-data_word :
      (rest : List (List ℕ)) (sb : SideBuilder) (i : ℕ) (doc : CardDocument Cue)
      → read_lines cues (text "DATA:" ∷ rest) (inside cues header_section (some sb) i doc)
        ≡ read_lines cues rest (inside cues data_section (some sb) i doc)
  next-data_word rest sb i doc =
      next_line cues (text "DATA:") rest header_section (some sb) i doc _ (
        word_line (text "DATA:") (text "DATA:") data_word
          (inside cues header_section (some sb) i doc) strip_data upper_data (omega arith)
        ∙ unfold read_keyword in refl)

  -- The lines of a side, from its header on.
  pub next-side :
      (image : List ℕ) (rest : List (List ℕ)) (i : ℕ) (doc : CardDocument Cue)
      → IsCardBank image
      → read_lines cues (side_lines image ++ rest) (inside cues side_section (some new_side) i doc)
        ≡ read_lines cues rest
            (inside cues data_section (some (put_rows image 30 0 (headed image))) i doc)
  unfolding side_lines
  next-side image rest i doc v =
      let b1 = get_or-default image 1 0x11 (omega (arith, v.sized)) in
      let b2 = get_or-default image 2 0x10 (omega (arith, v.sized)) in
      let first = (bank_of_page_byte (get_or image 2 0x10) - 1) * 30 in
      let low : first < 900 =
        omega (arith, ap bank_of_page_byte b2, first_register-le (get_or image 2 0) v.paged) in
      next-header_word _ new_side i doc
      ∙ next-entry cues (partition_line (get_or image 0 0)) _ _ _ i doc
          (entry-partition_line (get_or image 0 0) (v.each 0))
      ∙ next-entry cues (data_type_line (get_or image 1 0x11)) _ _ _ i doc (
          ap (λ b. plain_entry (strip_inline_comment (data_type_line b))) b1
          ∙ entry-data_type_line (get_or image 1 0) v.typed)
      ∙ next-entry cues (bank_line (bank_of_page_byte (get_or image 2 0x10))) _ _ _ i doc (
          ap (λ b. plain_entry (strip_inline_comment (bank_line (bank_of_page_byte b)))) b2
          ∙ entry-bank_line (get_or image 2 0) v.paged)
      ∙ next-entry cues (protection_line (get_or image 3 0)) _ _ _ i doc
          (entry-protection_line (get_or image 3 0) v.protected)
      ∙ next-entry cues (checksum_line (get_or image 244 0)) _ _ _ i doc
          (entry-checksum_line (get_or image 244 0) (v.each 244))
      ∙ next-empty _ header_section (some (headed image)) i doc
      ∙ next-data_word _ (headed image) i doc
      ∙ next-rows cues image first 30 0 rest (headed image) i doc
          (λ r l k m. v.each (4 + r * 8 + k)) low (omega arith) (headed-rows image)

  -- A complete side becomes the document's.
  pub finish_in-full :
      (image : List ℕ) (sb : SideBuilder) (i : ℕ) (doc : CardDocument Cue)
      → IsFull image sb
      → finish_in (some sb) (inside cues data_section (some sb) i doc)
        ≡ some (inside cues data_section none i (set_side i image doc))
  unfolding finish_in
  finish_in-full image sb i doc (c, e) =
      rw c (ap (λ l. some (inside cues data_section none i (set_side i l doc))) e)
