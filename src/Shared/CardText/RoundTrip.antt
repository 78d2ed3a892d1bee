-- ===== src/Shared/CardText/RoundTrip.antt =====
-- A card of version 2 that is written reads back.
use calc_u.Base.{
  ℕ, drop, pos, ◌-◌, ◌≤◌, ◌<◌, ◌≡◌, refl, ap, ◌∙◌, true, false, ltb, List, [], ◌∷◌, ◌++◌, Option,
  none, some, ◌>>=◌, map_some, arith, length,
}
use calc_u.Core.Cpu.Printer.{text}
use calc_u.Shared.TextUtil.{parse_dec}
use calc_u.Shared.TextUtil.Trim.{strip_inline_comment, to_upper, to_string, trim}
use calc_u.Shared.CardText.{side_lines}
use calc_u.Shared.CardText.Side.{SideBuilder, new_side}
use calc_u.Shared.CardText.Reader.{
  CueFormat, CardDocument, set_side, side_of, Section, no_section, side_section, data_section,
  Reading, finish_in, open_side, read_keyword, read_lines, finished, parse_card_text_v2,
  optional_side_lines, document_lines, end_card_word, side_word, keyword_of,
}
use calc_u.Shared.CardText.Words.{
  strip_end, upper_end, strip_side_1, upper_side_1, strip_side_2, upper_side_2, number_1, number_2,
}
use calc_u.Shared.CardText.Headers.{AreCardBanks, IsCardBank}
use calc_u.Shared.CardText.Image.{headed, full_lem}
use calc_u.Shared.CardText.Sides.{word_line, next-empty, next-side, finish_in-full}
use calc_u.Shared.CardText.Steps.{put_rows, inside, next_line}

module _ {ℓ} {Cue : Type ℓ} (cues : CueFormat Cue) where
  -- The side that is open, if any, is complete, and the document is then `done`.
  abbrev Pending : Section → Option SideBuilder → ℕ → CardDocument Cue → CardDocument Cue → Type ℓ
  Pending sec side i doc done =
      finish_in side (inside cues sec side i doc) ≡ some (inside cues sec none i done)

  open-fresh :
      (n i : ℕ) (sec : Section) (done : CardDocument Cue)
      → 1 ≤ n
      → n ≤ 2
      → side_of done (n - 1) ≡ none
      → open_side (some (pos n)) (inside cues sec none i done)
        ≡ some (inside cues side_section (some new_side) (n - 1) done)
  unfolding open_side
  open-fresh n i sec done h k e =
      let a : ltb n 1 ≡ false = ground (arith, h) in
      let b : ltb 2 n ≡ false = ground (arith, k) in rw (a, b, e) refl

  -- A side's first two lines close the one before and open a fresh one.
  next-open :
      (word : List ℕ) (n : ℕ) (rest : List (List ℕ)) (sec : Section) (side : Option SideBuilder)
      (i : ℕ) (doc done : CardDocument Cue)
      → strip_inline_comment word ≡ word
      → keyword_of (to_upper word) ≡ side_word
      → 0 < length word
      → parse_dec (trim (drop 5 word)) ≡ some (pos n)
      → 1 ≤ n
      → n ≤ 2
      → Pending sec side i doc done
      → side_of done (n - 1) ≡ none
      → read_lines cues ([] ∷ word ∷ rest) (inside cues sec side i doc)
        ≡ read_lines cues rest (inside cues side_section (some new_side) (n - 1) done)
  next-open word n rest sec side i doc done s u l d h k p q =
      next-empty cues (word ∷ rest) sec side i doc
      ∙ next_line cues word rest sec side i doc
          (inside cues side_section (some new_side) (n - 1) done)
          (word_line cues word word side_word (inside cues sec side i doc) s u l
            ∙ unfold read_keyword in
              ap (λ (o : Option (Reading Cue)). o >>= open_side (parse_dec (trim (drop 5 word)))) p
              ∙ ap (λ m. open_side m (inside cues sec none i done)) d
              ∙ open-fresh n i sec done h k q)

  -- The last two lines end the card.
  end_lem :
      (sec : Section) (side : Option SideBuilder) (i : ℕ) (doc done : CardDocument Cue)
      → Pending sec side i doc done
      → (read_lines cues ([] ∷ text "END-CARD" ∷ []) (inside cues sec side i doc) >>= finished cues)
        ≡ some done
  end_lem sec side i doc done p =
      ap (λ (o : Option (Reading Cue)). o >>= finished cues)
        (next-empty cues (text "END-CARD" ∷ []) sec side i doc
          ∙ next_line cues (text "END-CARD") [] sec side i doc
              (record (inside cues sec none i done) { ended = true })
              (word_line cues (text "END-CARD") (text "END-CARD") end_card_word
                  (inside cues sec side i doc) strip_end upper_end (omega arith)
                ∙ unfold read_keyword in
                  ap (map_some (λ (s : Reading Cue). record s { ended = true })) p))
      ∙ unfold read_lines in refl

  full-Pending :
      (image : List ℕ) (i : ℕ) (doc : CardDocument Cue)
      → IsCardBank image
      → Pending data_section
          (some (put_rows image 30 0 (headed image)))
          i
          doc
          (set_side i image doc)
  full-Pending image i doc v =
      finish_in-full cues image (put_rows image 30 0 (headed image)) i doc (full_lem image v)

  abbrev pub two_sides : Option (List ℕ) → Option (List ℕ) → CardDocument Cue
  two_sides a b = record { version = 2; cue_card = none; side_1 = a; side_2 = b; single_side = [] }

  nothing-Pending : (sec : Section) (i : ℕ) (doc : CardDocument Cue) → Pending sec none i doc doc
  nothing-Pending sec i doc = unfold finish_in in refl

  -- Side 2 and the end, behind whatever is open.
  second_lem :
      (b : Option (List ℕ)) (sec : Section) (side : Option SideBuilder) (i : ℕ)
      (doc : CardDocument Cue) (a : Option (List ℕ))
      → AreCardBanks b
      → Pending sec side i doc (two_sides a none)
      → (read_lines cues
            (optional_side_lines cues 2 b ++ ([] ∷ text "END-CARD" ∷ []))
            (inside cues sec side i doc)
          >>= finished cues)
        ≡ some (two_sides a b)
  unfolding to_string
  second_lem none sec side i doc a v p = end_lem sec side i doc (two_sides a none) p
  second_lem (some image) sec side i doc a v p =
      let ending = [] ∷ text "END-CARD" ∷ [] in
      let sb = put_rows image 30 0 (headed image) in
      let q : Pending data_section (some sb) 1 (two_sides a none) (two_sides a (some image)) =
        full-Pending image 1 (two_sides a none) v ∙ unfold set_side in refl in
      ap (λ (o : Option (Reading Cue)). o >>= finished cues)
        (next-open (text "SIDE: 2") 2 (side_lines image ++ ending) sec side i doc (two_sides a none)
            strip_side_2 upper_side_2 (omega arith) number_2 (omega arith) (omega arith) p
            (unfold side_of in refl)
          ∙ next-side cues image ending 1 (two_sides a none) v)
      ∙ end_lem data_section (some sb) 1 (two_sides a none) (two_sides a (some image)) q

  first_lem :
      (a b : Option (List ℕ))
      → AreCardBanks a
      → AreCardBanks b
      → (read_lines cues
            (optional_side_lines cues 1 a
              ++ (optional_side_lines cues 2 b ++ ([] ∷ text "END-CARD" ∷ [])))
            (inside cues no_section none 0 (two_sides none none))
          >>= finished cues)
        ≡ some (two_sides a b)
  unfolding to_string
  first_lem none b v w =
      second_lem b no_section none 0 (two_sides none none) none w
        (nothing-Pending no_section 0 (two_sides none none))
  first_lem (some image) b v w =
      let rest = optional_side_lines cues 2 b ++ ([] ∷ text "END-CARD" ∷ []) in
      let sb = put_rows image 30 0 (headed image) in
      let q : Pending data_section (some sb) 0 (two_sides none none) (two_sides (some image) none) =
        full-Pending image 0 (two_sides none none) v ∙ unfold set_side in refl in
      ap (λ (o : Option (Reading Cue)). o >>= finished cues)
        (next-open (text "SIDE: 1") 1 (side_lines image ++ rest) no_section none 0
            (two_sides none none) (two_sides none none) strip_side_1 upper_side_1 (omega arith)
            number_1 (omega arith) (omega arith)
            (nothing-Pending no_section 0 (two_sides none none)) (unfold side_of in refl)
          ∙ next-side cues image rest 0 (two_sides none none) v)
      ∙ second_lem b data_section (some sb) 0 (two_sides none none) (some image) w q

  -- A card without a cue card whose sides, none, one or two, are card banks reads back from the
  -- lines that it is written as: the same sides, of the same bytes.
  pub parse-document_lines :
      (a b : Option (List ℕ))
      → AreCardBanks a
      → AreCardBanks b
      → parse_card_text_v2 cues (document_lines cues (two_sides a b)) ≡ some (two_sides a b)
  unfolding parse_card_text_v2 document_lines
  parse-document_lines a b v w = first_lem a b v w
