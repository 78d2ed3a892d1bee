-- ===== src/Shared/CardText/Steps.antt =====
-- The reader over the lines of one side: header, then thirty rows.
use calc_u.Base.{
  ℕ, zero, suc, ◌+◌, ◌-◌, ◌*◌, ◌≤◌, ◌<◌, ◌≡◌, refl, ap, sym, ◌∙◌, inl, inr, true, false, ◌&&◌,
  if◌then◌else◌, leb, ltb, List, [], ◌∷◌, ◌++◌, Option, some, ◌>>=◌, arith, get_or, Bool-cases,
}
use calc_u.Shared.TextUtil.{starts_with}
use calc_u.Shared.TextUtil.Trim.{strip_inline_comment, to_upper, text_eq}
use calc_u.Shared.TextUtil.Framing.{strip_inline_comment-framed}
use calc_u.Shared.Bcd.Laws.{get_or-slice}
use calc_u.Shared.CardText.{Entry, decode_card_row, row_line, row_lines, rows_per_bank}
use calc_u.Shared.CardText.Side.{SideBuilder, put_entry, header_line, put_row, data_line}
use calc_u.Shared.CardText.Reader.{
  CueFormat, CardDocument, Section, header_section, data_section, Reading, Keyword, end_card_word,
  other_word, keyword_of, read_plain, read_keyword, read_stripped, read_line, read_lines,
}
use calc_u.Shared.CardText.Rows.{
  IsRow, row_of, row_line-frame, row_line-letter, decode_card_row-row_line,
}
use calc_u.Shared.CardText.Headers.{other_entry, plain_entry}

-- The builder behind the rows from `row` on.
abbrev pub put_rows : List ℕ → ℕ → ℕ → SideBuilder → SideBuilder
put_rows image zero row sb = sb
put_rows image (suc n) row sb = put_rows image n (row + 1) (put_row (row_of image row) sb)

put_row-byte :
    (image : List ℕ) (sb : SideBuilder) (row j : ℕ)
    → sb.rows ≡ row
    → (put_row (row_of image row) sb).bytes j
      ≡ (if leb (4 + row * 8) j && ltb j (4 + (row + 1) * 8) then get_or image j 0 else sb.bytes j)
unfolding put_row
put_row-byte image sb row j e =
    simp e (elim (Bool-cases (leb (4 + row * 8) j && ltb j (4 + row * 8 + 8))) [
      | inl t ↦
          let u : (leb (4 + row * 8) j && ltb j (4 + (row + 1) * 8)) ≡ true = ground (arith, t) in
          let same : 4 + row * 8 + (0 + (j - (4 + row * 8))) ≡ j = ground (arith, t) in
          rw (t, u)
            (get_or-slice (λ k. get_or image (4 + row * 8 + k) 0) 0 8 (j - (4 + row * 8)) 0
                (ground (arith, t))
              ∙ ap (λ k. get_or image k 0) same)
      | inr f ↦
          let u : (leb (4 + row * 8) j && ltb j (4 + (row + 1) * 8)) ≡ false = ground (arith, f) in
          rw (f, u) refl
    ])

put_row-fields :
    (row : List ℕ) (sb : SideBuilder) (f : ℕ → ℕ) (k k' : ℕ)
    → k ≡ k'
    → record (put_row row sb) { bytes = f; rows = k } ≡ record sb { bytes = f; rows = k' }
unfolding put_row
put_row-fields row sb f k k' e = ap (λ r. record sb { bytes = f; rows = r }) e

put_row-rows : (row : List ℕ) (sb : SideBuilder) → (put_row row sb).rows ≡ sb.rows + 1
unfolding put_row
put_row-rows row sb = refl

-- They change the bytes of their rows and no others.
pub put_rows_lem :
    (image : List ℕ) (n row : ℕ) (sb : SideBuilder)
    → sb.rows ≡ row
    → (f : ℕ → ℕ) × (put_rows image n row sb ≡ record sb { bytes = f; rows = row + n })
      × ((j : ℕ)
          → f j ≡ (
              if leb (4 + row * 8) j && ltb j (4 + (row + n) * 8)
              then get_or image j 0
              else sb.bytes j))
put_rows_lem image zero row sb e = (
  sb.bytes,
  ap (λ r. record sb { rows = r }) (let p : sb.rows ≡ row + 0 = omega (arith, e) in p),
  λ j. ground arith,
)
put_rows_lem image (suc n) row sb e =
    let next = put_row (row_of image row) sb in
    let rows : next.rows ≡ row + 1 = omega (arith, e, put_row-rows (row_of image row) sb) in
    let (f, p, q) = put_rows_lem image n (row + 1) next rows in
    (
      f,
      p ∙ put_row-fields (row_of image row) sb f (row + 1 + n) (row + suc n) (omega arith),
      λ j. ground (arith, q j, put_row-byte image sb row j e),
    )

-- The reader in a section, with the side of index `i` open or not.
module _ {ℓ} {Cue : Type ℓ} (cues : CueFormat Cue) where
  abbrev pub inside : Section → Option SideBuilder → ℕ → CardDocument Cue → Reading Cue
  inside sec side i doc = record {
    section_now = sec;
    doc = doc;
    cue = cues.fresh;
    has_cue = false;
    ended = false;
    side = side;
    side_index = i;
  }

  pub next_line :
      (raw : List ℕ) (rest : List (List ℕ)) (sec : Section) (side : Option SideBuilder) (i : ℕ)
      (doc : CardDocument Cue) (st : Reading Cue)
      → read_line cues raw (inside sec side i doc) ≡ some st
      → read_lines cues (raw ∷ rest) (inside sec side i doc) ≡ read_lines cues rest st
  unfolding read_lines
  next_line raw rest sec side i doc st h = ap (λ o. o >>= read_lines cues rest) h

  keyword-header :
      (k : Keyword) (line : List ℕ) (e : Entry) (sb : SideBuilder) (i : ℕ) (doc : CardDocument Cue)
      → other_entry k line ≡ some e
      → read_keyword cues k line (inside header_section (some sb) i doc)
        ≡ some (inside header_section (some (put_entry e sb)) i doc)
  unfolding read_keyword read_plain header_line
  keyword-header other_word line e sb i doc h = rw h refl
  keyword-header end_card_word line e sb i doc h = cc
  keyword-header _ line e sb i doc h = cc

  stripped-header :
      (line : List ℕ) (e : Entry) (sb : SideBuilder) (i : ℕ) (doc : CardDocument Cue)
      → plain_entry line ≡ some e
      → read_stripped cues line (inside header_section (some sb) i doc)
        ≡ some (inside header_section (some (put_entry e sb)) i doc)
  stripped-header [] e sb i doc h = cc
  stripped-header (c ∷ cs) e sb i doc h = keyword-header _ (c ∷ cs) e sb i doc h

  -- A line of the header that holds an entry.
  pub next-entry :
      (raw : List ℕ) (rest : List (List ℕ)) (e : Entry) (sb : SideBuilder) (i : ℕ)
      (doc : CardDocument Cue)
      → plain_entry (strip_inline_comment raw) ≡ some e
      → read_lines cues (raw ∷ rest) (inside header_section (some sb) i doc)
        ≡ read_lines cues rest (inside header_section (some (put_entry e sb)) i doc)
  next-entry raw rest e sb i doc h =
      next_line raw rest header_section (some sb) i doc _
        (unfold read_line in stripped-header (strip_inline_comment raw) e sb i doc h)

  keyword_of-row : (cs : List ℕ) → keyword_of (to_upper (82 ∷ cs)) ≡ other_word
  unfolding keyword_of to_upper text_eq starts_with
  keyword_of-row cs = refl

  stripped-row :
      (cs row : List ℕ) (sb : SideBuilder) (i : ℕ) (doc : CardDocument Cue)
      → decode_card_row (82 ∷ cs) ≡ some row
      → sb.rows < 30
      → read_stripped cues (82 ∷ cs) (inside data_section (some sb) i doc)
        ≡ some (inside data_section (some (put_row row sb)) i doc)
  unfolding read_keyword read_plain data_line
  stripped-row cs row sb i doc h l =
      let t : leb rows_per_bank sb.rows ≡ false = ground (arith, l) in
      rw (keyword_of-row cs, t, h) refl

  -- A line of the data.
  pub next-row :
      (image : List ℕ) (first row : ℕ) (rest : List (List ℕ)) (sb : SideBuilder) (i : ℕ)
      (doc : CardDocument Cue)
      → IsRow image row
      → first + row < 1000
      → sb.rows < 30
      → read_lines cues (row_line image first row ∷ rest) (inside data_section (some sb) i doc)
        ≡ read_lines cues rest (inside data_section (some (put_row (row_of image row) sb)) i doc)
  next-row image first row rest sb i doc h l k =
      let raw = row_line image first row in
      let st = inside data_section (some sb) i doc in
      let (p, a, z) = row_line-frame image first row l in
      let (cs, q) = row_line-letter image first row in
      let e = strip_inline_comment-framed raw p a z ∙ q in
      let d = ap decode_card_row (sym e) ∙ decode_card_row-row_line image first row h l in
      next_line raw rest data_section (some sb) i doc _ (
        unfold read_line in
        ap (λ t. read_stripped cues t st) e ∙ stripped-row cs (row_of image row) sb i doc d k)

  -- All rows from `row` on.
  pub next-rows :
      (image : List ℕ) (first n row : ℕ) (rest : List (List ℕ)) (sb : SideBuilder) (i : ℕ)
      (doc : CardDocument Cue)
      → ((r : ℕ) → r < 30 → IsRow image r)
      → first < 900
      → row + n ≤ 30
      → sb.rows ≡ row
      → read_lines cues (row_lines image first n row ++ rest) (inside data_section (some sb) i doc)
        ≡ read_lines cues rest (inside data_section (some (put_rows image n row sb)) i doc)
  next-rows image first zero row rest sb i doc h l k e = refl
  next-rows image first (suc n) row rest sb i doc h l k e =
      next-row image first row (row_lines image first n (row + 1) ++ rest) sb i doc
        (h row (omega (arith, k))) (omega (arith, k, l)) (omega (arith, k, e))
      ∙ next-rows image first n (row + 1) rest (put_row (row_of image row) sb) i doc h l
          (omega (arith, k)) (omega (arith, e, put_row-rows (row_of image row) sb))
