-- ===== src/Shared/CardText/Sound.antt =====
-- Whatever text is read as a card of version 2, its sides are whole card banks.
use calc_u.Base.{
  ℕ, zero, suc, ◌+◌, ◌-◌, ◌≤◌, ◌<◌, ◌≡◌, refl, ap, sym, ◌∙◌, Bool, true, false, ◌&&◌, ◌||◌,
  if◌then◌else◌, leb, ltb, ◌==◌, List, [], ◌∷◌, Option, none, some, ℤ, pos, negsuc, slice, get_or,
  length-slice, arith, drop,
}
use mathlib.Core.Path.{subst}
use calc_u.Shared.TextUtil.{parse_dec}
use calc_u.Shared.TextUtil.Trim.{trim, strip_inline_comment}
use calc_u.Shared.Bcd.Laws.{get_or-slice}
use calc_u.Shared.CardText.{header_entry, decode_card_row}
use calc_u.Shared.CardText.Side.{
  SideBuilder, new_side, put_entry, header_line, put_row, data_line, complete,
}
use calc_u.Shared.CardText.Reader.{
  CueFormat, CardDocument, side_of, set_side, Section, no_section, cue_section, side_section,
  header_section, data_section, Reading, Keyword, end_card_word, cue_card_word, side_word,
  header_word, data_word, other_word, finish_in, open_side, on_side, read_plain, read_keyword,
  read_stripped, read_line, read_lines, begin_reading, with_cue, finished, parse_card_text_v2,
  is_written, is_open, is_side, is_header,
}
use calc_u.Shared.CardText.Headers.{AreCardBanks, IsCardBank, IsDataType, IsPageByte, IsProtection}
use calc_u.Shared.CardText.Building.{IsGood, new_side-IsGood, put_entry-IsGood, put_row-IsGood}
use calc_u.Shared.CardText.Values.{
  Holds, bind-Holds, map-Holds, if-Holds, IsEntry, header_entry-Holds, IsEight,
  decode_card_row-Holds, slice-bytes,
}

both : (a b : Bool) → (a && b) ≡ true → (a ≡ true) × (b ≡ true)
both true b h = (refl, h)
both false b h = cc

get_or-byte : (f : ℕ → ℕ) (k : ℕ) → k < 246 → get_or (slice f 0 246) k 0 ≡ f k
get_or-byte f k h = get_or-slice f 0 246 k 0 h ∙ ap f (let e : 0 + k ≡ k = omega arith in e)

-- A complete side is a card bank.
complete-IsCardBank :
    (sb : SideBuilder) → complete sb ≡ true → IsGood sb → IsCardBank (slice sb.bytes 0 246)
unfolding complete
complete-IsCardBank sb c g =
    let (c1, _) = both _ (sb.rows == 30) c in
    let (c2, _) = both _ sb.has_checksum c1 in
    let (c3, p) = both _ sb.has_protection c2 in
    let (c4, b) = both _ sb.has_bank c3 in
    let (_, t) = both sb.has_partition sb.has_data_type c4 in
    record {
      sized = length-slice sb.bytes 0 246;
      each = λ k. slice-bytes sb.bytes 0 246 k g.each;
      typed = subst IsDataType (sym (get_or-byte sb.bytes 1 (omega arith))) (g.typed t);
      paged = subst IsPageByte (sym (get_or-byte sb.bytes 2 (omega arith))) (g.paged b);
      protected = subst IsProtection (sym (get_or-byte sb.bytes 3 (omega arith))) (g.protected p);
      summed =
          get_or-byte sb.bytes 245 (omega arith)
          ∙ g.summed
          ∙ sym (get_or-byte sb.bytes 244 (omega arith));
    }

-- An open side is right so far, and the written ones are card banks.
abbrev IsOpenGood : Option SideBuilder → Type 0
IsOpenGood none = 0 ≤ 0
IsOpenGood (some sb) = IsGood sb

module _ {ℓ} {Cue : Type ℓ} where
  abbrev pub IsDocument : CardDocument Cue → Type 0
  IsDocument doc = (doc.version ≡ 2) × AreCardBanks doc.side_1 × AreCardBanks doc.side_2

  abbrev IsReading : Reading Cue → Type 0
  IsReading st = IsOpenGood st.side × IsDocument st.doc

  set_side-IsDocument :
      (k : ℕ) (image : List ℕ) (doc : CardDocument Cue)
      → IsCardBank image
      → IsDocument doc
      → IsDocument (set_side k image doc)
  unfolding set_side
  set_side-IsDocument zero image doc v (n, a, b) = (n, v, b)
  set_side-IsDocument (suc k) image doc v (n, a, b) = (n, a, v)

  finish_in-Holds :
      (o : Option SideBuilder) (st : Reading Cue)
      → IsOpenGood o
      → IsReading st
      → Holds (λ s. IsReading s) (finish_in o st)
  unfolding finish_in
  finish_in-Holds none st g h = h
  finish_in-Holds (some sb) st g (_, d) =
      if-Holds (λ s. IsReading s) (complete sb)
        (some
          (record st { doc = set_side st.side_index (slice sb.bytes 0 246) st.doc; side = none }))
        none
        (λ e. (
          omega arith,
          set_side-IsDocument st.side_index (slice sb.bytes 0 246) st.doc
              (complete-IsCardBank sb e g) d,
        ))
        (λ e. omega arith)

  open_side-Holds :
      (o : Option ℤ) (st : Reading Cue) → IsReading st → Holds (λ s. IsReading s) (open_side o st)
  unfolding open_side
  open_side-Holds none st h = omega arith
  open_side-Holds (some (negsuc k)) st h = omega arith
  open_side-Holds (some (pos n)) st (_, d) =
      if-Holds (λ s. IsReading s) (ltb n 1 || ltb 2 n || is_written (side_of st.doc (n - 1))) none
        (some (record st { side_index = n - 1; side = some new_side; section_now = side_section }))
        (λ e. omega arith) (λ e. (new_side-IsGood, d))

  on_side-Holds :
      (f : SideBuilder → Option SideBuilder) (o : Option SideBuilder) (st : Reading Cue)
      → ((sb : SideBuilder) → IsGood sb → Holds IsGood (f sb))
      → IsOpenGood o
      → IsReading st
      → Holds (λ s. IsReading s) (on_side f o st)
  on_side-Holds f none st k g h = omega arith
  on_side-Holds f (some sb) st k g (_, d) =
      map-Holds IsGood (λ s. IsReading s) (f sb) (λ sb'. record st { side = some sb' }) (k sb g)
        (λ sb' g'. (g', d))

  module _ (cues : CueFormat Cue) where
    read_plain-Holds :
        (sec : Section) (line : List ℕ) (st : Reading Cue)
        → IsReading st
        → Holds (λ s. IsReading s) (read_plain cues sec line st)
    unfolding read_plain header_line data_line
    read_plain-Holds no_section line st h = omega arith
    read_plain-Holds side_section line st h = omega arith
    read_plain-Holds cue_section line st h = h
    read_plain-Holds header_section line st h =
        on_side-Holds (header_line line) st.side st
          (λ sb g.
            map-Holds IsEntry IsGood (header_entry line) (λ e. put_entry e sb)
              (header_entry-Holds line) (λ e l. put_entry-IsGood e sb l g))
          h.0 h
    read_plain-Holds data_section line st h =
        on_side-Holds (data_line line) st.side st
          (λ sb g.
            if-Holds IsGood (leb 30 sb.rows) none _ (λ e. omega arith)
              (λ e.
                map-Holds IsEight IsGood (decode_card_row line) (λ row. put_row row sb)
                  (decode_card_row-Holds line)
                  (λ row r. put_row-IsGood row sb (ground (arith, e)) r g)))
          h.0 h

    read_keyword-Holds :
        (k : Keyword) (line : List ℕ) (st : Reading Cue)
        → IsReading st
        → Holds (λ s. IsReading s) (read_keyword cues k line st)
    unfolding read_keyword
    read_keyword-Holds end_card_word line st h =
        map-Holds (λ s. IsReading s) (λ s. IsReading s) (finish_in st.side st)
          (λ (s : Reading Cue). record s { ended = true }) (finish_in-Holds st.side st h.0 h)
          (λ s g. g)
    read_keyword-Holds cue_card_word line st h =
        if-Holds (λ s. IsReading s) (is_open st.side || st.has_cue) none
          (some (record st { section_now = cue_section; has_cue = true })) (λ e. omega arith)
          (λ e. h)
    read_keyword-Holds side_word line st h =
        bind-Holds (λ s. IsReading s) (λ s. IsReading s) (finish_in st.side st)
          (open_side (parse_dec (trim (drop 5 line)))) (finish_in-Holds st.side st h.0 h)
          (λ s g. open_side-Holds (parse_dec (trim (drop 5 line))) s g)
    read_keyword-Holds header_word line st h =
        if-Holds (λ s. IsReading s) (is_side st.section_now)
          (some (record st { section_now = header_section })) none (λ e. h) (λ e. omega arith)
    read_keyword-Holds data_word line st h =
        if-Holds (λ s. IsReading s) (is_header st.section_now)
          (some (record st { section_now = data_section })) none (λ e. h) (λ e. omega arith)
    read_keyword-Holds other_word line st h = read_plain-Holds st.section_now line st h

    read_stripped-Holds :
        (line : List ℕ) (st : Reading Cue)
        → IsReading st
        → Holds (λ s. IsReading s) (read_stripped cues line st)
    read_stripped-Holds [] st h = h
    read_stripped-Holds (c ∷ cs) st h = read_keyword-Holds _ (c ∷ cs) st h

    read_lines-Holds :
        (ls : List (List ℕ)) (st : Reading Cue)
        → IsReading st
        → Holds (λ s. IsReading s) (read_lines cues ls st)
    unfolding read_lines read_line
    read_lines-Holds [] st h = h
    read_lines-Holds (l ∷ ls) st h =
        if-Holds (λ s. IsReading s) st.ended (some st) _ (λ e. h)
          (λ e.
            bind-Holds (λ s. IsReading s) (λ s. IsReading s)
              (read_stripped cues (strip_inline_comment l) st) (read_lines cues ls)
              (read_stripped-Holds (strip_inline_comment l) st h) (λ s g. read_lines-Holds ls s g))

    finished-Holds :
        (st : Reading Cue) → IsReading st → Holds (λ d. IsDocument d) (finished cues st)
    finished-Holds st (_, d) =
        if-Holds (λ d. IsDocument d) st.ended (some (with_cue cues st)) none
          (λ e. cue_lem st.has_cue) (λ e. omega arith)
      where
        cue_lem :
            (b : Bool)
            → IsDocument (
                if b
                then record (st.doc) { cue_card = some (cues.on_magnet_card st.cue) }
                else st.doc)
        cue_lem true = d
        cue_lem false = d

    -- Whatever the lines are, a card that is read from them has version 2, and each of its sides
    -- is a card bank, whole: 246 bytes, program or data, a bank from 1 to 4, protected or not, the
    -- checksum twice.
    pub parse_card_text_v2-IsDocument :
        (lines : List (List ℕ)) (doc : CardDocument Cue)
        → parse_card_text_v2 cues lines ≡ some doc
        → IsDocument doc
    unfolding parse_card_text_v2
    parse_card_text_v2-IsDocument lines doc e =
        subst (λ o. Holds (λ d. IsDocument d) o) e
          (bind-Holds (λ s. IsReading s) (λ d. IsDocument d)
            (read_lines cues (drop 1 lines) (begin_reading cues)) (finished cues)
            (read_lines-Holds (drop 1 lines) (begin_reading cues)
              (omega arith, (refl, omega arith, omega arith)))
            (λ s g. finished-Holds s g))
