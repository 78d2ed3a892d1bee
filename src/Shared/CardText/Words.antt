-- ===== src/Shared/CardText/Words.antt =====
-- The keywords of a card's text are read as what they are.
use calc_u.Base.{◌≡◌, refl, some, drop, pos}
use calc_u.Core.Cpu.Printer.{text}
use calc_u.Shared.TextUtil.{starts_with, parse_dec, dec_value}
use calc_u.Shared.TextUtil.Trim.{
  strip_inline_comment, to_upper, text_eq, before, trim, space_of, space_at, space_before,
  trim_left, trim_right,
}
use calc_u.Shared.CardText.Reader.{end_card_word, side_word, header_word, data_word, keyword_of}

pub strip_end : strip_inline_comment (text "END-CARD") ≡ text "END-CARD"
unfolding strip_inline_comment trim trim_left trim_right space_before space_at space_of before
strip_end = refl

pub upper_end : keyword_of (to_upper (text "END-CARD")) ≡ end_card_word
unfolding keyword_of to_upper text_eq starts_with
upper_end = refl

pub strip_header : strip_inline_comment (text "HEADER:") ≡ text "HEADER:"
unfolding strip_inline_comment trim trim_left trim_right space_before space_at space_of before
strip_header = refl

pub upper_header : keyword_of (to_upper (text "HEADER:")) ≡ header_word
unfolding keyword_of to_upper text_eq starts_with
upper_header = refl

pub strip_data : strip_inline_comment (text "DATA:") ≡ text "DATA:"
unfolding strip_inline_comment trim trim_left trim_right space_before space_at space_of before
strip_data = refl

pub upper_data : keyword_of (to_upper (text "DATA:")) ≡ data_word
unfolding keyword_of to_upper text_eq starts_with
upper_data = refl

pub strip_side_1 : strip_inline_comment (text "SIDE: 1") ≡ text "SIDE: 1"
unfolding strip_inline_comment trim trim_left trim_right space_before space_at space_of before
strip_side_1 = refl

pub upper_side_1 : keyword_of (to_upper (text "SIDE: 1")) ≡ side_word
unfolding keyword_of to_upper text_eq starts_with
upper_side_1 = refl

pub strip_side_2 : strip_inline_comment (text "SIDE: 2") ≡ text "SIDE: 2"
unfolding strip_inline_comment trim trim_left trim_right space_before space_at space_of before
strip_side_2 = refl

pub upper_side_2 : keyword_of (to_upper (text "SIDE: 2")) ≡ side_word
unfolding keyword_of to_upper text_eq starts_with
upper_side_2 = refl

pub number_1 : parse_dec (trim (drop 5 (text "SIDE: 1"))) ≡ some (pos 1)
unfolding parse_dec dec_value trim trim_left trim_right space_before space_at space_of
number_1 = refl

pub number_2 : parse_dec (trim (drop 5 (text "SIDE: 2"))) ≡ some (pos 2)
unfolding parse_dec dec_value trim trim_left trim_right space_before space_at space_of
number_2 = refl
