-- ===== src/Shared/ConstantMemory/Registers.antt =====
-- A register's line of the constant memory is read back.
use calc_u.Base.{
  ℕ, zero, suc, ◌+◌, ◌/◌, ◌%◌, ◌≤◌, ◌<◌, ◌≡◌, ◌≢◌, refl, ap, sym, ◌∙◌, Bool, true, false, ◌==◌,
  List, [], ◌∷◌, ◌++◌, Option, none, some, ◌>>=◌, length, drop, arith, all_below, table, ==_iff,
}
use mathlib.Core.List.{append-nil}
use mathlib.Core.Path.{subst}
use calc_u.Core.Cpu.Printer.{text}
use calc_u.Shared.TextUtil.{starts_with, parse_dec, dec_value}
use calc_u.Shared.TextUtil.Laws.{append_assoc}
use calc_u.Shared.TextUtil.Trim.{trim, split_from, split_on}
use calc_u.Shared.TextUtil.Framing.{
  ArePlain, StartsInk, EndsInk, append-ArePlain, append-EndsInk, trim-framed,
}
use calc_u.Shared.Bcd.{
  encode_register_line, spaced, upper_hex, register_line_hex, parse_register_line_hex,
}
use calc_u.Shared.Bcd.Laws.{AreBytes, line-AreBytes, line-length, parse_lem}
use calc_u.Shared.CardText.{row_label, spaced_bytes}
use calc_u.Shared.CardText.Rows.{
  spaced-append, spaced_bytes-ArePlain, spaced_bytes-EndsInk, trim-spaced_bytes,
}
use calc_u.Shared.CardText.Reader.{CueFormat}
use calc_u.Shared.ConstantMemory.{
  register_of, register_line, register_index, Contents, store_register, read_parts, read_trimmed,
}

-- A space and the line of the bytes are the bytes with a space before each.
spaced_lem : (bs : List ℕ) → 0 < length bs → 32 ∷ spaced [] bs ≡ spaced_bytes bs
spaced_lem [] h = absurd (omega arith)
spaced_lem (b ∷ bs) h =
    ap (λ l. 32 ∷ l) (spaced-append bs (upper_hex (b / 16)) (upper_hex (b % 16) ∷ []))

-- No colon.
abbrev HasNoColon : List ℕ → Type 0
HasNoColon [] = 0 ≤ 0
HasNoColon (c ∷ cs) = (c ≢ 58) × HasNoColon cs

upper_hex-no_colon : (d : ℕ) → d < 16 → upper_hex d ≢ 58
upper_hex-no_colon d h e = ground (arith, h, e)

spaced_bytes-HasNoColon : (bs : List ℕ) → AreBytes bs → HasNoColon (spaced_bytes bs)
spaced_bytes-HasNoColon [] h = omega arith
spaced_bytes-HasNoColon (b ∷ bs) (l, h) = (
  (λ e. absurd (omega (arith, e))),
  (
    upper_hex-no_colon (b / 16) (omega (arith, l)),
    (upper_hex-no_colon (b % 16) (omega arith), spaced_bytes-HasNoColon bs h),
  ),
)

split_from-last :
    (f : ℕ) (piece s : List ℕ)
    → HasNoColon s
    → length s < f
    → split_from f (text ":") piece s ≡ (piece ++ s) ∷ []
unfolding split_from starts_with
split_from-last zero piece s h l = absurd (omega arith)
split_from-last (suc f) piece [] h l = ap (λ p. p ∷ []) (sym (append-nil piece))
split_from-last (suc f) piece (c ∷ cs) (n, h) l =
    let other : (c == 58) ≡ false = ground (arith, n) in
    rw other (split_from-last f (piece ++ (c ∷ [])) cs h (omega (arith, l)))
    ∙ ap (λ p. p ∷ []) (append_assoc piece (c ∷ []) cs)

-- The letter and the digits of a register's number.
abbrev label : ℕ → List ℕ
label n = 82 ∷ (48 + n / 100) ∷ (48 + n / 10 % 10) ∷ (48 + n % 10) ∷ []

split_on-row :
    (n : ℕ) (s : List ℕ)
    → n < 120
    → HasNoColon s
    → split_on (row_label n ++ s) (text ":") ≡ label n ∷ s ∷ []
unfolding split_on split_from starts_with
split_on-row n s h k =
    let a : (48 + n / 100 == 58) ≡ false = ground (arith, h) in
    let b : (48 + n / 10 % 10 == 58) ≡ false = ground arith in
    let c : (48 + n % 10 == 58) ≡ false = ground arith in
    rw (a, b, c) (ap (λ l. label n ∷ l) (split_from-last (suc (length s)) [] s k (omega arith)))

abbrev is_index : Option ℕ → ℕ → Bool
is_index none n = false
is_index (some m) n = m == n

is_index-some : (o : Option ℕ) (n : ℕ) → is_index o n ≡ true → o ≡ some n
is_index-some none n h = cc
is_index-some (some m) n h = ap some ((==_iff m n).0 h)

number_table :
    all_below 120 (λ n. is_index (register_index (parse_dec (drop 1 (label n)))) n) ≡ true
unfolding all_below parse_dec dec_value
number_table = refl

number_lem : (n : ℕ) → n < 120 → register_index (parse_dec (drop 1 (label n))) ≡ some n
number_lem n h = is_index-some _ n (table 120 _ number_table n h)

-- The text behind the colon.
abbrev tail : List ℕ → ℕ → List ℕ
tail ram reg = 32 ∷ register_line_hex (register_of ram reg)

tail_lem :
    (ram : List ℕ) (reg : ℕ)
    → tail ram reg ≡ spaced_bytes (encode_register_line (register_of ram reg))
unfolding register_line_hex
tail_lem ram reg =
    let n = register_of ram reg in
    spaced_lem (encode_register_line n) (omega (arith, line-length n))

parse_tail :
    (ram : List ℕ) (reg : ℕ)
    → parse_register_line_hex (trim (tail ram reg))
      ≡ some (encode_register_line (register_of ram reg))
parse_tail ram reg =
    let bs = encode_register_line (register_of ram reg) in
    let l = line-length (register_of ram reg) in
    let b = line-AreBytes (register_of ram reg) in
    ap (λ t. parse_register_line_hex (trim t)) (tail_lem ram reg)
    ∙ ap parse_register_line_hex (trim-spaced_bytes bs b (omega (arith, l)))
    ∙ parse_lem bs b l

pub register_line-frame :
    (ram : List ℕ) (reg : ℕ)
    → reg < 120
    → ArePlain (register_line ram reg)
      × StartsInk (register_line ram reg)
      × EndsInk (register_line ram reg)
register_line-frame ram reg h =
    let bs = encode_register_line (register_of ram reg) in
    let l = line-length (register_of ram reg) in
    let b = line-AreBytes (register_of ram reg) in
    let e = tail_lem ram reg in
    (
      append-ArePlain (row_label reg) (tail ram reg)
          (
            ground arith,
            (ground arith, (ground arith, (ground arith, (ground arith, ground arith)))),
          )
          (subst ArePlain (sym e) (spaced_bytes-ArePlain bs b)),
      omega arith,
      append-EndsInk (row_label reg) (tail ram reg)
          (subst EndsInk (sym e) (ends bs b (omega (arith, l)))),
    )
  where
    ends : (bs : List ℕ) → AreBytes bs → 0 < length bs → EndsInk (spaced_bytes bs)
    ends [] h l = absurd (omega arith)
    ends (b ∷ bs) h l = spaced_bytes-EndsInk b bs h

module _ {ℓ} {Cue : Type ℓ} (cues : CueFormat Cue) where
  -- A register's line stores the bytes of the register.
  pub read-register_line :
      (ram : List ℕ) (reg : ℕ) (c : Contents Cue)
      → reg < 120
      → c.in_cue_card ≡ false
      → read_trimmed cues (trim (register_line ram reg)) c
        ≡ some (store_register reg (encode_register_line (register_of ram reg)) c)
  unfolding read_trimmed starts_with read_parts
  read-register_line ram reg c h out =
      let (p, a, z) = register_line-frame ram reg h in
      let bs = encode_register_line (register_of ram reg) in
      let no_colon =
        subst HasNoColon (sym (tail_lem ram reg))
          (spaced_bytes-HasNoColon bs (line-AreBytes (register_of ram reg))) in
      ap (λ l. read_trimmed cues l c) (trim-framed (register_line ram reg) p a z)
      ∙ simp out refl
      ∙ ap (λ parts. read_parts parts c) (split_on-row reg (tail ram reg) h no_colon)
      ∙ ap
          (λ (o : Option ℕ). o >>= λ r. parse_register_line_hex (trim (tail ram reg)) >>= λ bytes.
            some (store_register r bytes c))
          (number_lem reg h)
      ∙ ap (λ (o : Option (List ℕ)). o >>= λ bytes. some (store_register reg bytes c))
          (parse_tail ram reg)
