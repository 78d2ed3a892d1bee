-- ===== src/Shared/ConstantMemory/RoundTrip.antt =====
-- The register lines of the constant memory's file are read back.
use calc_u.Base.{
  ℕ, zero, suc, ◌+◌, ◌-◌, ◌*◌, ◌≤◌, ◌<◌, ◌≡◌, refl, ap, sym, ◌∙◌, inl, inr, Bool, true, false, ◌&&◌,
  if◌then◌else◌, leb, ltb, ◌==◌, List, [], ◌∷◌, Option, some, ◌>>=◌, get_or, length, arith,
  Bool-cases, ==_iff,
}
use calc_u.Core.Alu.{Nibbles}
use calc_u.Shared.Bcd.{encode_register_line, decode_register_line}
use calc_u.Shared.Bcd.Laws.{decode-encode}
use calc_u.Shared.CardText.Lines.{AreOneLine, ArePlain-IsOneLine}
use calc_u.Shared.CardText.Reader.{CueFormat}
use calc_u.Shared.ConstantMemory.{
  register_of, is_zero, register_line, register_lines, Contents, store_register, read_lines,
}
use calc_u.Shared.ConstantMemory.Registers.{register_line-frame, read-register_line}

-- 120 registers of nibbles.
abbrev pub IsMemory : List ℕ → Type 0
IsMemory ram = (length ram ≡ 1920) × ((k : ℕ) → get_or ram k 0 < 16)

is_zero_lem : (k : ℕ) (n : Nibbles) (i : ℕ) → is_zero k n ≡ true → i < k → n i ≡ 0
is_zero_lem zero n i h l = absurd (omega arith)
is_zero_lem (suc k) n i h l = elim (Bool-cases (i == k)) [
  | inl e ↦ ap n ((==_iff i k).0 e) ∙ ground (arith, h)
  | inr o ↦ is_zero_lem k n i (ground (arith, h)) (ground (arith, o, l))
]

-- A register of zeroes needs no line.
zero-register :
    (ram : List ℕ) (reg j : ℕ)
    → is_zero 16 (register_of ram reg) ≡ true
    → reg * 16 ≤ j
    → j < reg * 16 + 16
    → get_or ram j 0 ≡ 0
zero-register ram reg j h l k =
    let same : reg * 16 + (j - reg * 16) ≡ j = omega (arith, l) in
    ap (λ i. get_or ram i 0) (sym same)
    ∙ is_zero_lem 16 (register_of ram reg) (j - reg * 16) h (omega (arith, l, k))

stored-register :
    (ram : List ℕ) (reg j : ℕ)
    → IsMemory ram
    → reg * 16 ≤ j
    → j < reg * 16 + 16
    → decode_register_line (encode_register_line (register_of ram reg)) (j - reg * 16)
      ≡ get_or ram j 0
stored-register ram reg j (_, h) l k =
    let same : reg * 16 + (j - reg * 16) ≡ j = omega (arith, l) in
    decode-encode (register_of ram reg) (j - reg * 16) (λ i b. h (reg * 16 + i))
      (omega (arith, l, k))
    ∙ ap (λ i. get_or ram i 0) same

pub inside_memory :
    (j x y : ℕ) → j < 0 + 1920 → (if leb (0 * 16) j && ltb j ((0 + 120) * 16) then x else y) ≡ x
inside_memory j x y h = ground (arith, h)

module _ {ℓ} {Cue : Type ℓ} (cues : CueFormat Cue) where
  store_register-ram :
      (ram : List ℕ) (reg : ℕ) (c : Contents Cue) (j : ℕ)
      → IsMemory ram
      → (store_register reg (encode_register_line (register_of ram reg)) c).ram j
        ≡ (if leb (reg * 16) j && ltb j (reg * 16 + 16) then get_or ram j 0 else c.ram j)
  unfolding store_register
  store_register-ram ram reg c j v = elim (Bool-cases (leb (reg * 16) j && ltb j (reg * 16 + 16))) [
    | inl t ↦ rw t (stored-register ram reg j v (ground (arith, t)) (ground (arith, t)))
    | inr f ↦ rw f refl
  ]

  store_register-fields :
      (reg : ℕ) (bytes : List ℕ) (c : Contents Cue) (f : ℕ → ℕ)
      → record (store_register reg bytes c) { ram = f } ≡ record c { ram = f }
  unfolding store_register
  store_register-fields reg bytes c f = refl

  store_register-outside :
      (reg : ℕ) (bytes : List ℕ) (c : Contents Cue)
      → (store_register reg bytes c).in_cue_card ≡ c.in_cue_card
  unfolding store_register
  store_register-outside reg bytes c = refl

  -- The lines of `n` registers from `reg` on, over a memory that is zero from there on.
  pub read-register_lines :
      (n reg : ℕ) (ram : List ℕ) (c : Contents Cue)
      → IsMemory ram
      → reg + n ≤ 120
      → c.in_cue_card ≡ false
      → ((j : ℕ) → reg * 16 ≤ j → c.ram j ≡ 0)
      → (f : ℕ → ℕ) × (read_lines cues (register_lines n ram reg) c ≡ some (record c { ram = f }))
        × ((j : ℕ)
            → f j
              ≡ (if leb (reg * 16) j && ltb j ((reg + n) * 16) then get_or ram j 0 else c.ram j))
  unfolding register_lines read_lines
  read-register_lines zero reg ram c v h out empty = (c.ram, refl, λ j. ground arith)
  read-register_lines (suc n) reg ram c v h out empty =
      let fits : ltb (length ram) (reg * 16 + 16) ≡ false = ground (arith, v.0, h) in
      elim (Bool-cases (is_zero 16 (register_of ram reg))) [
        | inl t ↦
            let (f, e, q) =
              read-register_lines n (reg + 1) ram c v (omega (arith, h)) out
                (λ j l. empty j (omega (arith, l))) in
            (
              f,
              rw (fits, t) e,
              λ j. elim (Bool-cases (leb (reg * 16) j && ltb j (reg * 16 + 16))) [
                | inl i ↦ ground (
                  arith,
                  q j,
                  empty j (ground (arith, i)),
                  zero-register ram reg j t (ground (arith, i)) (ground (arith, i)),
                )
                | inr o ↦ ground (arith, q j, o)
              ],
            )
        | inr t ↦
            let bytes = encode_register_line (register_of ram reg) in
            let d = store_register reg bytes c in
            let at = λ (j : ℕ). store_register-ram ram reg c j v in
            let (f, e, q) =
              read-register_lines n (reg + 1) ram d v (omega (arith, h))
                (store_register-outside reg bytes c ∙ out)
                (λ j l. at j ∙ ground (arith, l, empty j (omega (arith, l)))) in
            (
              f,
              rw (fits, t)
                  (ap
                      (λ (o : Option (Contents Cue)).
                        o >>= read_lines cues (register_lines n ram (reg + 1)))
                      (read-register_line cues ram reg c (omega (arith, h)) out)
                    ∙ e
                    ∙ ap some (store_register-fields reg bytes c f)),
              λ j. ground (arith, q j, at j),
            )
      ]

  if-AreOneLine :
      (b : Bool) (ks ls : List (List ℕ))
      → AreOneLine ks
      → AreOneLine ls
      → AreOneLine (if b then ks else ls)
  if-AreOneLine true ks ls h k = h
  if-AreOneLine false ks ls h k = k

  pub register_lines-AreOneLine :
      (n reg : ℕ) (ram : List ℕ) → reg + n ≤ 120 → AreOneLine (register_lines n ram reg)
  unfolding register_lines
  register_lines-AreOneLine zero reg ram h = omega arith
  register_lines-AreOneLine (suc n) reg ram h =
      let rest = register_lines-AreOneLine n (reg + 1) ram (omega (arith, h)) in
      let line = (register_line-frame ram reg (omega (arith, h))).0 in
      if-AreOneLine (ltb (length ram) (reg * 16 + 16)) [] _ (omega arith) (
        if-AreOneLine (is_zero 16 (register_of ram reg)) (register_lines n ram (reg + 1))
          (register_line ram reg ∷ register_lines n ram (reg + 1)) rest
          (ArePlain-IsOneLine (register_line ram reg) line, rest))
