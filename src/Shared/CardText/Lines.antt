-- ===== src/Shared/CardText/Lines.antt =====
-- Joined lines are split again.
use calc_u.Base.{ℕ, ◌≤◌, ◌≡◌, refl, ap, sym, ◌∙◌, false, ◌||◌, ◌==◌, List, [], ◌∷◌, ◌++◌, arith}
use calc_u.Shared.TextUtil.{lines_from, split_lines}
use calc_u.Shared.TextUtil.Laws.{append_assoc, append_nil}
use calc_u.Shared.TextUtil.Framing.{ArePlain}
use calc_u.Shared.CardText.{later_lines, join_lines}

-- No control character, so no newline.
abbrev pub IsOneLine : List ℕ → Type 0
IsOneLine [] = 0 ≤ 0
IsOneLine (c ∷ cs) = (32 ≤ c) × IsOneLine cs

abbrev pub AreOneLine : List (List ℕ) → Type 0
AreOneLine [] = 0 ≤ 0
AreOneLine (l ∷ ls) = IsOneLine l × AreOneLine ls

pub ArePlain-IsOneLine : (l : List ℕ) → ArePlain l → IsOneLine l
ArePlain-IsOneLine [] h = h
ArePlain-IsOneLine (c ∷ cs) ((a, _, _), h) = (a, ArePlain-IsOneLine cs h)

abbrev pub AreLines : List (List ℕ) → Type 0
AreLines [] = 0 ≤ 0
AreLines (l ∷ ls) = ArePlain l × AreLines ls

pub AreLines-AreOneLine : (ls : List (List ℕ)) → AreLines ls → AreOneLine ls
AreLines-AreOneLine [] h = h
AreLines-AreOneLine (l ∷ ls) (p, h) = (ArePlain-IsOneLine l p, AreLines-AreOneLine ls h)

lines_from-plain :
    (l piece rest : List ℕ)
    → IsOneLine l
    → lines_from piece (l ++ rest) ≡ lines_from (piece ++ l) rest
lines_from-plain [] piece rest h = ap (λ p. lines_from p rest) (sym (append_nil piece))
lines_from-plain (c ∷ cs) piece rest (a, h) =
    let other : (c == 10 || c == 13) ≡ false = ground (arith, a) in
    rw other (lines_from-plain cs (piece ++ (c ∷ [])) rest h)
    ∙ ap (λ p. lines_from p rest) (append_assoc piece (c ∷ []) cs)

lines_from-later :
    (ls : List (List ℕ)) (piece : List ℕ)
    → AreOneLine ls
    → lines_from piece (later_lines ls) ≡ piece ∷ ls
lines_from-later [] piece h = refl
lines_from-later (l ∷ ls) piece (p, h) =
    ap (λ r. piece ∷ r) (lines_from-plain l [] (later_lines ls) p ∙ lines_from-later ls l h)

-- Lines without control characters, one at least, are what the joined text is split into.
pub split_lines-join_lines :
    (l : List ℕ) (ls : List (List ℕ))
    → IsOneLine l
    → AreOneLine ls
    → split_lines (join_lines (l ∷ ls)) ≡ l ∷ ls
unfolding split_lines
split_lines-join_lines l ls p h = lines_from-plain l [] (later_lines ls) p ∙ lines_from-later ls l h
