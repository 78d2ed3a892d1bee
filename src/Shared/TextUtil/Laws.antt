-- ===== src/Shared/TextUtil/Laws.antt =====
-- Words and numbers read back what was written.
use calc_u.Base.{
  ℕ, ◌≤◌, ◌<◌, ◌≡◌, ◌≢◌, refl, ap, sym, ◌∙◌, false, ◌==◌, List, [], ◌∷◌, ◌++◌, length, arith,
}
use calc_u.Shared.TextUtil.{space, put_word, words_from, split_words}

pub append_assoc {ℓ} : {A : Type ℓ} (xs ys zs : List A) → (xs ++ ys) ++ zs ≡ xs ++ (ys ++ zs)
append_assoc [] ys zs = refl
append_assoc (x ∷ xs) ys zs = ap (λ l. x ∷ l) (append_assoc xs ys zs)

pub append_nil {ℓ} : {A : Type ℓ} (xs : List A) → xs ++ [] ≡ xs
append_nil [] = refl
append_nil (x ∷ xs) = ap (λ l. x ∷ l) (append_nil xs)

-- Words with a space between two.
abbrev pub join_words : List (List ℕ) → List ℕ
join_words [] = []
join_words (w ∷ []) = w
join_words (w ∷ v ∷ ws) = w ++ (space ∷ join_words (v ∷ ws))

abbrev pub HasNoSpace : List ℕ → Type 0
HasNoSpace [] = 0 ≤ 0
HasNoSpace (c ∷ cs) = (c ≢ space) × HasNoSpace cs

abbrev pub AreWords : List (List ℕ) → Type 0
AreWords [] = 0 ≤ 0
AreWords (w ∷ ws) = (0 < length w) × HasNoSpace w × AreWords ws

words_from-append :
    (w piece rest : List ℕ)
    → HasNoSpace w
    → words_from piece (w ++ rest) ≡ words_from (piece ++ w) rest
words_from-append [] piece rest h = ap (λ p. words_from p rest) (sym (append_nil piece))
words_from-append (c ∷ w) piece rest (n, h) =
    let other : (c == space) ≡ false = ground (arith, n) in
    rw other (words_from-append w (piece ++ (c ∷ [])) rest h)
    ∙ ap (λ p. words_from p rest) (append_assoc piece (c ∷ []) w)

put_word-some : (w : List ℕ) (ws : List (List ℕ)) → 0 < length w → put_word w ws ≡ w ∷ ws
put_word-some [] ws h = absurd (omega arith)
put_word-some (c ∷ w) ws h = refl

-- Words that are joined by single spaces are split back, if none is empty or has a space.
pub split_words-join_words : (ws : List (List ℕ)) → AreWords ws → split_words (join_words ws) ≡ ws
unfolding split_words
split_words-join_words [] h = refl
split_words-join_words (w ∷ []) (l, n, h) =
    ap (words_from []) (sym (append_nil w)) ∙ words_from-append w [] [] n ∙ put_word-some w [] l
split_words-join_words (w ∷ v ∷ ws) (l, n, h) =
    words_from-append w [] (space ∷ join_words (v ∷ ws)) n
    ∙ put_word-some w (words_from [] (join_words (v ∷ ws))) l
    ∙ ap (λ r. w ∷ r) (split_words-join_words (v ∷ ws) h)
