-- ===== src/Shared/CardText/Image.antt =====
-- The builder behind all lines of a side holds the bank that was written.
use calc_u.Base.{
  slice_same, slice-get_or, ℕ, zero, suc, ◌<◌, ◌≡◌, refl, ap, sym, ◌∙◌, true, ◌&&◌, if◌then◌else◌,
  leb, ltb, List, [], ◌∷◌, arith, slice, get_or, upd, length,
}
use calc_u.Shared.CardText.{partition, data_type, bank, protection, checksum}
use calc_u.Shared.CardText.Side.{SideBuilder, new_side, put_entry, complete}
use calc_u.Shared.CardText.Headers.{IsCardBank}
use calc_u.Shared.CardText.Steps.{put_rows, put_rows_lem}

-- The builder behind the header of a bank.
abbrev pub headed : List ℕ → SideBuilder
headed image = put_entry (checksum (get_or image 244 0)) (
    put_entry (protection (get_or image 3 0)) (
      put_entry (bank (get_or image 2 0)) (
        put_entry (data_type (get_or image 1 0))
          (put_entry (partition (get_or image 0 0)) new_side))))

-- A builder that is complete, with the bytes of the bank.
abbrev pub IsFull : List ℕ → SideBuilder → Type 0
IsFull image sb = (complete sb ≡ true) × (slice sb.bytes 0 246 ≡ image)

pub get_or-default : (xs : List ℕ) (k d : ℕ) → k < length xs → get_or xs k d ≡ get_or xs k 0
get_or-default [] k d h = absurd (omega arith)
get_or-default (x ∷ xs) zero d h = refl
get_or-default (x ∷ xs) (suc k) d h = get_or-default xs k d (omega (arith, h))

-- Header and thirty rows are all that there is.
header_values :
    (f : ℕ → ℕ) (j : ℕ)
    → f 245 ≡ f 244
    → j < 246
    → (if leb 4 j && ltb j 244
        then f j
        else upd
            (upd (upd (upd (upd (upd (λ i. 0) 0 (f 0)) 1 (f 1)) 2 (f 2)) 3 (f 3)) 245 (f 244))
            244
            (f 244)
            j)
      ≡ f j
header_values f j e h = ground (arith, e)

headed-byte :
    (image : List ℕ) (j : ℕ)
    → IsCardBank image
    → j < 246
    → (if leb 4 j && ltb j 244 then get_or image j 0 else (headed image).bytes j) ≡ get_or image j 0
unfolding put_entry
headed-byte image j v h = header_values (λ k. get_or image k 0) j v.summed h

headed-complete :
    (image : List ℕ) (f : ℕ → ℕ) → complete (record (headed image) { bytes = f; rows = 30 }) ≡ true
unfolding put_entry complete
headed-complete image f = refl

pub headed-rows : (image : List ℕ) → (headed image).rows ≡ 0
unfolding put_entry
headed-rows image = refl

headed-IsFull :
    (image : List ℕ) (sb : SideBuilder) (f : ℕ → ℕ)
    → sb ≡ record (headed image) { bytes = f; rows = 30 }
    → ((j : ℕ) → j < 246 → f j ≡ get_or image j 0)
    → IsCardBank image
    → IsFull image sb
headed-IsFull image sb f e q v = (
  ap complete e ∙ headed-complete image f,
  ap (λ (s : SideBuilder). slice s.bytes 0 246) e
      ∙ slice_same f (λ k. get_or image k 0) 0 246 (λ k l. q k (omega (arith, l)))
      ∙ ap (slice (λ k. get_or image k 0) 0) (sym v.sized)
      ∙ slice-get_or 0 image,
)

pub full_lem :
    (image : List ℕ) → IsCardBank image → IsFull image (put_rows image 30 0 (headed image))
full_lem image v =
    let (f, e, q) = put_rows_lem image 30 0 (headed image) (headed-rows image) in
    headed-IsFull image (put_rows image 30 0 (headed image)) f e
      (λ j l. q j ∙ headed-byte image j v l) v
