-- ===== src/Shared/CardText/Building.antt =====
-- A side that is being read never holds a wrong byte of its header.
use calc_u.Base.{
  ℕ, ◌+◌, ◌-◌, ◌*◌, ◌≤◌, ◌<◌, ◌≡◌, refl, sym, ◌∙◌, inl, inr, true, false, ◌&&◌, if◌then◌else◌, leb,
  ltb, List, upd, length, arith,
}
use mathlib.Core.Path.{subst}
use calc_u.Shared.CardFile.{page_byte_of_bank}
use calc_u.Shared.CardText.{Entry, partition, data_type, bank, protection, checksum}
use calc_u.Shared.CardText.Side.{SideBuilder, new_side, put_entry, put_row}
use calc_u.Shared.CardText.Headers.{IsDataType, IsPageByte, IsProtection}
use calc_u.Shared.CardText.Values.{IsEntry, IsEight}

-- What the lines read so far have set is right.
pub record IsGood (sb : SideBuilder) : Type 0 where
  pub typed : sb.has_data_type ≡ true → IsDataType (sb.bytes 1)
  pub paged : sb.has_bank ≡ true → IsPageByte (sb.bytes 2)
  pub protected : sb.has_protection ≡ true → IsProtection (sb.bytes 3)
  pub summed : sb.bytes 245 ≡ sb.bytes 244
  pub each : (k : ℕ) → sb.bytes k < 256
  pub few : sb.rows ≤ 30

pub new_side-IsGood : IsGood new_side
new_side-IsGood = record {
  typed = λ e. cc;
  paged = λ e. cc;
  protected = λ e. cc;
  summed = refl;
  each = λ k. omega arith;
  few = omega arith;
}

upd-lt : (f : ℕ → ℕ) (i v : ℕ) → ((k : ℕ) → f k < 256) → v < 256 → (k : ℕ) → upd f i v k < 256
upd-lt f i v h l k = ground (arith, h k, l)

page-lt : (v : ℕ) → IsPageByte v → v < 256
unfolding page_byte_of_bank
page-lt v (n, h, k, e) = omega (arith, e)

pub put_entry-IsGood :
    (e : Entry) (sb : SideBuilder) → IsEntry e → IsGood sb → IsGood (put_entry e sb)
unfolding put_entry
put_entry-IsGood (partition v) sb l g = record {
  typed = g.typed;
  paged = g.paged;
  protected = g.protected;
  summed = g.summed;
  each = upd-lt sb.bytes 0 v g.each l;
  few = g.few;
}
put_entry-IsGood (data_type v) sb l g = record {
  typed = λ e. l;
  paged = g.paged;
  protected = g.protected;
  summed = g.summed;
  each = upd-lt sb.bytes 1 v g.each (two v l);
  few = g.few;
}
  where
    two : (v : ℕ) → IsDataType v → v < 256
    two v (inl e) = omega (arith, e)
    two v (inr e) = omega (arith, e)
put_entry-IsGood (bank v) sb l g = record {
  typed = g.typed;
  paged = λ e. l;
  protected = g.protected;
  summed = g.summed;
  each = upd-lt sb.bytes 2 v g.each (page-lt v l);
  few = g.few;
}
put_entry-IsGood (protection v) sb l g = record {
  typed = g.typed;
  paged = g.paged;
  protected = λ e. l;
  summed = g.summed;
  each = upd-lt sb.bytes 3 v g.each (two v l);
  few = g.few;
}
  where
    two : (v : ℕ) → IsProtection v → v < 256
    two v (inl e) = omega (arith, e)
    two v (inr e) = omega (arith, e)
put_entry-IsGood (checksum v) sb l g = record {
  typed = g.typed;
  paged = g.paged;
  protected = g.protected;
  summed = refl;
  each = upd-lt (upd sb.bytes 245 v) 244 v (upd-lt sb.bytes 245 v g.each l) l;
  few = g.few;
}

-- A row changes nothing outside the data.
put_row-outside :
    (row : List ℕ) (sb : SideBuilder) (j : ℕ)
    → length row ≡ 8
    → sb.rows < 30
    → (if ltb j 4 then true else leb 244 j) ≡ true
    → (put_row row sb).bytes j ≡ sb.bytes j
unfolding put_row
put_row-outside row sb j e l h =
    let out : (leb (4 + sb.rows * 8) j && ltb j (4 + sb.rows * 8 + length row)) ≡ false =
      ground (arith, e, l, h) in
    rw out refl

pub put_row-IsGood :
    (row : List ℕ) (sb : SideBuilder)
    → sb.rows < 30
    → IsEight row
    → IsGood sb
    → IsGood (put_row row sb)
put_row-IsGood row sb l (e, h) g = record {
  typed = λ t. subst IsDataType (sym (put_row-outside row sb 1 e l refl)) (g.typed (flag_1 t));
  paged = λ t. subst IsPageByte (sym (put_row-outside row sb 2 e l refl)) (g.paged (flag_2 t));
  protected =
      λ t. subst IsProtection (sym (put_row-outside row sb 3 e l refl)) (g.protected (flag_3 t));
  summed =
      put_row-outside row sb 245 e l refl ∙ g.summed ∙ sym (put_row-outside row sb 244 e l refl);
  each = each_lem;
  few = rows_lem;
}
  where
    flag_1 : (put_row row sb).has_data_type ≡ true → sb.has_data_type ≡ true
    flag_1 t = unfold put_row in t

    flag_2 : (put_row row sb).has_bank ≡ true → sb.has_bank ≡ true
    flag_2 t = unfold put_row in t

    flag_3 : (put_row row sb).has_protection ≡ true → sb.has_protection ≡ true
    flag_3 t = unfold put_row in t

    each_lem : (k : ℕ) → (put_row row sb).bytes k < 256
    each_lem k = unfold put_row in ground (arith, g.each k, h (k - (4 + sb.rows * 8)))

    rows_lem : (put_row row sb).rows ≤ 30
    rows_lem = unfold put_row in omega (arith, l)
