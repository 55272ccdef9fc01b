-- ===== src/Catalog/Service/Skus/Laws.antt =====
-- When validateSKUs accepts.
use wesko_go_backend.Common.{
  ◌≡◌, ◌≢◌, ◌+◌, refl, sym, ◌↔◌, ◌≤◌, false, List, [], ◌∷◌, arith, map, any, All,
}
use wesko_go_backend.Common.Int.{ℤ, pos, pos_part, neg_part}
use wesko_go_backend.Common.Text.{empty_iff, Text, eq, eq_iff, trim_space, byte_len}
use wesko_go_backend.Common.Exec.{ok}
use wesko_go_backend.Catalog.Models.{ProductSku}
use wesko_go_backend.Catalog.Service.Base.{Service}
use wesko_go_backend.Catalog.Service.Skus.{sku_key, validate_from, validate_skus}

infix 50 ◌≤ℤ◌
abbrev pub ◌≤ℤ◌ : ℤ → ℤ → Type 0
a ≤ℤ b = pos_part a + neg_part b ≤ pos_part b + neg_part a

-- A unit with a code, amounts that are not negative, a price of at most the maximum, and a
-- currency of three bytes.
pub record IsPriced (sku : ProductSku) : Type 0 where
  pub coded : trim_space sku.sku_code ≢ []
  pub selling_nonneg : pos 0 ≤ℤ sku.selling_amount
  pub at_most_mrp : sku.selling_amount ≤ℤ sku.mrp_amount
  pub three_letters : byte_len sku.currency ≡ 3

-- The key is none of those.
abbrev pub Apart : Text → List Text → Type 0
Apart k ks = All (λ x. k ≢ x) ks

abbrev pub Distinct : List Text → Type 0
Distinct [] = Unit
Distinct (k ∷ ks) = Apart k ks × Distinct ks

Apart-of_any : (k : Text) (ks : List Text) → any (eq k) ks ≡ false → Apart k ks
Apart-of_any k [] h = tt
Apart-of_any k (x ∷ ks) h = (λ e. ground (arith, eq_iff k x), Apart-of_any k ks (ground arith))

any_of_Apart : (k : Text) (ks : List Text) → Apart k ks → any (eq k) ks ≡ false
any_of_Apart k [] h = refl
any_of_Apart k (x ∷ ks) (h, hs) = ground (arith, eq_iff k x, any_of_Apart k ks hs)

module _ {S : Type 0} (s : Service S) where
  -- Well-priced units with keys that differ from one another.
  abbrev pub AreValid : List ProductSku → Type 0
  AreValid skus = All IsPriced skus × Distinct (map (sku_key s) skus)

  -- The keys are none of those seen.
  abbrev AreFresh : List Text → List ProductSku → Type 0
  AreFresh seen skus = All (λ sku. Apart (sku_key s sku) seen) skus

  fresh_split :
      (k : Text) (seen : List Text) (skus : List ProductSku)
      → AreFresh (k ∷ seen) skus
      → Apart k (map (sku_key s) skus) × AreFresh seen skus
  fresh_split k seen [] h = (tt, tt)
  fresh_split k seen (sku ∷ skus) ((d, a), h) =
      let (x, y) = fresh_split k seen skus h in ((λ e. d (sym e), x), (a, y))

  fresh_join :
      (k : Text) (seen : List Text) (skus : List ProductSku)
      → Apart k (map (sku_key s) skus)
      → AreFresh seen skus
      → AreFresh (k ∷ seen) skus
  fresh_join k seen [] x y = tt
  fresh_join k seen (sku ∷ skus) (d, x) (a, y) = ((λ e. d (sym e), a), fresh_join k seen skus x y)

  validate_from_sound :
      (seen : List Text) (skus : List ProductSku)
      → validate_from s seen skus ≡ ok tt
      → AreValid skus × AreFresh seen skus
  unfolding validate_from
  validate_from_sound seen [] h = ((tt, tt), tt)
  validate_from_sound seen (sku ∷ skus) h =
      let ((priced, distinct), fresh) =
        validate_from_sound (sku_key s sku ∷ seen) skus (ground arith) in
      let (apart, fresh') = fresh_split (sku_key s sku) seen skus fresh in
      (
        (
          (
            record {
              coded = (empty_iff (trim_space sku.sku_code)).0 (ground arith);
              selling_nonneg = ground arith;
              at_most_mrp = ground arith;
              three_letters = ground arith;
            },
            priced,
          ),
          (apart, distinct),
        ),
        (Apart-of_any (sku_key s sku) seen (ground arith), fresh'),
      )

  validate_from_complete :
      (seen : List Text) (skus : List ProductSku)
      → AreValid skus
      → AreFresh seen skus
      → validate_from s seen skus ≡ ok tt
  unfolding validate_from
  validate_from_complete seen [] v f = refl
  validate_from_complete seen (sku ∷ skus) ((p, priced), (apart, distinct)) (a, fresh) =
      let rest =
        validate_from_complete (sku_key s sku ∷ seen) skus (priced, distinct)
          (fresh_join (sku_key s sku) seen skus apart fresh) in
      let coded = (empty_iff (trim_space sku.sku_code)).1 p.coded in
      let new = any_of_Apart (sku_key s sku) seen a in
      ground (arith, rest, coded, new, p.selling_nonneg, p.at_most_mrp, p.three_letters)

  fresh_nil : (skus : List ProductSku) → AreFresh [] skus
  fresh_nil [] = tt
  fresh_nil (sku ∷ skus) = (tt, fresh_nil skus)

  pub validate_skus_iff : (skus : List ProductSku) → (validate_skus s skus ≡ ok tt) ↔ AreValid skus
  unfolding validate_skus
  validate_skus_iff skus = (
    λ h. (validate_from_sound [] skus h).0,
    λ v. validate_from_complete [] skus v (fresh_nil skus),
  )
