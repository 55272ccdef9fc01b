-- ===== src/Catalog/Service/Skus.antt =====
-- mapSKURequests and validateSKUs of catalog/service/service.go.
pub mod Laws
use wesko_go_backend.Common.{
  ℕ, Bool, true, not, ◌||◌, ◌==◌, List, [], ◌∷◌, map, is_empty, any, if◌then◌else◌,
}
use wesko_go_backend.Common.Int.{pos, ltb_ℤ}
use wesko_go_backend.Common.Text.{Text, codes, eq, trim_space, to_upper, byte_len}
use wesko_go_backend.Common.Exec.{Result, ok, err}
use wesko_go_backend.Catalog.Errors.{
  Error, invalid_sku_code, invalid_money_amount, invalid_currency, sku_code_already_exists,
}
use wesko_go_backend.Catalog.Models.{ProductSku}
use wesko_go_backend.Catalog.Requests.{CreateProductSkuRequest}
use wesko_go_backend.Catalog.Service.Base.{Service, or_default}

module _ {S : Type 0} (s : Service S) where
  -- The currency that is stored: upper case, and rupees if none is given.
  unfoldable pub currency_of : Text → Text
  currency_of raw =
      let currency = to_upper s.upper_other (trim_space raw) in
      if is_empty currency then codes "INR" else currency

  -- The body of mapSKURequests' loop; the database gives the id and the times.
  unfoldable pub map_sku : ℕ → CreateProductSkuRequest → ProductSku
  unfolding currency_of
  map_sku product_id sku = record {
    id = 0;
    product_id = product_id;
    sku_code = trim_space sku.sku_code;
    size = trim_space sku.size;
    color = trim_space sku.color;
    mrp_amount = sku.mrp_amount;
    selling_amount = sku.selling_amount;
    currency = currency_of sku.currency;
    is_active = or_default sku.is_active true;
    created_at = 0;
    updated_at = 0;
  }

  unfoldable pub map_sku_requests : List CreateProductSkuRequest → ℕ → List ProductSku
  unfolding map_sku
  map_sku_requests requests product_id = map (map_sku product_id) requests

  -- The key under which validateSKUs remembers a code.
  unfoldable pub sku_key : ProductSku → Text
  sku_key sku = to_upper s.upper_other (trim_space sku.sku_code)

  -- validateSKUs from the keys seen so far.
  unfoldable pub validate_from : List Text → List ProductSku → Result Error Unit
  unfolding sku_key
  validate_from seen [] = ok tt
  validate_from seen (sku ∷ skus) =
      let rest = validate_from (sku_key sku ∷ seen) skus in
      if is_empty (trim_space sku.sku_code)
      then err invalid_sku_code
      else if ltb_ℤ sku.mrp_amount (pos 0)
          || ltb_ℤ sku.selling_amount (pos 0)
          || ltb_ℤ sku.mrp_amount sku.selling_amount
      then err invalid_money_amount
      else if not (byte_len sku.currency == 3)
      then err invalid_currency
      else if any (eq (sku_key sku)) seen
      then err sku_code_already_exists
      else rest

  unfoldable pub validate_skus : List ProductSku → Result Error Unit
  unfolding validate_from
  validate_skus skus = validate_from [] skus
