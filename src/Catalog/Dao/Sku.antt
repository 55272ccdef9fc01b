-- ===== src/Catalog/Dao/Sku.antt =====
-- CreateSKU, UpdateSKU, DeleteSKU, ListProductSKUs and GetProductAvailability of
-- catalog/productdao/postgres.go.
use wesko_go_backend.Common.{ℕ, true, List, [], map, ◌==◌, if◌then◌else◌}
use wesko_go_backend.Common.Int.{pos, ltb_ℤ}
use wesko_go_backend.Common.Text.{codes}
use wesko_go_backend.Common.Exec.{pure, raise, ◌>>=◌}
use wesko_go_backend.Catalog.Errors.{sku_not_found}
use wesko_go_backend.Catalog.Models.{ProductSku, ProductAvailability}
use wesko_go_backend.Catalog.Ports.{Call}
use wesko_go_backend.Catalog.Dao.PartRows.{to_product_sku_model, to_product_sku_domain}
use wesko_go_backend.Common.Gorm.{rescue}
use wesko_go_backend.Catalog.Dao.Tables.{
  raw, new_query, where_, product_id_is, active_of_product, Db, mapped, read_clock,
}
use wesko_go_backend.Catalog.Dao.Category.{on_missing}

module _ {S : Type 0} (db : Db S) where
  unfoldable pub create_sku : ProductSku → Call S ProductSku
  create_sku sku = do
    model ← rescue (mapped db) (db.skus.create (to_product_sku_model sku))
    pure (to_product_sku_domain model)

  unfoldable pub update_sku : ProductSku → Call S ProductSku
  unfolding on_missing
  update_sku sku =
      let model = to_product_sku_model sku in
      do
        now ← read_clock db
        rows ← rescue (mapped db) (
            db.skus.updates sku.id λ row. record row {
              size = model.size;
              color = model.color;
              mrp_amount = model.mrp_amount;
              selling_amount = model.selling_amount;
              currency = model.currency;
              is_active = model.is_active;
              updated_at = now;
            })
        if rows == 0 then raise sku_not_found else do
          out ← rescue (on_missing sku_not_found) (db.skus.first [] sku.id)
          pure (to_product_sku_domain out)

  unfoldable pub delete_sku : ℕ → Call S Unit
  delete_sku id = do
    rows ← rescue raw (db.skus.delete id)
    if rows == 0 then raise sku_not_found else pure tt

  unfoldable pub list_product_skus : ℕ → Call S (List ProductSku)
  list_product_skus product_id = do
    models ← rescue raw (
        db.skus.find
          (record (where_ (product_id_is product_id) new_query) { order = codes "id ASC" }))
    pure (map to_product_sku_domain models)

  unfoldable pub get_product_availability : ℕ → Call S ProductAvailability
  get_product_availability product_id = do
    total ← rescue raw (db.skus.count (where_ (active_of_product product_id true) new_query))
    pure (record {
      product_id = product_id;
      in_stock = ltb_ℤ (pos 0) total;
      available_skus = total;
      total_active_sku = total;
    })
