-- ===== src/Catalog/Dao/Product.antt =====
-- CreateProduct, GetProductByID, UpdateProduct, DeleteProduct and ListProducts of
-- catalog/productdao/postgres.go, and the two methods that replace parts of a product.
pub mod Laws
pub mod Parts
use wesko_go_backend.Common.{
  ℕ, Bool, not, ◌||◌, Option, none, some, List, [], ◌∷◌, map, ◌==◌, is_empty, if◌then◌else◌,
}
use wesko_go_backend.Common.Int.{ℤ}
use wesko_go_backend.Common.Text.{Text, codes, eq}
use wesko_go_backend.Common.Exec.{Result, ok, err, pure, raise, ◌>>=◌, ◌>>◌}
use wesko_go_backend.Catalog.Errors.{Error, product_not_found}
use wesko_go_backend.Catalog.Models.{
  Product, ProductImage, ProductSku, ProductAttribute, ProductFilter,
}
use wesko_go_backend.Catalog.Ports.{Call}
use wesko_go_backend.Catalog.Dao.{normalize_pagination}
use wesko_go_backend.Catalog.Dao.PartRows.{
  ProductImageModel, ProductSkuModel, ProductAttributeModel, to_product_image_model,
  to_product_sku_model, to_product_attribute_model,
}
use wesko_go_backend.Catalog.Dao.Rows.{ProductModel, to_product_model, to_product_domain}
use wesko_go_backend.Common.Gorm.{DbError, rescue}
use wesko_go_backend.Catalog.Dao.Tables.{
  raw, Query, new_query, where_some, where_given, where_search, Table, ProductCondition,
  category_id_is, status_is, name_or_slug_like, size_is, color_is, price_at_least, price_at_most,
  PartCondition, product_id_is, Db, mapped, read_clock,
}
use wesko_go_backend.Catalog.Dao.Category.{on_missing, page_offset}

-- The loops that give each part the id of its product.
unfoldable pub image_models : ℕ → List ProductImage → List ProductImageModel
unfolding to_product_image_model
image_models id = map λ image. to_product_image_model (record image { product_id = id })

unfoldable pub sku_models : ℕ → List ProductSku → List ProductSkuModel
unfolding to_product_sku_model
sku_models id = map λ sku. to_product_sku_model (record sku { product_id = id })

unfoldable pub attribute_models : ℕ → List ProductAttribute → List ProductAttributeModel
unfolding to_product_attribute_model
attribute_models id =
    map λ attribute. to_product_attribute_model (record attribute { product_id = id })

-- The preloads of GetProductByID and of ListProducts.
abbrev pub part_preloads : List (Text × Text)
part_preloads =
    (codes "Images", codes "sort_order ASC, id ASC")
    ∷ (codes "SKUs", codes "id ASC")
    ∷ (codes "Attributes", codes "id ASC")
    ∷ []

-- Whether ListProducts joins the units.
unfoldable pub joins_skus : ProductFilter → Bool
joins_skus filter =
    not (is_empty filter.size)
    || not (is_empty filter.color)
    || is_given filter.min_price
    || is_given filter.max_price
    || eq filter.sort (codes "price_asc")
    || eq filter.sort (codes "price_desc")
  where
    is_given : Option ℤ → Bool
    is_given none = Bool.false
    is_given (some a) = Bool.true

-- The query of ListProducts, without its order and its page.
unfoldable pub product_query : ProductFilter → Query ProductCondition
unfolding joins_skus
product_query filter =
    let joined =
      if joins_skus filter
      then record new_query {
        joins =
            codes "LEFT JOIN catalog_skus ON catalog_skus.product_id = catalog_products.id" ∷ [];
      }
      else new_query in
    where_some price_at_most filter.max_price (
      where_some price_at_least filter.min_price (
        where_given color_is filter.color (
          where_given size_is filter.size (
            where_search name_or_slug_like filter.search (
              where_some status_is filter.status
                (where_some category_id_is filter.category_id joined))))))

-- `orderBy`
unfoldable pub order_by : Text → Text
order_by sort =
    if eq sort (codes "oldest")
    then codes "catalog_products.created_at ASC"
    else if eq sort (codes "price_asc")
    then codes "catalog_skus.selling_amount ASC NULLS LAST, catalog_products.created_at DESC"
    else if eq sort (codes "price_desc")
    then codes "catalog_skus.selling_amount DESC NULLS LAST, catalog_products.created_at DESC"
    else codes "catalog_products.created_at DESC"

module _ {S : Type 0} (db : Db S) where
  -- `if len(parts) > 0 { tx.Create(&parts) }`
  unfoldable pub create_parts : {M : Type 0} → Table S M PartCondition → List M → Call S Unit
  create_parts table [] = pure tt
  create_parts table (part ∷ parts) = rescue (mapped db) (table.create_all (part ∷ parts))

  -- The function of the transaction of CreateProduct; it answers the id of the row.
  unfoldable pub insert_product : Product → Call S ℕ
  unfolding create_parts image_models sku_models attribute_models
  insert_product product = do
    model ← rescue (mapped db) (db.products.create (to_product_model product))
    create_parts db.images (image_models model.id product.images)
    create_parts db.skus (sku_models model.id product.skus)
    create_parts db.attributes (attribute_models model.id product.attributes)
    pure model.id

  unfoldable pub get_product_by_id : ℕ → Call S Product
  unfolding on_missing
  get_product_by_id id = do
    model ← rescue (on_missing product_not_found) (db.products.first part_preloads id)
    pure (to_product_domain model)

  unfoldable pub create_product : Product → Call S Product
  unfolding insert_product get_product_by_id
  create_product product = do id ← db.transaction (insert_product product); get_product_by_id id

  -- A part of UpdateProduct: the parts of the product are deleted, and the new ones created.
  unfoldable pub replace_parts : {M : Type 0} → Table S M PartCondition → ℕ → List M → Call S Unit
  unfolding create_parts
  replace_parts table id parts = do
    rescue raw (table.delete_where (product_id_is id))
    create_parts table parts

  -- The function of the transaction of UpdateProduct.
  unfoldable pub rewrite_product : Product → Call S ℕ
  unfolding replace_parts image_models sku_models attribute_models
  rewrite_product product =
      let model = to_product_model product in
      do
        now ← read_clock db
        rows ← rescue (mapped db) (
            db.products.updates product.id λ row. record row {
              category_id = model.category_id;
              name = model.name;
              slug = model.slug;
              description = model.description;
              status = model.status;
              fabric_summary = model.fabric_summary;
              wash_care = model.wash_care;
              durability_notes = model.durability_notes;
              updated_at = now;
            })
        if rows == 0 then raise product_not_found else do
          replace_parts db.images product.id (image_models product.id product.images)
          replace_parts db.skus product.id (sku_models product.id product.skus)
          replace_parts db.attributes product.id (attribute_models product.id product.attributes)
          pure product.id

  unfoldable pub update_product : Product → Call S Product
  unfolding rewrite_product get_product_by_id
  update_product product = do db.transaction (rewrite_product product); get_product_by_id product.id

  unfoldable pub delete_product : ℕ → Call S Unit
  delete_product id = do
    rows ← rescue raw (db.products.delete id)
    if rows == 0 then raise product_not_found else pure tt

  unfoldable pub list_products : ProductFilter → Call S (List Product × ℤ)
  unfolding product_query order_by page_offset
  list_products filter =
      let (page, page_size) = normalize_pagination filter.page filter.page_size in
      let query = record (product_query filter) { distinct = some (codes "catalog_products.id") } in
      do
        total ← rescue raw (db.products.count query)
        models ← rescue raw (
            db.products.find (record query {
              preloads = part_preloads;
              order = order_by filter.sort;
              offset = some (page_offset page page_size);
              limit = some page_size;
            }))
        pure (map to_product_domain models, total)

  -- The functions of the transactions that replace images and attributes; their errors stay as they
  -- are.
  unfoldable pub swap_parts : {M : Type 0} → Table S M PartCondition → ℕ → List M → Call S ℕ
  swap_parts table id parts = do
    rescue raw (table.delete_where (product_id_is id))
    elim parts [ [] ↦ pure 0 | ◌∷◌ p ps ↦ rescue raw (table.create_all (p ∷ ps)) >> pure 0 ]

  unfoldable pub replace_product_images : ℕ → List ProductImage → Call S Unit
  unfolding swap_parts image_models
  replace_product_images id images =
      db.transaction (swap_parts db.images id (image_models id images)) >> pure tt

  unfoldable pub replace_product_attributes : ℕ → List ProductAttribute → Call S Unit
  unfolding swap_parts attribute_models
  replace_product_attributes id attributes =
      db.transaction (swap_parts db.attributes id (attribute_models id attributes)) >> pure tt
