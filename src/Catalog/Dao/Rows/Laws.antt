-- ===== src/Catalog/Dao/Rows/Laws.antt =====
-- What the rows of catalog/productdao/postgres.go keep of the catalogue's data.
use wesko_go_backend.Common.{ℕ, ◌≡◌, refl, none, List, [], ◌∷◌, map}
use wesko_go_backend.Catalog.Models.{Product, ProductImage, ProductSku, ProductAttribute}
use wesko_go_backend.Catalog.Dao.PartRows.{
  to_product_image_domain, to_product_sku_domain, to_product_attribute_domain,
}
use wesko_go_backend.Catalog.Dao.Rows.{to_product_model, to_product_domain, deleted_time}
use wesko_go_backend.Catalog.Dao.Product.{image_models, sku_models, attribute_models}

-- The product with the id of its row, given to its parts, and not deleted.
abbrev pub stored : ℕ → Product → Product
stored id p = record p {
  id = id;
  deleted_at = none;
  images =
      map {A = ProductImage} {B = ProductImage} (λ image. record image { product_id = id })
        p.images;
  skus = map {A = ProductSku} {B = ProductSku} (λ sku. record sku { product_id = id }) p.skus;
  attributes =
      map {A = ProductAttribute} {B = ProductAttribute}
        (λ attribute. record attribute { product_id = id }) p.attributes;
}

map_image-image_models :
    (id : ℕ) (images : List ProductImage)
    → map to_product_image_domain (image_models id images)
      ≡ map {A = ProductImage} {B = ProductImage} (λ image. record image { product_id = id }) images
unfolding image_models to_product_image_domain
map_image-image_models id [] = refl
map_image-image_models id (x ∷ xs) = rw (map_image-image_models id xs)

map_sku-sku_models :
    (id : ℕ) (skus : List ProductSku)
    → map to_product_sku_domain (sku_models id skus)
      ≡ map {A = ProductSku} {B = ProductSku} (λ sku. record sku { product_id = id }) skus
unfolding sku_models to_product_sku_domain
map_sku-sku_models id [] = refl
map_sku-sku_models id (x ∷ xs) = rw (map_sku-sku_models id xs)

map_attribute-attribute_models :
    (id : ℕ) (attributes : List ProductAttribute)
    → map to_product_attribute_domain (attribute_models id attributes)
      ≡ map {A = ProductAttribute} {B = ProductAttribute}
          (λ attribute. record attribute { product_id = id })
          attributes
unfolding attribute_models to_product_attribute_domain
map_attribute-attribute_models id [] = refl
map_attribute-attribute_models id (x ∷ xs) = rw (map_attribute-attribute_models id xs)

-- The row of a product, with an id, joined with the rows that are written for its parts, is read
-- as the same product with that id, its parts with that product id, and not deleted.
pub to_product_domain-models :
    (id : ℕ) (p : Product)
    → to_product_domain (record (to_product_model p) {
      id = id;
      images = image_models id p.images;
      skus = sku_models id p.skus;
      attributes = attribute_models id p.attributes;
    })
      ≡ stored id p
unfolding to_product_model to_product_domain deleted_time
to_product_domain-models id p = rw (
  map_image-image_models id p.images,
  map_sku-sku_models id p.skus,
  map_attribute-attribute_models id p.attributes,
)
