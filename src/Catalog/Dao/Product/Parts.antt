-- ===== src/Catalog/Dao/Product/Parts.antt =====
-- Which writes make up a new product.
use wesko_go_backend.Common.{ℕ, ◌≡◌, ◌↔◌, inl, inr, List, [], ◌∷◌, map, arith}
use wesko_go_backend.Common.Exec.{ok, Call-cases}
use wesko_go_backend.Common.Gorm.{not_deleted}
use wesko_go_backend.Catalog.Models.{Product, ProductImage, ProductSku, ProductAttribute}
use wesko_go_backend.Catalog.Dao.PartRows.{
  ProductImageModel, ProductSkuModel, ProductAttributeModel, to_product_image_model,
  to_product_sku_model, to_product_attribute_model,
}
use wesko_go_backend.Catalog.Dao.Rows.{ProductModel, to_product_model}
use wesko_go_backend.Catalog.Dao.Tables.{Db, Table, PartCondition}
use wesko_go_backend.Catalog.Dao.Product.{
  image_models, sku_models, attribute_models, create_parts, insert_product,
}

-- The rows that stand for a product and for its parts, written out field by field.
abbrev pub product_row : Product → ProductModel
product_row p = record {
  id = p.id;
  category_id = p.category_id;
  name = p.name;
  slug = p.slug;
  description = p.description;
  status = p.status;
  fabric_summary = p.fabric_summary;
  wash_care = p.wash_care;
  durability_notes = p.durability_notes;
  created_at = p.created_at;
  updated_at = p.updated_at;
  deleted_at = not_deleted;
  images = [];
  skus = [];
  attributes = [];
}

abbrev pub image_row : ℕ → ProductImage → ProductImageModel
image_row product_id image = record {
  id = image.id;
  product_id = product_id;
  url = image.url;
  alt_text = image.alt_text;
  sort_order = image.sort_order;
  is_primary = image.is_primary;
  created_at = image.created_at;
  updated_at = image.updated_at;
}

abbrev pub sku_row : ℕ → ProductSku → ProductSkuModel
sku_row product_id sku = record {
  id = sku.id;
  product_id = product_id;
  sku_code = sku.sku_code;
  size = sku.size;
  color = sku.color;
  mrp_amount = sku.mrp_amount;
  selling_amount = sku.selling_amount;
  currency = sku.currency;
  is_active = sku.is_active;
  created_at = sku.created_at;
  updated_at = sku.updated_at;
}

abbrev pub attribute_row : ℕ → ProductAttribute → ProductAttributeModel
attribute_row product_id attribute = record {
  id = attribute.id;
  product_id = product_id;
  type = attribute.type;
  name = attribute.name;
  value = attribute.value;
  created_at = attribute.created_at;
  updated_at = attribute.updated_at;
}

-- Rows are written to a table by one insert, which succeeds; no row needs none.
abbrev pub IsWritten : {S M : Type 0} → Table S M PartCondition → List M → S → S → Type 0
IsWritten table [] w t = t ≡ w
IsWritten table (m ∷ ms) w t = table.create_all (m ∷ ms) w ≡ (ok tt, t)

module _ {S : Type 0} (db : Db S) where
  -- The row of the product is created, and then its images, its units and its attributes, each
  -- with the id of that row.
  pub record IsInserted (p : Product) (w : S) (id : ℕ) (t : S) : Type 0 where
    pub row : ProductModel
    pub after_row : S
    pub after_images : S
    pub after_skus : S
    pub creates : db.products.create (product_row p) w ≡ (ok row, after_row)
    pub adds_images : IsWritten db.images (map (image_row row.id) p.images) after_row after_images
    pub adds_skus : IsWritten db.skus (map (sku_row row.id) p.skus) after_images after_skus
    pub adds_attributes :
        IsWritten db.attributes (map (attribute_row row.id) p.attributes) after_skus t
    pub keyed : id ≡ row.id

  create_parts_sound :
      {M : Type 0} (table : Table S M PartCondition) (ms : List M) (w t : S)
      → create_parts db table ms w ≡ (ok tt, t)
      → IsWritten table ms w t
  unfolding create_parts
  create_parts_sound table [] w t h = ground arith
  create_parts_sound table (m ∷ ms) w t h = elim (Call-cases (table.create_all (m ∷ ms) w)) [
    | inr (e, u, q) ↦ absurd (ground arith)
    | inl (_, u, q) ↦ ground arith
  ]

  create_parts_complete :
      {M : Type 0} (table : Table S M PartCondition) (ms : List M) (w t : S)
      → IsWritten table ms w t
      → create_parts db table ms w ≡ (ok tt, t)
  unfolding create_parts
  create_parts_complete table [] w t h = ground arith
  create_parts_complete table (m ∷ ms) w t h = ground (arith, h)

  insert_product_sound :
      (p : Product) (w : S) (id : ℕ) (t : S)
      → insert_product db p w ≡ (ok id, t)
      → IsInserted p w id t
  unfolding insert_product image_models sku_models attribute_models to_product_model
      to_product_image_model to_product_sku_model to_product_attribute_model
  insert_product_sound p w id t h = elim (Call-cases (db.products.create (product_row p) w)) [
    | inr (e, a, q) ↦ absurd (ground arith)
    | inl (row, a, q) ↦
        elim (Call-cases (create_parts db db.images (map (image_row row.id) p.images) a)) [
          | inr (e, b, r) ↦ absurd (ground arith)
          | inl (_, b, r) ↦
              elim (Call-cases (create_parts db db.skus (map (sku_row row.id) p.skus) b)) [
                | inr (e, c, s) ↦ absurd (ground arith)
                | inl (_, c, s) ↦ record {
                  row = row;
                  after_row = a;
                  after_images = b;
                  after_skus = c;
                  creates = q;
                  adds_images = create_parts_sound db.images _ a b r;
                  adds_skus = create_parts_sound db.skus _ b c s;
                  adds_attributes =
                      create_parts_sound db.attributes (map (attribute_row row.id) p.attributes) c t
                        (ground arith);
                  keyed = ground arith;
                }
              ]
        ]
  ]

  insert_product_complete :
      (p : Product) (w : S) (id : ℕ) (t : S)
      → IsInserted p w id t
      → insert_product db p w ≡ (ok id, t)
  unfolding insert_product image_models sku_models attribute_models to_product_model
      to_product_image_model to_product_sku_model to_product_attribute_model
  insert_product_complete p w id t r = ground (
    arith,
    r.creates,
    create_parts_complete db.images (map (image_row r.row.id) p.images) _ _ r.adds_images,
    create_parts_complete db.skus (map (sku_row r.row.id) p.skus) _ _ r.adds_skus,
    create_parts_complete db.attributes (map (attribute_row r.row.id) p.attributes) _ _
        r.adds_attributes,
    r.keyed,
  )

  -- A transaction that creates a product succeeds, with an id, exactly if the row of the product is
  -- created under that id, and then the rows of its images, its units and its attributes are created
  -- in this order, by one insert for each of the three lists that is not empty; a row has the fields
  -- of its part and the id as its product id.
  pub insert_product_iff :
      (p : Product) (w : S) (id : ℕ) (t : S)
      → (insert_product db p w ≡ (ok id, t)) ↔ IsInserted p w id t
  insert_product_iff p w id t = (insert_product_sound p w id t, insert_product_complete p w id t)
