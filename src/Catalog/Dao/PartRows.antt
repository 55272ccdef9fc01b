-- ===== src/Catalog/Dao/PartRows.antt =====
-- The rows of the parts of a product in catalog/productdao/postgres.go, and their conversions to and
-- from the catalogue's data.
use wesko_go_backend.Common.{ℕ, Bool}
use wesko_go_backend.Common.Int.{ℤ}
use wesko_go_backend.Common.Text.{Text}
use wesko_go_backend.Catalog.Models.{Time, ProductImage, ProductSku, ProductAttribute}

pub record ProductImageModel : Type 0 where
  pub id : ℕ
  pub product_id : ℕ
  pub url : Text
  pub alt_text : Text
  pub sort_order : ℤ
  pub is_primary : Bool
  pub created_at : Time
  pub updated_at : Time

pub record ProductSkuModel : Type 0 where
  pub id : ℕ
  pub product_id : ℕ
  pub sku_code : Text
  pub size : Text
  pub color : Text
  pub mrp_amount : ℤ
  pub selling_amount : ℤ
  pub currency : Text
  pub is_active : Bool
  pub created_at : Time
  pub updated_at : Time

pub record ProductAttributeModel : Type 0 where
  pub id : ℕ
  pub product_id : ℕ
  pub type : Text
  pub name : Text
  pub value : Text
  pub created_at : Time
  pub updated_at : Time

unfoldable pub to_product_image_model : ProductImage → ProductImageModel
to_product_image_model image = record {
  id = image.id;
  product_id = image.product_id;
  url = image.url;
  alt_text = image.alt_text;
  sort_order = image.sort_order;
  is_primary = image.is_primary;
  created_at = image.created_at;
  updated_at = image.updated_at;
}

unfoldable pub to_product_image_domain : ProductImageModel → ProductImage
to_product_image_domain model = record {
  id = model.id;
  product_id = model.product_id;
  url = model.url;
  alt_text = model.alt_text;
  sort_order = model.sort_order;
  is_primary = model.is_primary;
  created_at = model.created_at;
  updated_at = model.updated_at;
}

unfoldable pub to_product_sku_model : ProductSku → ProductSkuModel
to_product_sku_model sku = record {
  id = sku.id;
  product_id = sku.product_id;
  sku_code = sku.sku_code;
  size = sku.size;
  color = sku.color;
  mrp_amount = sku.mrp_amount;
  selling_amount = sku.selling_amount;
  currency = sku.currency;
  is_active = sku.is_active;
  created_at = sku.created_at;
  updated_at = sku.updated_at;
}

unfoldable pub to_product_sku_domain : ProductSkuModel → ProductSku
to_product_sku_domain model = record {
  id = model.id;
  product_id = model.product_id;
  sku_code = model.sku_code;
  size = model.size;
  color = model.color;
  mrp_amount = model.mrp_amount;
  selling_amount = model.selling_amount;
  currency = model.currency;
  is_active = model.is_active;
  created_at = model.created_at;
  updated_at = model.updated_at;
}

unfoldable pub to_product_attribute_model : ProductAttribute → ProductAttributeModel
to_product_attribute_model attribute = record {
  id = attribute.id;
  product_id = attribute.product_id;
  type = attribute.type;
  name = attribute.name;
  value = attribute.value;
  created_at = attribute.created_at;
  updated_at = attribute.updated_at;
}

unfoldable pub to_product_attribute_domain : ProductAttributeModel → ProductAttribute
to_product_attribute_domain model = record {
  id = model.id;
  product_id = model.product_id;
  type = model.type;
  name = model.name;
  value = model.value;
  created_at = model.created_at;
  updated_at = model.updated_at;
}
