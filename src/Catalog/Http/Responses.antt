-- ===== src/Catalog/Http/Responses.antt =====
-- catalog/responses.go, and the functions of catalog/http/handler.go that make the answers.
use wesko_go_backend.Common.{ℕ, Bool, Option, List, map}
use wesko_go_backend.Common.Int.{ℤ}
use wesko_go_backend.Common.Text.{Text}
use wesko_go_backend.Catalog.Models.{
  Time, ProductStatus, AttributeType, Category, Product, ProductImage, ProductSku, ProductAttribute,
}

pub record CategoryResponse : Type 0 where
  pub id : ℕ
  pub name : Text
  pub slug : Text
  pub description : Text
  pub parent_id : Option ℕ
  pub is_active : Bool
  pub sort_order : ℤ
  pub created_at : Time
  pub updated_at : Time
  pub deleted_at : Option Time

pub record ProductImageResponse : Type 0 where
  pub id : ℕ
  pub url : Text
  pub alt_text : Text
  pub sort_order : ℤ
  pub is_primary : Bool
  pub created_at : Time
  pub updated_at : Time

pub record ProductSkuResponse : Type 0 where
  pub id : ℕ
  pub sku_code : Text
  pub size : Text
  pub color : Text
  pub mrp_amount : ℤ
  pub selling_amount : ℤ
  pub currency : Text
  pub is_active : Bool
  pub created_at : Time
  pub updated_at : Time

pub record ProductAttributeResponse : Type 0 where
  pub id : ℕ
  pub type : AttributeType
  pub name : Text
  pub value : Text
  pub created_at : Time
  pub updated_at : Time

pub record ProductResponse : Type 0 where
  pub id : ℕ
  pub category_id : ℕ
  pub name : Text
  pub slug : Text
  pub description : Text
  pub status : ProductStatus
  pub fabric_summary : Text
  pub wash_care : Text
  pub durability_notes : Text
  pub images : List ProductImageResponse
  pub skus : List ProductSkuResponse
  pub attributes : List ProductAttributeResponse
  pub created_at : Time
  pub updated_at : Time
  pub deleted_at : Option Time

pub record ProductListResponse : Type 0 where
  pub items : List ProductResponse
  pub page : ℤ
  pub page_size : ℤ
  pub total_count : ℤ

unfoldable pub to_category_response : Category → CategoryResponse
to_category_response item = record {
  id = item.id;
  name = item.name;
  slug = item.slug;
  description = item.description;
  parent_id = item.parent_id;
  is_active = item.is_active;
  sort_order = item.sort_order;
  created_at = item.created_at;
  updated_at = item.updated_at;
  deleted_at = item.deleted_at;
}

-- The bodies of the three loops of toProductResponse.
unfoldable pub image_response : ProductImage → ProductImageResponse
image_response image = record {
  id = image.id;
  url = image.url;
  alt_text = image.alt_text;
  sort_order = image.sort_order;
  is_primary = image.is_primary;
  created_at = image.created_at;
  updated_at = image.updated_at;
}

unfoldable pub sku_response : ProductSku → ProductSkuResponse
sku_response sku = record {
  id = sku.id;
  sku_code = sku.sku_code;
  size = sku.size;
  color = sku.color;
  mrp_amount = sku.mrp_amount;
  selling_amount = sku.selling_amount;
  currency = sku.currency;
  is_active = sku.is_active;
  created_at = sku.created_at;
  updated_at = sku.updated_at;
}

unfoldable pub attribute_response : ProductAttribute → ProductAttributeResponse
attribute_response attribute = record {
  id = attribute.id;
  type = attribute.type;
  name = attribute.name;
  value = attribute.value;
  created_at = attribute.created_at;
  updated_at = attribute.updated_at;
}

unfoldable pub to_product_response : Product → ProductResponse
unfolding image_response sku_response attribute_response
to_product_response item = record {
  id = item.id;
  category_id = item.category_id;
  name = item.name;
  slug = item.slug;
  description = item.description;
  status = item.status;
  fabric_summary = item.fabric_summary;
  wash_care = item.wash_care;
  durability_notes = item.durability_notes;
  images = map image_response item.images;
  skus = map sku_response item.skus;
  attributes = map attribute_response item.attributes;
  created_at = item.created_at;
  updated_at = item.updated_at;
  deleted_at = item.deleted_at;
}
