-- ===== src/Catalog/Requests.antt =====
-- catalog/requests.go: the requests that the catalogue's service takes.
use wesko_go_backend.Common.{ℕ, Bool, Option, List}
use wesko_go_backend.Common.Int.{ℤ}
use wesko_go_backend.Common.Text.{Text}
use wesko_go_backend.Catalog.Models.{ProductStatus, AttributeType}

pub record CreateCategoryRequest : Type 0 where
  pub name : Text
  pub slug : Text
  pub description : Text
  pub parent_id : Option ℕ
  pub is_active : Option Bool
  pub sort_order : Option ℤ

pub record UpdateCategoryRequest : Type 0 where
  pub name : Option Text
  pub slug : Option Text
  pub description : Option Text
  pub parent_id : Option ℕ
  pub is_active : Option Bool
  pub sort_order : Option ℤ

pub record ListCategoriesRequest : Type 0 where
  pub parent_id : Option ℕ
  pub is_active : Option Bool
  pub search : Text
  pub page : ℤ
  pub page_size : ℤ

pub record CreateProductImageRequest : Type 0 where
  pub url : Text
  pub alt_text : Text
  pub sort_order : Option ℤ
  pub is_primary : Option Bool

pub record CreateProductSkuRequest : Type 0 where
  pub sku_code : Text
  pub size : Text
  pub color : Text
  pub mrp_amount : ℤ
  pub selling_amount : ℤ
  pub currency : Text
  pub is_active : Option Bool

pub record CreateProductAttributeRequest : Type 0 where
  pub type : AttributeType
  pub name : Text
  pub value : Text

pub record CreateProductRequest : Type 0 where
  pub category_id : ℕ
  pub name : Text
  pub slug : Text
  pub description : Text
  pub status : ProductStatus
  pub fabric_summary : Text
  pub wash_care : Text
  pub durability_notes : Text
  pub images : List CreateProductImageRequest
  pub skus : List CreateProductSkuRequest
  pub attributes : List CreateProductAttributeRequest

pub record UpdateProductRequest : Type 0 where
  pub category_id : Option ℕ
  pub name : Option Text
  pub slug : Option Text
  pub description : Option Text
  pub status : Option ProductStatus
  pub fabric_summary : Option Text
  pub wash_care : Option Text
  pub durability_notes : Option Text
  pub images : Option (List CreateProductImageRequest)
  pub skus : Option (List CreateProductSkuRequest)
  pub attributes : Option (List CreateProductAttributeRequest)

pub record ListProductsRequest : Type 0 where
  pub category_id : Option ℕ
  pub size : Text
  pub color : Text
  pub min_price : Option ℤ
  pub max_price : Option ℤ
  pub search : Text
  pub sort : Text
  pub status : Text
  pub page : ℤ
  pub page_size : ℤ
