-- ===== src/Catalog/Models.antt =====
-- catalog/models.go. A pointer that may be nil is an Option; a status and an attribute type are
-- strings, as in Go.
use wesko_go_backend.Common.{ℕ, Bool, Option, List}
use wesko_go_backend.Common.Int.{ℤ}
use wesko_go_backend.Common.Text.{Text, codes}

abbrev pub Time : Type 0
Time = ℕ

abbrev pub ProductStatus : Type 0
ProductStatus = Text

abbrev pub product_status_draft : ProductStatus
product_status_draft = codes "draft"

abbrev pub product_status_active : ProductStatus
product_status_active = codes "active"

abbrev pub product_status_inactive : ProductStatus
product_status_inactive = codes "inactive"

abbrev pub product_status_archived : ProductStatus
product_status_archived = codes "archived"

abbrev pub AttributeType : Type 0
AttributeType = Text

abbrev pub BulkUploadStatus : Type 0
BulkUploadStatus = Text

pub record Category : Type 0 where
  pub id : ℕ
  pub name : Text
  pub slug : Text
  pub description : Text
  pub parent_id : Option ℕ
  pub is_active : Bool
  pub sort_order : ℤ
  pub created_at : Time
  pub updated_at : Time
  pub deleted_at : Option Time

pub record ProductImage : Type 0 where
  pub id : ℕ
  pub product_id : ℕ
  pub url : Text
  pub alt_text : Text
  pub sort_order : ℤ
  pub is_primary : Bool
  pub created_at : Time
  pub updated_at : Time

pub record ProductSku : Type 0 where
  pub id : ℕ
  pub product_id : ℕ
  pub sku_code : Text
  pub size : Text
  pub color : Text
  pub mrp_amount : ℤ
  pub selling_amount : ℤ
  pub currency : Text
  pub is_active : Bool
  pub created_at : Time
  pub updated_at : Time

pub record ProductAttribute : Type 0 where
  pub id : ℕ
  pub product_id : ℕ
  pub type : AttributeType
  pub name : Text
  pub value : Text
  pub created_at : Time
  pub updated_at : Time

pub record Product : Type 0 where
  pub id : ℕ
  pub category_id : ℕ
  pub name : Text
  pub slug : Text
  pub description : Text
  pub status : ProductStatus
  pub fabric_summary : Text
  pub wash_care : Text
  pub durability_notes : Text
  pub created_at : Time
  pub updated_at : Time
  pub deleted_at : Option Time
  pub images : List ProductImage
  pub skus : List ProductSku
  pub attributes : List ProductAttribute

pub record CategoryFilter : Type 0 where
  pub parent_id : Option ℕ
  pub is_active : Option Bool
  pub search : Text
  pub page : ℤ
  pub page_size : ℤ

pub record ProductFilter : Type 0 where
  pub category_id : Option ℕ
  pub size : Text
  pub color : Text
  pub min_price : Option ℤ
  pub max_price : Option ℤ
  pub search : Text
  pub sort : Text
  pub status : Option ProductStatus
  pub page : ℤ
  pub page_size : ℤ

pub record BulkUploadJob : Type 0 where
  pub id : ℕ
  pub created_by : ℕ
  pub file_name : Text
  pub status : BulkUploadStatus
  pub total_rows : ℤ
  pub success_rows : ℤ
  pub failed_rows : ℤ
  pub error_report_url : Text
  pub created_at : Time
  pub updated_at : Time

pub record ProductAvailability : Type 0 where
  pub product_id : ℕ
  pub in_stock : Bool
  pub available_skus : ℤ
  pub total_active_sku : ℤ
