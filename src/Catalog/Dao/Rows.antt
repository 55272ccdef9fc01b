-- ===== src/Catalog/Dao/Rows.antt =====
-- The rows of catalog/productdao/postgres.go, and their conversions to and from the catalogue's
-- data. `DeletedAt` is gorm's: a time that counts if it is valid.
pub mod Laws
use wesko_go_backend.Common.{ℕ, Bool, false, Option, none, some, List, [], map, if◌then◌else◌}
use wesko_go_backend.Common.Int.{ℤ}
use wesko_go_backend.Common.Text.{Text}
use wesko_go_backend.Common.Gorm.{DeletedAt, not_deleted}
use wesko_go_backend.Catalog.Models.{
  Time, Category, Product, ProductImage, ProductSku, ProductAttribute, BulkUploadJob,
}
use wesko_go_backend.Catalog.Dao.PartRows.{
  ProductImageModel, ProductSkuModel, ProductAttributeModel, to_product_image_model,
  to_product_image_domain, to_product_sku_model, to_product_sku_domain, to_product_attribute_model,
  to_product_attribute_domain,
}

pub record CategoryModel : Type 0 where
  pub id : ℕ
  pub name : Text
  pub slug : Text
  pub description : Text
  pub parent_id : Option ℕ
  pub is_active : Bool
  pub sort_order : ℤ
  pub created_at : Time
  pub updated_at : Time
  pub deleted_at : DeletedAt

pub record ProductModel : Type 0 where
  pub id : ℕ
  pub category_id : ℕ
  pub name : Text
  pub slug : Text
  pub description : Text
  pub status : Text
  pub fabric_summary : Text
  pub wash_care : Text
  pub durability_notes : Text
  pub created_at : Time
  pub updated_at : Time
  pub deleted_at : DeletedAt
  pub images : List ProductImageModel
  pub skus : List ProductSkuModel
  pub attributes : List ProductAttributeModel

pub record BulkUploadJobModel : Type 0 where
  pub id : ℕ
  pub created_by : ℕ
  pub file_name : Text
  pub status : Text
  pub total_rows : ℤ
  pub success_rows : ℤ
  pub failed_rows : ℤ
  pub error_report_url : Text
  pub created_at : Time
  pub updated_at : Time

-- `var deletedAt *time.Time; if model.DeletedAt.Valid { … }`
unfoldable pub deleted_time : DeletedAt → Option Time
deleted_time d = if d.valid then some d.time else none

unfoldable pub to_category_model : Category → CategoryModel
to_category_model category = record {
  id = category.id;
  name = category.name;
  slug = category.slug;
  description = category.description;
  parent_id = category.parent_id;
  is_active = category.is_active;
  sort_order = category.sort_order;
  created_at = category.created_at;
  updated_at = category.updated_at;
  deleted_at = not_deleted;
}

unfoldable pub to_category_domain : CategoryModel → Category
unfolding deleted_time
to_category_domain model = record {
  id = model.id;
  name = model.name;
  slug = model.slug;
  description = model.description;
  parent_id = model.parent_id;
  is_active = model.is_active;
  sort_order = model.sort_order;
  created_at = model.created_at;
  updated_at = model.updated_at;
  deleted_at = deleted_time model.deleted_at;
}

unfoldable pub to_product_model : Product → ProductModel
to_product_model product = record {
  id = product.id;
  category_id = product.category_id;
  name = product.name;
  slug = product.slug;
  description = product.description;
  status = product.status;
  fabric_summary = product.fabric_summary;
  wash_care = product.wash_care;
  durability_notes = product.durability_notes;
  created_at = product.created_at;
  updated_at = product.updated_at;
  deleted_at = not_deleted;
  images = [];
  skus = [];
  attributes = [];
}

unfoldable pub to_product_domain : ProductModel → Product
unfolding deleted_time to_product_image_domain to_product_sku_domain to_product_attribute_domain
to_product_domain model = record {
  id = model.id;
  category_id = model.category_id;
  name = model.name;
  slug = model.slug;
  description = model.description;
  status = model.status;
  fabric_summary = model.fabric_summary;
  wash_care = model.wash_care;
  durability_notes = model.durability_notes;
  created_at = model.created_at;
  updated_at = model.updated_at;
  deleted_at = deleted_time model.deleted_at;
  images = map to_product_image_domain model.images;
  skus = map to_product_sku_domain model.skus;
  attributes = map to_product_attribute_domain model.attributes;
}

unfoldable pub to_bulk_upload_job_model : BulkUploadJob → BulkUploadJobModel
to_bulk_upload_job_model job = record {
  id = job.id;
  created_by = job.created_by;
  file_name = job.file_name;
  status = job.status;
  total_rows = job.total_rows;
  success_rows = job.success_rows;
  failed_rows = job.failed_rows;
  error_report_url = job.error_report_url;
  created_at = job.created_at;
  updated_at = job.updated_at;
}

unfoldable pub to_bulk_upload_job_domain : BulkUploadJobModel → BulkUploadJob
to_bulk_upload_job_domain model = record {
  id = model.id;
  created_by = model.created_by;
  file_name = model.file_name;
  status = model.status;
  total_rows = model.total_rows;
  success_rows = model.success_rows;
  failed_rows = model.failed_rows;
  error_report_url = model.error_report_url;
  created_at = model.created_at;
  updated_at = model.updated_at;
}
