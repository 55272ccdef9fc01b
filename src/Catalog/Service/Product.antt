-- ===== src/Catalog/Service/Product.antt =====
-- CreateProduct, GetProduct, UpdateProduct, DeleteProduct, ListProducts, mapImageRequests and
-- mapAttributeRequests of catalog/service/service.go.
pub mod Laws
pub mod Create
pub mod Images
use wesko_go_backend.Common.{
  ℕ, suc, Bool, not, Option, none, some, List, [], ◌∷◌, map, ◌==◌, is_empty, if◌then◌else◌,
}
use wesko_go_backend.Common.Int.{ℤ, pos}
use wesko_go_backend.Common.Text.{Text, trim_space}
use wesko_go_backend.Common.Exec.{Result, ok, err, pure, raise, lift, ◌>>=◌, ◌>>◌}
use wesko_go_backend.Catalog.Errors.{
  Error, invalid_product_name, invalid_product_slug, invalid_product_status, category_not_found,
  product_not_found,
}
use wesko_go_backend.Catalog.Models.{
  ProductStatus, product_status_draft, Product, ProductImage, ProductAttribute, ProductFilter,
}
use wesko_go_backend.Catalog.Requests.{
  CreateProductImageRequest, CreateProductAttributeRequest, CreateProductRequest,
  UpdateProductRequest, ListProductsRequest,
}
use wesko_go_backend.Catalog.Ports.{Call}
use wesko_go_backend.Catalog.Service.Base.{
  Service, normalize_slug, is_valid_status, or_default, or_trimmed,
}
use wesko_go_backend.Catalog.Service.Skus.{map_sku_requests, validate_skus}

-- The body of mapImageRequests' loop at index `idx`.
unfoldable pub map_image : ℕ → ℕ → CreateProductImageRequest → ProductImage
map_image product_id idx image = record {
  id = 0;
  product_id = product_id;
  url = trim_space image.url;
  alt_text = trim_space image.alt_text;
  sort_order = or_default image.sort_order (pos idx);
  is_primary = or_default image.is_primary (idx == 0);
  created_at = 0;
  updated_at = 0;
}

-- mapImageRequests from index `idx` on.
unfoldable pub map_images_from : ℕ → ℕ → List CreateProductImageRequest → List ProductImage
unfolding map_image
map_images_from product_id idx [] = []
map_images_from product_id idx (image ∷ images) =
    map_image product_id idx image ∷ map_images_from product_id (suc idx) images

unfoldable pub map_image_requests : List CreateProductImageRequest → ℕ → List ProductImage
unfolding map_images_from
map_image_requests requests product_id = map_images_from product_id 0 requests

-- The body of mapAttributeRequests' loop.
unfoldable pub map_attribute : ℕ → CreateProductAttributeRequest → ProductAttribute
map_attribute product_id attr = record {
  id = 0;
  product_id = product_id;
  type = attr.type;
  name = trim_space attr.name;
  value = trim_space attr.value;
  created_at = 0;
  updated_at = 0;
}

unfoldable pub map_attribute_requests :
    List CreateProductAttributeRequest → ℕ → List ProductAttribute
unfolding map_attribute
map_attribute_requests requests product_id = map (map_attribute product_id) requests

module _ {S : Type 0} (s : Service S) where
  -- The status of a new product: a draft if none is asked for.
  unfoldable pub status_of : ProductStatus → ProductStatus
  status_of status = if is_empty status then product_status_draft else status

  -- The product that CreateProduct stores; the database gives the id and the times.
  unfoldable pub new_product : CreateProductRequest → Product
  new_product req = record {
    id = 0;
    category_id = req.category_id;
    name = trim_space req.name;
    slug = normalize_slug s req.slug;
    description = trim_space req.description;
    status = status_of req.status;
    fabric_summary = trim_space req.fabric_summary;
    wash_care = trim_space req.wash_care;
    durability_notes = trim_space req.durability_notes;
    created_at = 0;
    updated_at = 0;
    deleted_at = none;
    images = map_image_requests req.images 0;
    skus = map_sku_requests s req.skus 0;
    attributes = map_attribute_requests req.attributes 0;
  }

  unfoldable pub create_product : CreateProductRequest → Call S Product
  create_product req =
      if is_empty (trim_space req.name)
      then raise invalid_product_name
      else if is_empty (normalize_slug s req.slug)
      then raise invalid_product_slug
      else if req.category_id == 0
      then raise category_not_found
      else if not (is_valid_status (status_of req.status))
      then raise invalid_product_status
      else do
        s.repo.get_category_by_id req.category_id
        lift (validate_skus s (new_product req).skus)
        s.repo.create_product (new_product req)

  unfoldable pub get_product : ℕ → Call S Product
  get_product id = if id == 0 then raise product_not_found else s.repo.get_product_by_id id

  -- The new category, if one is asked for: it must exist.
  unfoldable pub move_product : Option ℕ → Product → Call S Product
  move_product none current = pure current
  move_product (some category_id) current =
      if category_id == 0 then raise category_not_found else do
        s.repo.get_category_by_id category_id
        pure (record current { category_id = category_id })

  -- The new name, if one is asked for.
  unfoldable pub rename_product : Option Text → Product → Result Error Product
  rename_product none current = ok current
  rename_product (some raw) current =
      if is_empty (trim_space raw)
      then err invalid_product_name
      else ok (record current { name = trim_space raw })

  -- The new slug, if one is asked for.
  unfoldable pub reslug_product : Option Text → Product → Result Error Product
  reslug_product none current = ok current
  reslug_product (some raw) current =
      if is_empty (normalize_slug s raw)
      then err invalid_product_slug
      else ok (record current { slug = normalize_slug s raw })

  -- The new status, if one is asked for.
  unfoldable pub restate_product : Option ProductStatus → Product → Result Error Product
  restate_product none current = ok current
  restate_product (some status) current =
      if not (is_valid_status status)
      then err invalid_product_status
      else ok (record current { status = status })

  -- The texts and the parts, which UpdateProduct takes over before it checks the units.
  unfoldable pub patch_product : UpdateProductRequest → Product → Product
  patch_product req current = record current {
    description = or_trimmed req.description current.description;
    fabric_summary = or_trimmed req.fabric_summary current.fabric_summary;
    wash_care = or_trimmed req.wash_care current.wash_care;
    durability_notes = or_trimmed req.durability_notes current.durability_notes;
    images = elim req.images [
      | none ↦ current.images
      | some images ↦ map_image_requests images current.id
    ];
    skus = elim req.skus [ none ↦ current.skus | some skus ↦ map_sku_requests s skus current.id ];
    attributes = elim req.attributes [
      | none ↦ current.attributes
      | some attributes ↦ map_attribute_requests attributes current.id
    ];
  }

  unfoldable pub update_product : ℕ → UpdateProductRequest → Call S Product
  update_product id req = if id == 0 then raise product_not_found else do
    current ← s.repo.get_product_by_id id
    moved ← move_product req.category_id current
    named ← lift (rename_product req.name moved)
    slugged ← lift (reslug_product req.slug named)
    restated ← lift (restate_product req.status slugged)
    lift (validate_skus s (patch_product req restated).skus)
    s.repo.update_product (patch_product req restated)

  unfoldable pub delete_product : ℕ → Call S Unit
  delete_product id = if id == 0 then raise product_not_found else s.repo.delete_product id

  -- The filter that ListProducts asks the repository with, but for the status.
  unfoldable pub product_filter : ListProductsRequest → Option ProductStatus → ProductFilter
  product_filter req status = record {
    category_id = req.category_id;
    size = trim_space req.size;
    color = trim_space req.color;
    min_price = req.min_price;
    max_price = req.max_price;
    search = trim_space req.search;
    sort = trim_space req.sort;
    status = status;
    page = req.page;
    page_size = req.page_size;
  }

  unfoldable pub list_products : ListProductsRequest → Call S (List Product × ℤ)
  list_products req =
      if is_empty req.status
      then s.repo.list_products (product_filter req none)
      else if not (is_valid_status (trim_space req.status))
      then raise invalid_product_status
      else s.repo.list_products (product_filter req (some (trim_space req.status)))
