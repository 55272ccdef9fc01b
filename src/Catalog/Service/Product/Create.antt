-- ===== src/Catalog/Service/Product/Create.antt =====
-- When a product is created.
use wesko_go_backend.Common.{◌≡◌, ◌≢◌, ◌↔◌, inl, inr, [], none, is_empty, if◌then◌else◌, arith}
use wesko_go_backend.Common.Text.{codes, trim_space}
use wesko_go_backend.Common.Exec.{ok, Result-cases, Call-cases}
use wesko_go_backend.Catalog.Models.{Product, Category}
use wesko_go_backend.Catalog.Requests.{CreateProductRequest}
use wesko_go_backend.Catalog.Service.Base.{Service, normalize_slug}
use wesko_go_backend.Catalog.Service.Skus.{validate_skus, map_sku_requests}
use wesko_go_backend.Catalog.Service.Skus.Laws.{AreValid, validate_skus_iff}
use wesko_go_backend.Common.Text.{empty_iff}
use wesko_go_backend.Catalog.Service.Product.{
  status_of, new_product, create_product, map_image_requests, map_attribute_requests,
}
use wesko_go_backend.Catalog.Service.Product.Laws.{IsStatus, is_valid_status_iff}

module _ {S : Type 0} (s : Service S) where
  -- The product of a request: its texts without the space around them, its slug normalised, a draft
  -- if no status is asked for, no id and no times, and the parts of the request.
  abbrev pub product_of : CreateProductRequest → Product
  product_of req = record {
    id = 0;
    category_id = req.category_id;
    name = trim_space req.name;
    slug = normalize_slug s req.slug;
    description = trim_space req.description;
    status = if is_empty req.status then codes "draft" else req.status;
    fabric_summary = trim_space req.fabric_summary;
    wash_care = trim_space req.wash_care;
    durability_notes = trim_space req.durability_notes;
    created_at = 0;
    updated_at = 0;
    deleted_at = none;
    images = map_image_requests req.images 0;
    skus = map_sku_requests s req.skus 0;
    attributes = map_attribute_requests req.attributes 0;
  }

  -- The request and the calls of a creation that succeeds.
  pub record IsCreated (req : CreateProductRequest) (w : S) (product : Product) (t : S)
      : Type 0 where
    pub named : trim_space req.name ≢ []
    pub slugged : normalize_slug s req.slug ≢ []
    pub placed : req.category_id ≢ 0
    pub stated : IsStatus (product_of req).status
    pub category : Category
    pub found : S
    pub in_category : s.repo.get_category_by_id req.category_id w ≡ (ok category, found)
    pub valid : AreValid s (product_of req).skus
    pub stored : s.repo.create_product (product_of req) found ≡ (ok product, t)

  create_product_sound :
      (req : CreateProductRequest) (w : S) {product : Product} {t : S}
      → create_product s req w ≡ (ok product, t)
      → IsCreated req w product t
  unfolding create_product new_product status_of
  create_product_sound req w {product} {t} h =
      elim (Call-cases (s.repo.get_category_by_id req.category_id w)) [
        | inr (e, v, q) ↦ ground arith
        | inl (category, v, q) ↦ elim (Result-cases (validate_skus s (product_of req).skus)) [
          | inr (e, q') ↦ ground arith
          | inl (_, q') ↦ record {
            named = (empty_iff (trim_space req.name)).0 (ground arith);
            slugged = (empty_iff (normalize_slug s req.slug)).0 (ground arith);
            placed = ground arith;
            stated = (is_valid_status_iff (product_of req).status).0 (ground arith);
            category = category;
            found = v;
            in_category = q;
            valid = (validate_skus_iff s (product_of req).skus).0 q';
            stored = ground arith;
          }
        ]
      ]

  create_product_complete :
      (req : CreateProductRequest) (w : S) {product : Product} {t : S}
      → IsCreated req w product t
      → create_product s req w ≡ (ok product, t)
  unfolding create_product new_product status_of
  create_product_complete req w c =
      let named = (empty_iff (trim_space req.name)).1 c.named in
      let slugged = (empty_iff (normalize_slug s req.slug)).1 c.slugged in
      let stated = (is_valid_status_iff (product_of req).status).1 c.stated in
      let valid = (validate_skus_iff s (product_of req).skus).1 c.valid in
      ground (arith, named, slugged, stated, valid, c.placed, c.in_category, c.stored)

-- A product is created exactly if its trimmed name and its slug are not empty, its category is not
-- zero and is found, its status is one of the four (a draft if none is given), its units are valid,
-- and the repository stores the product: the category, the slug, the status, the other texts without
-- the space around them, and the images, units and attributes that the requests map to.
pub create_product_iff :
    {S : Type 0} (s : Service S) (req : CreateProductRequest) (w : S) (product : Product) (t : S)
    → (create_product s req w ≡ (ok product, t)) ↔ IsCreated s req w product t
create_product_iff s req w product t =
    (create_product_sound s req w, create_product_complete s req w)
