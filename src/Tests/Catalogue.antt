-- ===== src/Tests/Catalogue.antt =====
-- The catalogue's service in the small shop.
use wesko_go_backend.Common.Text.{
  has_prefix, to_lower, eq, to_upper, byte_len, trim_space, Text, codes,
}
use wesko_go_backend.Catalog.Service.Product.{new_product, status_of, create_product}
use wesko_go_backend.Catalog.Service.Base.{is_valid_status, normalize_slug}
use wesko_go_backend.Common.{ℕ, ◌≡◌, refl, true, none, some, List, [], ◌∷◌, arith, All, ◌⊎◌}
use wesko_go_backend.Common.Exec.{Result, ok, err}
use wesko_go_backend.Common.Exec.Ensures.{OnOk}
use wesko_go_backend.Catalog.Errors.{
  Error, product_slug_already_exists, category_slug_already_exists, other,
}
use wesko_go_backend.Catalog.Models.{Category, Product, ProductSku, product_status_draft}
use wesko_go_backend.Catalog.Requests.{UpdateProductRequest}
use wesko_go_backend.Catalog.Service.Skus.{validate_skus, map_sku_requests}
use wesko_go_backend.Catalog.Service.Category.Laws.{IsNamed}
use wesko_go_backend.Catalog.Service.Product.Laws.{IsWellFormed}
use wesko_go_backend.Catalog.Service.Product.Create.{IsCreated, create_product_iff}
use wesko_go_backend.Catalog.Service.History.{
  create_product_request, update_product_request, serve_all, Respects, serve_all-keeps,
}
use wesko_go_backend.Common.Http.{bound}
use wesko_go_backend.Catalog.Http.Routes.{Request, put_product, route}
use wesko_go_backend.Catalog.Http.Routes.Serves.{IsServed, IsRefused, route_cases}
use wesko_go_backend.Catalog.Dao.{map_db_error}
use wesko_go_backend.Tests.Shop.{
  find_category, find_product, shop, shirts, open_shop, small, shirt, Shop,
}

abbrev units : List ProductSku
units = map_sku_requests shop (small ∷ record small { sku_code = codes "SH-2" } ∷ []) 0

abbrev nothing : Product
nothing = record {
  id = 0;
  category_id = 0;
  name = [];
  slug = [];
  description = [];
  status = [];
  fabric_summary = [];
  wash_care = [];
  durability_notes = [];
  created_at = 0;
  updated_at = 0;
  deleted_at = none;
  images = [];
  skus = [];
  attributes = [];
}

abbrev created : Result Error Product × Shop
created = create_product shop shirt open_shop

abbrev answer : Result Error Product → Product
answer (ok p) = p
answer (err e) = nothing

created_run : created ≡ (ok (answer created.0), created.1)
unfolding create_product trim_space normalize_slug to_lower is_valid_status eq status_of
    validate_skus new_product map_sku_requests byte_len to_upper
created_run = refl

create_product_iff_example : IsCreated shop shirt open_shop (answer created.0) created.1
create_product_iff_example =
    (create_product_iff shop shirt open_shop (answer created.0) created.1).0 created_run

-- All rows are well formed.
abbrev Good : Shop → Type 0
Good w = All IsNamed w.categories × All (IsWellFormed shop) w.products

found_category : (id : ℕ) (cs : List Category) → All IsNamed cs → OnOk IsNamed (find_category id cs)
found_category id [] h = tt
found_category id (c ∷ cs) (p, h) = ground (arith, found_category id cs h, p)

found_product :
    (id : ℕ) (ps : List Product)
    → All (IsWellFormed shop) ps
    → OnOk (IsWellFormed shop) (find_product id ps)
found_product id [] h = tt
found_product id (c ∷ cs) (p, h) = ground (arith, found_product id cs h, p)

shop-Respects : Respects shop Good
shop-Respects = record {
  creates_category = λ c n w (g, h). (((n, g), h), n);
  finds_category = λ id w (g, h). ((g, h), found_category id w.categories g);
  updates_category = λ c n w (g, h). (((n, g), h), n);
  deletes_category = λ id w (g, h). ((tt, h), tt);
  lists_categories = λ f w (g, h). ((g, h), tt);
  creates_product = λ p n w (g, h). ((g, (n, h)), n);
  finds_product = λ id w (g, h). ((g, h), found_product id w.products h);
  updates_product = λ p n w (g, h). ((g, (n, h)), n);
  deletes_product = λ id w (g, h). ((g, tt), tt);
  lists_products = λ f w (g, h). ((g, h), tt);
}

abbrev renaming : UpdateProductRequest
renaming = record {
  category_id = none;
  name = some (codes "  ");
  slug = none;
  description = none;
  status = some product_status_draft;
  fabric_summary = none;
  wash_care = none;
  durability_notes = none;
  images = none;
  skus = none;
  attributes = none;
}

shirts-IsNamed : IsNamed shirts
shirts-IsNamed = record { named = λ e. cc; slugged = λ e. cc }

serve_all-keeps_example : Good (
    serve_all shop
      (update_product_request 0 renaming ∷ create_product_request shirt ∷ [])
      open_shop)
serve_all-keeps_example =
    serve_all-keeps shop Good shop-Respects
      (update_product_request 0 renaming ∷ create_product_request shirt ∷ []) open_shop
      ((shirts-IsNamed, tt), tt)

-- A renaming of the product with the id 1, which the shop does not have.
abbrev rename : Request
rename = put_product (codes "1") (bound renaming)

route_cases_example :
    IsServed shop rename open_shop (route shop (λ e. codes "error") (codes "r1") rename open_shop)
    ⊎ IsRefused shop rename open_shop
        (route shop (λ e. codes "error") (codes "r1") rename open_shop)
route_cases_example = route_cases shop (λ e. codes "error") (codes "r1") rename open_shop

-- a message that names the table, and no column
abbrev message : Text
message = codes "duplicate key in catalog_products"

message_run : map_db_error (λ c. c) true message (other 0) ≡ product_slug_already_exists
unfolding map_db_error to_lower has_prefix
message_run = refl

-- The unique index on the slug of a product is reported as a category's slug.
product_slug_misreported :
    map_db_error
      (λ c. c)
      true
      (codes "violates unique constraint idx_catalog_products_slug")
      (other 0)
    ≡ category_slug_already_exists
unfolding map_db_error to_lower has_prefix
product_slug_misreported = refl
