-- ===== src/Tests/Shop.antt =====
-- A small shop that the catalogue's service runs in: two lists of rows.
use wesko_go_backend.Common.{ℕ, true, none, List, [], ◌∷◌, ◌==◌, if◌then◌else◌}
use wesko_go_backend.Common.Int.{pos}
use wesko_go_backend.Common.Text.{codes}
use wesko_go_backend.Common.Exec.{Result, ok, err}
use wesko_go_backend.Catalog.Errors.{Error, category_not_found, product_not_found}
use wesko_go_backend.Catalog.Models.{Category, Product}
use wesko_go_backend.Catalog.Requests.{
  CreateProductRequest, CreateProductImageRequest, CreateProductSkuRequest,
}
use wesko_go_backend.Catalog.Ports.{Repository}
use wesko_go_backend.Catalog.Service.Base.{Service}

pub record Shop : Type 0 where
  pub categories : List Category
  pub products : List Product

abbrev pub find_category : ℕ → List Category → Result Error Category
find_category id [] = err category_not_found
find_category id (c ∷ cs) = let rest = find_category id cs in if c.id == id then ok c else rest

abbrev pub find_product : ℕ → List Product → Result Error Product
find_product id [] = err product_not_found
find_product id (p ∷ ps) = let rest = find_product id ps in if p.id == id then ok p else rest

abbrev pub add_category : Category → Shop → Result Error Category × Shop
add_category c w = (ok c, record w { categories = c ∷ w.categories })

abbrev pub add_product : Product → Shop → Result Error Product × Shop
add_product p w = (ok p, record w { products = p ∷ w.products })

abbrev pub shop_repository : Repository Shop
shop_repository = record {
  create_category = add_category;
  get_category_by_id = λ id w. (find_category id w.categories, w);
  update_category = add_category;
  delete_category = λ id w. (ok tt, record w { categories = [] });
  list_categories = λ f w. (ok (w.categories, pos 0), w);
  create_product = add_product;
  get_product_by_id = λ id w. (find_product id w.products, w);
  update_product = add_product;
  delete_product = λ id w. (ok tt, record w { products = [] });
  list_products = λ f w. (ok (w.products, pos 0), w);
}

abbrev pub shop : Service Shop
shop = record { repo = shop_repository; lower_other = λ c. c; upper_other = λ c. c }

abbrev pub shirts : Category
shirts = record {
  id = 4;
  name = codes "Shirts";
  slug = codes "shirts";
  description = [];
  parent_id = none;
  is_active = true;
  sort_order = pos 0;
  created_at = 0;
  updated_at = 0;
  deleted_at = none;
}

abbrev pub open_shop : Shop
open_shop = record { categories = shirts ∷ []; products = [] }

abbrev pub small : CreateProductSkuRequest
small = record {
  sku_code = codes " sh-1 ";
  size = codes "S";
  color = codes "red";
  mrp_amount = pos 900;
  selling_amount = pos 700;
  currency = [];
  is_active = none;
}

abbrev pub front : CreateProductImageRequest
front = record { url = codes "front.png"; alt_text = []; sort_order = none; is_primary = none }

abbrev pub shirt : CreateProductRequest
shirt = record {
  category_id = 4;
  name = codes " Shirt ";
  slug = codes "Red-Shirt";
  description = [];
  status = [];
  fabric_summary = [];
  wash_care = [];
  durability_notes = [];
  images = front ∷ front ∷ [];
  skus = small ∷ [];
  attributes = [];
}
