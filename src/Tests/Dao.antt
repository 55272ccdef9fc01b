-- ===== src/Tests/Dao.antt =====
-- The two DAOs in small databases.
use wesko_go_backend.Common.{◌≡◌, refl, true, false, none, [], ◌∷◌}
use wesko_go_backend.Common.Int.{pos, negsuc}
use wesko_go_backend.Common.Text.{codes}
use wesko_go_backend.Common.Exec.{ok}
use wesko_go_backend.Catalog.Models.{Product, ProductImage, ProductSku}
use wesko_go_backend.Catalog.Dao.Rows.{to_product_model, to_product_domain}
use wesko_go_backend.Catalog.Dao.Rows.Laws.{stored, to_product_domain-models}
use wesko_go_backend.Catalog.Dao.Product.{
  image_models, sku_models, attribute_models, insert_product, create_product,
}
use wesko_go_backend.Catalog.Dao.Product.Parts.{IsInserted, insert_product_iff}
use wesko_go_backend.Catalog.Dao.Category.{page_offset}
use wesko_go_backend.Tests.Database.{Rows, database, no_rows}

abbrev picture : ProductImage
picture = record {
  id = 0;
  product_id = 0;
  url = codes "front.png";
  alt_text = [];
  sort_order = pos 0;
  is_primary = true;
  created_at = 0;
  updated_at = 0;
}

abbrev unit : ProductSku
unit = record {
  id = 0;
  product_id = 0;
  sku_code = codes "SH-1";
  size = codes "S";
  color = codes "red";
  mrp_amount = pos 900;
  selling_amount = pos 700;
  currency = codes "INR";
  is_active = true;
  created_at = 0;
  updated_at = 0;
}

abbrev red_shirt : Product
red_shirt = record {
  id = 0;
  category_id = 4;
  name = codes "Shirt";
  slug = codes "red-shirt";
  description = [];
  status = codes "draft";
  fabric_summary = [];
  wash_care = [];
  durability_notes = [];
  created_at = 0;
  updated_at = 0;
  deleted_at = none;
  images = picture ∷ [];
  skus = unit ∷ [];
  attributes = [];
}

to_product_domain-models_example :
    to_product_domain (record (to_product_model red_shirt) {
      id = 7;
      images = image_models 7 red_shirt.images;
      skus = sku_models 7 red_shirt.skus;
      attributes = attribute_models 7 red_shirt.attributes;
    })
    ≡ stored 7 red_shirt
to_product_domain-models_example = to_product_domain-models 7 red_shirt

rolled_back_run : (create_product (database true) red_shirt no_rows).1 ≡ no_rows
unfolding create_product
rolled_back_run = refl

abbrev inserted : Rows
inserted = (insert_product (database false) red_shirt no_rows).1

insert_run : insert_product (database false) red_shirt no_rows ≡ (ok 1, inserted)
unfolding insert_product
insert_run = refl

insert_product_iff_example : IsInserted (database false) red_shirt no_rows 1 inserted
insert_product_iff_example =
    (insert_product_iff (database false) red_shirt no_rows 1 inserted).0 insert_run

-- At a page far out the offset wraps to a negative number.
wrapped_offset : page_offset (pos 92233720368547760) (pos 100) ≡ negsuc 9223372036854775715
unfolding page_offset
wrapped_offset = refl
