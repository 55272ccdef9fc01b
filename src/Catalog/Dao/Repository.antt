-- ===== src/Catalog/Dao/Repository.antt =====
-- PostgresRepository of catalog/productdao/postgres.go, as the repository that the service takes.
use wesko_go_backend.Catalog.Ports.{Repository}
use wesko_go_backend.Catalog.Dao.Tables.{Db}
use wesko_go_backend.Catalog.Dao.Category.{
  create_category, get_category_by_id, update_category, delete_category, list_categories,
}
use wesko_go_backend.Catalog.Dao.Product.{
  create_product, get_product_by_id, update_product, delete_product, list_products,
}

abbrev pub postgres_repository : {S : Type 0} → Db S → Repository S
postgres_repository db = record {
  create_category = create_category db;
  get_category_by_id = get_category_by_id db;
  update_category = update_category db;
  delete_category = delete_category db;
  list_categories = list_categories db;
  create_product = create_product db;
  get_product_by_id = get_product_by_id db;
  update_product = update_product db;
  delete_product = delete_product db;
  list_products = list_products db;
}
