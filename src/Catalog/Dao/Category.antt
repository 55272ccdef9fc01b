-- ===== src/Catalog/Dao/Category.antt =====
-- CreateCategory, GetCategoryByID, UpdateCategory, DeleteCategory and ListCategories of
-- catalog/productdao/postgres.go.
pub mod Laws
use wesko_go_backend.Common.{
  ℕ, ◌+◌, ◌-◌, ◌*◌, ◌%◌, zero, suc, Option, none, some, List, [], ◌++◌, map, ltb, ◌==◌, is_empty,
  if◌then◌else◌,
}
use wesko_go_backend.Common.Int.{wrap_int, ℤ, pos, negsuc, pos_part}
use wesko_go_backend.Common.Text.{Text, codes}
use wesko_go_backend.Common.Exec.{Result, ok, err, pure, raise, ◌>>=◌}
use wesko_go_backend.Catalog.Errors.{Error, category_not_found}
use wesko_go_backend.Catalog.Models.{Category, CategoryFilter}
use wesko_go_backend.Catalog.Ports.{Call}
use wesko_go_backend.Catalog.Dao.{normalize_pagination}
use wesko_go_backend.Catalog.Dao.Rows.{CategoryModel, to_category_model, to_category_domain}
use wesko_go_backend.Common.Gorm.{DbError, rescue}
use wesko_go_backend.Catalog.Dao.Tables.{
  raw, Query, new_query, where_some, where_search, CategoryCondition, parent_id_is, is_active_is,
  name_or_slug_like, Db, mapped, read_clock,
}

-- `(page - 1) * pageSize`, for the page and the size that normalizePagination returns
unfoldable pub page_offset : ℤ → ℤ → ℤ
unfolding wrap_int
page_offset page page_size = wrap_int ((pos_part page - 1) * pos_part page_size)

-- `if e is ErrRecordNotFound { return missing }; return e`
unfoldable pub on_missing : Error → DbError → Error
on_missing missing e = if e.record_not_found then missing else raw e

-- The conditions of ListCategories.
unfoldable pub category_query : CategoryFilter → Query CategoryCondition
category_query filter =
    where_search name_or_slug_like filter.search (
      where_some is_active_is filter.is_active (where_some parent_id_is filter.parent_id new_query))

module _ {S : Type 0} (db : Db S) where
  unfoldable pub create_category : Category → Call S Category
  create_category category = do
    model ← rescue (mapped db) (db.categories.create (to_category_model category))
    pure (to_category_domain model)

  unfoldable pub get_category_by_id : ℕ → Call S Category
  unfolding on_missing
  get_category_by_id id = do
    model ← rescue (on_missing category_not_found) (db.categories.first [] id)
    pure (to_category_domain model)

  unfoldable pub update_category : Category → Call S Category
  unfolding get_category_by_id
  update_category category =
      let model = to_category_model category in
      do
        now ← read_clock db
        rows ← rescue (mapped db) (
            db.categories.updates category.id λ row. record row {
              name = model.name;
              slug = model.slug;
              description = model.description;
              parent_id = model.parent_id;
              is_active = model.is_active;
              sort_order = model.sort_order;
              updated_at = now;
            })
        if rows == 0 then raise category_not_found else get_category_by_id category.id

  unfoldable pub delete_category : ℕ → Call S Unit
  delete_category id = do
    rows ← rescue raw (db.categories.delete id)
    if rows == 0 then raise category_not_found else pure tt

  unfoldable pub list_categories : CategoryFilter → Call S (List Category × ℤ)
  unfolding category_query page_offset
  list_categories filter =
      let (page, page_size) = normalize_pagination filter.page filter.page_size in
      let query = category_query filter in
      do
        total ← rescue raw (db.categories.count query)
        models ← rescue raw (
            db.categories.find (record query {
              order = codes "sort_order ASC, id ASC";
              offset = some (page_offset page page_size);
              limit = some page_size;
            }))
        pure (map to_category_domain models, total)
