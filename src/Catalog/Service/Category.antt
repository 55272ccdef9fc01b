-- ===== src/Catalog/Service/Category.antt =====
-- CreateCategory, GetCategory, UpdateCategory, DeleteCategory and ListCategories of
-- catalog/service/service.go.
pub mod Laws
use wesko_go_backend.Common.{ℕ, Bool, true, Option, none, some, List, ◌==◌, is_empty, if◌then◌else◌}
use wesko_go_backend.Common.Int.{ℤ, pos}
use wesko_go_backend.Common.Text.{Text, trim_space}
use wesko_go_backend.Common.Exec.{Result, ok, err, raise, lift, ◌>>=◌}
use wesko_go_backend.Catalog.Errors.{
  Error, invalid_category_name, invalid_category_slug, category_not_found,
}
use wesko_go_backend.Catalog.Models.{Category, CategoryFilter}
use wesko_go_backend.Catalog.Requests.{
  CreateCategoryRequest, UpdateCategoryRequest, ListCategoriesRequest,
}
use wesko_go_backend.Catalog.Ports.{Call}
use wesko_go_backend.Catalog.Service.Base.{
  Service, normalize_slug, or_default, or_trimmed, or_pointer,
}

module _ {S : Type 0} (s : Service S) where
  -- The category that CreateCategory stores; the database gives the id and the times.
  unfoldable pub new_category : CreateCategoryRequest → Category
  new_category req = record {
    id = 0;
    name = trim_space req.name;
    slug = normalize_slug s req.slug;
    description = trim_space req.description;
    parent_id = req.parent_id;
    is_active = or_default req.is_active true;
    sort_order = or_default req.sort_order (pos 0);
    created_at = 0;
    updated_at = 0;
    deleted_at = none;
  }

  unfoldable pub create_category : CreateCategoryRequest → Call S Category
  create_category req =
      if is_empty (trim_space req.name)
      then raise invalid_category_name
      else if is_empty (normalize_slug s req.slug)
      then raise invalid_category_slug
      else s.repo.create_category (new_category req)

  unfoldable pub get_category : ℕ → Call S Category
  get_category id = if id == 0 then raise category_not_found else s.repo.get_category_by_id id

  -- The new name, if one is asked for.
  unfoldable pub rename_category : Option Text → Category → Result Error Category
  rename_category none current = ok current
  rename_category (some raw) current =
      if is_empty (trim_space raw)
      then err invalid_category_name
      else ok (record current { name = trim_space raw })

  -- The new slug, if one is asked for.
  unfoldable pub reslug_category : Option Text → Category → Result Error Category
  reslug_category none current = ok current
  reslug_category (some raw) current =
      if is_empty (normalize_slug s raw)
      then err invalid_category_slug
      else ok (record current { slug = normalize_slug s raw })

  -- The fields that UpdateCategory does not check.
  unfoldable pub patch_category : UpdateCategoryRequest → Category → Category
  patch_category req current = record current {
    description = or_trimmed req.description current.description;
    parent_id = or_pointer req.parent_id current.parent_id;
    is_active = or_default req.is_active current.is_active;
    sort_order = or_default req.sort_order current.sort_order;
  }

  unfoldable pub update_category : ℕ → UpdateCategoryRequest → Call S Category
  update_category id req = if id == 0 then raise category_not_found else do
    current ← s.repo.get_category_by_id id
    named ← lift (rename_category req.name current)
    slugged ← lift (reslug_category req.slug named)
    s.repo.update_category (patch_category req slugged)

  unfoldable pub delete_category : ℕ → Call S Unit
  delete_category id = if id == 0 then raise category_not_found else s.repo.delete_category id

  unfoldable pub list_categories : ListCategoriesRequest → Call S (List Category × ℤ)
  list_categories req = s.repo.list_categories (record {
    parent_id = req.parent_id;
    is_active = req.is_active;
    search = trim_space req.search;
    page = req.page;
    page_size = req.page_size;
  })
