-- ===== src/Catalog/Service/Category/Laws.antt =====
-- What the service stores of a category.
use wesko_go_backend.Common.{ℕ, ◌≢◌, Bool-cases, inl, inr, Option, none, some, [], is_empty, ◌==◌}
use wesko_go_backend.Common.Text.{Text, trim_space}
use wesko_go_backend.Common.Exec.Ensures.{OnOk, Ensures, Ensures-guard, Ensures-check, Ensures-bind}
use wesko_go_backend.Catalog.Errors.{
  invalid_category_name, invalid_category_slug, category_not_found,
}
use wesko_go_backend.Catalog.Models.{Category}
use wesko_go_backend.Catalog.Requests.{CreateCategoryRequest, UpdateCategoryRequest}
use wesko_go_backend.Catalog.Service.Base.{Service, normalize_slug}
use wesko_go_backend.Common.Text.{empty_iff}
use wesko_go_backend.Catalog.Service.Category.{
  new_category, create_category, rename_category, reslug_category, patch_category, update_category,
}

-- A category with a name and a slug.
pub record IsNamed (c : Category) : Type 0 where
  pub named : c.name ≢ []
  pub slugged : c.slug ≢ []

module _ {S : Type 0} (s : Service S) where
  rename_category-IsNamed :
      (o : Option Text) (c : Category) → IsNamed c → OnOk IsNamed (rename_category s o c)
  unfolding rename_category
  rename_category-IsNamed none c v = v
  rename_category-IsNamed (some raw) c v = elim (Bool-cases (is_empty (trim_space raw))) [
    | inl h ↦ rw h tt
    | inr h ↦ rw h (record { named = (empty_iff (trim_space raw)).0 h; slugged = v.slugged })
  ]

  reslug_category-IsNamed :
      (o : Option Text) (c : Category) → IsNamed c → OnOk IsNamed (reslug_category s o c)
  unfolding reslug_category
  reslug_category-IsNamed none c v = v
  reslug_category-IsNamed (some raw) c v = elim (Bool-cases (is_empty (normalize_slug s raw))) [
    | inl h ↦ rw h tt
    | inr h ↦ rw h (record { named = v.named; slugged = (empty_iff (normalize_slug s raw)).0 h })
  ]

  module _ (P : S → Type 0)
      (stores : (c : Category) → IsNamed c → Ensures P IsNamed (s.repo.create_category c)) where
    pub create_category-Ensures :
        (req : CreateCategoryRequest) → Ensures P IsNamed (create_category s req)
    unfolding create_category new_category
    create_category-Ensures req =
        Ensures-guard P IsNamed (is_empty (trim_space req.name)) invalid_category_name _ λ n.
          Ensures-guard P IsNamed (is_empty (normalize_slug s req.slug)) invalid_category_slug _
            λ g. stores (new_category s req) (record {
              named = (empty_iff (trim_space req.name)).0 n;
              slugged = (empty_iff (normalize_slug s req.slug)).0 g;
            })

  module _ (P : S → Type 0) (finds : (id : ℕ) → Ensures P IsNamed (s.repo.get_category_by_id id))
      (changes : (c : Category) → IsNamed c → Ensures P IsNamed (s.repo.update_category c)) where
    pub update_category-Ensures :
        (id : ℕ) (req : UpdateCategoryRequest) → Ensures P IsNamed (update_category s id req)
    unfolding update_category patch_category
    update_category-Ensures id req = Ensures-guard P IsNamed (id == 0) category_not_found _ λ _.
        Ensures-bind P IsNamed IsNamed _ _ (finds id) λ current v.
          Ensures-check P IsNamed IsNamed _ _ (rename_category-IsNamed req.name current v)
            λ named v'.
              Ensures-check P IsNamed IsNamed _ _ (reslug_category-IsNamed req.slug named v')
                λ slugged v''.
                  changes (patch_category s req slugged)
                    (record { named = v''.named; slugged = v''.slugged })
