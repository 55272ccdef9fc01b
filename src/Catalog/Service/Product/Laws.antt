-- ===== src/Catalog/Service/Product/Laws.antt =====
-- What the service stores of a product.
use wesko_go_backend.Common.{
  ℕ, ◌≡◌, ◌≢◌, ◌↔◌, ◌⊎◌, Bool-cases, inl, inr, true, not, Option, none, some, [], arith, is_empty,
  ◌==◌,
}
use wesko_go_backend.Common.Text.{Text, trim_space, eq_iff}
use wesko_go_backend.Common.Exec.{ok, pure, Result-cases}
use wesko_go_backend.Common.Exec.Ensures.{
  OnOk, Ensures, Ensures-guard, Ensures-lift, Ensures-check, Ensures-bind,
}
use wesko_go_backend.Catalog.Errors.{
  Error, invalid_product_name, invalid_product_slug, invalid_product_status, category_not_found,
  product_not_found,
}
use wesko_go_backend.Catalog.Models.{
  Product, Category, ProductStatus, product_status_draft, product_status_active,
  product_status_inactive, product_status_archived,
}
use wesko_go_backend.Catalog.Requests.{CreateProductRequest, UpdateProductRequest}
use wesko_go_backend.Catalog.Service.Base.{Service, normalize_slug, is_valid_status}
use wesko_go_backend.Catalog.Service.Skus.{validate_skus}
use wesko_go_backend.Catalog.Service.Skus.Laws.{AreValid, validate_skus_iff}
use wesko_go_backend.Common.Text.{empty_iff}
use wesko_go_backend.Catalog.Service.Product.{
  status_of, new_product, create_product, move_product, rename_product, reslug_product,
  restate_product, patch_product, update_product,
}

-- One of the four statuses.
abbrev pub IsStatus : ProductStatus → Type 0
IsStatus status =
    (status ≡ product_status_draft)
    ⊎ (status ≡ product_status_active)
    ⊎ (status ≡ product_status_inactive)
    ⊎ (status ≡ product_status_archived)

pub is_valid_status_iff :
    (status : ProductStatus) → (is_valid_status status ≡ true) ↔ IsStatus status
unfolding is_valid_status
is_valid_status_iff status = ground (
  arith,
  eq_iff status product_status_draft,
  eq_iff status product_status_active,
  eq_iff status product_status_inactive,
  eq_iff status product_status_archived,
)

module _ {S : Type 0} (s : Service S) where
  -- A product that may be sold: it has a name, a slug, a category, one of the four statuses, and
  -- valid units.
  pub record IsWellFormed (p : Product) : Type 0 where
    pub named : p.name ≢ []
    pub slugged : p.slug ≢ []
    pub placed : p.category_id ≢ 0
    pub stated : IsStatus p.status
    pub valid : AreValid s p.skus

  rename_product-IsWellFormed :
      (o : Option Text) (p : Product) → IsWellFormed p → OnOk IsWellFormed (rename_product s o p)
  unfolding rename_product
  rename_product-IsWellFormed none p v = v
  rename_product-IsWellFormed (some raw) p v = elim (Bool-cases (is_empty (trim_space raw))) [
    | inl h ↦ rw h tt
    | inr h ↦ rw h (record {
      named = (empty_iff (trim_space raw)).0 h;
      slugged = v.slugged;
      placed = v.placed;
      stated = v.stated;
      valid = v.valid;
    })
  ]

  reslug_product-IsWellFormed :
      (o : Option Text) (p : Product) → IsWellFormed p → OnOk IsWellFormed (reslug_product s o p)
  unfolding reslug_product
  reslug_product-IsWellFormed none p v = v
  reslug_product-IsWellFormed (some raw) p v = elim (Bool-cases (is_empty (normalize_slug s raw))) [
    | inl h ↦ rw h tt
    | inr h ↦ rw h (record {
      named = v.named;
      slugged = (empty_iff (normalize_slug s raw)).0 h;
      placed = v.placed;
      stated = v.stated;
      valid = v.valid;
    })
  ]

  restate_product-IsWellFormed :
      (o : Option ProductStatus) (p : Product)
      → IsWellFormed p
      → OnOk IsWellFormed (restate_product s o p)
  unfolding restate_product
  restate_product-IsWellFormed none p v = v
  restate_product-IsWellFormed (some status) p v = elim (Bool-cases (is_valid_status status)) [
    | inr h ↦ rw h tt
    | inl h ↦ rw h (record {
      named = v.named;
      slugged = v.slugged;
      placed = v.placed;
      stated = (is_valid_status_iff status).0 h;
      valid = v.valid;
    })
  ]

  validate_skus-AreValid : (p : Product) → OnOk (λ _. AreValid s p.skus) (validate_skus s p.skus)
  validate_skus-AreValid p = elim (Result-cases (validate_skus s p.skus)) [
    | inl (_, h) ↦ rw h ((validate_skus_iff s p.skus).0 h)
    | inr (e, h) ↦ rw h tt
  ]

  patch_product-IsWellFormed :
      (req : UpdateProductRequest) (p : Product)
      → IsWellFormed p
      → AreValid s (patch_product s req p).skus
      → IsWellFormed (patch_product s req p)
  unfolding patch_product
  patch_product-IsWellFormed req p v skus = record {
    named = v.named;
    slugged = v.slugged;
    placed = v.placed;
    stated = v.stated;
    valid = skus;
  }

  module _ (P : S → Type 0)
      (finds : (id : ℕ) → Ensures P (λ _. Unit {0}) (s.repo.get_category_by_id id))
      (stores : (p : Product)
        → IsWellFormed p
        → Ensures P IsWellFormed (s.repo.create_product p)) where
    pub create_product-Ensures :
        (req : CreateProductRequest) → Ensures P IsWellFormed (create_product s req)
    unfolding create_product new_product
    create_product-Ensures req =
        let W = IsWellFormed in
        let new = new_product s req in
        Ensures-guard P W (is_empty (trim_space req.name)) invalid_product_name _ λ n.
          Ensures-guard P W (is_empty (normalize_slug s req.slug)) invalid_product_slug _ λ g.
            Ensures-guard P W (req.category_id == 0) category_not_found _ λ c.
              Ensures-guard P W (not (is_valid_status (status_of s req.status)))
                invalid_product_status _
                λ t.
                  Ensures-bind P (λ (_ : Category). Unit {0}) W _ _ (finds req.category_id)
                    λ _ _.
                      Ensures-check P (λ (_ : Unit {0}). AreValid s new.skus) W _ _
                        (validate_skus-AreValid new)
                        λ _ v. stores new (record {
                          named = (empty_iff (trim_space req.name)).0 n;
                          slugged = (empty_iff (normalize_slug s req.slug)).0 g;
                          placed = ground arith;
                          stated = (is_valid_status_iff (status_of s req.status)).0 (ground arith);
                          valid = v;
                        })

  module _ (P : S → Type 0)
      (places : (id : ℕ) → Ensures P (λ _. Unit {0}) (s.repo.get_category_by_id id))
      (finds : (id : ℕ) → Ensures P IsWellFormed (s.repo.get_product_by_id id))
      (changes : (p : Product)
        → IsWellFormed p
        → Ensures P IsWellFormed (s.repo.update_product p)) where
    move_product-Ensures :
        (o : Option ℕ) (p : Product) → IsWellFormed p → Ensures P IsWellFormed (move_product s o p)
    unfolding move_product
    move_product-Ensures none p v = Ensures-lift {E = Error} P IsWellFormed (ok p) v
    move_product-Ensures (some id) p v =
        Ensures-guard P IsWellFormed (id == 0) category_not_found _ λ c.
          Ensures-bind P (λ (_ : Category). Unit {0}) IsWellFormed _
            (λ _. pure (record p { category_id = id })) (places id)
            λ _ _.
              Ensures-lift {E = Error} P IsWellFormed (ok (record p { category_id = id })) (record {
                named = v.named;
                slugged = v.slugged;
                placed = ground (arith, c);
                stated = v.stated;
                valid = v.valid;
              })

    pub update_product-Ensures :
        (id : ℕ) (req : UpdateProductRequest) → Ensures P IsWellFormed (update_product s id req)
    unfolding update_product
    update_product-Ensures id req =
        let W = IsWellFormed in
        Ensures-guard P W (id == 0) product_not_found _ λ _.
          Ensures-bind P W W _ _ (finds id) λ current v.
            Ensures-bind P W W _ _ (move_product-Ensures req.category_id current v) λ moved v1.
              Ensures-check P W W _ _ (rename_product-IsWellFormed req.name moved v1) λ named v2.
                Ensures-check P W W _ _ (reslug_product-IsWellFormed req.slug named v2)
                  λ slugged v3.
                    Ensures-check P W W _ _ (restate_product-IsWellFormed req.status slugged v3)
                      λ restated v4.
                        let new = patch_product s req restated in
                        Ensures-check P (λ (_ : Unit {0}). AreValid s new.skus) W _ _
                          (validate_skus-AreValid new)
                          λ _ v5. changes new (patch_product-IsWellFormed req restated v4 v5)
