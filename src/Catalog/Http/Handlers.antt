-- ===== src/Catalog/Http/Handlers.antt =====
-- The handlers of catalog/http/handler.go. What gin reads of a request is an argument: the raw path
-- parameter, the bound body or query, and the id of the request. `message` is Error() of an error.
use wesko_go_backend.Common.{ℕ, not, Option, none, some, List, [], ◌++◌, map, leb, if◌then◌else◌}
use wesko_go_backend.Common.Int.{ℤ, pos, ltb_ℤ}
use wesko_go_backend.Common.Text.{Text, codes}
use wesko_go_backend.Common.Exec.{ok, err}
use wesko_go_backend.Common.Http.{ErrorResponse, Bound, value, refused, decode_and_validate_json}
use wesko_go_backend.Catalog.Errors
use wesko_go_backend.Catalog.Errors.{Error}
use wesko_go_backend.Catalog.Models.{Category, Product}
use wesko_go_backend.Catalog.Requests.{
  CreateCategoryRequest, UpdateCategoryRequest, ListCategoriesRequest, CreateProductRequest,
  UpdateProductRequest, ListProductsRequest,
}
use wesko_go_backend.Catalog.Ports.{Call}
use wesko_go_backend.Catalog.Service.Base.{Service}
use wesko_go_backend.Catalog.Service.Category.{
  create_category, get_category, update_category, delete_category, list_categories,
}
use wesko_go_backend.Catalog.Service.Product.{
  create_product, get_product, update_product, delete_product, list_products,
}
use wesko_go_backend.Catalog.Http.Responses.{
  CategoryResponse, ProductResponse, ProductListResponse, to_category_response, to_product_response,
}
use wesko_go_backend.Catalog.Http.Parse.{parse_uint_param}

pub data Body : Type 0 where
  error_body : ErrorResponse → Body
  category_body : CategoryResponse → Body
  categories_body : (items : List CategoryResponse) (page page_size total_count : ℤ) → Body
  product_body : ProductResponse → Body
  products_body : ProductListResponse → Body
  no_body : Body

pub record Response : Type 0 where
  pub status : ℕ
  pub body : Body

abbrev pub answer : ℕ → Body → Response
answer status body = record { status = status; body = body }

abbrev pub error_answer : ℕ → Text → Text → Response
error_answer status id error =
    answer status (error_body (record { error = error; request_id = id; details = [] }))

-- The switch of writeServiceError.
unfoldable pub status_of : Error → ℕ
status_of Errors.invalid_category_name = 400
status_of Errors.invalid_category_slug = 400
status_of Errors.invalid_product_name = 400
status_of Errors.invalid_product_slug = 400
status_of Errors.invalid_product_status = 400
status_of Errors.invalid_sku_code = 400
status_of Errors.invalid_money_amount = 400
status_of Errors.invalid_currency = 400
status_of Errors.category_not_found = 404
status_of Errors.product_not_found = 404
status_of Errors.sku_not_found = 404
status_of Errors.job_not_found = 404
status_of Errors.category_slug_already_exists = 409
status_of Errors.product_slug_already_exists = 409
status_of Errors.sku_code_already_exists = 409
status_of _ = 500

-- The page and its size that handleListProducts answers.
unfoldable pub shown : ℤ → ℤ → ℤ
shown default given = if not (ltb_ℤ (pos 0) given) then default else given

-- The answers of the handlers.
unfoldable pub show_category : ℕ → Category → Response
show_category status item = answer status (category_body (to_category_response item))

unfoldable pub show_product : ℕ → Product → Response
show_product status item = answer status (product_body (to_product_response item))

unfoldable pub show_nothing : Unit {0} → Response
show_nothing done = answer 204 no_body

unfoldable pub show_categories : ListCategoriesRequest → List Category × ℤ → Response
show_categories req (items, total) =
    answer 200 (categories_body (map to_category_response items) req.page req.page_size total)

unfoldable pub show_products : ListProductsRequest → List Product × ℤ → Response
unfolding shown
show_products req (items, total) = answer 200 (
    products_body (record {
      items = map to_product_response items;
      page = shown (pos 1) req.page;
      page_size = shown (pos 20) req.page_size;
      total_count = total;
    }))

module _ {S : Type 0} (s : Service S) (message : Error → Text) (id : Text) where
  unfoldable pub write_service_error : Error → Response
  unfolding status_of
  write_service_error e =
      if leb 500 (status_of e)
      then error_answer (status_of e) id (codes "internal server error")
      else error_answer (status_of e) id (message e)

  -- `item, err := call(); if err != nil { h.writeServiceError(c, err); return }`
  unfoldable pub respond : {A : Type 0} → (A → Response) → Call S A → S → Response × S
  unfolding write_service_error
  respond show call w =
      let (r, w') = call w in (elim r [ ok a ↦ show a | err e ↦ write_service_error e ], w')

  -- `if err := h.decodeAndValidateJSON(c, &req); err != nil { return }`
  unfoldable pub with_body : {A : Type 0} → Bound A → (A → S → Response × S) → S → Response × S
  with_body body handle w = elim (decode_and_validate_json id body) [
    | value a ↦ handle a w
    | refused e ↦ (answer 400 (error_body e), w)
  ]

  -- `if err := c.ShouldBindQuery(&req); err != nil`, where `none` is a query that does not bind
  unfoldable pub with_query : {A : Type 0} → Option A → (A → S → Response × S) → S → Response × S
  with_query none handle w = (error_answer 400 id (codes "invalid query params"), w)
  with_query (some a) handle w = handle a w

  -- `id, ok := parseUintParam(c, "id"); if !ok { return }`
  unfoldable pub with_id : Text → (ℕ → S → Response × S) → S → Response × S
  with_id raw handle w = elim (parse_uint_param raw) [
    | none ↦ (error_answer 400 id (codes "invalid path parameter: " ++ codes "id"), w)
    | some n ↦ handle n w
  ]

  unfoldable pub handle_create_category : Bound CreateCategoryRequest → S → Response × S
  unfolding with_body respond
  handle_create_category body =
      with_body body λ req. respond (show_category 201) (create_category s req)

  unfoldable pub handle_list_categories : Option ListCategoriesRequest → S → Response × S
  unfolding with_query respond
  handle_list_categories query =
      with_query query λ req. respond (show_categories req) (list_categories s req)

  unfoldable pub handle_get_category : Text → S → Response × S
  unfolding with_id respond
  handle_get_category raw = with_id raw λ n. respond (show_category 200) (get_category s n)

  unfoldable pub handle_update_category : Text → Bound UpdateCategoryRequest → S → Response × S
  unfolding with_id with_body respond
  handle_update_category raw body =
      with_id raw λ n. with_body body λ req. respond (show_category 200) (update_category s n req)

  unfoldable pub handle_delete_category : Text → S → Response × S
  unfolding with_id respond
  handle_delete_category raw = with_id raw λ n. respond (show_nothing) (delete_category s n)

  unfoldable pub handle_create_product : Bound CreateProductRequest → S → Response × S
  unfolding with_body respond
  handle_create_product body =
      with_body body λ req. respond (show_product 201) (create_product s req)

  unfoldable pub handle_list_products : Option ListProductsRequest → S → Response × S
  unfolding with_query respond
  handle_list_products query =
      with_query query λ req. respond (show_products req) (list_products s req)

  unfoldable pub handle_get_product : Text → S → Response × S
  unfolding with_id respond
  handle_get_product raw = with_id raw λ n. respond (show_product 200) (get_product s n)

  unfoldable pub handle_update_product : Text → Bound UpdateProductRequest → S → Response × S
  unfolding with_id with_body respond
  handle_update_product raw body =
      with_id raw λ n. with_body body λ req. respond (show_product 200) (update_product s n req)

  unfoldable pub handle_delete_product : Text → S → Response × S
  unfolding with_id respond
  handle_delete_product raw = with_id raw λ n. respond (show_nothing) (delete_product s n)
