-- ===== src/Catalog/Http/Routes.antt =====
-- RegisterRoutes of catalog/http/handler.go.
pub mod Laws
pub mod Serves
use wesko_go_backend.Common.{
  ℕ, ◌≡◌, refl, inl, inr, Option, Option-cases, none, some, List, [], ◌∷◌, arith, leb, Bool-cases,
}
use wesko_go_backend.Common.Text.{Text, codes}
use wesko_go_backend.Common.Exec.{Result, ok, err}
use wesko_go_backend.Common.Http.{
  Bound, bound, malformed, invalid, rejected, decode_and_validate_json,
}
use wesko_go_backend.Catalog.Errors.{Error}
use wesko_go_backend.Catalog.Requests.{
  CreateCategoryRequest, UpdateCategoryRequest, ListCategoriesRequest, CreateProductRequest,
  UpdateProductRequest, ListProductsRequest,
}
use wesko_go_backend.Catalog.Service.Base.{Service}
use wesko_go_backend.Catalog.Service.History
use wesko_go_backend.Catalog.Service.History.{Respects, serve, serve_all, serve_all-keeps}
use wesko_go_backend.Catalog.Http.Parse.{parse_uint_param}
use wesko_go_backend.Catalog.Http.Handlers.{
  show_category, show_categories, show_product, show_products, show_nothing, Response, Body,
  error_body, error_answer, answer, status_of, write_service_error, respond, with_body, with_query,
  with_id, handle_create_category, handle_list_categories, handle_get_category,
  handle_update_category, handle_delete_category, handle_create_product, handle_list_products,
  handle_get_product, handle_update_product, handle_delete_product,
}

-- A request to a route of RegisterRoutes, as gin reads it.
pub data Request : Type 0 where
  post_category : Bound CreateCategoryRequest → Request
  get_categories : Option ListCategoriesRequest → Request
  get_category : Text → Request
  put_category : Text → Bound UpdateCategoryRequest → Request
  delete_category : Text → Request
  post_product : Bound CreateProductRequest → Request
  get_products : Option ListProductsRequest → Request
  get_product : Text → Request
  put_product : Text → Bound UpdateProductRequest → Request
  delete_product : Text → Request

module _ {S : Type 0} (s : Service S) (message : Error → Text) (id : Text) where
  -- The handler that RegisterRoutes gives the route.
  unfoldable pub route : Request → S → Response × S
  route (post_category body) = handle_create_category s message id body
  route (get_categories query) = handle_list_categories s message id query
  route (get_category raw) = handle_get_category s message id raw
  route (put_category raw body) = handle_update_category s message id raw body
  route (delete_category raw) = handle_delete_category s message id raw
  route (post_product body) = handle_create_product s message id body
  route (get_products query) = handle_list_products s message id query
  route (get_product raw) = handle_get_product s message id raw
  route (put_product raw body) = handle_update_product s message id raw body
  route (delete_product raw) = handle_delete_product s message id raw
