-- ===== src/Catalog/Http/Routes/Laws.antt =====
-- What every answer of the catalogue's routes does.
use wesko_go_backend.Common.{ℕ, ◌≡◌, ◌≢◌, ◌++◌, refl, Option, none, some, [], arith}
use wesko_go_backend.Common.Text.{Text, codes}
use wesko_go_backend.Common.Exec.{Result, ok, err}
use wesko_go_backend.Common.Http.{
  ErrorResponse, Bound, bound, malformed, invalid, rejected, decode_and_validate_json,
}
use wesko_go_backend.Catalog.Errors.{Error}
use wesko_go_backend.Catalog.Ports.{Call}
use wesko_go_backend.Catalog.Service.Base.{Service}
use wesko_go_backend.Catalog.Service.Category.{
  create_category, get_category as find_category, update_category,
  delete_category as remove_category, list_categories,
}
use wesko_go_backend.Catalog.Service.Product.{
  create_product, get_product as find_product, update_product, delete_product as remove_product,
  list_products,
}
use wesko_go_backend.Catalog.Service.History
use wesko_go_backend.Catalog.Service.History.{
  serve, create_category_request, get_category_request, update_category_request,
  delete_category_request, list_categories_request, create_product_request, get_product_request,
  update_product_request, delete_product_request, list_products_request,
}
use wesko_go_backend.Catalog.Http.Parse.{parse_uint_param}
use wesko_go_backend.Catalog.Http.Handlers.{
  show_category, show_categories, show_product, show_products, show_nothing, Response, error_body,
  error_answer, answer, write_service_error, respond, with_body, with_query, with_id,
  handle_create_category, handle_list_categories, handle_get_category, handle_update_category,
  handle_delete_category, handle_create_product, handle_list_products, handle_get_product,
  handle_update_product, handle_delete_product,
}
use wesko_go_backend.Catalog.Http.Routes.{
  Request, post_category, get_categories, get_category, put_category, delete_category, post_product,
  get_products, get_product, put_product, delete_product, route,
}

-- An answer that hides what went wrong inside.
abbrev pub Hides : Text → Response → Type 0
Hides id r =
    r.status ≡ 500
    → r.body
      ≡ error_body (record { error = codes "internal server error"; request_id = id; details = [] })

module _ {S : Type 0} (s : Service S) (message : Error → Text) (id : Text) where
  write_service_error-Hides : (e : Error) → Hides id (write_service_error s message id e)
  unfolding write_service_error
  write_service_error-Hides e h = ground arith

  -- A relation of the state before a request to its answer and the state after it, which holds of
  -- the requests that are refused, and of the answers to the service's calls.
  record Covers (R : S → Response × S → Type 0) : Type 0 where
    refuses : (e : ErrorResponse) (w : S) → R w (answer 400 (error_body e), w)
    serves : (q : History.Request) (w : S) (r : Response) → r.status ≢ 500 → R w (r, serve s q w)
    fails :
        (q : History.Request) (w : S) (e : Error)
        → R w (write_service_error s message id e, serve s q w)

  module _ (R : S → Response × S → Type 0) (covers : Covers R) where
    respond-covered :
        {A : Type 0} (show : A → Response) (call : Call S A) (q : History.Request)
        → ((a : A) → (show a).status ≢ 500)
        → ((w : S) → (call w).1 ≡ serve s q w)
        → (w : S) → R w (respond s message id show call w)
    unfolding respond
    respond-covered {A} show call q good same w = go (call w).0 (call w).1 (same w)
      where
        go :
            (r : Result Error A) (t : S)
            → t ≡ serve s q w
            → R w (
              elim r as (λ _. Response) [
                | ok a ↦ show a
                | err e ↦ write_service_error s message id e
              ],
              t,
            )
        go (ok a) t e = rw e (covers.serves q w (show a) (good a))
        go (err d) t e = rw e (covers.fails q w d)

    with_body-covered :
        {A : Type 0} (body : Bound A) (handle : A → S → Response × S) (w : S)
        → ((a : A) → R w (handle a w))
        → R w (with_body s message id body handle w)
    unfolding with_body decode_and_validate_json
    with_body-covered (bound a) handle w k = k a
    with_body-covered malformed handle w k = covers.refuses _ w
    with_body-covered (invalid d) handle w k = covers.refuses _ w
    with_body-covered rejected handle w k = covers.refuses _ w

    with_query-covered :
        {A : Type 0} (query : Option A) (handle : A → S → Response × S) (w : S)
        → ((a : A) → R w (handle a w))
        → R w (with_query s message id query handle w)
    unfolding with_query
    with_query-covered none handle w k = covers.refuses _ w
    with_query-covered (some a) handle w k = k a

    with_id-covered :
        (raw : Text) (handle : ℕ → S → Response × S) (w : S)
        → ((n : ℕ) → R w (handle n w))
        → R w (with_id s message id raw handle w)
    unfolding with_id
    with_id-covered raw handle w k = go (parse_uint_param raw)
      where
        go :
            (o : Option ℕ)
            → R w (elim o as (λ _. Response × S) [
              | none ↦ (error_answer 400 id (codes "invalid path parameter: " ++ codes "id"), w)
              | some n ↦ handle n w
            ])
        go none = covers.refuses _ w
        go (some n) = k n

    body-covered :
        {A B : Type 0} (body : Bound A) (show : B → Response) (call : A → Call S B)
        (q : A → History.Request)
        → ((b : B) → (show b).status ≢ 500)
        → ((a : A) (w : S) → (call a w).1 ≡ serve s (q a) w)
        → (w : S) → R w (with_body s message id body (λ a. respond s message id show (call a)) w)
    body-covered body show call q good same w =
        with_body-covered body (λ a. respond s message id show (call a)) w
          λ a. respond-covered show (call a) (q a) good (same a) w

    id-covered :
        {B : Type 0} (raw : Text) (show : B → Response) (call : ℕ → Call S B)
        (q : ℕ → History.Request)
        → ((b : B) → (show b).status ≢ 500)
        → ((n : ℕ) (w : S) → (call n w).1 ≡ serve s (q n) w)
        → (w : S) → R w (with_id s message id raw (λ n. respond s message id show (call n)) w)
    id-covered raw show call q good same w =
        with_id-covered raw (λ n. respond s message id show (call n)) w
          λ n. respond-covered show (call n) (q n) good (same n) w

    id_body-covered :
        {A B : Type 0} (raw : Text) (body : Bound A) (show : B → Response) (call : ℕ → A → Call S B)
        (q : ℕ → A → History.Request)
        → ((b : B) → (show b).status ≢ 500)
        → ((n : ℕ) (a : A) (w : S) → (call n a w).1 ≡ serve s (q n a) w)
        → (w : S)
        → R w (
            with_id s message id raw
              (λ n. with_body s message id body (λ a. respond s message id show (call n a)))
              w)
    id_body-covered raw body show call q good same w =
        with_id-covered raw
          (λ n. with_body s message id body (λ a. respond s message id show (call n a))) w
          λ n. body-covered body show (call n) (q n) good (same n) w

    route-covered : (q : Request) (w : S) → R w (route s message id q w)
    unfolding route serve handle_create_category handle_list_categories handle_get_category
        handle_update_category handle_delete_category handle_create_product handle_list_products
        handle_get_product handle_update_product handle_delete_product show_category show_product
        show_categories show_products show_nothing
    route-covered (post_category body) w =
        body-covered body (show_category 201) (create_category s) create_category_request
          (λ b. omega arith) (λ a w. refl) w
    route-covered (get_categories query) w =
        with_query-covered query
          (λ req. respond s message id (show_categories req) (list_categories s req)) w
          λ req.
            respond-covered (show_categories req) (list_categories s req)
              (list_categories_request req) (λ b. omega arith) (λ w. refl) w
    route-covered (get_category raw) w =
        id-covered raw (show_category 200) (find_category s) get_category_request (λ b. omega arith)
          (λ n w. refl) w
    route-covered (put_category raw body) w =
        id_body-covered raw body (show_category 200) (update_category s) update_category_request
          (λ b. omega arith) (λ n a w. refl) w
    route-covered (delete_category raw) w =
        id-covered raw show_nothing (remove_category s) delete_category_request (λ b. omega arith)
          (λ n w. refl) w
    route-covered (post_product body) w =
        body-covered body (show_product 201) (create_product s) create_product_request
          (λ b. omega arith) (λ a w. refl) w
    route-covered (get_products query) w =
        with_query-covered query
          (λ req. respond s message id (show_products req) (list_products s req)) w
          λ req.
            respond-covered (show_products req) (list_products s req) (list_products_request req)
              (λ b. omega arith) (λ w. refl) w
    route-covered (get_product raw) w =
        id-covered raw (show_product 200) (find_product s) get_product_request (λ b. omega arith)
          (λ n w. refl) w
    route-covered (put_product raw body) w =
        id_body-covered raw body (show_product 200) (update_product s) update_product_request
          (λ b. omega arith) (λ n a w. refl) w
    route-covered (delete_product raw) w =
        id-covered raw show_nothing (remove_product s) delete_product_request (λ b. omega arith)
          (λ n w. refl) w

  -- What an answer with status 500 says is always the same: no request to the catalogue is answered
  -- with the message of an internal error.
  pub route-Hides : (q : Request) (w : S) → Hides id (route s message id q w).0
  route-Hides q w =
      route-covered (λ w c. Hides id c.0)
        (record {
          refuses = λ e w h. absurd (omega (arith, h));
          serves = λ q w r n h. absurd (n h);
          fails = λ q w e. write_service_error-Hides e;
        })
        q w
