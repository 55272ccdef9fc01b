-- ===== src/Catalog/Http/Routes/Serves.antt =====
-- Which call of the service a request is, and how its answer shows what the call did.
use wesko_go_backend.Common.{ℕ, ◌≡◌, ◌⊎◌, refl, ap, ◌∙◌, inl, inr, Option-cases, none, some, arith}
use wesko_go_backend.Common.Text.{Text}
use wesko_go_backend.Common.Exec.{Result, ok, err, Result-cases}
use wesko_go_backend.Common.Http.{bound, decode_and_validate_json}
use wesko_go_backend.Catalog.Errors.{Error}
use wesko_go_backend.Catalog.Ports.{Call}
use wesko_go_backend.Catalog.Service.Base.{Service}
use wesko_go_backend.Catalog.Service.Category.{
  create_category, get_category as find_category, update_category,
  delete_category as remove_category, list_categories,
}
use wesko_go_backend.Catalog.Service.Product.{
  create_product, get_product as find_product, update_product, delete_product as remove_product,
  list_products,
}
use wesko_go_backend.Catalog.Service.History
use wesko_go_backend.Catalog.Service.History.{
  serve, create_category_request, get_category_request, update_category_request,
  delete_category_request, list_categories_request, create_product_request, get_product_request,
  update_product_request, delete_product_request, list_products_request,
}
use wesko_go_backend.Catalog.Http.Parse.{parse_uint_param}
use wesko_go_backend.Catalog.Http.Parse.Laws.{IsId, parse_uint_param_iff}
use wesko_go_backend.Catalog.Http.Handlers.{
  Response, status_of, show_category, show_categories, show_product, show_products, show_nothing,
  write_service_error, respond, with_body, with_query, with_id, handle_create_category,
  handle_list_categories, handle_get_category, handle_update_category, handle_delete_category,
  handle_create_product, handle_list_products, handle_get_product, handle_update_product,
  handle_delete_product,
}
use wesko_go_backend.Catalog.Http.Routes.{
  Request, post_category, get_categories, get_category, put_category, delete_category, post_product,
  get_products, get_product, put_product, delete_product, route,
}

-- The call of the service that a request asks for: a request whose body or query does not bind, or
-- whose path parameter is no id, asks for none.
abbrev pub Means : Request → History.Request → Type 0
Means (post_category (bound req)) r = r ≡ create_category_request req
Means (get_categories (some req)) r = r ≡ list_categories_request req
Means (get_category raw) r = (n : ℕ) × IsId raw n × (r ≡ get_category_request n)
Means (put_category raw (bound req)) r = (n : ℕ) × IsId raw n × (r ≡ update_category_request n req)
Means (delete_category raw) r = (n : ℕ) × IsId raw n × (r ≡ delete_category_request n)
Means (post_product (bound req)) r = r ≡ create_product_request req
Means (get_products (some req)) r = r ≡ list_products_request req
Means (get_product raw) r = (n : ℕ) × IsId raw n × (r ≡ get_product_request n)
Means (put_product raw (bound req)) r = (n : ℕ) × IsId raw n × (r ≡ update_product_request n req)
Means (delete_product raw) r = (n : ℕ) × IsId raw n × (r ≡ delete_product_request n)
Means _ r = ⊥

-- The status of an answer to a call: the given one, or that of the call's error.
abbrev answered : {A : Type 0} → ℕ → Result Error A → ℕ
answered status (ok a) = status
answered status (err e) = status_of e

-- The status that shows what a call does: 201 for one that creates, 204 for one that deletes, 200 for
-- the others, or that of its error.
abbrev pub status_for : {S : Type 0} → Service S → History.Request → S → ℕ
status_for s (create_category_request req) w = answered 201 (create_category s req w).0
status_for s (get_category_request n) w = answered 200 (find_category s n w).0
status_for s (update_category_request n req) w = answered 200 (update_category s n req w).0
status_for s (delete_category_request n) w = answered 204 (remove_category s n w).0
status_for s (list_categories_request req) w = answered 200 (list_categories s req w).0
status_for s (create_product_request req) w = answered 201 (create_product s req w).0
status_for s (get_product_request n) w = answered 200 (find_product s n w).0
status_for s (update_product_request n req) w = answered 200 (update_product s n req w).0
status_for s (delete_product_request n) w = answered 204 (remove_product s n w).0
status_for s (list_products_request req) w = answered 200 (list_products s req w).0

module _ {S : Type 0} (s : Service S) where
  -- The answer is to a call that the request asks for: the state is the one that the call left.
  pub record IsServed (q : Request) (w : S) (a : Response × S) : Type 0 where
    pub call : History.Request
    pub means : Means q call
    pub state : a.1 ≡ serve s call w
    pub status : a.0.status ≡ status_for s call w

  -- The request asks for no call, and changes nothing.
  pub record IsRefused (q : Request) (w : S) (a : Response × S) : Type 0 where
    pub meaningless : (call : History.Request) → Means q call → ⊥
    pub state : a.1 ≡ w
    pub status : a.0.status ≡ 400

module _ {S : Type 0} (s : Service S) (message : Error → Text) (id : Text) where
  respond-status :
      {A : Type 0} (status : ℕ) (show : A → Response) (call : Call S A) (w : S)
      → ((a : A) → (show a).status ≡ status)
      → ((respond s message id show call w).0.status ≡ answered status (call w).0)
        × ((respond s message id show call w).1 ≡ (call w).1)
  unfolding respond write_service_error
  respond-status status show call w same = elim (Result-cases (call w).0) [
    | inl (a, q) ↦ ground (arith, q, same a)
    | inr (e, q) ↦ ground (arith, q)
  ]

  with_id-some :
      (raw : Text) (n : ℕ) (handle : ℕ → S → Response × S) (w : S)
      → parse_uint_param raw ≡ some n
      → with_id s message id raw handle w ≡ handle n w
  unfolding with_id
  with_id-some raw n handle w e = ground (arith, e)

  with_id-none :
      (raw : Text) (handle : ℕ → S → Response × S) (w : S)
      → parse_uint_param raw ≡ none
      → ((with_id s message id raw handle w).0.status ≡ 400)
        × ((with_id s message id raw handle w).1 ≡ w)
  unfolding with_id
  with_id-none raw handle w e = ground (arith, e)

  no_id : (raw : Text) (n : ℕ) → parse_uint_param raw ≡ none → IsId raw n → ⊥
  no_id raw n e h = let read = (parse_uint_param_iff raw n).1 h in cc

  -- A route that reads an id, and then makes one call with it.
  id_cases :
      {B : Type 0} (q : Request) (raw : Text) (request : ℕ → History.Request) (status : ℕ)
      (show : B → Response) (call : ℕ → Call S B) (w : S)
      → ((r : History.Request) → Means q r → (n : ℕ) × IsId raw n × (r ≡ request n))
      → ((n : ℕ) → IsId raw n → Means q (request n))
      → ((n : ℕ) → (call n w).1 ≡ serve s (request n) w)
      → ((n : ℕ) → answered status (call n w).0 ≡ status_for s (request n) w)
      → ((b : B) → (show b).status ≡ status)
      → IsServed s q w (with_id s message id raw (λ n. respond s message id show (call n)) w)
        ⊎ IsRefused s q w (with_id s message id raw (λ n. respond s message id show (call n)) w)
  id_cases q raw request status show call w reads means state shows same =
      elim (Option-cases (parse_uint_param raw)) [
        | inl e ↦
            let (bad, kept) = with_id-none raw (λ n. respond s message id show (call n)) w e in
            inr (record {
              meaningless = λ r m. let (n, i, _) = reads r m in no_id raw n e i;
              state = kept;
              status = bad;
            })
        | inr (n, e) ↦
            let there = with_id-some raw n (λ n. respond s message id show (call n)) w e in
            let (st, sw) = respond-status status show (call n) w same in
            inl (record {
              call = request n;
              means = means n ((parse_uint_param_iff raw n).0 e);
              state = ap (λ (a : Response × S). a.1) there ∙ sw ∙ state n;
              status = ap (λ (a : Response × S). a.0.status) there ∙ st ∙ shows n;
            })
      ]

  -- A route that makes one call with what was bound.
  bound-IsServed :
      {B : Type 0} (q : Request) (request : History.Request) (status : ℕ) (show : B → Response)
      (call : Call S B) (w : S)
      → Means q request
      → (call w).1 ≡ serve s request w
      → answered status (call w).0 ≡ status_for s request w
      → ((b : B) → (show b).status ≡ status)
      → IsServed s q w (respond s message id show call w)
  bound-IsServed q request status show call w means state shows same =
      let (st, sw) = respond-status status show call w same in
      record { call = request; means = means; state = sw ∙ state; status = st ∙ shows }

  -- A request to a route of the catalogue is either one whose body or query binds and whose path
  -- parameter is an id, and then the one call of the service that it asks for is made, with the id
  -- and what was bound, the database is as this call left it, and the answer has the status of a
  -- success of this call or of its error; or it asks for no call, is answered with 400, and changes
  -- nothing.
  pub route_cases :
      (q : Request) (w : S)
      → IsServed s q w (route s message id q w) ⊎ IsRefused s q w (route s message id q w)
  unfolding route serve handle_create_category handle_list_categories handle_get_category
      handle_update_category handle_delete_category handle_create_product handle_list_products
      handle_get_product handle_update_product handle_delete_product show_category show_product
      show_categories show_products show_nothing with_body with_query decode_and_validate_json
  route_cases (post_category (bound req)) w = inl (
      bound-IsServed (post_category (bound req)) (create_category_request req) 201
        (show_category 201) (create_category s req) w refl refl refl (λ b. refl))
  route_cases (post_category _) w =
      inr (record { meaningless = λ r m. m; state = refl; status = refl })
  route_cases (get_categories (some req)) w = inl (
      bound-IsServed (get_categories (some req)) (list_categories_request req) 200
        (show_categories req) (list_categories s req) w refl refl refl (λ b. refl))
  route_cases (get_categories none) w =
      inr (record { meaningless = λ r m. m; state = refl; status = refl })
  route_cases (get_category raw) w =
      id_cases (get_category raw) raw get_category_request 200 (show_category 200) (find_category s)
        w (λ r m. m) (λ n i. (n, i, refl)) (λ n. refl) (λ n. refl) (λ b. refl)
  route_cases (put_category raw (bound req)) w =
      id_cases (put_category raw (bound req)) raw (λ n. update_category_request n req) 200
        (show_category 200) (λ n. update_category s n req) w (λ r m. m) (λ n i. (n, i, refl))
        (λ n. refl) (λ n. refl) (λ b. refl)
  route_cases (delete_category raw) w =
      id_cases (delete_category raw) raw delete_category_request 204 show_nothing
        (remove_category s) w (λ r m. m) (λ n i. (n, i, refl)) (λ n. refl) (λ n. refl) (λ b. refl)
  route_cases (post_product (bound req)) w = inl (
      bound-IsServed (post_product (bound req)) (create_product_request req) 201 (show_product 201)
        (create_product s req) w refl refl refl (λ b. refl))
  route_cases (post_product _) w =
      inr (record { meaningless = λ r m. m; state = refl; status = refl })
  route_cases (get_products (some req)) w = inl (
      bound-IsServed (get_products (some req)) (list_products_request req) 200 (show_products req)
        (list_products s req) w refl refl refl (λ b. refl))
  route_cases (get_products none) w =
      inr (record { meaningless = λ r m. m; state = refl; status = refl })
  route_cases (get_product raw) w =
      id_cases (get_product raw) raw get_product_request 200 (show_product 200) (find_product s) w
        (λ r m. m) (λ n i. (n, i, refl)) (λ n. refl) (λ n. refl) (λ b. refl)
  route_cases (put_product raw (bound req)) w =
      id_cases (put_product raw (bound req)) raw (λ n. update_product_request n req) 200
        (show_product 200) (λ n. update_product s n req) w (λ r m. m) (λ n i. (n, i, refl))
        (λ n. refl) (λ n. refl) (λ b. refl)
  route_cases (delete_product raw) w =
      id_cases (delete_product raw) raw delete_product_request 204 show_nothing (remove_product s) w
        (λ r m. m) (λ n i. (n, i, refl)) (λ n. refl) (λ n. refl) (λ b. refl)
  route_cases (put_category raw _) w = elim (Option-cases (parse_uint_param raw)) [
    | inl e ↦ inr (record {
      meaningless = λ r m. m;
      state = unfold with_id in ground (arith, e);
      status = unfold with_id in ground (arith, e);
    })
    | inr (n, e) ↦ inr (record {
      meaningless = λ r m. m;
      state = unfold with_id in ground (arith, e);
      status = unfold with_id in ground (arith, e);
    })
  ]
  route_cases (put_product raw _) w = elim (Option-cases (parse_uint_param raw)) [
    | inl e ↦ inr (record {
      meaningless = λ r m. m;
      state = unfold with_id in ground (arith, e);
      status = unfold with_id in ground (arith, e);
    })
    | inr (n, e) ↦ inr (record {
      meaningless = λ r m. m;
      state = unfold with_id in ground (arith, e);
      status = unfold with_id in ground (arith, e);
    })
  ]
