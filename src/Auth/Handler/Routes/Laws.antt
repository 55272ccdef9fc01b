-- ===== src/Auth/Handler/Routes/Laws.antt =====
-- What every answer of the routes of auth/http/handler.go keeps to.
use wesko_go_backend.Common.{ℕ, ◌≡◌, ◌≢◌, refl, List, [], arith}
use wesko_go_backend.Common.Text.{Text, codes, eq_iff}
use wesko_go_backend.Common.Exec.{Result, ok, err}
use wesko_go_backend.Common.Http.{
  ErrorResponse, Bound, bound, malformed, invalid, rejected, decode_and_validate_json,
}
use wesko_go_backend.Auth.Errors.{Error}
use wesko_go_backend.Auth.Models.{User, TokenPair}
use wesko_go_backend.Auth.Ports.{Call, Platform}
use wesko_go_backend.Auth.Handler.{write_service_error}
use wesko_go_backend.Auth.Handler.Bodies.{AuthResponse, error_body, auth_body}
use wesko_go_backend.Auth.Handler.Cookies.{apply_refresh_token_transport, new_csrf_token}
use wesko_go_backend.Auth.Handler.Base.{
  Handler, Context, Response, answer, refuse, with_body, with_call, with_check, answer_tokens,
  answer_message,
}

module _ {S : Type 0} (h : Handler S) (c : Context) (IsClient : Text → Type 0) where
  -- A property of answers that holds of the refusals, of the answers without tokens, and of the
  -- answers with tokens to the clients in question.
  pub record Covers (Q : Response → Type 0) : Type 0 where
    pub refuses : (e : ErrorResponse) → Q (answer h c 400 (error_body e))
    pub fails : (e : Error) → Q (refuse h c e)
    pub plain : (r : Response) → r.status ≢ 500 → ((b : AuthResponse) → r.body ≢ auth_body b) → Q r
    pub tokens :
        (status : ℕ) (client : Text) (issued : User × TokenPair) (w : S)
        → status ≢ 500
        → IsClient client
        → Q (answer_tokens h c status client issued w).0

  module _ (Q : Response → Type 0) (covers : Covers Q) where
    pub with_body-covered :
        {A : Type 0} (body : Bound A) (handle : A → S → Response × S) (w : S)
        → ((a : A) → body ≡ bound a → Q (handle a w).0)
        → Q (with_body h c body handle w).0
    unfolding with_body decode_and_validate_json
    with_body-covered (bound a) handle w k = k a refl
    with_body-covered malformed handle w k = covers.refuses _
    with_body-covered (invalid d) handle w k = covers.refuses _
    with_body-covered rejected handle w k = covers.refuses _

    pub with_call-covered :
        {A : Type 0} (call : Call S A) (handle : A → S → Response × S) (w : S)
        → ((a : A) (t : S) → Q (handle a t).0)
        → Q (with_call h c call handle w).0
    unfolding with_call
    with_call-covered {A} call handle w k = go (call w).0 (call w).1
      where
        go :
            (r : Result Error A) (t : S)
            → Q (elim r as (λ _. Response × S) [ ok a ↦ handle a t | err e ↦ (refuse h c e, t) ]).0
        go (ok a) t = k a t
        go (err e) t = covers.fails e

    pub with_check-covered :
        {A : Type 0} (r : Result Error A) (handle : A → S → Response × S) (w : S)
        → ((a : A) → Q (handle a w).0)
        → Q (with_check h c r handle w).0
    unfolding with_check
    with_check-covered (ok a) handle w k = k a
    with_check-covered (err e) handle w k = covers.fails e

    -- A call that answers tokens.
    pub issue-covered :
        (call : Call S (User × TokenPair)) (status : ℕ) (client : Text) (w : S)
        → status ≢ 500
        → IsClient client
        → Q (with_call h c call (answer_tokens h c status client) w).0
    issue-covered call status client w n k =
        with_call-covered call (answer_tokens h c status client) w
          λ issued t. covers.tokens status client issued t n k

    -- A call that answers a message.
    pub send-covered :
        (call : Call S Unit) (message : Text) (w : S)
        → Q (with_call h c call (answer_message h c message) w).0
    unfolding answer_message
    send-covered call message w =
        with_call-covered call (answer_message h c message) w
          λ done t. covers.plain _ (omega arith) (λ b e. cc)

module _ {S : Type 0} (h : Handler S) (c : Context) where
  -- An answer that hides what went wrong inside.
  abbrev pub Hides : Response → Type 0
  Hides r =
      r.status ≡ 500
      → r.body
        ≡ error_body (record {
          error = codes "internal server error";
          request_id = c.request_id;
          details = [];
        })

  refuse-Hides : (e : Error) → Hides (refuse h c e)
  unfolding refuse write_service_error
  refuse-Hides e k = ground arith

  tokens-Hides :
      (status : ℕ) (client : Text) (issued : User × TokenPair) (w : S)
      → status ≢ 500
      → Unit {0}
      → Hides (answer_tokens h c status client issued w).0
  unfolding answer_tokens
  tokens-Hides status client issued w n _ k = absurd (n k)

  pub Hides-Covers : Covers h c (λ _. Unit {0}) Hides
  Hides-Covers = record {
    refuses = λ e k. absurd (omega (arith, k));
    fails = refuse-Hides;
    plain = λ r n b k. absurd (n k);
    tokens = tokens-Hides;
  }

  -- An answer without a refresh token in its body.
  abbrev pub Withholds : Response → Type 0
  Withholds r = (b : AuthResponse) → r.body ≡ auth_body b → b.tokens.refresh_token ≡ []

  -- crypto/rand, which does not fail.
  abbrev pub Draws : Platform S → Type 0
  Draws p = (size : ℕ) (w : S) → (bytes : List ℕ) × (t : S) × (p.read_random size w ≡ (ok bytes, t))

  module _ (draws : Draws h.service.platform) where
    tokens-Withholds :
        (status : ℕ) (client : Text) (issued : User × TokenPair) (w : S)
        → status ≢ 500
        → client ≡ codes "web"
        → Withholds (answer_tokens h c status client issued w).0
    unfolding answer_tokens apply_refresh_token_transport new_csrf_token
    tokens-Withholds status client issued w n web b k =
        let (bytes, t, drawn) = draws 32 w in
        let same = (eq_iff client (codes "web")).1 web in ground arith

    refuse-Withholds : (e : Error) → Withholds (refuse h c e)
    unfolding refuse
    refuse-Withholds e b k = absurd (ground arith)

    pub Withholds-Covers : Covers h c (λ client. client ≡ codes "web") Withholds
    Withholds-Covers = record {
      refuses = λ e b k. cc;
      fails = refuse-Withholds;
      plain = λ r n plain b k. absurd (plain b k);
      tokens = tokens-Withholds;
    }
