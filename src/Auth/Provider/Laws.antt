-- ===== src/Auth/Provider/Laws.antt =====
-- When the provider approves a code.
use wesko_go_backend.Common.{
  ◌≡◌, ◌≢◌, ◌↔◌, ◌⊎◌, ◌++◌, ◌<◌, inl, inr, true, Bool-cases, [], ◌∷◌, leb, arith,
}
use wesko_go_backend.Common.Text.{Text, codes, trim_space, to_lower, eq_iff, empty_iff}
use wesko_go_backend.Common.Exec.{Result, ok, Call-cases, Result-cases}
use wesko_go_backend.Auth.Errors.{Error}
use wesko_go_backend.Auth.Ports.{Call}
use wesko_go_backend.Auth.Provider.{
  VerifyProvider, FormRequest, FormResponse, CheckResponse, is_not_configured, service_url,
  is_approved, form_request, post_form, check_verification,
}

is_approved_sound :
    (r : CheckResponse)
    → is_approved r ≡ true
    → (r.valid ≡ true) ⊎ (to_lower (λ c. c) r.status ≡ codes "approved")
unfolding is_approved
is_approved_sound r h = elim (Bool-cases r.valid) [
  | inl v ↦ inl v
  | inr v ↦ inr ((eq_iff (to_lower (λ c. c) r.status) (codes "approved")).0 (ground arith))
]

is_approved_complete :
    (r : CheckResponse)
    → (r.valid ≡ true) ⊎ (to_lower (λ c. c) r.status ≡ codes "approved")
    → is_approved r ≡ true
unfolding is_approved
is_approved_complete r (inl v) = ground (arith, v)
is_approved_complete r (inr q) =
    let same = (eq_iff (to_lower (λ c. c) r.status) (codes "approved")).1 q in ground (arith, same)

module _ {S : Type 0} (post : FormRequest → Call S FormResponse)
    (unmarshal : Text → Result Error CheckResponse) (p : VerifyProvider) where
  -- The request of a check of a code for a mobile.
  abbrev pub check_request : Text → Text → FormRequest
  check_request mobile code = record {
    endpoint = p.base_url ++ (codes "/" ++ (p.service_sid ++ codes "/VerificationCheck"));
    user = p.account_sid;
    password = p.auth_token;
    values = (codes "To", mobile) ∷ (codes "Code", trim_space code) ∷ [];
  }

  -- The provider has its three keys, and the service answers the check with a status below 400 and a
  -- body that shows the code as valid or approved.
  pub record IsChecked (mobile code : Text) (w t : S) : Type 0 where
    pub account : p.account_sid ≢ []
    pub token : p.auth_token ≢ []
    pub key : p.service_sid ≢ []
    pub response : FormResponse
    pub answered : post (check_request mobile code) w ≡ (ok response, t)
    pub accepted : response.status < 400
    pub body : Text
    pub reads : response.body ≡ ok body
    pub check : CheckResponse
    pub decoded : unmarshal body ≡ ok check
    pub approved : (check.valid ≡ true) ⊎ (to_lower (λ c. c) check.status ≡ codes "approved")

  check_complete :
      (mobile code : Text) (w t : S)
      → IsChecked mobile code w t
      → check_verification post unmarshal p mobile code w ≡ (ok true, t)
  unfolding check_verification post_form form_request is_not_configured service_url
  check_complete mobile code w t r = ground (
    arith,
    (empty_iff p.account_sid).1 r.account,
    (empty_iff p.auth_token).1 r.token,
    (empty_iff p.service_sid).1 r.key,
    r.answered,
    r.accepted,
    r.reads,
    r.decoded,
    is_approved_complete r.check r.approved,
  )

  check_sound :
      (mobile code : Text) (w t : S)
      → check_verification post unmarshal p mobile code w ≡ (ok true, t)
      → IsChecked mobile code w t
  unfolding check_verification post_form form_request is_not_configured service_url
  check_sound mobile code w t h = elim (Bool-cases (is_not_configured p)) [
    | inl q ↦ absurd (ground arith)
    | inr q ↦ elim (Call-cases (post (check_request mobile code) w)) [
      | inr (e, u, r) ↦ absurd (ground arith)
      | inl (response, u, r) ↦ elim (Result-cases response.body) [
        | inr (e, b) ↦ absurd (ground arith)
        | inl (body, b) ↦ elim (Bool-cases (leb 400 response.status)) [
          | inl s ↦ absurd (elim (Bool-cases (leb 500 response.status)) [
            | inl s' ↦ ground arith
            | inr s' ↦ ground arith
          ])
          | inr s ↦ elim (Result-cases (unmarshal body)) [
            | inr (e, d) ↦ absurd (ground arith)
            | inl (check, d) ↦ record {
              account = (empty_iff p.account_sid).0 (unfold is_not_configured in ground arith);
              token = (empty_iff p.auth_token).0 (unfold is_not_configured in ground arith);
              key = (empty_iff p.service_sid).0 (unfold is_not_configured in ground arith);
              response = response;
              answered = ground arith;
              accepted = ground arith;
              body = body;
              reads = b;
              check = check;
              decoded = d;
              approved = is_approved_sound check (ground arith);
            }
          ]
        ]
      ]
    ]
  ]

  -- A code is approved exactly if the provider has its three keys and the service, asked with them for
  -- the mobile and the trimmed code, answers with a status below 400 and a body that can be read and
  -- decoded and that shows the code as valid or its status as approved, up to case.
  pub check_verification_iff :
      (mobile code : Text) (w t : S)
      → (check_verification post unmarshal p mobile code w ≡ (ok true, t))
        ↔ IsChecked mobile code w t
  check_verification_iff mobile code w t =
      (check_sound mobile code w t, check_complete mobile code w t)
