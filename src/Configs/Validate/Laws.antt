-- ===== src/Configs/Validate/Laws.antt =====
-- Which configurations are valid.
use wesko_go_backend.Common.{
  ◌≡◌, ◌↔◌, refl, Bool, true, false, Option, List, [], ◌++◌, All, All-append, arith, if◌then◌else◌,
}
use wesko_go_backend.Common.Text.{Text}
use wesko_go_backend.Common.Exec.{ok}
use wesko_go_backend.Configs.{Configs}
use wesko_go_backend.Configs.Validate.{
  is_no_number, is_no_same_site, db_checks, auth_checks, redis_checks, enabled_checks,
  is_no_address, validate,
}
use wesko_go_backend.Configs.Validate.{
  checks, db_port_checks, http_port_checks, same_site_checks, address_checks,
}
use wesko_go_backend.Configs.Validate.Groups.{
  DbIsValid, AuthIsValid, RedisIsValid, IsPassed, first_error_sound, first_error_complete,
  All-split, db_checks_iff, auth_checks_iff, redis_checks_iff,
}

when_sound :
    (b : Bool) (xs : List (Bool × Text))
    → All IsPassed (if b then xs else [])
    → b ≡ true
    → All IsPassed xs
when_sound true xs p e = p
when_sound false xs p e = absurd (ground arith)

when_complete :
    (b : Bool) (xs : List (Bool × Text))
    → (b ≡ true → All IsPassed xs)
    → All IsPassed (if b then xs else [])
when_complete true xs p = p refl
when_complete false xs p = tt

module _ (split_host_port : Text → Option (Text × Text)) where
  -- A configuration that the server starts with.
  pub record IsValid (c : Configs) : Type 0 where
    pub db : DbIsValid c
    pub db_port : is_no_number c.db_config.port ≡ false
    pub auth : AuthIsValid c
    pub http_port : is_no_number c.http.port ≡ false
    pub redis :
        c.redis_config.enabled ≡ true
        → RedisIsValid c × (is_no_address split_host_port c.redis_config.addr ≡ false)
    pub same_site : is_no_same_site c.auth.cookie_same_site ≡ false
    pub csrf_same_site : is_no_same_site c.auth.csrf_cookie_same_site ≡ false

  enabled_sound :
      (c : Configs)
      → All IsPassed (enabled_checks split_host_port c)
      → c.redis_config.enabled ≡ true
      → RedisIsValid c × (is_no_address split_host_port c.redis_config.addr ≡ false)
  unfolding enabled_checks address_checks
  enabled_sound c h on =
      let group = redis_checks c in
      let last = address_checks split_host_port c in
      let (passed, found) =
        All-split group last (when_sound c.redis_config.enabled (group ++ last) h on) in
      ((redis_checks_iff c).0 passed, found.0)

  enabled_complete :
      (c : Configs)
      → (c.redis_config.enabled ≡ true
          → RedisIsValid c × (is_no_address split_host_port c.redis_config.addr ≡ false))
      → All IsPassed (enabled_checks split_host_port c)
  unfolding enabled_checks address_checks
  enabled_complete c k =
      let group = redis_checks c in
      let last = address_checks split_host_port c in
      when_complete c.redis_config.enabled (group ++ last)
        λ on. All-append IsPassed group last ((redis_checks_iff c).1 (k on).0) ((k on).1, tt)

  checks_sound : (c : Configs) → All IsPassed (checks split_host_port c) → IsValid c
  unfolding checks db_port_checks http_port_checks same_site_checks
  checks_sound c h =
      let last = enabled_checks split_host_port c ++ same_site_checks c in
      let middle = auth_checks c ++ (http_port_checks c ++ last) in
      let (db, h1) = All-split (db_checks c) (db_port_checks c ++ middle) h in
      let (auth, h2) = All-split (auth_checks c) (http_port_checks c ++ last) h1.1 in
      let (redis, h3) = All-split (enabled_checks split_host_port c) (same_site_checks c) h2.1 in
      record {
        db = (db_checks_iff c).0 db;
        db_port = h1.0;
        auth = (auth_checks_iff c).0 auth;
        http_port = h2.0;
        redis = enabled_sound c redis;
        same_site = h3.0;
        csrf_same_site = h3.1.0;
      }

  checks_complete : (c : Configs) → IsValid c → All IsPassed (checks split_host_port c)
  unfolding checks db_port_checks http_port_checks same_site_checks
  checks_complete c v =
      let enabled = enabled_checks split_host_port c in
      let last = enabled ++ same_site_checks c in
      let middle = auth_checks c ++ (http_port_checks c ++ last) in
      let at_end : All IsPassed last =
        All-append IsPassed enabled (same_site_checks c) (enabled_complete c v.redis)
          (v.same_site, (v.csrf_same_site, tt)) in
      let at_middle : All IsPassed middle =
        All-append IsPassed (auth_checks c) (http_port_checks c ++ last)
          ((auth_checks_iff c).1 v.auth) (v.http_port, at_end) in
      All-append IsPassed (db_checks c) (db_port_checks c ++ middle) ((db_checks_iff c).1 v.db)
        (v.db_port, at_middle)

  pub validate_iff : (c : Configs) → (validate split_host_port c ≡ ok tt) ↔ IsValid c
  unfolding validate
  validate_iff c = (
    λ h. checks_sound c (first_error_sound (checks split_host_port c) h),
    λ v. first_error_complete (checks split_host_port c) (checks_complete c v),
  )
