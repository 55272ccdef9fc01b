-- ===== src/Tests/World.antt =====
-- A small world that the services run in: the memory stores, a table of accounts, and stand-ins for
-- the clock, randomness, bcrypt, JWE, the provider of one-time codes and Google.
use wesko_go_backend.Common.{
  false, ℕ, zero, suc, ◌+◌, Bool, true, some, List, [], ◌∷◌, length, ◌==◌, if◌then◌else◌,
}
use wesko_go_backend.Common.Text.{Text, codes, eq}
use wesko_go_backend.Common.Exec.{Result, ok, err}
use wesko_go_backend.Auth.Errors.{Error, user_not_found}
use wesko_go_backend.Auth.Models.{TokenPair, Time, User, role_customer}
use wesko_go_backend.Auth.Ports.{
  UserRepository, OtpProvider, PendingSignupStore, OtpRequestStateStore, RefreshTokenStore,
  Platform,
}
use wesko_go_backend.Auth.Token.{TokenManager}
use wesko_go_backend.Auth.Service.Base.{Service}
use wesko_go_backend.Memory.Refresh
use wesko_go_backend.Memory.PendingSignup
use wesko_go_backend.Memory.OtpState
use wesko_go_backend.Tests.Seal.{encode, decode}

pub record World : Type 0 where
  pub refresh : Refresh.RefreshStore
  pub signups : PendingSignup.PendingStore
  pub states : OtpState.OtpStateStore
  pub users : List User
  pub hash : Text
  pub clock : Time
  pub drawn : ℕ

abbrev pub find : (User → Bool) → List User → Result Error User
find p [] = err user_not_found
find p (u ∷ us) = let rest = find p us in if p u then ok u else rest

abbrev pub add_user : User → World → Result Error User × World
add_user user w =
    let new = record user { id = length w.users + 1 } in
    (ok new, record w { users = new ∷ w.users })

-- The zero value of Go.
abbrev pub nobody : User
nobody = record {
  id = 0;
  username = [];
  email = [];
  mobile = [];
  mobile_verified = false;
  role = [];
  is_profile_complete = false;
  created_at = 0;
  updated_at = 0;
}

abbrev pub world_repository : UserRepository World
world_repository = record {
  get_user_details_by_username = λ name w. (find (λ u. eq u.username name) w.users, w);
  get_user_by_email = λ email w. (find (λ u. eq u.email email) w.users, w);
  get_user_by_mobile = λ mobile w. (find (λ u. eq u.mobile mobile) w.users, w);
  get_user_by_id = λ id w. (find (λ u. u.id == id) w.users, w);
  register_user = λ user hash w. add_user user (record w { hash = hash });
  update_user = λ user w. (ok tt, record w { users = user ∷ w.users });
  get_password_hash_by_user_id = λ id w. (ok w.hash, w);
  get_sso_account = λ provider id w. (ok (nobody, false), w);
  create_sso_user = λ user account w. add_user user w;
  link_sso_account = λ id account w. (ok tt, w);
}

abbrev pub world_refresh_store : RefreshTokenStore World
world_refresh_store = record {
  save = λ raw session w.
      let (r, s) = Refresh.save (λ t. t) w.clock raw session w.refresh in
      (r, record w { refresh = s });
  get = λ raw w.
      let (r, s) = Refresh.get (λ t. t) w.clock raw w.refresh in (r, record w { refresh = s });
  delete =
      λ raw w. let (r, s) = Refresh.remove (λ t. t) raw w.refresh in (r, record w { refresh = s });
}

abbrev pub world_pending_store : PendingSignupStore World
world_pending_store = record {
  save = λ signup w.
      let (r, s) = PendingSignup.save w.clock signup w.signups in (r, record w { signups = s });
  get_by_mobile = λ mobile w.
      let (r, s) = PendingSignup.get_by_mobile w.clock mobile w.signups in
      (r, record w { signups = s });
  delete_by_mobile = λ mobile w.
      let (r, s) = PendingSignup.delete_by_mobile mobile w.signups in (r, record w { signups = s });
  get_mobile_by_username = λ username w.
      let (r, s) = PendingSignup.get_mobile_by_username w.clock username w.signups in
      (r, record w { signups = s });
  get_mobile_by_email = λ email w.
      let (r, s) = PendingSignup.get_mobile_by_email w.clock email w.signups in
      (r, record w { signups = s });
  get_mobile_by_mobile = λ mobile w.
      let (r, s) = PendingSignup.get_mobile_by_mobile w.clock mobile w.signups in
      (r, record w { signups = s });
}

abbrev pub world_state_store : OtpRequestStateStore World
world_state_store = record {
  save = λ key state w.
      let (r, s) = OtpState.save w.clock key state w.states in (r, record w { states = s });
  get = λ key w. let (r, s) = OtpState.get w.clock key w.states in (r, record w { states = s });
  delete = λ key w. let (r, s) = OtpState.remove key w.states in (r, record w { states = s });
}

-- The code that is right is 1234.
abbrev pub world_provider : OtpProvider World
world_provider = record {
  send_verification = λ mobile w. (ok tt, w);
  check_verification = λ mobile code w. (ok (eq code (codes "1234")), w);
}

abbrev pub repeat : ℕ → ℕ → List ℕ
repeat zero x = []
repeat (suc n) x = x ∷ repeat n x

abbrev pub world_platform : Platform World
world_platform = record {
  now = λ w. (w.clock, w);
  read_random = λ size w. (ok (repeat size w.drawn), record w { drawn = w.drawn + 1 });
  generate_from_password = λ password w. (ok password, w);
  compare_hash_and_password = λ hash password. eq hash password;
  seal = λ key claims w. (ok (encode claims), w);
  unseal = λ key token. decode token;
  exchange = λ config code w. (ok code, w);
  user_info = λ config token w. (ok (record { id = token; email = codes "ann@example.com" }), w);
  lower_other = λ c. c;
}

abbrev pub manager : TokenManager
manager = record {
  issuer = codes "vesko";
  jwe_key = codes "k";
  access_token_ttl = 10;
  refresh_token_ttl = 100;
}

abbrev pub service : Service World
service = record {
  repo = world_repository;
  token_manager = some manager;
  refresh_store = some world_refresh_store;
  otp_provider = world_provider;
  pending_signup_store = world_pending_store;
  login_otp_store = world_state_store;
  otp_config = record { pending_signup_ttl = 50; resend_cooldown = 5; max_resends = 3 };
  google_config = record { client_id = []; client_secret = []; redirect_uri = [] };
  platform = world_platform;
}

abbrev pub ann : User
ann = record {
  id = 1;
  username = codes "ann";
  email = codes "ann@example.com";
  mobile = codes "+919876543210";
  mobile_verified = true;
  role = role_customer;
  is_profile_complete = true;
  created_at = 0;
  updated_at = 0;
}

-- Ann has an account with the password "secret", and it is 1000 o'clock.
abbrev pub world : World
world = record {
  refresh = Refresh.new_refresh_store;
  signups = PendingSignup.new_pending_signup_store;
  states = OtpState.new_otp_state_store;
  users = ann ∷ [];
  hash = codes "secret";
  clock = 1000;
  drawn = 7;
}

abbrev pub no_pair : TokenPair
no_pair = record {
  access_token = [];
  refresh_token = [];
  token_type = [];
  access_token_expires_in = 0;
  refresh_token_expires_in = 0;
}

-- The answer of a call that succeeds.
abbrev pub answer {ℓ} : {E A : Type ℓ} → A → Result E A → A
answer d (ok a) = a
answer d (err e) = d
