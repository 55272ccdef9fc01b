-- ===== src/Auth/Service/Google.antt =====
-- GoogleLogin of auth/service/service.go. The log lines are left out; the exchange of the code and
-- the fetch of the identity are the platform's.
pub mod Laws
use wesko_go_backend.Common.{
  ℕ, ◌+◌, ◌-◌, ◌/◌, ◌%◌, Bool, false, not, List, [], ◌∷◌, ◌++◌, ltb, ◌==◌, if◌then◌else◌,
}
use wesko_go_backend.Common.Text.{Text, codes}
use wesko_go_backend.Common.Exec.{Result, ok, err, pure, raise, attempt, ◌>>=◌, ◌>>◌}
use wesko_go_backend.Auth.Errors.{Error, is_user_not_found}
use wesko_go_backend.Auth.Models.{User, SsoAccount, Time, TokenPair, role_customer}
use wesko_go_backend.Auth.Ports.{Call, UserInfo, read_clock}
use wesko_go_backend.Auth.Service.Base.{Service, issue_token_pair}

-- strings.Split(s, "@")
split_at_sign : Text → Text → List Text
split_at_sign part [] = part ∷ []
split_at_sign part (c ∷ s) =
    let closed = part ∷ split_at_sign [] s in
    let longer = split_at_sign (part ++ c ∷ []) s in if c == b'@' then closed else longer

-- The first part of an address that has an at sign, else the empty name.
first_of_two : List Text → Text
first_of_two (name ∷ domain ∷ rest) = name
first_of_two _ = []

unfoldable pub local_part : Text → Text
unfolding split_at_sign first_of_two
local_part email = first_of_two (split_at_sign [] email)

-- %d of a number below 1000.
unfoldable pub decimal : ℕ → Text
decimal n =
    if ltb n 10
    then (n + b'0') ∷ []
    else if ltb n 100
    then (n / 10 + b'0') ∷ (n % 10 + b'0') ∷ []
    else (n / 100 + b'0') ∷ (n / 10 % 10 + b'0') ∷ (n % 10 + b'0') ∷ []

-- time.Unix, of a time after 1970: 62135596800 seconds lie between Go's zero time and 1970.
unfoldable pub unix : Time → ℕ
unix t = t / 1000000000 - 62135596800

unfoldable pub google_account : UserInfo → SsoAccount
google_account info = record {
  user_id = 0;
  provider = codes "google";
  provider_id = info.id;
  email = info.email;
}

-- The account of a new Google user: its profile is not complete.
unfoldable pub google_user : UserInfo → Text → User
google_user info username = record {
  id = 0;
  username = username;
  email = info.email;
  mobile = [];
  mobile_verified = false;
  role = role_customer;
  is_profile_complete = false;
  created_at = 0;
  updated_at = 0;
}

module _ {S : Type 0} (s : Service S) where
  unfoldable pub with_tokens : User → Call S (User × TokenPair)
  with_tokens user = do tokens ← issue_token_pair s user; pure (user, tokens)

  -- A name that is taken gets the last three digits of the clock.
  pick_username : Text → Result Error User → Call S Text
  pick_username username (err _) = pure username
  pick_username username (ok _) = do
    now ← read_clock s.platform
    pure (username ++ codes "_" ++ decimal (unix now % 1000))

  -- Step 3: a new account.
  unfoldable pub create_google_user : UserInfo → Call S (User × TokenPair)
  unfolding pick_username
  create_google_user info = do
    let base = local_part info.email
    taken ← attempt (s.repo.get_user_details_by_username base)
    username ← pick_username base taken
    user ← s.repo.create_sso_user (google_user info username) (google_account info)
    with_tokens user

  -- Step 2: the account with the same address is linked.
  unfoldable pub link_or_create : UserInfo → Result Error User → Call S (User × TokenPair)
  link_or_create info (ok user) = do
    s.repo.link_sso_account user.id (google_account info)
    with_tokens user
  link_or_create info (err e) =
      if not (is_user_not_found e) then raise e else create_google_user info

  -- Step 1: an account that is linked already.
  unfoldable pub google_from : UserInfo → User × Bool → Call S (User × TokenPair)
  google_from info (user, exists) =
      if exists
      then with_tokens user
      else do found ← attempt (s.repo.get_user_by_email info.email); link_or_create info found

  unfoldable pub google_login : Text → Call S (User × TokenPair)
  google_login code = do
    token ← s.platform.exchange s.google_config code
    info ← s.platform.user_info s.google_config token
    known ← s.repo.get_sso_account (codes "google") info.id
    google_from info known
