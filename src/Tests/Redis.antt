-- ===== src/Tests/Redis.antt =====
-- A small Redis server that never fails, the stores on it, and a cached repository.
use wesko_go_backend.Redis.UserCache.{delete_user}
use wesko_go_backend.Redis.Keys.{username_key}
use wesko_go_backend.Redis.Keys.{email_key}
use wesko_go_backend.Redis.Keys.{signup_key}
use wesko_go_backend.Redis.Keys.{mobile_index_key}
use wesko_go_backend.Common.{
  ◌≡◌, ◌↔◌, refl, true, Option, none, some, [], ◌∷◌, ◌++◌, arith, length, ap, sym, ◌∙◌, ◌==◌,
  if◌then◌else◌,
}
use wesko_go_backend.Common.Text.{Text, codes, eq}
use wesko_go_backend.Common.Map.{Map, empty, insert, delete}
use wesko_go_backend.Common.Exec.{Result, ok, err}
use wesko_go_backend.Auth.Errors.{Error, invalid_token}
use wesko_go_backend.Auth.Models.{Time, PendingSignup, RefreshSession}
use wesko_go_backend.Auth.Ports.{Platform}
use wesko_go_backend.Auth.Service.Session.Rotation.{Revokes}
use wesko_go_backend.Redis.Client.{Client, Json, RedisError, Serves, apply}
use wesko_go_backend.Redis.Keys.Laws.{signup_of, mobile_index_of, key_of, key_of_iff}
use wesko_go_backend.Redis.PendingSignup
use wesko_go_backend.Redis.PendingSignup.Laws.{Decodes, IsFound, IsGone, lookups-save-delete}
use wesko_go_backend.Redis.Refresh.{refresh_store}
use wesko_go_backend.Redis.Refresh.Laws.{LeavesAlone, Absent, refresh_store-Revokes}
use wesko_go_backend.Auth.Ports.{UserRepository, UserCache}
use wesko_go_backend.Auth.Errors.{user_not_found}
use wesko_go_backend.Auth.Models.{User}
use wesko_go_backend.Auth.Cached.{new_cached_user_repository}
use wesko_go_backend.Auth.Cached.Laws.{Caches, update_user-fresh}
use wesko_go_backend.Redis.UserCache.{user_cache}
use wesko_go_backend.Redis.UserCache.Laws.{user_cache-Caches}
use wesko_go_backend.Tests.Seal.{split, split-length}
use wesko_go_backend.Tests.World.{ann, repeat}

-- The entries of the server, the clock of the client, and a database of accounts by name.
record Server : Type 0 where
  entries : Map Text
  clock : Time
  accounts : Map User

abbrev nil_reply : RedisError
nil_reply = record { is_nil = true; code = 0 }

abbrev reply : Option Text → Result RedisError Text
reply none = err nil_reply
reply (some v) = ok v

abbrev server : Client Server
server = record {
  get = λ k w. (reply (w.entries k), w);
  set = λ k v ttl w. (ok tt, record w { entries = insert k v w.entries });
  del = λ k w. (ok tt, record w { entries = delete k w.entries });
  incr = λ k w. (ok 1, w);
  expire = λ k ttl w. (ok tt, w);
  run = λ cs w. (ok tt, record w { entries = apply cs w.entries });
}

server-Serves : Serves server (λ w. w.entries)
server-Serves = record {
  finds = λ k w v h. ground (arith, h);
  misses = λ k w h. (nil_reply, refl, ground (arith, h));
  sets = λ k v ttl w t h j. ap (λ (r : Result RedisError Unit × Server). r.1.entries j) (sym h);
  sets_only = λ k v ttl w j h. ground (arith, h);
  deletes = λ k w t h j. ap (λ (r : Result RedisError Unit × Server). r.1.entries j) (sym h);
  runs = λ cs w t h j. ap (λ (r : Result RedisError Unit × Server). r.1.entries j) (sym h);
}

abbrev platform : Platform Server
platform = record {
  now = λ w. (w.clock, w);
  read_random = λ size w. (ok (repeat size 7), w);
  generate_from_password = λ password w. (ok password, w);
  compare_hash_and_password = λ hash password. eq hash password;
  seal = λ key claims w. (ok claims.subject, w);
  unseal = λ key token. err invalid_token;
  exchange = λ config code w. (ok code, w);
  user_info = λ config token w. (ok (record { id = token; email = [] }), w);
  lower_other = λ c. c;
}

platform-LeavesAlone : LeavesAlone platform (λ w. w.entries)
platform-LeavesAlone = record {
  now = λ w. refl;
  random = λ size w. refl;
  seal = λ key claims w. refl;
}

-- A stand-in for JSON that writes the fields down one after the other.
abbrev encode : PendingSignup → Text
encode s =
    s.resend_count
      ∷ s.last_sent_at
      ∷ s.expires_at
      ∷ length s.username
      ∷ length s.password_hash
      ∷ length s.email
      ∷ s.username
    ++ (s.password_hash ++ (s.email ++ s.mobile))

abbrev decode : Text → Result Error PendingSignup
decode (count ∷ sent ∷ expires ∷ username ∷ hash ∷ email ∷ s) =
    let (name, s1) = split username s in
    let (password_hash, s2) = split hash s1 in
    let (address, mobile) = split email s2 in
    ok (record {
      username = name;
      password_hash = password_hash;
      email = address;
      mobile = mobile;
      resend_count = count;
      last_sent_at = sent;
      expires_at = expires;
    })
decode _ = err invalid_token

abbrev signup_json : Json PendingSignup
signup_json = record { marshal = λ s. ok (encode s); unmarshal = decode }

abbrev payload_of : Result Error Text → Text
payload_of (ok t) = t
payload_of (err e) = []

decode-encode : (s : PendingSignup) → decode (encode s) ≡ ok s
decode-encode s =
    rw
      (
        split-length s.username (s.password_hash ++ (s.email ++ s.mobile)),
        split-length s.password_hash (s.email ++ s.mobile),
        split-length s.email s.mobile,
      )
      refl

signup_json-Decodes : Decodes signup_json
signup_json-Decodes s payload h = ap decode (sym (ap payload_of h)) ∙ decode-encode s

abbrev nobody_yet : Server
nobody_yet = record { entries = empty; clock = 1000; accounts = empty }

abbrev bob : PendingSignup
bob = record {
  username = codes "bob";
  password_hash = codes "hash";
  email = codes "bob@example.com";
  mobile = codes "+919876543211";
  resend_count = 0;
  last_sent_at = 990;
  expires_at = 1050;
}

abbrev saved : Server
saved = (PendingSignup.save server platform signup_json bob nobody_yet).1

abbrev removed : Server
removed = (PendingSignup.delete_by_mobile server platform signup_json bob.mobile saved).1

save_run : PendingSignup.save server platform signup_json bob nobody_yet ≡ (ok tt, saved)
unfolding PendingSignup.save
save_run = refl

remove_run :
    PendingSignup.delete_by_mobile server platform signup_json bob.mobile saved ≡ (ok tt, removed)
unfolding PendingSignup.delete_by_mobile PendingSignup.save apply eq mobile_index_key signup_key
    email_key username_key
remove_run = refl

lookups-save-delete_example :
    IsFound server platform signup_json (λ w. w.entries) server-Serves signup_json-Decodes bob saved
    × IsGone server platform signup_json
        (λ w. w.entries)
        server-Serves
        signup_json-Decodes
        bob
        removed
lookups-save-delete_example =
    lookups-save-delete server platform signup_json (λ w. w.entries) server-Serves
      signup_json-Decodes bob nobody_yet saved removed save_run remove_run

abbrev decode_session : Text → Result Error RefreshSession
decode_session (user_id ∷ expires ∷ token_id ∷ s) =
    let (id, name) = split token_id s in
    ok (record { token_id = id; user_id = user_id; username = name; expires_at = expires })
decode_session _ = err invalid_token

abbrev session_json : Json RefreshSession
session_json = record {
  marshal = λ s. ok (s.user_id ∷ s.expires_at ∷ length s.token_id ∷ s.token_id ++ s.username);
  unmarshal = decode_session;
}

refresh_store-Revokes_example :
    Revokes platform (refresh_store server platform session_json (λ t. t)) (
      Absent server platform session_json
        (λ t. t)
        (λ w. w.entries)
        server-Serves
        platform-LeavesAlone
        (λ a b h. h))
refresh_store-Revokes_example =
    refresh_store-Revokes server platform session_json (λ t. t) (λ w. w.entries) server-Serves
      platform-LeavesAlone (λ a b h. h) (λ k w. (_, refl))

key_of_iff_example :
    (key_of (λ t. t) (signup_of (codes "1")) ≡ key_of (λ t. t) (mobile_index_of (codes "1")))
    ↔ (signup_of (codes "1") ≡ mobile_index_of (codes "1"))
key_of_iff_example =
    key_of_iff (λ t. t) (λ a b h. h) (signup_of (codes "1")) (mobile_index_of (codes "1"))

abbrev encode_user : User → Text
encode_user u =
    u.id
      ∷ u.created_at
      ∷ u.updated_at
      ∷ (if u.mobile_verified then 1 else 0)
      ∷ (if u.is_profile_complete then 1 else 0)
      ∷ length u.username
      ∷ length u.email
      ∷ length u.mobile
      ∷ u.username
    ++ (u.email ++ (u.mobile ++ u.role))

abbrev decode_user : Text → Result Error User
decode_user (id ∷ created ∷ updated ∷ verified ∷ complete ∷ username ∷ email ∷ mobile ∷ s) =
    let (name, s1) = split username s in
    let (address, s2) = split email s1 in
    let (number, role) = split mobile s2 in
    ok (record {
      id = id;
      username = name;
      email = address;
      mobile = number;
      mobile_verified = verified == 1;
      role = role;
      is_profile_complete = complete == 1;
      created_at = created;
      updated_at = updated;
    })
decode_user _ = err invalid_token

abbrev user_json : Json User
user_json = record { marshal = λ u. ok (encode_user u); unmarshal = decode_user }

abbrev found_user : Option User → Result Error User
found_user none = err user_not_found
found_user (some user) = ok user

abbrev unused : {A B : Type 0} → A → Server → Result Error B × Server
unused a w = (err user_not_found, w)

abbrev account_store : UserRepository Server
account_store = record {
  get_user_details_by_username = λ name w. (found_user (w.accounts name), w);
  get_user_by_email = unused;
  get_user_by_mobile = unused;
  get_user_by_id = unused;
  register_user = λ user. unused;
  update_user = λ user w. (ok tt, record w { accounts = insert user.username user w.accounts });
  get_password_hash_by_user_id = unused;
  get_sso_account = λ provider. unused;
  create_sso_user = λ user. unused;
  link_sso_account = λ id. unused;
}

abbrev redis_cache : UserCache Server
redis_cache = user_cache server user_json 300

server-Caches : Caches account_store redis_cache
server-Caches =
    user_cache-Caches server user_json 300 (λ w. w.entries) server-Serves account_store
      (λ new w. refl)

user_cache-Caches_example : Caches account_store redis_cache
user_cache-Caches_example =
    user_cache-Caches server user_json 300 (λ w. w.entries) server-Serves account_store
      (λ new w. refl)

abbrev cached_repository : UserRepository Server
cached_repository = new_cached_user_repository account_store (some redis_cache)

abbrev old_ann : User
old_ann = record ann { email = codes "old@example.com" }

-- The cache holds an account of Ann that is not what is stored next.
abbrev held : Server
held = (redis_cache.set_user old_ann nobody_yet).1

abbrev stored : Server
stored = (account_store.update_user ann held).1

abbrev forgotten : Server
forgotten = (redis_cache.delete_user ann.username stored).1

forget_run : redis_cache.delete_user ann.username stored ≡ (ok tt, forgotten)
unfolding delete_user
forget_run = refl

update_user-fresh_example :
    (cached_repository.update_user ann held ≡ (ok tt, forgotten))
    × ((cached_repository.get_user_details_by_username ann.username forgotten).0
        ≡ (account_store.get_user_details_by_username ann.username forgotten).0)
update_user-fresh_example =
    update_user-fresh account_store redis_cache server-Caches ann held stored forgotten refl
      forget_run
