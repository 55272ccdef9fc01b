-- ===== src/Redis/Client.antt =====
-- The calls of go-redis that cache/redis/ makes, the JSON of what is stored, and what a Redis server
-- does with the calls. The server is behind the calls: they go from a state of the world to another.
use wesko_go_backend.Common.{ℕ, ◌≡◌, Bool, List, [], ◌∷◌, none, some, if◌then◌else◌}
use wesko_go_backend.Common.Text.{Text, eq}
use wesko_go_backend.Common.Map.{Map, insert, delete}
use wesko_go_backend.Common.Exec.{Result, ok, err, Exec}
use wesko_go_backend.Auth.Errors.{Error, cache_miss, other}
use wesko_go_backend.Auth.Models.{Duration}

-- An error of go-redis: whether errors.Is says that it is Nil, and which one it is.
pub record RedisError : Type 0 where
  pub is_nil : Bool
  pub code : ℕ

abbrev pub RedisCall : Type 0 → Type 0 → Type 0
RedisCall S A = Exec S RedisError A

-- A command that is queued in a TxPipeline.
pub data Command : Type 0 where
  put : Text → Text → Duration → Command
  drop : Text → Command

-- `run` is Exec of a TxPipeline with the queued commands.
pub record Client (S : Type 0) : Type 0 where
  pub get : Text → RedisCall S Text
  pub set : Text → Text → Duration → RedisCall S Unit
  pub del : Text → RedisCall S Unit
  pub incr : Text → RedisCall S ℕ
  pub expire : Text → Duration → RedisCall S Unit
  pub run : List Command → RedisCall S Unit

-- json.Marshal and json.Unmarshal at a type.
pub record Json (A : Type 0) : Type 0 where
  pub marshal : A → Result Error Text
  pub unmarshal : Text → Result Error A

-- `return err`
abbrev pub raw : RedisError → Error
raw e = other e.code

-- `if errors.Is(err, goredis.Nil) { return auth.ErrCacheMiss }; return err`
abbrev pub on_missing : RedisError → Error
on_missing e = if e.is_nil then cache_miss else other e.code

-- A call with its error turned into one of the program's.
abbrev pub rescue : {S A : Type 0} → (RedisError → Error) → RedisCall S A → Exec S Error A
rescue f m w = let (r, w') = m w in (elim r [ ok a ↦ ok a | err e ↦ err (f e) ], w')

-- What a list of commands makes of the entries of a server.
unfoldable pub apply : List Command → Map Text → Map Text
apply [] m = m
apply (put k v ttl ∷ cs) m = apply cs (insert k v m)
apply (drop k ∷ cs) m = apply cs (delete k m)

-- What a Redis server documents of the calls, for the entries that `stored` shows of a state: a GET
-- answers the entry of its key or Nil and changes nothing, and a call that succeeds has done what it
-- says, to its key and no other; one that fails may have done it, but nothing to another key.
pub record Serves {S : Type 0} (c : Client S) (stored : S → Map Text) : Type 0 where
  pub finds : (k : Text) (w : S) (v : Text) → stored w k ≡ some v → c.get k w ≡ (ok v, w)
  pub misses :
      (k : Text) (w : S)
      → stored w k ≡ none
      → (e : RedisError) × (e.is_nil ≡ Bool.true) × (c.get k w ≡ (err e, w))
  pub sets :
      (k v : Text) (ttl : Duration) (w t : S)
      → c.set k v ttl w ≡ (ok tt, t)
      → (j : Text) → stored t j ≡ insert k v (stored w) j
  pub sets_only :
      (k v : Text) (ttl : Duration) (w : S) (j : Text)
      → eq k j ≡ Bool.false
      → stored (c.set k v ttl w).1 j ≡ stored w j
  pub deletes :
      (k : Text) (w t : S)
      → c.del k w ≡ (ok tt, t)
      → (j : Text) → stored t j ≡ delete k (stored w) j
  pub runs :
      (cs : List Command) (w t : S)
      → c.run cs w ≡ (ok tt, t)
      → (j : Text) → stored t j ≡ apply cs (stored w) j
