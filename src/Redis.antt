-- ===== src/Redis.antt =====
-- What the program uses of the Redis client (github.com/go-redis/redis), as an interface. A write
-- may fail; a write that reports no error is read back, and no write touches another key.
use lightnode.Common.{ℕ, ◌^◌, ◌<◌, String, ◌≡◌, ◌≢◌, Option, none}
use lightnode.Common.Result.{Result, ok}

pub data RedisError : Type 0 where
  -- redis.Nil: there is no such key.
  nil_reply : RedisError
  failure : String → RedisError

pub record Redis : Type 1 where
  pub State : Type 0
  pub get : String → State → Result RedisError String
  -- Get(key).Uint64()
  pub get_uint64 : String → State → Result RedisError ℕ
  -- Set(key, value, expiry).Err()
  pub set : String → String → State → Option RedisError × State
  pub set_uint64 : String → ℕ → State → Option RedisError × State
  pub get-set_self : (k v : String) (s : State) → (set k v s).0 ≡ none → get k (set k v s).1 ≡ ok v
  pub get-set_ne : (k j v : String) (s : State) → k ≢ j → get j (set k v s).1 ≡ get j s
  pub get_uint64-set_ne :
      (k j v : String) (s : State) → k ≢ j → get_uint64 j (set k v s).1 ≡ get_uint64 j s
  pub get_uint64-set_uint64_self :
      (k : String) (n : ℕ) (s : State)
      → n < 2 ^ 64
      → (set_uint64 k n s).0 ≡ none
      → get_uint64 k (set_uint64 k n s).1 ≡ ok n
