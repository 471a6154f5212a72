-- ===== src/Tests/Samples.antt =====
-- Concrete parameters: a JSON-RPC package and a Redis server in memory.
use text.Mathlib.Text.{◌==◌ as str_beq}
use text.Mathlib.TextEquality.{eq_iff}
use lightnode.Common.{
  ℕ, String, ◌≡◌, ◌≢◌, refl, ◌↔◌, Bool, true, false, ◌&&◌, Option, none, some, arith, nat_beq,
  nat_beq_iff,
}
use lightnode.Common.Eq.{string_eq, ==_iff}
use lightnode.Common.Dict.{Dict, lookup, insert, lookup-insert}
use lightnode.Common.Result.{Result, ok, err}
use lightnode.JsonRpc.{JsonRpc, Error, ErrorCode, internal, invalid_params, invalid_request}
use lightnode.Redis.{Redis, RedisError, nil_reply}

abbrev code_number : ErrorCode → ℕ
code_number internal = 0
code_number invalid_params = 1
code_number invalid_request = 2

code_number_inj : (a b : ErrorCode) → code_number a ≡ code_number b → a ≡ b
code_number_inj a b h = ground arith

abbrev error_beq : Error → Error → Bool
error_beq a b = nat_beq (code_number a.code) (code_number b.code) && str_beq a.message b.message

error_beq_iff : (a b : Error) → (error_beq a b ≡ true) ↔ (a ≡ b)
error_beq_iff a b = ground (arith, eq_iff a.message b.message, code_number_inj a.code b.code)

pub record Reply : Type 0 where
  pub id : ℕ
  pub value : Option ℕ
  pub problem : Option Error

abbrev value_beq : Option ℕ → Option ℕ → Bool
value_beq none none = true
value_beq (some a) (some b) = nat_beq a b
value_beq _ _ = false

value_beq_iff : (a b : Option ℕ) → (value_beq a b ≡ true) ↔ (a ≡ b)
value_beq_iff a b = ground arith

abbrev problem_beq : Option Error → Option Error → Bool
problem_beq none none = true
problem_beq (some a) (some b) = error_beq a b
problem_beq _ _ = false

problem_beq_iff : (a b : Option Error) → (problem_beq a b ≡ true) ↔ (a ≡ b)
problem_beq_iff none none = ground arith
problem_beq_iff (some a) (some b) = ground (arith, error_beq_iff a b)
problem_beq_iff none (some b) = ground arith
problem_beq_iff (some a) none = ground arith

abbrev reply_beq : Reply → Reply → Bool
reply_beq a b = nat_beq a.id b.id && (value_beq a.value b.value && problem_beq a.problem b.problem)

pub reply_beq_iff : (a b : Reply) → (reply_beq a b ≡ true) ↔ (a ≡ b)
reply_beq_iff a b = ground (
  arith,
  nat_beq_iff a.id b.id,
  value_beq_iff a.value b.value,
  problem_beq_iff a.problem b.problem,
)

abbrev pub simple_rpc : JsonRpc
simple_rpc = record {
  RequestId = ℕ;
  Value = ℕ;
  Response = Reply;
  response_eq = record { equal = reply_beq; equal_iff = reply_beq_iff };
  new_response = λ i v e. record { id = i; value = v; problem = e };
  error = λ r. r.problem;
  result = λ r. r.value;
  id = λ r. r.id;
  error-new_response = λ i v e. refl;
  result-new_response = λ i v e. refl;
  id-new_response = λ i v e. refl;
}

-- A Redis server in memory: texts and numbers under separate keys.
pub record Cells : Type 0 where
  pub texts : Dict String String
  pub numbers : Dict String ℕ

abbrev found {ℓ} : {A : Type ℓ} → Option A → Result RedisError A
found none = err nil_reply
found (some a) = ok a

pub mem_get-set_self : (k v : String) (s : Cells) → found (lookup k (insert k v s.texts)) ≡ ok v
mem_get-set_self k v s = ground (arith, lookup-insert k k v s.texts, ==_iff k k)

pub mem_get-set_ne :
    (k j v : String) (s : Cells)
    → k ≢ j
    → found (lookup j (insert k v s.texts)) ≡ found (lookup j s.texts)
mem_get-set_ne k j v s h = ground (arith, lookup-insert k j v s.texts, ==_iff j k)

pub mem_number-set_self :
    (k : String) (n : ℕ) (s : Cells) → found (lookup k (insert k n s.numbers)) ≡ ok n
mem_number-set_self k n s = ground (arith, lookup-insert k k n s.numbers, ==_iff k k)

abbrev pub mem_redis : Redis
mem_redis = record {
  State = Cells;
  get = λ k s. found (lookup k s.texts);
  get_uint64 = λ k s. found (lookup k s.numbers);
  set = λ k v s. (none, record s { texts = insert k v s.texts });
  set_uint64 = λ k n s. (none, record s { numbers = insert k n s.numbers });
  get-set_self = λ k v s _. mem_get-set_self k v s;
  get-set_ne = mem_get-set_ne;
  get_uint64-set_ne = λ k j v s _. refl;
  get_uint64-set_uint64_self = λ k n s _ _. mem_number-set_self k n s;
}
