-- ===== src/Runtime/Keys.antt =====
-- labelkit/common/contracts/execution.py: resource keys, HTTP origins and task plans.
-- labelkit/common/errors.py: the internal error.
use label_kit.Prelude.{
  ℕ, ◌≡◌, ◌↔◌, Bool, true, ◌&&◌, List, String, arith, Equality, nat_eq, string_eq, ◌==◌,
}
use label_kit.Prelude.Int.{ℤ}

-- ("llm" | "embedding", name). The first part is a text, which the runtime checks.
pub record ResourceKey : Type 0 where
  pub kind : String
  pub name : String

-- (scheme, host, port)
pub record HttpOrigin : Type 0 where
  pub scheme : String
  pub host : String
  pub port : ℕ

abbrev pub key_beq : ResourceKey → ResourceKey → Bool
key_beq a b = (a.kind == b.kind) && (a.name == b.name)

pub key_beq_iff : (a b : ResourceKey) → (key_beq a b ≡ true) ↔ (a ≡ b)
key_beq_iff a b = ground (arith, string_eq.test_iff a.kind b.kind, string_eq.test_iff a.name b.name)

instance abbrev pub key_eq : Equality ResourceKey
key_eq = record { test = key_beq; test_iff = key_beq_iff }

abbrev pub origin_beq : HttpOrigin → HttpOrigin → Bool
origin_beq a b = (a.scheme == b.scheme) && ((a.host == b.host) && (a.port == b.port))

pub origin_beq_iff : (a b : HttpOrigin) → (origin_beq a b ≡ true) ↔ (a ≡ b)
origin_beq_iff a b = ground (
  arith,
  string_eq.test_iff a.scheme b.scheme,
  string_eq.test_iff a.host b.host,
  nat_eq.test_iff a.port b.port,
)

instance abbrev pub origin_eq : Equality HttpOrigin
origin_eq = record { test = origin_beq; test_iff = origin_beq_iff }

-- A task, with its operation of type `Op`.
pub record TaskSpec (Op : Type 0) : Type 0 where
  pub task_id : String
  pub declaration_key : List ℤ
  pub stage : String
  pub resource_key : ResourceKey
  pub operation : Op

-- What the runtime raises as InternalError, by the message.
pub data InternalError : Type 0 where
  different_keys invalid_resource invalid_origin unknown_key unknown_origin : InternalError
  invalid_specification duplicate_task_id : InternalError

pub data Result {ℓ} (A : Type ℓ) : Type ℓ where
  ok : A → Result A
  err : InternalError → Result A
