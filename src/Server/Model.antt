-- ===== src/Server/Model.antt =====
-- The types of cmd/server/main.go that its parts share, and Go's pair of a value and an error.
use audit_logging.Common.{ℕ, ◌+◌, ◌%◌, ◌^◌, Bool, List, Option, ◌≡◌, refl, ◌⊎◌, inl, inr}
use audit_logging.Common.Int.{ℤ}
use audit_logging.Text.{Text, codes}
use audit_logging.Json.{Object}

-- ErrUnauthorized is a value of its own; any other error is known by its message.
pub data Error : Type 0 where
  unauthorized : Error
  failure : Text → Error

pub data Result {ℓ} (A : Type ℓ) : Type ℓ where
  err : Error → Result A
  ok : A → Result A

infixl 5 ◌>>=◌
abbrev pub ◌>>=◌ {ℓ κ} : {A : Type ℓ} {B : Type κ} → Result A → (A → Result B) → Result B
err why >>= next = err why
ok value >>= next = next value

-- the message of an error
abbrev pub error_text : Error → Text
error_text unauthorized = codes "unauthorized"
error_text (failure message) = message

-- What a scanner or a cursor over rows gives out, item by item, until it ends or breaks.
pub data Stream {ℓ} (A : Type ℓ) : Type ℓ where
  eof : Stream A
  broken : Error → Stream A
  more : A → Stream A → Stream A

-- `n + 1` in uint64
abbrev pub next_uint64 : ℕ → ℕ
next_uint64 n = (n + 1) % 2 ^ 64

pub record LogRecord : Type 0 where
  pub client_id : Text
  pub app : Text
  pub level : Text
  pub message : Text
  pub metadata : Option Object

pub record Entry : Type 0 where
  pub index : ℕ
  pub timestamp : Text
  pub prev_hash : Text
  pub payload_hash : Text
  pub entry_hash : Text
  pub log_record : LogRecord

-- The texts of `VerifyResult.Reason`, one constructor each.
pub data Reason : Type 0 where
  invalid_json payload_marshal index_broken prev_mismatch payload_mismatch entry_mismatch : Reason

pub record VerifyResult : Type 0 where
  pub valid : Bool
  pub total_entries : ℕ
  pub last_hash : Text
  pub invalid_at : Option ℕ
  pub reason : Option Reason

-- `limit` and `offset` are Go integers, `after_index` is a uint64.
pub record LogQuery : Type 0 where
  pub client_id : Text
  pub app : Text
  pub level : Text
  pub text : Text
  pub limit : ℤ
  pub offset : ℤ
  pub after_index : ℕ
  pub want_total : Bool

pub record LogQueryResult : Type 0 where
  pub items : List Entry
  pub limit : ℤ
  pub next_cursor : Option Text
  pub total : Option ℕ
  pub offset : Option ℤ

pub Result-cases {ℓ} :
    {A : Type ℓ} (r : Result A) → ((a : A) × (r ≡ ok a)) ⊎ ((e : Error) × (r ≡ err e))
Result-cases (ok a) = inl (a, refl)
Result-cases (err e) = inr (e, refl)

-- Inversion of a bind that succeeded.
pub bind-eq-ok {ℓ κ} :
    {A : Type ℓ} {B : Type κ} {y : B} (first : Result A) (next : A → Result B)
    → first >>= next ≡ ok y
    → (x : A) × (first ≡ ok x) × (next x ≡ ok y)
bind-eq-ok (err why) next e = cc
bind-eq-ok (ok x) next e = (x, refl, e)

pub ok_injective {ℓ} : {A : Type ℓ} {a b : A} → ok a ≡ ok b → a ≡ b
ok_injective h = cc

pub binds-eq-ok {ℓ} :
    {A B C D : Type ℓ} (l : Result A) (m : Result B) (n : Result C) (f : A → B → C → Result D)
    {d : D}
    → (l >>= λ a. m >>= λ b. n >>= λ c. f a b c) ≡ ok d
    → (a : A) × (b : B) × (c : C) × (l ≡ ok a) × (m ≡ ok b) × (n ≡ ok c) × (f a b c ≡ ok d)
binds-eq-ok (ok a) (ok b) (ok c) f h = (a, b, c, refl, refl, refl, h)
binds-eq-ok (err e) m n f h = absurd cc
binds-eq-ok (ok a) (err e) n f h = absurd cc
binds-eq-ok (ok a) (ok b) (err e) f h = absurd cc
