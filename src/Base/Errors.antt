-- ===== src/Base/Errors.antt =====
-- packages/core/src/index.ts: the codes of `JawStackRuntimeError`. A call that may throw one returns
-- a result; the human-readable message is left out.
use mathlib.Core.Bool.{Bool, true, false}
use mathlib.Core.Path.{◌≡◌, refl}

pub data RuntimeErrorCode : Type 0 where
  command_validation query_invalid command_rejected auth_missing auth_forbidden : RuntimeErrorCode
  resource_not_found resource_conflict resource_invalid_state : RuntimeErrorCode
  idempotency_conflict runtime_internal runtime_unavailable : RuntimeErrorCode

pub data Result {ℓ} (A : Type ℓ) : Type ℓ where
  ok : A → Result A
  err : RuntimeErrorCode → Result A

-- `if (!condition) throw new JawStackRuntimeError(code, …)`
abbrev pub require : Bool → RuntimeErrorCode → Result (Unit {0})
require held code = elim held [ true ↦ ok tt | false ↦ err code ]

infixl 5 ◌>>◌ ◌>>=◌
-- A call, and what goes on with its value unless it threw.
abbrev pub ◌>>=◌ {κ ℓ} : {B : Type κ} {A : Type ℓ} → Result A → (A → Result B) → Result B
call >>= next = elim call [ err code ↦ err code | ok value ↦ next value ]

abbrev pub ◌>>◌ {ℓ} : {B : Type ℓ} → Result (Unit {0}) → Result B → Result B
check >> next = check >>= λ passed. next

pub err-ne-ok {ℓ} : {A : Type ℓ} {e : RuntimeErrorCode} {x : A} → err e ≡ ok x → ⊥
err-ne-ok q = cc

-- A sequence that succeeded has a call that succeeded: for proofs that go on under the new variables.
pub >>=-elim {ℓ κ ι} :
    {A : Type ℓ} {B : Type κ} {P : Type ι} (call : Result A) (next : A → Result B) {b : B}
    → (call >>= next) ≡ ok b
    → ((value : A) → call ≡ ok value → next value ≡ ok b → P)
    → P
>>=-elim (ok value) next h k = k value refl h
>>=-elim (err code) next {b} h k = absurd (err-ne-ok h)

pub require-elim {ℓ ι} :
    {B : Type ℓ} {P : Type ι} (held : Bool) (code : RuntimeErrorCode) (next : Result B) {b : B}
    → (require held code >> next) ≡ ok b
    → (held ≡ true → next ≡ ok b → P)
    → P
require-elim true code next h k = k refl h
require-elim false code next {b} h k = absurd (err-ne-ok h)

-- The same as pairs.
pub require->>-eq-ok {ℓ} :
    {B : Type ℓ} (held : Bool) (code : RuntimeErrorCode) (next : Result B) {b : B}
    → (require held code >> next) ≡ ok b
    → (held ≡ true) × (next ≡ ok b)
require->>-eq-ok held code next h = require-elim held code next h (λ p q. (p, q))

pub >>=-eq-ok {ℓ κ} :
    {A : Type ℓ} {B : Type κ} (call : Result A) (next : A → Result B) {b : B}
    → (call >>= next) ≡ ok b
    → (value : A) × (call ≡ ok value) × (next value ≡ ok b)
>>=-eq-ok call next h = >>=-elim call next h (λ value p q. (value, p, q))

pub ok-inj {ℓ} : {A : Type ℓ} {a b : A} → ok a ≡ ok b → a ≡ b
ok-inj h = cc
