-- ===== src/Base/Status.antt =====
-- The status that each fallible function returns, and the value it hands back on success.
use mathlib.Core.Path.{◌≡◌, refl}

-- `classfile_status`, its success case apart.
pub data ClassfileStatus : Type 0 where
  truncated magic version constant_tag constant_index trailing_bytes : ClassfileStatus
  limit_exceeded out_of_memory opcode bad_offset branch_range : ClassfileStatus
  code_too_large unsupported : ClassfileStatus

-- What a function with an out parameter returns: `CLASSFILE_OK` and the value, or an error.
pub data Result {ℓ} (A : Type ℓ) : Type ℓ where
  ok : A → Result A
  err : ClassfileStatus → Result A

abbrev pub bind {ℓ κ} : {A : Type ℓ} {B : Type κ} → Result A → (A → Result B) → Result B
bind (ok a) f = f a
bind (err e) f = err e

pub bind-eq-ok {ℓ κ} :
    {A : Type ℓ} {B : Type κ} (m : Result A) (f : A → Result B) {b : B}
    → bind m f ≡ ok b
    → (a : A) × (m ≡ ok a) × (f a ≡ ok b)
bind-eq-ok (ok a) f h = (a, refl, h)
bind-eq-ok (err e) f h = cc
