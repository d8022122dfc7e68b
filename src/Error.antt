-- ===== src/Error.antt =====
-- The result codes of include/error.h, and calls that hand back a value beside the code.

-- `err_t`.
pub data Err : Type 0 where
  ok inval no_mem busy timeout locked perm state destroyed : Err

-- ERR_OK with what went through the out pointer, or another code.
pub data Res {ℓ} (A : Type ℓ) : Type ℓ where
  val : A → Res A
  err : Err → Res A
