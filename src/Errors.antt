-- ===== src/Errors.antt =====
-- internal/errdefs: the classes of errors, and results that may be one.

-- `other` is an error of no class, such as one of the file system.
pub data Error : Type 0 where
  not_found exists invalid_state invalid_argument resource_exhausted unavailable unauthenticated :
      Error
  permission_denied other : Error

pub data Result {ℓ} (A : Type ℓ) : Type ℓ where
  ok : A → Result A
  err : Error → Result A
