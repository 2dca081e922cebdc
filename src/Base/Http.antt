-- ===== src/Base/Http.antt =====
-- What a request handler returns: a body, or an error with its status code.
use Prim.Native.Nat.{ℕ}

-- `http 500` stands for an exception that no handler catches.
pub data Reply {ℓ} (A : Type ℓ) : Type ℓ where
  ok : A → Reply A
  http : ℕ → Reply A
