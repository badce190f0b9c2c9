-- ===== src/Base/Results.antt =====
-- `AgentError` and `AgentResult` of os/src/agent/error.rs.
use Prim.Native.Nat.{ℕ}

pub data AgentError : Type 0 where
  bad_user_pointer buffer_too_small protocol_malformed not_an_agent : AgentError
  quota_exceeded not_found permission_denied internal_error : AgentError

pub data AgentResult {ℓ} (A : Type ℓ) : Type ℓ where
  ok : A → AgentResult A
  err : AgentError → AgentResult A

infixl 5 ◌>>=◌
abbrev pub ◌>>=◌ {ℓ κ} :
    {A : Type ℓ} {B : Type κ} → AgentResult A → (A → AgentResult B) → AgentResult B
ok a >>= f = f a
err e >>= f = err e

-- `isize`, as a number or one more than the number that follows the sign.
pub data ISize : Type 0 where
  pos negsuc : ℕ → ISize

-- `AgentError::into_isize`
abbrev pub into_isize : AgentError → ISize
into_isize bad_user_pointer = negsuc 0
into_isize buffer_too_small = negsuc 1
into_isize protocol_malformed = negsuc 2
into_isize not_an_agent = negsuc 3
into_isize quota_exceeded = negsuc 4
into_isize not_found = negsuc 5
into_isize permission_denied = negsuc 6
into_isize internal_error = negsuc 7
