-- ===== src/Core/Types.antt =====
-- packages/core/src/index.ts: the data of commands. `undefined` is `none`.
use jawstack.Base.{ℕ, Option, List, Text, Instant}

pub data AuthMode : Type 0 where
  dev test external : AuthMode

-- Its `claims`, which no modelled code reads, are left out.
pub record AuthContext : Type 0 where
  pub subject : Text
  pub display_name : Option Text
  pub roles : List Text
  pub tenant_id : Option Text
  pub mode : AuthMode

pub record Actor : Type 0 where
  pub subject : Text
  pub display_name : Option Text

pub record ResourceState (S : Type 0) : Type 0 where
  pub resource_type : Text
  pub resource_id : Text
  pub version : ℕ
  pub state : S
  pub created_at : Instant
  pub updated_at : Instant
  pub created_by : Text
  pub updated_by : Text
  pub tenant_id : Option Text

-- CommandContext, without the input, which each command takes as an argument of its own. `ids i` is
-- what the `i`-th call of an identifier generator in the command returns.
pub record Context (S : Type 0) : Type 0 where
  pub auth : AuthContext
  pub previous : Option (ResourceState S)
  pub resource_id : Text
  pub request_id : Text
  pub correlation_id : Text
  pub now : Instant
  pub ids : ℕ → Text
