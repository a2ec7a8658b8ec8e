-- ===== src/Protocol/CloseCode.antt =====
-- rifts-core/src/protocol/close.rs: the close codes of a connection and their numbers.
use rifts.Prelude.{
  ℕ, String, ◌≡◌, ◌≤◌, ◌↔◌, Option, none, some, arith, ◌==◌, nat_eq, if◌then◌else◌, ◌≢◌,
}

pub data CloseCode : Type 0 where
  normal draining protocol_error unsupported_codec auth_failed auth_expired permission_revoked
        session_conflict rate_limited payload_too_large slow_consumer server_overloaded shard_moved
        idle_timeout client_upgrade_required policy_violation :
      CloseCode

unfoldable pub from_u16 : ℕ → Option CloseCode
from_u16 v =
    if v == 1000
    then some normal
    else if v == 1001
    then some draining
    else if v == 1002
    then some protocol_error
    else if v == 1003
    then some unsupported_codec
    else if v == 1004
    then some auth_failed
    else if v == 1005
    then some auth_expired
    else if v == 1006
    then some permission_revoked
    else if v == 1007
    then some session_conflict
    else if v == 1008
    then some rate_limited
    else if v == 1009
    then some payload_too_large
    else if v == 1010
    then some slow_consumer
    else if v == 1011
    then some server_overloaded
    else if v == 1012
    then some shard_moved
    else if v == 1013
    then some idle_timeout
    else if v == 1014
    then some client_upgrade_required
    else if v == 1015
    then some policy_violation
    else none

unfoldable pub as_u16 : CloseCode → ℕ
as_u16 normal = 1000
as_u16 draining = 1001
as_u16 protocol_error = 1002
as_u16 unsupported_codec = 1003
as_u16 auth_failed = 1004
as_u16 auth_expired = 1005
as_u16 permission_revoked = 1006
as_u16 session_conflict = 1007
as_u16 rate_limited = 1008
as_u16 payload_too_large = 1009
as_u16 slow_consumer = 1010
as_u16 server_overloaded = 1011
as_u16 shard_moved = 1012
as_u16 idle_timeout = 1013
as_u16 client_upgrade_required = 1014
as_u16 policy_violation = 1015

unfoldable pub name : CloseCode → String
name normal = "normal"
name draining = "draining"
name protocol_error = "protocol_error"
name unsupported_codec = "unsupported_codec"
name auth_failed = "auth_failed"
name auth_expired = "auth_expired"
name permission_revoked = "permission_revoked"
name session_conflict = "session_conflict"
name rate_limited = "rate_limited"
name payload_too_large = "payload_too_large"
name slow_consumer = "slow_consumer"
name server_overloaded = "server_overloaded"
name shard_moved = "shard_moved"
name idle_timeout = "idle_timeout"
name client_upgrade_required = "client_upgrade_required"
name policy_violation = "policy_violation"

-- A number decodes to a close code exactly when it is that code's number, and the numbers that
-- decode are 1000 to 1015 and no others.
pub from_u16-as_u16 :
    (v : ℕ) (c : CloseCode)
    → ((from_u16 v ≡ some c) ↔ (v ≡ as_u16 c)) × ((from_u16 v ≢ none) ↔ ((1000 ≤ v) × (v ≤ 1015)))
unfolding from_u16 as_u16
from_u16-as_u16 v c =
    ((λ h. ground arith, λ h. ground arith), (λ h. ground arith, λ h e. ground arith))
