-- ===== src/Topic/Policy.antt =====
-- rifts-core/src/topic/retention.rs, ordering.rs and profile.rs. A `Duration` is its nanoseconds.
use rifts.Prelude.{ℕ, ◌*◌, ◌/◌, String, Option, none, Bool, true}

pub data RetentionPolicy : Type 0 where
  nothing : RetentionPolicy  -- `RetentionPolicy::None`
  ttl : (duration : ℕ) → RetentionPolicy
  count : ℕ → RetentionPolicy
  size : ℕ → RetentionPolicy
  durable : RetentionPolicy
  latest : RetentionPolicy

pub data OrderingPolicy : Type 0 where
  unordered connection publisher topic_wide key causal : OrderingPolicy

unfoldable pub ordering_name : OrderingPolicy → String
ordering_name unordered = "none"
ordering_name connection = "connection"
ordering_name publisher = "publisher"
ordering_name topic_wide = "topic"
ordering_name key = "key"
ordering_name causal = "causal"

-- `Duration::from_secs` and `Duration::as_millis`.
abbrev pub from_secs : ℕ → ℕ
from_secs s = s * 1_000_000_000

abbrev pub as_millis : ℕ → ℕ
as_millis d = d / 1_000_000

pub record TopicProfile : Type 0 where
  pub name : String
  pub retention : RetentionPolicy
  pub ordering : OrderingPolicy
  pub max_subscribers : ℕ
  pub max_publishers : ℕ
  pub rate_limit_per_publisher : Option ℕ
  pub rate_limit_total : Option ℕ
  pub replay_enabled : Bool
  pub snapshot_enabled : Bool
  pub snapshot_ttl : Option ℕ
  pub replay_window : ℕ

-- `TopicProfile::default`.
abbrev pub default_profile : TopicProfile
default_profile = record {
  name = "default";
  retention = latest;
  ordering = topic_wide;
  max_subscribers = 10_000;
  max_publishers = 10_000;
  rate_limit_per_publisher = none;
  rate_limit_total = none;
  replay_enabled = true;
  snapshot_enabled = true;
  snapshot_ttl = none;
  replay_window = from_secs 300;
}
