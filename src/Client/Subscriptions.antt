-- ===== src/Client/Subscriptions.antt =====
-- rifts-client/src/subscriber.rs, `SubscriptionTracker`, and `mode_str` of connection.rs and
-- rift_client.rs.
use rifts.Prelude.{String, Bool, [], string_eq}
use rifts.Prelude.Map.{Map, insert, remove, contains_key}
use rifts.Connection.Control.{
  SubscribeIntent, live, passive, ephemeral, latest, snapshot_then_live, replay,
}

abbrev pub SubscriptionTracker : Type 0
SubscriptionTracker = Map String SubscribeIntent

abbrev pub new : SubscriptionTracker
new = []

abbrev pub add : SubscriptionTracker → (topic : String) → SubscribeIntent → SubscriptionTracker
add t topic mode = insert topic mode t

abbrev pub remove_subscription : SubscriptionTracker → (topic : String) → SubscriptionTracker × Bool
remove_subscription t topic = (remove topic t, contains_key topic t)

abbrev pub mode_str : SubscribeIntent → String
mode_str live = "live"
mode_str (replay from) = "replay"
mode_str snapshot_then_live = "snapshot_then_live"
mode_str latest = "latest"
mode_str passive = "passive"
mode_str ephemeral = "ephemeral"
