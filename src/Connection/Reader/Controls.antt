-- ===== src/Connection/Reader/Controls.antt =====
-- A control frame leaves no subscription that the connection does not note.
use rifts.Prelude.{
  ℕ, ◌+◌, ◌^◌, ◌<◌, inl, inr, refl, String, Bool, true, false, none, ◌∷◌, if◌then◌else◌, ◌==◌,
  nat_eq, string_eq, arith,
}
use rifts.Errors.{Result, ok, err, text}
use rifts.Json.{Json, Parsed, broken, parsed}
use rifts.Frame.Envelope.{Frame}
use rifts.Broker.Fanout.Consistent.{IsConsistent}
use rifts.Broker.Memory.{Broker, subscribe_to, unsubscribe_from}
use rifts.Connection.HelloPayload.{and_then, or_else, invalid}
use rifts.Connection.Control.{
  Conn, subscribed, unsubscribed, subscribe_on, SubscribeIntent, handle_subscribe,
  handle_unsubscribe, handle_parsed, or_missing, field_text, read_intent, control_reply, body_of,
  add_number, handle_control, send, send_error_frame,
}
use rifts.Connection.Reader.{after_control}
use rifts.Connection.Reader.Steps.{
  IsTracked, SubscribedOr, same-IsTracked, then-IsTracked, subscribe-IsTracked,
  unsubscribe-IsTracked, send-IsSame, subscribe_to-SubscribedOr,
}

either {ℓ κ} :
    {A : Type ℓ} (P : A → Type κ) (b : Bool) (x y : A) → P x → P y → P (if b then x else y)
either P true x y p q = p
either P false x y p q = q

module _ {V : Type 0} (j : Json V) (c : Conn) (frame : Frame) (sink : ℕ)
    (h : IsConsistent c.broker.fanout) (below : c.broker.fanout.seq + 1 < 2 ^ 64) where
  abbrev Tracked : Conn × Result (Unit {0}) → Type 0
  Tracked r = IsTracked c r.0

  untouched-Tracked : (r : Result (Unit {0})) → Tracked (c, r)
  untouched-Tracked r = same-IsTracked c c h (record { fanout = refl; sinks = refl; own = refl })

  subscribed-Tracked :
      (topic : String) (r : Broker × Result ℕ)
      → SubscribedOr c.broker topic sink r
      → Tracked (subscribed j c frame topic sink r)
  subscribed-Tracked topic (b, err e) (inl (same, _)) =
      same-IsTracked c (record c { broker = b }) h
        (record { fanout = same; sinks = refl; own = refl })
  subscribed-Tracked topic (b, err e) (inr (_, (id, wrong))) = ground (arith, wrong)
  subscribed-Tracked topic (b, ok id) (inl (_, (e, wrong))) = ground (arith, wrong)
  subscribed-Tracked topic (b, ok id) (inr (same, _)) =
      let noted = record c {
        broker = b;
        subscription_sinks = add_number sink c.subscription_sinks;
      } in
      then-IsTracked c noted (subscribed j c frame topic sink (b, ok id)).0
        (subscribe-IsTracked c noted topic sink h below same refl refl) (send-IsSame noted _)

  subscribe_on-Tracked :
      (topic : String) (r : Result SubscribeIntent) → Tracked (subscribe_on j c frame sink topic r)
  subscribe_on-Tracked topic (err e) = untouched-Tracked (err e)
  subscribe_on-Tracked topic (ok intent) =
      subscribed-Tracked topic (subscribe_to c.broker topic sink)
        (subscribe_to-SubscribedOr c.broker topic sink)

  handle_subscribe-Tracked : (v : V) → Tracked (handle_subscribe j c frame sink v)
  handle_subscribe-Tracked v = named (or_missing "topic" (field_text j v "topic"))
    where
      intent : Result SubscribeIntent
      intent = read_intent j v (or_else "live" (field_text j v "intent"))

      named :
          (r : Result String)
          → Tracked
              (elim r [ err e ↦ (c, err e) | ok topic ↦ subscribe_on j c frame sink topic intent ])
      named (err e) = untouched-Tracked (err e)
      named (ok topic) = subscribe_on-Tracked topic intent

  handle_unsubscribe-Tracked : (v : V) → Tracked (handle_unsubscribe j c frame v)
  unfolding unsubscribe_from
  handle_unsubscribe-Tracked v =
      named (or_missing "subscription_id" (and_then (j.get v "subscription_id") j.as_u64))
    where
      named :
          (r : Result ℕ)
          → Tracked (elim r [
            | err e ↦ (c, err e)
            | ok id ↦ unsubscribed j c frame id (unsubscribe_from c.broker id)
          ])
      named (err e) = untouched-Tracked (err e)
      named (ok id) =
          let d = record c { broker = (unsubscribe_from c.broker id).0 } in
          then-IsTracked c d (unsubscribed j c frame id (unsubscribe_from c.broker id)).0
            (unsubscribe-IsTracked c d id h refl refl refl) (send-IsSame d _)

  handle_parsed-Tracked : (p : Parsed V) → Tracked (handle_parsed j c frame sink p)
  handle_parsed-Tracked (broken m) = untouched-Tracked (invalid (text "invalid control body: " ∷ m))
  handle_parsed-Tracked (parsed v) =
      let kind = or_else "" (field_text j v "type") in
      either Tracked (kind == "ping") _ _
        (same-IsTracked c (send c (control_reply c frame none)).0 h (send-IsSame c _))
        (either Tracked (kind == "subscribe") _ _ (handle_subscribe-Tracked v) (
          either Tracked (kind == "unsubscribe") _ _ (handle_unsubscribe-Tracked v)
            (untouched-Tracked (ok tt))))

  pub handle_control-Tracked : Tracked (handle_control j c frame sink)
  unfolding handle_control
  handle_control-Tracked = handle_parsed-Tracked (j.from_str (body_of j frame))

  pub after_control-IsTracked :
      (r : Conn × Result (Unit {0})) → Tracked r → IsTracked c (after_control j frame r)
  unfolding send_error_frame
  after_control-IsTracked (d, ok _) t = t
  after_control-IsTracked (d, err e) t =
      then-IsTracked c d (after_control j frame (d, err e)) t (send-IsSame d _)
