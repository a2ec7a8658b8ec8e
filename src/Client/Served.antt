-- ===== src/Client/Served.antt =====
-- What the server makes of a client's frames: rifts-client/src/frame_builder.rs against
-- rifts-core/src/frame_codec.rs and rifts-broker/src/connection.
use rifts.Prelude.{ℕ, ◌≡◌, ◌≢◌, refl, ap, ◌∙◌, String, Option, none, some, List, string_eq, arith}
use rifts.Prelude.Int.{ℤ}
use rifts.Prelude.Map.{Map, lookup, remove, lookup-insert, lookup-remove}
use rifts.Errors.{ok, err, in_frame, FrameReject}
use rifts.Json.{Json, IsJson, parsed}
use rifts.Ack.{AckManager, bucket, complete, complete_in}
use rifts.Frame.Envelope.{Frame}
use rifts.Frame.Codec.{decode_binary_frame, decode_body}
use rifts.Broker.Memory.{Broker, Clock, publish, refused, validate_publish}
use rifts.Connection.HelloPayload.{and_then, or_else}
use rifts.Connection.Control.{
  Conn, handle_control, handle_parsed, handle_value, handle_unsubscribe, field_text,
}
use rifts.Connection.Reader.{Moment, dispatch}
use rifts.Client.Frames.{ack_frame, ping_frame, unsubscribe_frame, unsubscribe_body}

decoded_topic :
    (buf : List ℕ) (max : ℕ) (f : Frame) → decode_binary_frame buf max ≡ ok f → f.topic ≡ none
unfolding decode_binary_frame decode_body
decoded_topic buf max f h = ground (arith, h)

without_topic :
    (b : Broker) (clock : Clock) (f : Frame)
    → f.topic ≡ none
    → publish b clock f ≡ refused b (in_frame (FrameReject.required_field_missing "topic"))
unfolding publish validate_publish
without_topic b clock f h = rw (h, publish, validate_publish) refl

-- A message that comes in a binary frame, as a client sends every message, is never published: the
-- decoder leaves the topic out, and the broker refuses a frame without one and stays as it is.
pub binary_never_published :
    (b : Broker) (clock : Clock) (buf : List ℕ) (max : ℕ) (f : Frame)
    → decode_binary_frame buf max ≡ ok f
    → publish b clock f ≡ refused b (in_frame (FrameReject.required_field_missing "topic"))
binary_never_published b clock buf max f h = without_topic b clock f (decoded_topic buf max f h)

module _ {V : Type 0} (j : Json V) where
  complete_empty :
      (m : AckManager) (session message_id : String)
      → message_id ≢ ""
      → lookup message_id (bucket (lookup session (complete m session "").0.outstanding))
        ≡ lookup message_id (bucket (lookup session m.outstanding))
  unfolding complete
  complete_empty m session message_id h = in_bucket (lookup session m.outstanding) refl
    where
      in_bucket :
          (o : Option (Map String ℤ))
          → lookup session m.outstanding ≡ o
          → lookup message_id (bucket (lookup session (complete_in o m session "").0.outstanding))
            ≡ lookup message_id (bucket (lookup session m.outstanding))
      in_bucket none e = refl
      in_bucket (some entries) e = ground (
        arith,
        e,
        lookup-insert session session (remove "" entries) m.outstanding,
        lookup-remove "" message_id entries,
        string_eq.beq_iff "" message_id,
        string_eq.beq_iff session session,
      )

  -- A client's acknowledgement of any message and its pings reach nothing: every message with an id
  -- stays outstanding after the acknowledgement, since the server reads the id from a field that the
  -- client leaves empty, and a ping leaves the connection as it was, so that no pong is sent.
  pub ack_and_ping_ignored :
      (c : Conn) (t : Moment) (now : ℤ) (id : ℕ) (message_id status : String)
      → message_id ≢ ""
      → (lookup message_id (
            bucket (
              lookup c.session.id
                (dispatch j c (ack_frame j now id message_id status) t).acks.outstanding))
          ≡ lookup message_id (bucket (lookup c.session.id c.acks.outstanding)))
        × (dispatch j c (ping_frame j now id) t ≡ c)
  unfolding dispatch ack_frame ping_frame
  ack_and_ping_ignored c t now id message_id status h =
      (complete_empty c.acks c.session.id message_id h, refl)

  an_unsubscribe :
      (c : Conn) (frame : Frame) (sink : ℕ) (v : V)
      → field_text j v "type" ≡ some "unsubscribe"
      → handle_value j c frame sink v ≡ handle_unsubscribe j c frame v
  an_unsubscribe c frame sink v e = rw (e, handle_value) refl

  without_id :
      (c : Conn) (frame : Frame) (v : V)
      → j.get v "subscription_id" ≡ none
      → handle_unsubscribe j c frame v
        ≡ (c, err (in_frame (FrameReject.required_field_missing "subscription_id")))
  without_id c frame v e = rw (e, handle_unsubscribe) refl

  -- A client's unsubscription is refused for want of the subscription's id and changes nothing, where
  -- the body parses as it was printed.
  pub unsubscribe_refused :
      (h : IsJson j) (c : Conn) (now : ℤ) (id sink : ℕ) (topic text : String)
      → j.from_utf8 (j.to_string (j.object (unsubscribe_body j now topic))) ≡ some text
      → j.from_str text ≡ parsed (j.object (unsubscribe_body j now topic))
      → handle_control j c (unsubscribe_frame j now id topic) sink
        ≡ (c, err (in_frame (FrameReject.required_field_missing "subscription_id")))
  unfolding handle_control unsubscribe_frame lookup
  unsubscribe_refused h c now id sink topic text utf8 printed =
      let body = j.object (unsubscribe_body j now topic) in
      ap (handle_parsed j c (unsubscribe_frame j now id topic) sink)
        (ap (λ o. j.from_str (or_else "{}" o)) utf8 ∙ printed)
      ∙ (an_unsubscribe c (unsubscribe_frame j now id topic) sink body (
            ap (λ o. and_then o j.as_str) (h.get_object (unsubscribe_body j now topic) "type")
            ∙ h.str_string "unsubscribe")
          ∙ without_id c (unsubscribe_frame j now id topic) body
              (h.get_object (unsubscribe_body j now topic) "subscription_id"))
