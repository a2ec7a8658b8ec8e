-- ===== src/Client/Dispatch/Replies.antt =====
-- rifts-client/src/connection.rs: the commands that wait for a reply, whatever the server sends.
use rifts.Prelude.{
  ℕ, suc, ◌+◌, ◌≡◌, refl, ◌∙◌, String, Bool, true, false, Option, none, some, List, [], ◌∷◌, ◌++◌,
  ◌==◌, string_eq, if◌then◌else◌, arith,
}
use rifts.Prelude.Map.{contains_key, lookup-remove}
use rifts.Errors.{Result, ok, err}
use rifts.Json.{Json, Parsed, broken, parsed}
use rifts.Ack.{
  AckStatus, received, accepted, persisted, delivered, processed, rejected, expired, duplicate,
  failed, as_str,
}
use rifts.Frame.Types.{FrameType, control, frame_data, ack, flow, frame_error}
use rifts.Frame.Envelope.{Frame}
use rifts.Frame.Codec.{decode_binary_frame, default_max_binary_payload}
use rifts.Frame.Text.{decode_text_frame}
use rifts.Message.{Reply}
use rifts.Connection.HelloPayload.{or_else}
use rifts.Client.Events.{ClientEvent}
use rifts.Client.Dispatch.{
  Derived, Reader, Next, message, read_error, ended, binary, text_message, close, ping_or_pong,
  status_of, on_class, dispatch_frame, dispatch_text_envelope, reader_task, resolve, on_reply,
  is_answer, pong, text_field, tell_some, with_value, on_flow, on_ack, on_message, on_decoded,
  on_fallback, on_text, payload_value,
}

-- How many of the replies carry the correlation id.
unfoldable pub replies_to : {V : Type 0} → (id : String) → List (Reply V) → ℕ
replies_to id [] = 0
replies_to id (reply ∷ rest) =
    let n = replies_to id rest in if reply.correlation_id == id then suc n else n

replies_to-snoc :
    {V : Type 0} (id : String) (rs : List (Reply V)) (reply : Reply V)
    → replies_to id (rs ++ reply ∷ [])
      ≡ replies_to id rs + (if reply.correlation_id == id then 1 else 0)
unfolding replies_to
replies_to-snoc id [] reply = ground arith
replies_to-snoc id (r ∷ rs) reply = ground (arith, replies_to-snoc id rs reply)

-- The replies that a command got, and one more while it waits.
abbrev pub due : {V : Type 0} → (id : String) → Reader V → ℕ
due id r = replies_to id r.answered + (if contains_key id r.pending then 1 else 0)

module _ {V : Type 0} (j : Json V) (d : Derived V) (id : String) where
  resolve-due : (reply : Reply V) (r : Reader V) → due id (resolve j d reply r) ≡ due id r
  resolve-due reply r = ground (
    arith,
    replies_to-snoc id r.answered reply,
    lookup-remove reply.correlation_id id r.pending,
    string_eq.beq_iff reply.correlation_id id,
  )

  on_reply-due : (o : Option (Reply V)) (r : Reader V) → due id (on_reply j d o r) ≡ due id r
  on_reply-due none r = refl
  on_reply-due (some reply) r = resolve-due reply r

  tell_some-due :
      {A : Type 0} (event : A → ClientEvent V) (o : Option A) (r : Reader V)
      → due id (tell_some j d event o r) ≡ due id r
  tell_some-due event none r = refl
  tell_some-due event (some a) r = refl

  -- Two branches that leave what is due leave it, whichever is taken.
  either-due :
      (b : Bool) (x y r : Reader V)
      → due id x ≡ due id r
      → due id y ≡ due id r
      → due id (if b then x else y) ≡ due id r
  either-due true x y r h k = h
  either-due false x y r h k = k

  on_class-due :
      (class topic : Option String) (obj : V) (r : Reader V)
      → due id (on_class j d class topic obj r) ≡ due id r
  unfolding on_class
  on_class-due none topic obj r = refl
  on_class-due (some class) topic obj r =
      either-due _ _ _ r (tell_some-due _ (d.event_from obj) r) (
        either-due _ _ _ r (on_reply-due (d.reply_from obj) r) (
          either-due _ _ _ r (tell_some-due _ (d.state_from obj) r) (
            either-due _ _ _ r (tell_some-due _ (d.datagram_from obj) r) (
              either-due _ _ _ r (tell_some-due _ (d.segment_from obj) r) (
                either-due _ _ _ r (tell_some-due _ (d.snapshot_from obj) r)
                  (either-due _ _ _ r refl refl))))))

  with_value-due :
      (o : Option V) (f : V → Reader V → Reader V) (r : Reader V)
      → ((obj : V) → due id (f obj r) ≡ due id r)
      → due id (with_value j d o f r) ≡ due id r
  with_value-due none f r h = refl
  with_value-due (some obj) f r h = h obj

  on_flow-due : (obj : V) (r : Reader V) → due id (on_flow j d obj r) ≡ due id r
  on_flow-due obj r = either-due _ _ _ r refl refl

  on_message-due :
      (frame : Frame) (obj : V) (r : Reader V) → due id (on_message j d frame obj r) ≡ due id r
  on_message-due frame obj r = on_class-due _ _ obj r

  dispatch_frame-due :
      (frame : Frame) (r : Reader V) → due id (dispatch_frame j d frame r) ≡ due id r
  unfolding dispatch_frame
  dispatch_frame-due frame r = by_type frame.frame_type refl
    where
      by_type :
          (kind : FrameType)
          → frame.frame_type ≡ kind
          → due id (dispatch_frame j d frame r) ≡ due id r
      by_type flow e =
          rw e (with_value-due (payload_value j d frame) (on_flow j d) r (λ obj. on_flow-due obj r))
      by_type ack e = rw e (with_value-due (payload_value j d frame) (on_ack j d) r (λ obj. refl))
      by_type frame_data e = rw e (
          with_value-due (payload_value j d frame) (on_message j d frame) r
            (λ obj. on_message-due frame obj r))
      by_type control e = rw e (
          with_value-due (payload_value j d frame) (on_message j d frame) r
            (λ obj. on_message-due frame obj r))
      by_type frame_error e = rw e refl

  on_decoded-due : (o : Result Frame) (r : Reader V) → due id (on_decoded j d o r) ≡ due id r
  on_decoded-due (ok frame) r = dispatch_frame-due frame r
  on_decoded-due (err e) r = refl

  dispatch_text_envelope-due :
      (obj : V) (r : Reader V) → due id (dispatch_text_envelope j d obj r) ≡ due id r
  unfolding dispatch_text_envelope
  dispatch_text_envelope-due obj r =
      let kind = or_else "" (text_field j d obj "type") in
      let decoded = on_decoded j d (decode_text_frame j (j.to_string obj)) r in
      either-due (kind == "pong") (pong j d obj r) (if is_answer kind then r else decoded) r refl (
        either-due (is_answer kind) r decoded r refl
          (on_decoded-due (decode_text_frame j (j.to_string obj)) r))

  on_text-due : (s : String) (p : Parsed V) (r : Reader V) → due id (on_text j d s p r) ≡ due id r
  on_text-due s (parsed obj) r = dispatch_text_envelope-due obj r
  on_text-due s (broken m) r = fallback-due (decode_text_frame j (d.text_bytes s)) r
    where
      fallback-due : (o : Result Frame) (r : Reader V) → due id (on_fallback j d o r) ≡ due id r
      fallback-due (ok frame) r = dispatch_frame-due frame r
      fallback-due (err e) r = refl

  -- Whatever the server sends, the replies that a command got and its place among those that wait add
  -- up to what they were: a command that waits is handed one reply at most, and then waits no more, and a
  -- reply to a command that does not wait is handed to none.
  pub reader_task-due :
      (inputs : List Next) (r : Reader V) → due id (reader_task j d inputs r).0 ≡ due id r
  unfolding reader_task
  reader_task-due [] r = refl
  reader_task-due (read_error m ∷ rest) r = refl
  reader_task-due (ended ∷ rest) r = refl
  reader_task-due (message close ∷ rest) r = refl
  reader_task-due (message (binary bytes) ∷ rest) r =
      let o = decode_binary_frame bytes default_max_binary_payload in
      reader_task-due rest (on_decoded j d o r) ∙ on_decoded-due o r
  reader_task-due (message (text_message s) ∷ rest) r =
      reader_task-due rest (on_text j d s (j.from_str s) r) ∙ on_text-due s (j.from_str s) r
  reader_task-due (message ping_or_pong ∷ rest) r = reader_task-due rest r

-- The status that a server writes is the status that the client tells.
pub status_of-as_str : (s : AckStatus) → status_of (as_str s) ≡ s
unfolding status_of as_str
status_of-as_str received = refl
status_of-as_str accepted = refl
status_of-as_str persisted = refl
status_of-as_str delivered = refl
status_of-as_str processed = refl
status_of-as_str rejected = refl
status_of-as_str expired = refl
status_of-as_str duplicate = refl
status_of-as_str failed = refl
