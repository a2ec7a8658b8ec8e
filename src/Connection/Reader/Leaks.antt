-- ===== src/Connection/Reader/Leaks.antt =====
-- A connection that has ended leaves no subscription behind.
use rifts.Prelude.{
  ℕ, ◌+◌, ◌^◌, ◌<◌, ◌≡◌, ◌⊎◌, inl, inr, refl, ◌∙◌, String, Bool, true, false, ◌||◌, List, [], ◌∷◌,
  length, if◌then◌else◌, ◌==◌, nat_eq, string_eq, arith, ◌&&◌, not, Bool-cases,
}
use rifts.Prelude.Reap.{member}
use rifts.Errors.{Result, ok, err}
use rifts.Metrics.{inc}
use rifts.Json.{Json}
use rifts.Frame.Envelope.{Frame}
use rifts.Broker.Fanout.Laws.{subs}
use rifts.Broker.Fanout.Consistent.{IsConsistent, has, drop_sink-IsConsistent}
use rifts.Broker.Memory.{Broker, Published, publish, drop_connection, release_publisher}
use rifts.Connection.HelloPayload.{or_else}
use rifts.Connection.Control.{Conn, handle_control}
use rifts.Ack.{Ack, complete}
use rifts.Frame.Types.{FrameType, control, frame_data, ack, flow, frame_error}
use rifts.Frame.Envelope.{requires_ack}
use rifts.Broker.Memory.{PublishOutcome}
use rifts.Connection.Reader.{
  send_ack_frame, ack_of, note_publish, after_publish, handle_data, is_expired, count_in,
  read_failed, elapsed, hand_out, Moment, Read, received, reader_task, after_control, dispatch,
  drop_sinks, release_topics, teardown,
}
use rifts.Connection.Reader.Steps.{
  IsTracked, IsSame, same-IsTracked, send-IsSame, hand_out_lem, publish-fanout,
}
use rifts.Connection.Reader.Controls.{handle_control-Tracked, after_control-IsTracked}

release_topics-fanout : (ts : List String) (b : Broker) → (release_topics ts b).fanout ≡ b.fanout
unfolding release_publisher
release_topics-fanout [] b = refl
release_topics-fanout (t ∷ ts) b = release_topics-fanout ts (release_publisher b t)

-- Dropping the sinks of a list takes away exactly their subscriptions.
drop_sinks_exact :
    (sinks : List ℕ) (b : Broker) (i s : ℕ) (t : String)
    → IsConsistent b.fanout
    → (has i s (subs (drop_sinks sinks b).fanout t)
        ≡ (if member s sinks then false else has i s (subs b.fanout t)))
      × IsConsistent (drop_sinks sinks b).fanout
unfolding drop_connection
drop_sinks_exact [] b i s t h = (refl, h)
drop_sinks_exact (sink ∷ sinks) b i s t h =
    let (_, gone, next) = drop_sink-IsConsistent b.fanout sink i s t h in
    let (rest, last) = drop_sinks_exact sinks (drop_connection b sink).0 i s t next in
    (ground (arith, gone, rest), last)

-- After a teardown no sink of the connection has a subscription, the subscriptions of every other sink
-- are as they were, and the indices agree.
pub teardown_exact :
    (c : Conn) (i s : ℕ) (t : String)
    → IsConsistent c.broker.fanout
    → (has i s (subs (teardown c).broker.fanout t) ≡ (
        if c.sink_id == s || member s c.subscription_sinks
        then false
        else has i s (subs c.broker.fanout t)))
      × IsConsistent (teardown c).broker.fanout
unfolding teardown drop_connection
teardown_exact c i s t h =
    let (_, gone, next) = drop_sink-IsConsistent c.broker.fanout c.sink_id i s t h in
    let (rest, last) =
      drop_sinks_exact c.subscription_sinks (drop_connection c.broker c.sink_id).0 i s t next in
    let same =
      release_topics-fanout c.published_topics
        (drop_sinks c.subscription_sinks (drop_connection c.broker c.sink_id).0) in
    rw same (ground (arith, gone, rest), last)

send_ack-IsSame : {V : Type 0} (j : Json V) (c : Conn) (a : Ack) → IsSame c (send_ack_frame j c a).0
unfolding send_ack_frame
send_ack-IsSame j c a = send-IsSame c _

module _ {V : Type 0} (j : Json V) (frame : Frame) (t : Moment) where
  acknowledge-IsSame :
      (asked : Bool) (a : Ack) (c d : Conn)
      → IsSame c d
      → IsSame c (if asked then (send_ack_frame j d a).0 else d)
  acknowledge-IsSame false a c d same = same
  acknowledge-IsSame true a c d same =
      let sent = send_ack-IsSame j d a in
      record {
        fanout = sent.fanout ∙ same.fanout;
        sinks = sent.sinks ∙ same.sinks;
        own = sent.own ∙ same.own;
      }

  note_publish-IsSame :
      (o : Result PublishOutcome) (c d : Conn) → IsSame c d → IsSame c (note_publish j frame o d)
  note_publish-IsSame (ok o) c d same = record {
    fanout = same.fanout;
    sinks = same.sinks;
    own = same.own;
  }
  note_publish-IsSame (err e) c d same = same

  after_publish-IsSame :
      (c : Conn) (p : Published)
      → p.broker.fanout ≡ c.broker.fanout
      → IsSame c (after_publish j frame t p c)
  after_publish-IsSame c p same =
      let handed = hand_out_lem p.bytes p.sinks (record c { broker = p.broker }) in
      let after = hand_out p.bytes p.sinks (record c { broker = p.broker }) in
      acknowledge-IsSame (requires_ack frame) (ack_of j t (or_else "" frame.message_id) p.outcome) c
        (note_publish j frame p.outcome after)
        (note_publish-IsSame p.outcome c after
          (record { fanout = handed.fanout ∙ same; sinks = handed.sinks; own = handed.own }))

  handle_data-IsSame : (c : Conn) → IsSame c (handle_data j c frame t)
  unfolding handle_data
  handle_data-IsSame c =
      elim (is_expired t.at_check frame.timestamp frame.ttl_ms)
        as (λ late. IsSame c (
          if late
          then (record c {
            metrics = record c.metrics {
              messages_expired_total = inc c.metrics.messages_expired_total;
            };
          })
          else after_publish j frame t (publish c.broker t.clock frame) c)) [
            | true ↦ record { fanout = refl; sinks = refl; own = refl }
            | false ↦
                after_publish-IsSame c (publish c.broker t.clock frame)
                  (publish-fanout c.broker t.clock frame)
          ]

  dispatch-IsTracked :
      (c : Conn)
      → IsConsistent c.broker.fanout
      → c.broker.fanout.seq + 1 < 2 ^ 64
      → IsTracked c (dispatch j c frame t)
  unfolding dispatch
  dispatch-IsTracked c h below = of_type frame.frame_type
    where
      still : (d : Conn) → IsSame c d → IsTracked c d
      still d same = same-IsTracked c d h same

      of_type :
          (k : FrameType)
          → IsTracked c (elim k [
            | control ↦ after_control j frame (handle_control j c frame t.sink)
            | frame_data ↦ handle_data j c frame t
            | ack ↦ record c {
              acks = (complete c.acks c.session.id (or_else "" frame.message_id)).0;
            }
            | flow ↦ c
            | frame_error ↦ c
          ])
      of_type control =
          after_control-IsTracked j c frame t.sink h below (handle_control j c frame t.sink)
            (handle_control-Tracked j c frame t.sink h below)
      of_type frame_data = still (handle_data j c frame t) (handle_data-IsSame c)
      of_type ack = still _ (record { fanout = refl; sinks = refl; own = refl })
      of_type flow = still c (record { fanout = refl; sinks = refl; own = refl })
      of_type frame_error = still c (record { fanout = refl; sinks = refl; own = refl })

-- What a run of the reader does to the subscriptions.
record IsNoted (c d : Conn) : Type 0 where
  consistent : IsConsistent d.broker.fanout
  noted :
      (i s : ℕ) (t : String)
      → has i s (subs d.broker.fanout t) ≡ true
      → (has i s (subs c.broker.fanout t) ≡ true) ⊎ (member s d.subscription_sinks ≡ true)
  kept : (s : ℕ) → member s c.subscription_sinks ≡ true → member s d.subscription_sinks ≡ true

idle-IsNoted : (c : Conn) → IsConsistent c.broker.fanout → IsNoted c c
idle-IsNoted c h = record {
  consistent = h;
  noted = λ i s t there. inl there;
  kept = λ s there. there;
}

step-IsNoted : (c d e : Conn) → IsTracked c d → IsNoted d e → IsNoted c e
step-IsNoted c d e step rest = record {
  consistent = rest.consistent;
  noted = λ i s t there. elim (rest.noted i s t there) [
    | inr mine ↦ inr mine
    | inl before ↦ elim (step.noted i s t before) [
      | inl old ↦ inl old
      | inr mine ↦ inr (rest.kept s mine)
    ]
  ];
  kept = λ s there. rest.kept s (step.kept s there);
}

reader_task-IsNoted :
    {V : Type 0} (j : Json V) (reads : List Read) (c : Conn)
    → IsConsistent c.broker.fanout
    → c.broker.fanout.seq + length reads < 2 ^ 64
    → IsNoted c (reader_task j reads c).0
unfolding reader_task
reader_task-IsNoted j [] c h below = idle-IsNoted c h
reader_task-IsNoted j (received frame t ∷ reads) c h below =
    let d = dispatch j (count_in j c t) frame t in
    let step = dispatch-IsTracked j frame t (count_in j c t) h (omega arith) in
    let rest = reader_task-IsNoted j reads d step.consistent (omega (arith, step.counted)) in
    let all = step-IsNoted (count_in j c t) d (reader_task j reads d).0 step rest in
    record { consistent = all.consistent; noted = all.noted; kept = all.kept }
reader_task-IsNoted j (read_failed e ∷ reads) c h below = idle-IsNoted c h
reader_task-IsNoted j (elapsed ∷ reads) c h below = record {
  consistent = h;
  noted = λ i s t there. inl there;
  kept = λ s there. there;
}

-- Whatever a connection reads, and however its reader ends, after its teardown every subscription
-- that is left was there before the connection read anything, none of them is of the connection's
-- sinks, and the indices of the fanout agree; as long as the ids of subscriptions do not run out.
pub connection_leaves_none :
    {V : Type 0} (j : Json V) (reads : List Read) (c : Conn) (i s : ℕ) (t : String)
    → IsConsistent c.broker.fanout
    → c.broker.fanout.seq + length reads < 2 ^ 64
    → let d = (reader_task j reads c).0 in
      ((if has i s (subs (teardown d).broker.fanout t)
          then has i s (subs c.broker.fanout t)
            && (not (member s d.subscription_sinks) && not (d.sink_id == s))
          else true)
        ≡ true)
      × IsConsistent (teardown d).broker.fanout
connection_leaves_none j reads c i s t h below =
    let d = (reader_task j reads c).0 in
    let run = reader_task-IsNoted j reads c h below in
    let (left, last) = teardown_exact d i s t run.consistent in
    (
      elim (Bool-cases (has i s (subs (teardown d).broker.fanout t))) [
        | inr absent ↦ ground (arith, absent)
        | inl there ↦
            let clear = gone d left there in
            elim (run.noted i s t clear.0) [
              | inl before ↦ ground (arith, there, before, clear.1, clear.2)
              | inr mine ↦ ground (arith, mine, clear.1)
            ]
      ],
      last,
    )
  where
    gone :
        (d : Conn)
        → has i s (subs (teardown d).broker.fanout t) ≡ (
            if d.sink_id == s || member s d.subscription_sinks
            then false
            else has i s (subs d.broker.fanout t))
        → has i s (subs (teardown d).broker.fanout t) ≡ true
        → (has i s (subs d.broker.fanout t) ≡ true)
          × (member s d.subscription_sinks ≡ false)
          × ((d.sink_id == s) ≡ false)
    gone d left there = ground (arith, left, there)
