-- ===== src/Connection/Handshake/Replays.antt =====
-- rifts-broker/src/connection/mod.rs: what a resumed client is sent again.
use rifts.Prelude.{
  ◌≡◌, refl, String, Bool, true, false, ◌&&◌, List, [], ◌∷◌, map, retain, some, string_eq, arith,
  Bool-cases, inl, inr,
}
use rifts.Prelude.Int.{ℤ, pos, ltb_ℤ, leb_ℤ, IsI64, i64_add, i64_add_exact, ◌+ℤ◌}
use rifts.Prelude.Map.{lookup}
use rifts.Topic.Entry.{LogEntry}
use rifts.Storage.Log.{range, between, log_of}
use rifts.Frame.Envelope.{mark_replay}
use rifts.Broker.Memory.{Broker, replay, head_of}
use rifts.Connection.Handshake.{replay_topic, replay_frame}

abbrev pub missed : (last head : ℤ) → LogEntry → Bool
missed last head e = ltb_ℤ last e.offset && leb_ℤ e.offset head

between-missed :
    (last head : ℤ) (e : LogEntry)
    → IsI64 last
    → IsI64 head
    → ltb_ℤ last head ≡ true
    → between (i64_add last (pos 1)) head e ≡ missed last head e
unfolding ◌+ℤ◌
between-missed last head e h k l = ground (arith, i64_add_exact last (pos 1) (fits last head h k l))
  where
    fits :
        (last head : ℤ) → IsI64 last → IsI64 head → ltb_ℤ last head ≡ true → IsI64 (last +ℤ pos 1)
    fits last head h k l = ground arith

payloads :
    (topic : String) (last head : ℤ) (log : List LogEntry)
    → IsI64 last
    → IsI64 head
    → ltb_ℤ last head ≡ true
    → map
        (λ f. f.payload)
        (map
          (replay_frame topic)
          (map (λ e. e.payload) (retain (between (i64_add last (pos 1)) head) log)))
      ≡ map (λ e. some e.payload) (retain (missed last head) log)
unfolding mark_replay
payloads topic last head [] h k l = refl
payloads topic last head (e ∷ log) h k l =
    ground (arith, between-missed last head e h k l, payloads topic last head log h k l)

none_missed :
    (last head : ℤ) (log : List LogEntry)
    → ltb_ℤ last head ≡ false
    → retain (missed last head) log ≡ []
none_missed last head [] l = refl
none_missed last head (e ∷ log) l = ground (arith, none_missed last head log l)

-- For a topic that the client has up to some offset, the frames sent carry, in the order of the log,
-- the payloads of the logged messages after that offset and up to the head, and of no others.
pub replay_topic_exact :
    (b : Broker) (topic : String) (last : ℤ)
    → IsI64 last
    → IsI64 (head_of b topic)
    → map (λ f. f.payload) (replay_topic b topic last)
      ≡ map
          (λ e. some e.payload)
          (retain (missed last (head_of b topic)) (log_of (lookup topic b.log)))
unfolding replay range
replay_topic_exact b topic last h k = elim (Bool-cases (ltb_ℤ last (head_of b topic))) [
  | inl behind ↦ ground (
    arith,
    behind,
    payloads topic last (head_of b topic) (log_of (lookup topic b.log)) h k behind,
  )
  | inr level ↦
      ground (arith, level, none_missed last (head_of b topic) (log_of (lookup topic b.log)) level)
]
