-- ===== src/Connection/Outbound/Accounting.antt =====
-- The counter of bytes in flight against the bytes that the queue holds.
use rifts.Prelude.{
  ℕ, ◌+◌, ◌-◌, ◌%◌, ◌^◌, ◌<◌, ◌≤◌, ◌≡◌, refl, true, false, List, [], ◌∷◌, ◌++◌, All, map, ap, ◌∙◌,
  length, arith,
}
use rifts.Frame.Types.{EncodingFormat}
use rifts.Frame.Envelope.{Frame}
use rifts.Connection.Outbound.{
  Outbound, Delivery, opened, sent, try_send, backpressured, failed, message_frame, deliver_to,
  payload_bytes, written, write_next,
}

unfoldable pub queued : List Frame → ℕ
queued [] = 0
queued (f ∷ fs) = payload_bytes f.payload + queued fs

queued-snoc :
    (fs : List Frame) (f : Frame) → queued (fs ++ f ∷ []) ≡ queued fs + payload_bytes f.payload
unfolding queued
queued-snoc [] f = omega arith
queued-snoc (g ∷ fs) f = omega (arith, queued-snoc fs f)

-- The states of an outbound queue up to the first failed write, with the payload bytes of the
-- frames that the reader put in itself: messages delivered by sinks, replies, and writes.
pub data Run (max_bytes : ℕ) : (replied : ℕ) → Outbound → Type 0 where
  start : Run max_bytes 0 opened
  deliver :
      (r : ℕ) (o : Outbound) (codec : EncodingFormat) (bytes : List ℕ)
      → Run max_bytes r o
      → length bytes < 2 ^ 63
      → Run max_bytes r (deliver_to o max_bytes codec bytes).0
  reply :
      (r : ℕ) (o : Outbound) (f : Frame)
      → Run max_bytes r o
      → (try_send o f).1 ≡ sent
      → Run max_bytes (r + payload_bytes f.payload) (try_send o f).0
  write : (r : ℕ) (o : Outbound) → Run max_bytes r o → Run max_bytes r (write_next o written)

run_open :
    (max_bytes r : ℕ) (o : Outbound)
    → Run max_bytes r o
    → (o.transport ≡ true) × (o.closed ≡ false) × (o.in_flight < 2 ^ 64)
unfolding deliver_to try_send write_next
run_open max_bytes _ _ start = (refl, refl, omega arith)
run_open max_bytes _ _ (deliver r o codec bytes run fits) =
    ground (arith, run_open max_bytes r o run)
run_open max_bytes _ _ (reply r o f run accepted) = ground (arith, run_open max_bytes r o run)
run_open max_bytes _ _ (write r o run) = ground (arith, run_open max_bytes r o run)

-- After any deliveries, replies and writes, the counter and the bytes of the replies sent so far
-- add up to the bytes queued, as far as 64 bits tell: a reply is never counted in, and its bytes are
-- taken off the counter when it is written.
pub outbound_accounts :
    (max_bytes r : ℕ) (o : Outbound)
    → Run max_bytes r o
    → (o.in_flight + r) % 2 ^ 64 ≡ queued o.queue % 2 ^ 64
unfolding queued deliver_to try_send write_next
outbound_accounts max_bytes _ _ start = refl
outbound_accounts max_bytes _ _ (deliver r o codec bytes run fits) =
    ground
      (arith, outbound_accounts max_bytes r o run, queued-snoc o.queue (message_frame codec bytes))
outbound_accounts max_bytes _ _ (reply r o f run accepted) =
    ground (arith, outbound_accounts max_bytes r o run, queued-snoc o.queue f)
outbound_accounts max_bytes _ _ (write r o run) =
    ground (arith, outbound_accounts max_bytes r o run, run_open max_bytes r o run)

-- Where sinks alone fill the queue, the counter is the number of bytes queued and stays within the
-- limit, which is below 2 ^ 63.
pub outbound_bounded :
    (max_bytes r : ℕ) (o : Outbound)
    → max_bytes < 2 ^ 63
    → Run max_bytes r o
    → r ≡ 0
    → (o.in_flight ≡ queued o.queue) × (o.in_flight ≤ max_bytes)
unfolding queued deliver_to try_send write_next
outbound_bounded max_bytes _ _ h start none_sent = (refl, omega arith)
outbound_bounded max_bytes _ _ h (deliver r o codec bytes run fits) none_sent = ground (
  arith,
  outbound_bounded max_bytes r o h run none_sent,
  queued-snoc o.queue (message_frame codec bytes),
)
outbound_bounded max_bytes _ _ h (reply r o f run accepted) none_sent =
    ground (arith, outbound_bounded max_bytes r o h run (omega arith), queued-snoc o.queue f)
outbound_bounded max_bytes _ _ h (write r o run) none_sent =
    ground (arith, outbound_bounded max_bytes r o h run none_sent, run_open max_bytes r o run)

refused_short :
    (f : Frame) (codec : EncodingFormat) (bytes : List ℕ) (max_bytes : ℕ)
    → payload_bytes f.payload < 2 ^ 63
    → length bytes < payload_bytes f.payload
    → max_bytes < 2 ^ 63
    → let after = write_next (try_send opened f).0 written in
      deliver_to after max_bytes codec bytes
      ≡ (after, failed (backpressured after.in_flight max_bytes))
unfolding deliver_to try_send write_next
refused_short f codec bytes max_bytes fits shorter limit = ground arith

-- What a sink answers to messages that it is given one after the other, the last queue first.
abbrev pub deliver_all :
    (max_bytes : ℕ) (codec : EncodingFormat) → List (List ℕ) → Outbound → Outbound × List Delivery
deliver_all max_bytes codec [] o = (o, [])
deliver_all max_bytes codec (bytes ∷ messages) o =
    let (next, answer) = deliver_to o max_bytes codec bytes in
    let (last, answers) = deliver_all max_bytes codec messages next in (last, answer ∷ answers)

pub reply_blocks_deliveries :
    (f : Frame) (codec : EncodingFormat) (messages : List (List ℕ)) (max_bytes : ℕ)
    → 0 < payload_bytes f.payload
    → payload_bytes f.payload < 2 ^ 63
    → All (λ bytes. length bytes < payload_bytes f.payload) messages
    → max_bytes < 2 ^ 63
    → let after = write_next (try_send opened f).0 written in
      (after.in_flight ≡ 2 ^ 64 - payload_bytes f.payload)
      × (deliver_all max_bytes codec messages after
          ≡ (after, map (λ _. failed (backpressured after.in_flight max_bytes)) messages))
unfolding try_send write_next
reply_blocks_deliveries f codec messages max_bytes some_bytes fits shorter limit =
    (omega arith, all_refused messages shorter)
  where
    after : Outbound
    after = write_next (try_send opened f).0 written

    all_refused :
        (messages : List (List ℕ))
        → All (λ bytes. length bytes < payload_bytes f.payload) messages
        → deliver_all max_bytes codec messages after
          ≡ (after, map (λ _. failed (backpressured after.in_flight max_bytes)) messages)
    all_refused [] h = refl
    all_refused (bytes ∷ messages) (h, more) =
        let one = refused_short f codec bytes max_bytes fits h limit in
        ap
          (λ r.
            let (last, answers) = deliver_all max_bytes codec messages r.0 in (last, r.1 ∷ answers))
          one
        ∙ ap (λ r. (r.0, failed (backpressured after.in_flight max_bytes) ∷ r.1))
            (all_refused messages more)
