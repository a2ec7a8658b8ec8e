-- ===== src/Connection/Reader/Delivered.antt =====
-- A message that is handed out reaches the queue, and what is in the queue is written.
use rifts.Prelude.{
  ℕ, zero, suc, ◌+◌, ◌*◌, ◌^◌, ◌<◌, ◌≤◌, ◌≡◌, refl, ap, sym, subst, ◌∙◌, true, false, List, [], ◌∷◌,
  ◌++◌, ◌⊎◌, inl, inr, ◌%◌, take, drop, length, length-append, if◌then◌else◌, nat_eq, arith,
}
use mathlib.Core.List.{append_assoc, append-nil}
use native.Mathlib.Nat.{suc-mul}
use rifts.Prelude.Reap.{member}
use rifts.Frame.Types.{EncodingFormat}
use rifts.Frame.Envelope.{Frame}
use rifts.Connection.Outbound.{
  Outbound, capacity, message_frame, deliver_to, try_send, write_next, write_round, written,
}
use rifts.Connection.Outbound.Accounting.{queued}
use rifts.Connection.Control.{Conn}
use rifts.Connection.Reader.{hand_out}

-- How many of the sinks are the connection's own.
abbrev pub own_of : (own sinks : List ℕ) → ℕ
own_of own [] = 0
own_of own (s ∷ sinks) = let rest = own_of own sinks in if member s own then suc rest else rest

abbrev pub copies : ℕ → Frame → List Frame
copies zero f = []
copies (suc n) f = f ∷ copies n f

-- Room for a number of messages of the same length.
pub record HasRoom (c : Conn) (n len : ℕ) : Type 0 where
  pub going : c.out.closed ≡ false
  pub places : length c.out.queue + n ≤ capacity
  pub bytes : c.out.in_flight + n * len ≤ c.max_bytes
  pub small : c.max_bytes < 2 ^ 63

delivered_once :
    (o : Outbound) (max_bytes : ℕ) (codec : EncodingFormat) (bytes : List ℕ)
    → o.closed ≡ false
    → length o.queue + 1 ≤ capacity
    → o.in_flight + length bytes ≤ max_bytes
    → max_bytes < 2 ^ 63
    → (deliver_to o max_bytes codec bytes).0 ≡ record o {
      queue = o.queue ++ message_frame codec bytes ∷ [];
      in_flight = o.in_flight + length bytes;
    }
unfolding deliver_to try_send
delivered_once o max_bytes codec bytes going places fits small = ground arith

-- A message is queued once for each of the connection's own sinks among those it is handed to, in
-- front of nothing that was queued before, if the queue has the places and the bytes for it.
pub hand_out-queue :
    (bytes sinks : List ℕ) (c : Conn)
    → HasRoom c (own_of c.subscription_sinks sinks) (length bytes)
    → (hand_out bytes sinks c).out.queue
      ≡ c.out.queue ++ copies (own_of c.subscription_sinks sinks) (message_frame c.codec bytes)
unfolding hand_out
hand_out-queue bytes [] c = λ room. sym (append-nil c.out.queue)
hand_out-queue bytes (s ∷ sinks) c =
    elim (member s c.subscription_sinks)
      as (λ mine.
        let n = if mine then suc rest else rest in
        HasRoom c n (length bytes)
        → (hand_out bytes sinks (if mine then ahead else noted)).out.queue
          ≡ c.out.queue ++ copies n f) [
            | true ↦ λ room.
                let once =
                  delivered_once c.out c.max_bytes c.codec bytes room.going
                    (omega (arith, room.places)) (omega (arith, room.bytes, times)) room.small in
                hand_out-queue bytes sinks ahead (
                  subst (λ o. HasRoom (record c { out = o }) rest (length bytes)) (sym once)
                    (record {
                      going = room.going;
                      places = omega (arith, room.places, length-append c.out.queue (f ∷ []));
                      bytes = omega (arith, room.bytes, times);
                      small = room.small;
                    }))
                ∙ (ap (λ o. o.queue ++ copies rest f) once
                    ∙ append_assoc c.out.queue (f ∷ []) (copies rest f))
            | false ↦ λ room. hand_out-queue bytes sinks noted (record {
              going = room.going;
              places = room.places;
              bytes = room.bytes;
              small = room.small;
            })
          ]
  where
    rest : ℕ
    rest = own_of c.subscription_sinks sinks

    times : suc rest * length bytes ≡ length bytes + rest * length bytes
    times = omega (arith, suc-mul rest (length bytes))

    f : Frame
    f = message_frame c.codec bytes

    ahead : Conn
    ahead = record c { out = (deliver_to c.out c.max_bytes c.codec bytes).0 }

    noted : Conn
    noted = record c { handed = c.handed ++ (s, bytes) ∷ [] }

-- The writer's rounds, each of which succeeds.
abbrev pub write_all : ℕ → Outbound → Outbound
write_all zero o = o
write_all (suc n) o = write_all n (write_next o written)

next_nil : (o : Outbound) → o.queue ≡ [] → write_next o written ≡ o
unfolding write_next
next_nil o e = ap (λ q. elim q [ [] ↦ o | f ∷ rest ↦ write_round o f rest written ]) e

drop-nil : (n : ℕ) → drop {A = Frame} n [] ≡ []
drop-nil zero = refl
drop-nil (suc n) = refl

take-nil : (n : ℕ) → take {A = Frame} n [] ≡ []
take-nil zero = refl
take-nil (suc n) = refl

drop_end : (n : ℕ) (fs : List Frame) → (n < length fs) ⊎ (drop n fs ≡ [])
drop_end zero [] = inr refl
drop_end zero (f ∷ fs) = inl (omega arith)
drop_end (suc n) [] = inr refl
drop_end (suc n) (f ∷ fs) = elim (drop_end n fs) [
  | inl more ↦ inl (omega (arith, more))
  | inr over ↦ inr over
]

-- What the writer's rounds leave of a queue: as many frames fewer, the counter down by their bytes, on
-- 64 bits, and the transport and the receiver as they were.
pub record Wrote (n : ℕ) (o left : Outbound) : Type 0 where
  pub behind : left.queue ≡ drop n o.queue
  pub taken_off : (left.in_flight + queued (take n o.queue)) % 2 ^ 64 ≡ o.in_flight % 2 ^ 64
  pub transport_kept : left.transport ≡ true
  pub receiver_kept : left.closed ≡ o.closed

wrote_one :
    (o : Outbound) (f : Frame) (fs : List Frame)
    → o.queue ≡ f ∷ fs
    → o.transport ≡ true
    → Wrote 1 o (write_next o written)
unfolding write_next queued
wrote_one o f fs e h =
    rw (e, h, write_next)
      (record {
        behind = refl;
        taken_off = omega arith;
        transport_kept = refl;
        receiver_kept = refl;
      })

wrote :
    (n : ℕ) (fs : List Frame) (o : Outbound)
    → o.queue ≡ fs
    → o.transport ≡ true
    → Wrote n o (write_all n o)
unfolding queued
wrote zero fs o e h = record {
  behind = refl;
  taken_off = omega arith;
  transport_kept = h;
  receiver_kept = refl;
}
wrote (suc n) [] o e h =
    let more = wrote n [] o e h in
    subst (λ p. Wrote (suc n) o (write_all n p)) (sym (next_nil o e))
      (record {
        behind = more.behind ∙ (ap (drop n) e ∙ (drop-nil n ∙ ap (drop (suc n)) (sym e)));
        taken_off = omega (
          arith,
          more.taken_off,
          ap (λ q. queued (take n q)) e,
          ap queued (take-nil n),
          ap (λ q. queued (take (suc n) q)) e,
        );
        transport_kept = more.transport_kept;
        receiver_kept = more.receiver_kept;
      })
wrote (suc n) (f ∷ fs) o e h =
    let one = wrote_one o f fs e h in
    let more = wrote n fs (write_next o written) (one.behind ∙ ap (drop 1) e) one.transport_kept in
    record {
      behind = more.behind ∙ ap (drop n) (one.behind ∙ ap (drop 1) e) ∙ ap (drop (suc n)) (sym e);
      taken_off = omega (
        arith,
        one.taken_off,
        more.taken_off,
        ap (λ q. queued (take 1 q)) e,
        ap (λ q. queued (take n q)) (one.behind ∙ ap (drop 1) e),
        ap (λ q. queued (take (suc n) q)) e,
      );
      transport_kept = more.transport_kept;
      receiver_kept = more.receiver_kept ∙ one.receiver_kept;
    }

-- While the transport takes what is written, each of the writer's rounds takes the first frame of the
-- queue and its bytes off the counter, on 64 bits, and nothing else of them; so the queue is empty after as
-- many rounds as there were frames.
pub write_all-empties :
    (n : ℕ) (o : Outbound)
    → o.transport ≡ true
    → Wrote n o (write_all n o) × ((n < length o.queue) ⊎ ((write_all n o).queue ≡ []))
write_all-empties n o h =
    let left = wrote n o.queue o refl h in
    elim (drop_end n o.queue) [
      | inl more ↦ (left, inl more)
      | inr over ↦ (left, inr (left.behind ∙ over))
    ]
