-- ===== src/Client/Heartbeat.antt =====
-- rifts-client/src/heartbeat.rs: the count of missed pongs and the loop that sends pings. What
-- the codec and the socket answer is an argument of each round; its waits are left out.
use rifts.Prelude.{
  ℕ, ◌+◌, ◌%◌, ◌^◌, ◌≡◌, ◌≢◌, refl, Bool, true, false, List, [], ◌∷◌, Option, none, some, leb, ◌==◌,
  nat_eq, if◌then◌else◌, arith,
}

-- `HeartbeatState`.
pub record HeartbeatState : Type 0 where
  pub missed_pongs : ℕ

abbrev pub new_state : HeartbeatState
new_state = record { missed_pongs = 0 }

unfoldable pub reset_missed : HeartbeatState → HeartbeatState
reset_missed s = record s { missed_pongs = 0 }

-- What a round meets: a ping that cannot be encoded, a socket that fails, or a ping that is sent; and then
-- whether the reader reset the count for a pong in the time that the round waits.
pub data Round : Type 0 where
  encode_failed send_failed : Round
  sent : (pong : Bool) → Round

-- How the loop ends.
pub data End : Type 0 where
  encode_broken socket_closed heartbeat_timeout : End

-- The state, the encoding failures in a row, and how the loop ended, if it did.
pub record Loop : Type 0 where
  pub state : HeartbeatState
  pub failures : ℕ
  pub end : Option End

abbrev pub start : Loop
start = record { state = new_state; failures = 0; end = none }

abbrev pub after_pong : Bool → HeartbeatState → HeartbeatState
after_pong true s = reset_missed s
after_pong false s = s

abbrev pub settle : (max_missed : ℕ) → HeartbeatState → Loop
settle max_missed s =
    if s.missed_pongs == 0
    then record { state = s; failures = 0; end = none }
    else (let missed = (s.missed_pongs + 1) % 2 ^ 32 in
        record {
          state = record { missed_pongs = missed };
          failures = 0;
          end = if leb max_missed missed then some heartbeat_timeout else none;
        })

-- One round of a loop that is still going. `consecutive_encode_failures` is a `u32`.
abbrev pub round : (max_missed : ℕ) → Round → Loop → Loop
round max_missed encode_failed l =
    let failures = (l.failures + 1) % 2 ^ 32 in
    record l { failures = failures; end = if leb 3 failures then some encode_broken else none }
round max_missed send_failed l = record l { failures = 0; end = some socket_closed }
round max_missed (sent pong) l = settle max_missed (after_pong pong l.state)

unfoldable pub heartbeat_loop : (max_missed : ℕ) → List Round → Loop → Loop
unfolding reset_missed
heartbeat_loop max_missed [] l = l
heartbeat_loop max_missed (r ∷ rs) l =
    let next = heartbeat_loop max_missed rs (round max_missed r l) in
    elim l.end [ none ↦ next | some e ↦ l ]

abbrev IsQuiet : Loop → Type 0
IsQuiet l = (l.state.missed_pongs ≡ 0) × (l.end ≢ some heartbeat_timeout)

round-IsQuiet : (max_missed : ℕ) (r : Round) (l : Loop) → IsQuiet l → IsQuiet (round max_missed r l)
unfolding reset_missed
round-IsQuiet max_missed encode_failed l (h, n) = (h, λ e. ground (arith, e))
round-IsQuiet max_missed send_failed l (h, n) = (h, λ e. ground (arith, e))
round-IsQuiet max_missed (sent true) l (h, n) = (refl, λ e. ground (arith, e))
round-IsQuiet max_missed (sent false) l (h, n) = (ground (arith, h), λ e. ground (arith, h, e))

loop-IsQuiet :
    (max_missed : ℕ) (rs : List Round) (l : Loop)
    → IsQuiet l
    → IsQuiet (heartbeat_loop max_missed rs l)
unfolding heartbeat_loop
loop-IsQuiet max_missed [] l h = h
loop-IsQuiet max_missed (r ∷ rs) l h =
    let next = loop-IsQuiet max_missed rs (round max_missed r l) (round-IsQuiet max_missed r l h) in
    elim l.end
      as (λ end.
        IsQuiet
          (elim end [ none ↦ heartbeat_loop max_missed rs (round max_missed r l) | some e ↦ l ])) [
            | none ↦ next
            | some e ↦ h
          ]

-- Whatever pongs come or fail to come, and whatever limit the server sets, the client's heartbeat
-- loop never ends by a timeout and counts no missed pong: the count is only raised where it is not 0.
pub heartbeat_never_times_out :
    (max_missed : ℕ) (rs : List Round)
    → ((heartbeat_loop max_missed rs start).end ≢ some heartbeat_timeout)
      × ((heartbeat_loop max_missed rs start).state.missed_pongs ≡ 0)
heartbeat_never_times_out max_missed rs =
    let (h, n) = loop-IsQuiet max_missed rs start (refl, λ e. ground (arith, e)) in (n, h)
