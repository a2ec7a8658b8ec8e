-- ===== src/Connection/Handshake/Frames.antt =====
-- What a successful handshake leaves in the store, and the frames it writes.
use rifts.Prelude.{
  ℕ, ◌≡◌, refl, String, Option, some, List, [], ◌∷◌, nat_eq, string_eq, if◌then◌else◌, arith,
}
use rifts.Prelude.Int.{ℤ}
use rifts.Prelude.Map.{lookup-insert}
use rifts.Errors.{Result, ok, err}
use rifts.Json.{Json}
use rifts.Metrics.{Metrics}
use rifts.Config.{ServerConfig}
use rifts.Frame.Types.{EncodingFormat}
use rifts.Frame.Envelope.{Frame}
use rifts.Protocol.Hello.{Hello}
use rifts.Session.Auth.{AuthProvider}
use rifts.Session.Lifecycle.{Session, active, ready, set_state, touch}
use rifts.Session.Store.{SessionStore, get}
use rifts.Session.Resume.{ResumeDecision}
use rifts.Broker.Memory.{Broker}
use rifts.Connection.HelloPayload.{or_else}
use rifts.Connection.Negotiation.{Admitted, admit}
use rifts.Connection.Handshake.{
  share, Opening, open_session, replay_all, replays, count_resume, conflict, build_ready_frame,
  build_welcome_frame,
}
use rifts.Connection.Handshake.Resumes.{open_session-resume}
use rifts.Connection.Greeting.{
  Greeted, handshake, greet, send_welcome, send_ready, greet_admitted, result_name,
}

module _ {V : Type 0} (j : Json V) (b : Broker) (config : ServerConfig)
    (write : Frame → Result (Unit {0})) (now : ℕ → ℤ) where
  -- The store holds the session, as it is.
  abbrev pub Stored : SessionStore → Session → Type 0
  Stored store s = (get store s.id ≡ some s) × (s.state ≡ active)

  share-Stored : (store : SessionStore) (s : Session) → s.state ≡ active → Stored (share store s) s
  unfolding get
  share-Stored store s h =
      ground (arith, lookup-insert s.id s.id s store.inner, string_eq.beq_iff s.id s.id)

  abbrev IsDone : Greeted → Type 0
  IsDone g = (s : Session) → g.outcome ≡ ok s → Stored g.store s

  send_ready-IsDone :
      (store : SessionStore) (m : Metrics) (sent : List Frame) (codec : EncodingFormat)
      (s : Session)
      → IsDone (send_ready j b config write now store m sent codec s)
  unfolding set_state touch
  send_ready-IsDone store m sent codec s t h =
      split (write (build_ready_frame j (now 3) s config codec)) refl
    where
      split :
          (r : Result (Unit {0}))
          → write (build_ready_frame j (now 3) s config codec) ≡ r
          → Stored (send_ready j b config write now store m sent codec s).store t
      split (err e) eq = ground (arith, h, eq)
      split (ok _) eq = ground (arith, h, eq, share-Stored store t)

  send_welcome-IsDone :
      (store : SessionStore) (m : Metrics) (hello : Hello) (codec : EncodingFormat) (s : Session)
      (d : Option ResumeDecision)
      → IsDone (send_welcome j b config write now store m hello codec s d)
  send_welcome-IsDone store m hello codec s d = split (write welcome) refl
    where
      welcome : Frame
      welcome = build_welcome_frame j (now 2) s codec (result_name d) config

      split :
          (r : Result (Unit {0}))
          → write welcome ≡ r
          → IsDone (send_welcome j b config write now store m hello codec s d)
      split (err e) eq = λ t h. ground (arith, h, eq)
      split (ok _) eq =
          rw (eq, send_welcome)
            (send_ready-IsDone store m
              (welcome ∷ (if replays d then replay_all b hello.last_offsets else [])) codec s)

  greet-IsDone :
      (hello : Hello) (codec : EncodingFormat) (o : SessionStore × Metrics × Opening)
      → IsDone (greet j b config write now hello codec o)
  greet-IsDone hello codec (store, m, err e) = λ t h. ground (arith, h)
  greet-IsDone hello codec (store, m, ok (s, d)) =
      send_welcome-IsDone (share store (set_state (now 1) s ready)) (count_resume d m) hello codec
        (set_state (now 1) s ready) d

  greet_admitted-IsDone :
      {Claims : Type 0} (store : SessionStore) (m : Metrics) (fresh : String)
      (r : Result (Admitted Claims))
      → IsDone (greet_admitted j b config write now store m fresh r)
  greet_admitted-IsDone store m fresh (err e) = λ t h. ground (arith, h)
  greet_admitted-IsDone store m fresh (ok a) =
      greet-IsDone a.hello a.codec
        (open_session b store m (now 0) fresh a.context.client_id a.hello)

  -- After a handshake that runs without interruption and returns a session, the store holds that session as
  -- it was returned, it is Active, and whoever names it in a hello once that handshake is done, with
  -- whatever epoch, is told of a conflict and leaves the store as it is. Handshakes whose steps
  -- interleave are not covered.
  pub handshake-Stored :
      {Claims : Type 0} (auth : AuthProvider Claims) (store : SessionStore) (m : Metrics)
      (fresh : String) (frame : Frame) (s : Session) (other : Hello) (fresh_id client_id : String)
      (later : ℤ) (metrics : Metrics)
      → (handshake j b config write now auth store m fresh frame).outcome ≡ ok s
      → other.session_id ≡ some s.id
      → let g = handshake j b config write now auth store m fresh frame in
        (get g.store s.id ≡ some s)
        × (s.state ≡ active)
        × (open_session b g.store metrics later fresh_id client_id other
            ≡ (g.store, metrics, err (conflict (or_else 0 other.epoch) s)))
  unfolding handshake
  handshake-Stored auth store m fresh frame s other fresh_id client_id later metrics h names =
      let g = handshake j b config write now auth store m fresh frame in
      let (found, is_active) =
        greet_admitted-IsDone store m fresh (admit auth config j frame) s h in
      (
        found,
        is_active,
        ground (
          arith,
          is_active,
          open_session-resume b g.store metrics later fresh_id client_id s.id other s names found,
        ),
      )
