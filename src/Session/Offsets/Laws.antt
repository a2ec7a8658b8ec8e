-- ===== src/Session/Offsets/Laws.antt =====
-- rifts-session/src/session/offset_tracker.rs: bounds and lookups of the offset tracker.
use rifts.Prelude.{
  ◌≡◌, refl, ◌≤◌, ◌<◌, is_some, false, ◌⊎◌, inl, inr, String, true, Option, none, some, All, length,
  if◌then◌else◌, string_eq, ap, ◌∙◌, arith,
}
use rifts.Prelude.Int.{ℤ, ◌≤ℤ◌}
use rifts.Prelude.Map.{
  Map, lookup, insert, contains_key, lookup-insert, length-insert, IsMap, insert-IsMap,
  remove-IsMap, AllValues, insert-AllValues, remove-AllValues, lookup-AllValues,
}
use rifts.Session.Offsets.{
  OffsetTracker, or_default, make_room, record_offset, snapshot, get_offset, forget,
}
use rifts.Session.Offsets.Room.{IsTopics, Evicts, make_room-IsTopics, make_room-lookup}

pub record IsTracker (g : OffsetTracker) : Type 0 where
  pub sessions : IsMap g
  pub each : AllValues IsTopics g

snapshot-IsTopics :
    (g : OffsetTracker) (session : String) → IsTracker g → IsTopics (snapshot g session)
unfolding snapshot
snapshot-IsTopics g session h = go (lookup session g) refl
  where
    go : (o : Option (Map String ℤ)) → lookup session g ≡ o → IsTopics (or_default o)
    go none e = record { unique = tt; capped = omega arith }
    go (some topics) e = lookup-AllValues IsTopics session topics g h.each e

-- Every session of the tracker keeps each topic once and at most 1024 of them, whatever is recorded
-- or forgotten.
pub record_offset-IsTracker :
    (g : OffsetTracker) (session topic : String) (offset : ℤ)
    → IsTracker g
    → IsTracker (record_offset g session topic offset) × IsTracker (forget g session)
unfolding record_offset forget snapshot
record_offset-IsTracker g session topic offset h =
    let topics = or_default (lookup session g) in
    let (unique, left) = make_room-IsTopics topic topics (snapshot-IsTopics g session h) in
    (
      record {
        sessions = insert-IsMap session _ g h.sessions;
        each =
            insert-AllValues IsTopics session _ g
              (record {
                unique = insert-IsMap topic offset (make_room topic topics) unique;
                capped = ground (arith, length-insert topic offset (make_room topic topics), left);
              })
              h.each;
      },
      record {
        sessions = remove-IsMap session g h.sessions;
        each = remove-AllValues IsTopics session g h.each;
      },
    )

get_offset-snapshot :
    (g : OffsetTracker) (session topic : String)
    → get_offset g session topic ≡ lookup topic (snapshot g session)
unfolding get_offset snapshot lookup
get_offset-snapshot g session topic = ground arith

snapshot-record_offset :
    (g : OffsetTracker) (session topic : String) (offset : ℤ) (other : String)
    → snapshot (record_offset g session topic offset) other ≡ (
        if string_eq.beq session other
        then insert topic offset (make_room topic (snapshot g session))
        else snapshot g other)
unfolding snapshot record_offset
snapshot-record_offset g session topic offset other = ground (
  arith,
  lookup-insert session other
      (insert topic offset (make_room topic (or_default (lookup session g)))) g,
)

-- What is read back from the session that recorded.
get-own :
    (g : OffsetTracker) (session topic : String) (offset : ℤ) (name : String)
    → get_offset (record_offset g session topic offset) session name ≡ (
        if string_eq.beq topic name
        then some offset
        else lookup name (make_room topic (snapshot g session)))
get-own g session topic offset name =
    get_offset-snapshot (record_offset g session topic offset) session name
    ∙ (ap (lookup name) (
          snapshot-record_offset g session topic offset session
          ∙ rw ((string_eq.beq_iff session session).1 refl) refl)
        ∙ lookup-insert topic name offset (make_room topic (snapshot g session)))

-- The topic that a session loses for another.
pub record Lost (g h : OffsetTracker) (session topic name : String) : Type 0 where
  pub victim : String
  pub least : ℤ
  pub was : get_offset g session victim ≡ some least
  pub below : All (λ y. least ≤ℤ y.1) (snapshot g session)
  pub gone : get_offset h session victim ≡ none
  pub others :
      (topic ≡ name) ⊎ ((victim ≡ name) ⊎ (get_offset h session name ≡ get_offset g session name))

dropped_for :
    (g : OffsetTracker) (session topic : String) (offset : ℤ) (name : String)
    → contains_key topic (snapshot g session) ≡ false
    → Evicts (snapshot g session) (make_room topic (snapshot g session)) name
    → Lost g (record_offset g session topic offset) session topic name
dropped_for g session topic offset name fresh e = record {
  victim = e.victim;
  least = e.least;
  was = get_offset-snapshot g session e.victim ∙ e.was;
  below = e.below;
  gone = ground (
    arith,
    fresh,
    e.was,
    e.gone,
    get-own g session topic offset e.victim,
    string_eq.beq_iff topic e.victim,
  );
  others = ground (
    arith,
    e.others,
    get-own g session topic offset name,
    get_offset-snapshot g session name,
    string_eq.beq_iff topic name,
  );
}

pub get-record_offset :
    (g : OffsetTracker) (session topic : String) (offset : ℤ) (other name : String)
    → IsTracker g
    → let h = record_offset g session topic offset in
      (get_offset h session topic ≡ some offset)
      × ((session ≡ other) ⊎ (get_offset h other name ≡ get_offset g other name))
      × ((((length (snapshot g session) < 1024) ⊎ (is_some (get_offset g session topic) ≡ true))
            × ((topic ≡ name) ⊎ (get_offset h session name ≡ get_offset g session name)))
          ⊎ ((1024 ≤ length (snapshot g session))
              × (get_offset g session topic ≡ none)
              × Lost g h session topic name))
      × IsTracker h
get-record_offset g session topic offset other name h = (
  ground (arith, get-own g session topic offset topic, string_eq.beq_iff topic topic),
  ground (
    arith,
    get_offset-snapshot (record_offset g session topic offset) other name,
    get_offset-snapshot g other name,
    snapshot-record_offset g session topic offset other,
    string_eq.beq_iff session other,
  ),
  elim (make_room-lookup topic name (snapshot g session) (snapshot-IsTopics g session h)) [
    | inl (room, kept) ↦ inl (
      ground (arith, room, get_offset-snapshot g session topic),
      ground (
        arith,
        get-own g session topic offset name,
        kept,
        get_offset-snapshot g session name,
        string_eq.beq_iff topic name,
      ),
    )
    | inr (full, fresh, e) ↦ inr (
      full,
      ground (arith, fresh, get_offset-snapshot g session topic),
      dropped_for g session topic offset name fresh e,
    )
  ],
  (record_offset-IsTracker g session topic offset h).0,
)
