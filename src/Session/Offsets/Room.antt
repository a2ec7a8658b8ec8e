-- ===== src/Session/Offsets/Room.antt =====
-- rifts-session/src/session/offset_tracker.rs: the topic that goes where a session needs a place.
use rifts.Prelude.{
  ◌+◌, ◌≡◌, refl, ◌≤◌, ◌<◌, false, ◌⊎◌, inl, inr, String, true, Option, none, some, [], ◌∷◌, All,
  length, if◌then◌else◌, string_eq, arith, Bool-cases, subst, leb, ◌&&◌, not,
}
use rifts.Prelude.Int.{ℤ, ◌≤ℤ◌, leb_ℤ}
use rifts.Prelude.Map.{
  Map, lookup, contains_key, lookup-remove, length-remove_present, IsMap, remove-IsMap,
}
use rifts.Session.Offsets.{max_topics_per_session, oldest, make_room}

-- The topics of one session: each once, and no more than the cap.
pub record IsTopics (topics : Map String ℤ) : Type 0 where
  pub unique : IsMap topics
  pub capped : length topics ≤ max_topics_per_session

least_below : (v w : ℤ) (m : Map String ℤ) → v ≤ℤ w → All (λ y. w ≤ℤ y.1) m → All (λ y. v ≤ℤ y.1) m
least_below v w [] h below = tt
least_below v w ((k, u) ∷ m) h below = (omega (arith, below.0), least_below v w m h below.1)

oldest-none : (m : Map String ℤ) → oldest m ≡ none → m ≡ []
unfolding oldest
oldest-none [] e = refl
oldest-none (x ∷ m) e = ground (arith, oldest-none m)

-- What `min_by_key` picks is in the map, and no offset is below it.
oldest-least :
    (m : Map String ℤ) (x : String × ℤ)
    → IsMap m
    → oldest m ≡ some x
    → (lookup x.0 m ≡ some x.1) × All (λ y. x.1 ≤ℤ y.1) m
unfolding oldest lookup
oldest-least [] x h e = ground arith
oldest-least ((k, v) ∷ m) x h e = go (oldest m) refl (λ y f. oldest-least m y h.1 f)
  where
    go :
        (o : Option (String × ℤ))
        → oldest m ≡ o
        → ((y : String × ℤ)
            → oldest m ≡ some y
            → (lookup y.0 m ≡ some y.1) × All (λ z. y.1 ≤ℤ z.1) m)
        → (lookup x.0 ((k, v) ∷ m) ≡ some x.1) × All (λ y. x.1 ≤ℤ y.1) ((k, v) ∷ m)
    go none f ih = ground (arith, oldest-none m f, string_eq.beq_iff k k)
    go (some y) f ih = elim (Bool-cases (leb_ℤ v y.1)) [
      | inl first ↦
          subst (λ z. (lookup z.0 ((k, v) ∷ m) ≡ some z.1) × All (λ w. z.1 ≤ℤ w.1) ((k, v) ∷ m))
            (let same : (k, v) ≡ x = ground (arith, first, e, f) in same)
            (
              ground (arith, string_eq.beq_iff k k),
              (omega arith, least_below v y.1 m (ground (arith, first)) (ih y f).1),
            )
      | inr later ↦
          subst (λ z. (lookup z.0 ((k, v) ∷ m) ≡ some z.1) × All (λ w. z.1 ≤ℤ w.1) ((k, v) ∷ m))
            (let same : y ≡ x = ground (arith, later, e, f) in same)
            (
              ground (arith, string_eq.beq_iff k y.0, (ih y f).0, h.0),
              (ground (arith, later), (ih y f).1),
            )
    ]

pub make_room-IsTopics :
    (topic : String) (topics : Map String ℤ)
    → IsTopics topics
    → IsMap (make_room topic topics)
      × (length (make_room topic topics)
            + (if contains_key topic (make_room topic topics) then 0 else 1)
          ≤ max_topics_per_session)
unfolding make_room
make_room-IsTopics topic topics h = go (oldest topics) refl
  where
    go :
        (o : Option (String × ℤ))
        → oldest topics ≡ o
        → IsMap (make_room topic topics)
          × (length (make_room topic topics)
                + (if contains_key topic (make_room topic topics) then 0 else 1)
              ≤ max_topics_per_session)
    go none f = ground (arith, oldest-none topics f, h.unique, h.capped)
    go (some x) f = ground (
      arith,
      h.unique,
      h.capped,
      f,
      oldest-least topics x h.unique f,
      remove-IsMap x.0 topics h.unique,
      length-remove_present x.0 topics,
      lookup-remove x.0 topic topics,
    )

-- What makes room: nothing, where the session has a place or knows the topic; else the topic that goes, of
-- the least offset of all, and what becomes of the topic asked for.
pub record Evicts (topics left : Map String ℤ) (name : String) : Type 0 where
  pub victim : String
  pub least : ℤ
  pub was : lookup victim topics ≡ some least
  pub below : All (λ y. least ≤ℤ y.1) topics
  pub gone : lookup victim left ≡ none
  pub others : (victim ≡ name) ⊎ (lookup name left ≡ lookup name topics)

pub make_room-lookup :
    (topic name : String) (topics : Map String ℤ)
    → IsTopics topics
    → (((length topics < max_topics_per_session) ⊎ (contains_key topic topics ≡ true))
        × (lookup name (make_room topic topics) ≡ lookup name topics))
      ⊎ ((max_topics_per_session ≤ length topics)
          × (contains_key topic topics ≡ false)
          × Evicts topics (make_room topic topics) name)
unfolding make_room
make_room-lookup topic name topics h =
    elim (Bool-cases
      (leb max_topics_per_session (length topics) && not (contains_key topic topics))) [
        | inr stays ↦ inl (ground (arith, stays), ground (arith, stays))
        | inl full ↦ inr (ground (arith, full), ground (arith, full), go full (oldest topics) refl)
      ]
  where
    go :
        leb max_topics_per_session (length topics) && not (contains_key topic topics) ≡ true
        → (o : Option (String × ℤ)) → oldest topics ≡ o
        → Evicts topics (make_room topic topics) name
    go full none f = absurd (ground (arith, full, oldest-none topics f))
    go full (some x) f =
        let (there, least) = oldest-least topics x h.unique f in
        record {
          victim = x.0;
          least = x.1;
          was = there;
          below = least;
          gone = ground (arith, full, f, lookup-remove x.0 x.0 topics, string_eq.beq_iff x.0 x.0);
          others =
              ground (arith, full, f, lookup-remove x.0 name topics, string_eq.beq_iff x.0 name);
        }
