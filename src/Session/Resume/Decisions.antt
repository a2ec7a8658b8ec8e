-- ===== src/Session/Resume/Decisions.antt =====
-- rifts-session/src/session/offset_tracker.rs and resume.rs: what each resume decision says of the
-- offsets.
use rifts.Prelude.{
  zero, suc, ◌≡◌, ◌≢◌, refl, ◌↔◌, ◌⊎◌, String, Bool, true, false, ◌&&◌, ◌||◌, not, Option, none,
  some, [], ◌∷◌, All, string_eq, arith,
}
use rifts.Prelude.Int.{ℤ, negsuc, pos, ◌≤ℤ◌, leb_ℤ, eqb_ℤ_iff, eqb_ℤ, ◌-ℤ◌}
use rifts.Prelude.Map.{Map, lookup}
use rifts.Session.Resume.{
  ResumeDecision, full_resume, partial_resume, replaying, snapshot_required, cold_start, rejected,
  pred, verdict, scan, decide,
}

-- A topic that the server has, with the client's offset `last` passing a test against its head.
abbrev pub Compared : (ℤ → ℤ → Type 0) → Map String ℤ → String × ℤ → Type 0
Compared R heads (topic, last) = elim (lookup topic heads) [ none ↦ ⊥ | some head ↦ R last head ]

-- Not ahead of the server; at most one message behind; level with it.
abbrev pub Within : Map String ℤ → String × ℤ → Type 0
Within = Compared (λ last head. last ≤ℤ head)

abbrev pub Close : Map String ℤ → String × ℤ → Type 0
Close = Compared (λ last head. (last ≤ℤ head) × (pred head ≤ℤ last))

abbrev pub Level : Map String ℤ → String × ℤ → Type 0
Level = Compared (λ last head. last ≡ head)

every : (ℤ → ℤ → Bool) → Map String ℤ → Map String ℤ → Bool
every test [] heads = true
every test ((topic, last) ∷ offsets) heads =
    elim (lookup topic heads) [ none ↦ false | some head ↦ test last head ]
    && every test offsets heads

abbrev within : ℤ → ℤ → Bool
within last head = leb_ℤ last head

abbrev close : ℤ → ℤ → Bool
close last head = leb_ℤ last head && leb_ℤ (pred head) last

every-All :
    (test : ℤ → ℤ → Bool) (R : ℤ → ℤ → Type 0)
    → ((last head : ℤ) → (test last head ≡ true) ↔ R last head)
    → (offsets heads : Map String ℤ)
    → (every test offsets heads ≡ true) ↔ All (Compared R heads) offsets
unfolding every
every-All test R reflects [] heads = ((λ _. tt), λ _. refl)
every-All test R reflects ((topic, last) ∷ offsets) heads =
    step (lookup topic heads) (every-All test R reflects offsets heads)
  where
    step :
        (o : Option ℤ)
        → (every test offsets heads ≡ true) ↔ All (Compared R heads) offsets
        → ((elim o [ none ↦ false | some head ↦ test last head ] && every test offsets heads)
            ≡ true)
          ↔ (elim o as (λ _. Type 0) [ none ↦ ⊥ | some head ↦ R last head ]
              × All (Compared R heads) offsets)
    step none ih = ((λ e. cc), λ h. absurd h.0)
    step (some head) ih = (
      (λ e. ((reflects last head).0 (ground (arith, e)), ih.0 (ground (arith, e)))),
      λ h. ground (arith, (reflects last head).1 h.0, ih.1 h.1),
    )

every-le :
    (p q : ℤ → ℤ → Bool)
    → ((last head : ℤ) → p last head ≡ true → q last head ≡ true)
    → (offsets heads : Map String ℤ) → every p offsets heads ≡ true
    → every q offsets heads ≡ true
unfolding every
every-le p q weaker [] heads h = refl
every-le p q weaker ((topic, last) ∷ offsets) heads h =
    step (lookup topic heads) (every-le p q weaker offsets heads) h
  where
    step :
        (o : Option ℤ)
        → (every p offsets heads ≡ true → every q offsets heads ≡ true)
        → (elim o [ none ↦ false | some head ↦ p last head ] && every p offsets heads) ≡ true
        → (elim o [ none ↦ false | some head ↦ q last head ] && every q offsets heads) ≡ true
    step none ih h = cc
    step (some head) ih h =
        ground (arith, weaker last head (ground (arith, h)), ih (ground (arith, h)))

scan-every :
    (offsets heads : Map String ℤ) (behind near : Bool)
    → every within offsets heads ≡ true
    → scan offsets heads behind near
      ≡ verdict (behind || not (every eqb_ℤ offsets heads)) (near && every close offsets heads)
unfolding scan every
scan-every [] heads behind near h = ground arith
scan-every ((topic, last) ∷ offsets) heads behind near h = ground (
  arith,
  scan-every offsets heads true true,
  scan-every offsets heads true false,
  scan-every offsets heads false true,
  scan-every offsets heads false false,
)

scan-refuses :
    (offsets heads : Map String ℤ) (behind near : Bool)
    → every within offsets heads ≡ false
    → (scan offsets heads behind near ≡ snapshot_required)
      ⊎ (scan offsets heads behind near ≡ rejected)
unfolding scan every
scan-refuses [] heads behind near h = cc
scan-refuses ((topic, last) ∷ offsets) heads behind near h = ground (
  arith,
  scan-refuses offsets heads true true,
  scan-refuses offsets heads true false,
  scan-refuses offsets heads false true,
  scan-refuses offsets heads false false,
)

level_reflects : (last head : ℤ) → (eqb_ℤ last head ≡ true) ↔ (last ≡ head)
level_reflects last head = eqb_ℤ_iff last head

close_reflects : (last head : ℤ) → (close last head ≡ true) ↔ ((last ≤ℤ head) × (pred head ≤ℤ last))
close_reflects last head = ground arith

within_reflects : (last head : ℤ) → (within last head ≡ true) ↔ (last ≤ℤ head)
within_reflects last head = ground arith

pred-le : (z : ℤ) → pred z ≤ℤ z
unfolding pred ◌-ℤ◌
pred-le (pos zero) = omega arith
pred-le (pos (suc n)) = ground arith
pred-le (negsuc n) = ground arith

-- The decision by the three tests, for offsets that are not empty.
decide-every :
    (x : String × ℤ) (offsets heads : Map String ℤ)
    → let last = x ∷ offsets in
      (every within last heads ≡ true
        → decide last heads ≡ verdict (not (every eqb_ℤ last heads)) (every close last heads))
      × (every within last heads ≡ false
          → (decide last heads ≡ snapshot_required) ⊎ (decide last heads ≡ rejected))
      × (every eqb_ℤ last heads ≡ true → every close last heads ≡ true)
      × (every close last heads ≡ true → every within last heads ≡ true)
unfolding decide
decide-every x offsets heads = (
  scan-every (x ∷ offsets) heads false true,
  scan-refuses (x ∷ offsets) heads false true,
  every-le eqb_ℤ close (λ last head e. ground (arith, eqb_ℤ_iff last head, pred-le head, e))
      (x ∷ offsets) heads,
  every-le close within (λ last head e. ground (arith, e)) (x ∷ offsets) heads,
)

-- The reading of the tests' results, for any three propositions that they decide.
conclude :
    (d : ResumeDecision) (l c w : Bool) (L C W : Type 0)
    → (l ≡ true) ↔ L
    → (c ≡ true) ↔ C
    → (w ≡ true) ↔ W
    → (w ≡ true → d ≡ verdict (not l) c)
    → (w ≡ false → (d ≡ snapshot_required) ⊎ (d ≡ rejected))
    → (l ≡ true → c ≡ true)
    → (c ≡ true → w ≡ true)
    → (d ≢ cold_start)
      × ((d ≡ full_resume) ↔ L)
      × ((d ≡ replaying) ↔ (C × (¬ L)))
      × ((d ≡ partial_resume) ↔ (W × (¬ C)))
      × (((d ≡ snapshot_required) ⊎ (d ≡ rejected)) ↔ (¬ W))
conclude d l c w L C W hl hc hw known unknown lc cw = ground arith

decide_conclude :
    (x : String × ℤ) (offsets heads : Map String ℤ)
    → let last = x ∷ offsets in
      (decide last heads ≢ cold_start)
      × ((decide last heads ≡ full_resume) ↔ All (Level heads) last)
      × ((decide last heads ≡ replaying) ↔ (All (Close heads) last × (¬ All (Level heads) last)))
      × ((decide last heads ≡ partial_resume)
          ↔ (All (Within heads) last × (¬ All (Close heads) last)))
      × (((decide last heads ≡ snapshot_required) ⊎ (decide last heads ≡ rejected))
          ↔ (¬ All (Within heads) last))
decide_conclude x offsets heads =
    let (known, unknown, level, near) = decide-every x offsets heads in
    conclude (decide (x ∷ offsets) heads) (every eqb_ℤ (x ∷ offsets) heads)
      (every close (x ∷ offsets) heads) (every within (x ∷ offsets) heads) _ _ _
      (every-All eqb_ℤ _ level_reflects (x ∷ offsets) heads)
      (every-All close _ close_reflects (x ∷ offsets) heads)
      (every-All within _ within_reflects (x ∷ offsets) heads) known unknown level near

-- Whatever the order of the offsets: no offsets are a cold start; otherwise a full resume is decided
-- exactly when each topic's head is the client's offset, a replay exactly when each topic is at most
-- one behind but not all are level, and a partial resume exactly when no offset is ahead and some
-- topic is more than one behind. A snapshot or a rejection is decided exactly when some topic is
-- missing or some offset is ahead of the head.
pub decide_exact :
    (last heads : Map String ℤ)
    → ((decide last heads ≡ cold_start) ↔ (last ≡ []))
      × ((decide last heads ≡ full_resume) ↔ ((last ≢ []) × All (Level heads) last))
      × ((decide last heads ≡ replaying) ↔ (All (Close heads) last × (¬ All (Level heads) last)))
      × ((decide last heads ≡ partial_resume)
          ↔ (All (Within heads) last × (¬ All (Close heads) last)))
      × (((decide last heads ≡ snapshot_required) ⊎ (decide last heads ≡ rejected))
          ↔ (¬ All (Within heads) last))
unfolding decide
decide_exact [] heads = (
  (λ _. refl, λ _. refl),
  (λ e. cc, λ h. absurd (h.0 refl)),
  (λ e. cc, λ h. absurd (h.1 tt)),
  (λ e. cc, λ h. absurd (h.1 tt)),
  (λ e. ground arith, λ h. absurd (h tt)),
)
decide_exact (x ∷ offsets) heads =
    let (warm, full, near, partial, refused) = decide_conclude x offsets heads in
    (
      (λ e. absurd (warm e), λ e. cc),
      (λ e. ((λ e. cc), full.0 e), λ h. full.1 h.1),
      near,
      partial,
      refused,
    )
