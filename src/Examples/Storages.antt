-- ===== src/Examples/Storages.antt =====
-- Inputs for rifts-storage/src.
use rifts.Prelude.{[], ◌∷◌, string_eq, pair_eq}
use rifts.Prelude.Int.{pos}
use rifts.Storage.Dedupe.{DedupeStore}

abbrev seen : DedupeStore
seen = (("t", "m1"), pos 50) ∷ (("t", "m2"), pos 90) ∷ []
