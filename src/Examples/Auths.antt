-- ===== src/Examples/Auths.antt =====
-- Inputs for rifts-session/src/session/auth.rs and rifts-storage/src/encode.rs.
use rifts.Prelude.{
  ◌≡◌, refl, String, ◌&&◌, not, none, some, [], ◌∷◌, nat_eq, list_eq, string_eq, leb, if◌then◌else◌,
  arith, inl,
}
use rifts.Prelude.Int.{pos}
use rifts.Prelude.Map.{lookup}
use rifts.Protocol.Hello.{bearer}
use rifts.Session.Auth.{
  AuthContext, TokenAuth, no_hints, register, revoke, authenticate_token, or_unknown, new,
}
use rifts.Session.Auth.Revoked.{IsIndexed, owned, register-IsIndexed, revoke_exact}
use rifts.Storage.Keys.{log_key, log_range_start, log_range_end}
use rifts.Storage.Keys.Order.{before, log_range_exact}

abbrev principal : String → AuthContext (Unit {0})
principal client = record { client_id = client; claims = tt; mode = bearer; hints = no_hints }

abbrev one : TokenAuth (Unit {0})
one = register new "tok" (principal "ann")

new-IsIndexed : IsIndexed {Claims = Unit {0}} new
unfolding lookup
new-IsIndexed client token = refl

one-IsIndexed : IsIndexed one
unfolding lookup
one-IsIndexed = register-IsIndexed new "tok" (principal "ann") new-IsIndexed (inl fresh)
  where
    fresh : lookup "tok" (new {Claims = Unit {0}}).tokens ≡ none
    fresh = refl

revoke_exact_example :
    (authenticate_token (revoke one "ann") (some "tok")
      ≡ or_unknown
          (if owned (lookup "tok" one.tokens) "ann" then none else lookup "tok" one.tokens))
    × IsIndexed (revoke one "ann")
revoke_exact_example = revoke_exact one "ann" "tok" one-IsIndexed

log_range_exact_example :
    (not (before (log_key (97 ∷ []) (pos 10)) (log_range_start (97 ∷ []) (pos 9)))
      && before (log_key (97 ∷ []) (pos 10)) (log_range_end (97 ∷ []) (pos 100)))
    ≡ (leb 9 10 && leb 10 100)
log_range_exact_example =
    log_range_exact (97 ∷ []) 9 100 10 (omega arith) (omega arith) (omega arith)
