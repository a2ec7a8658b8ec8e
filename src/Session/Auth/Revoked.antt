-- ===== src/Session/Auth/Revoked.antt =====
-- rifts-session/src/session/auth.rs: which tokens a revocation takes away.
use rifts.Prelude.{
  String, Bool, true, false, ◌||◌, Option, none, some, List, [], ◌∷◌, ◌++◌, ◌≡◌, ◌≢◌, ◌⊎◌, arith,
  if◌then◌else◌, string_eq, is_some,
}
use rifts.Prelude.Map.{lookup, insert, lookup-insert, lookup-remove}
use rifts.Prelude.Reap.{member, lookup-remove_all}
use rifts.Errors.{ok}
use rifts.Protocol.Hello.{bearer}
use rifts.Session.Auth.{
  AuthContext, TokenAuth, tokens_of, add_to_set, register, authenticate, authenticate_token, revoke,
  or_unknown,
}

member-snoc :
    (x y : String) (xs : List String) → member x (xs ++ y ∷ []) ≡ (member x xs || string_eq.beq y x)
member-snoc x y [] = ground arith
member-snoc x y (z ∷ xs) = ground (arith, member-snoc x y xs)

member-add_to_set :
    (x y : String) (xs : List String)
    → member x (add_to_set y xs) ≡ (member x xs || string_eq.beq y x)
member-add_to_set x y xs = ground (arith, member-snoc x y xs, string_eq.beq_iff y x)

module _ {Claims : Type 0} where
  abbrev pub owned : Option (AuthContext Claims) → String → Bool
  owned none client = false
  owned (some ctx) client = string_eq.beq ctx.client_id client

  owned_once :
      (o : Option (AuthContext Claims)) (a b : String)
      → owned o a ≡ true
      → (is_some o ≡ true) × (owned o b ≡ string_eq.beq a b)
  owned_once none a b h = ground arith
  owned_once (some c) a b h = ground (
    arith,
    string_eq.beq_iff c.client_id a,
    string_eq.beq_iff c.client_id b,
    string_eq.beq_iff a b,
  )

  -- The reverse index holds, for each client, exactly the tokens of that client.
  abbrev pub IsIndexed : TokenAuth Claims → Type 0
  IsIndexed t =
      (client token : String)
      → member token (tokens_of client t) ≡ owned (lookup token t.tokens) client

  -- Registering a token that is new keeps the reverse index exact, and so does registering one again
  -- for the client that has it.
  pub register-IsIndexed :
      (t : TokenAuth Claims) (token : String) (ctx : AuthContext Claims)
      → IsIndexed t
      → (lookup token t.tokens ≡ none) ⊎ (owned (lookup token t.tokens) ctx.client_id ≡ true)
      → IsIndexed (register t token ctx)
  unfolding register
  register-IsIndexed t token ctx h fresh client other = ground (
    arith,
    h client other,
    h client token,
    h ctx.client_id other,
    owned_once (lookup token t.tokens) ctx.client_id client,
    member-add_to_set other token (tokens_of ctx.client_id t),
    lookup-insert ctx.client_id client (add_to_set token (tokens_of ctx.client_id t)) t.by_client,
    lookup-insert token other ctx t.tokens,
    string_eq.beq_iff token other,
    string_eq.beq_iff ctx.client_id client,
  )

  -- Where the reverse index holds exactly the tokens of each client, no token of the client
  -- authenticates after a revocation, every token of another client does as before, and the reverse index
  -- is exact again. Registering a token again for another client breaks that condition.
  pub revoke_exact :
      (t : TokenAuth Claims) (client token : String)
      → IsIndexed t
      → (authenticate_token (revoke t client) (some token)
          ≡ or_unknown
              (if owned (lookup token t.tokens) client then none else lookup token t.tokens))
        × IsIndexed (revoke t client)
  unfolding revoke
  revoke_exact t client token h = (
    ground (arith, h client token, lookup-remove_all (tokens_of client t) token t.tokens),
    λ c other. ground (
      arith,
      h client other,
      h c other,
      owned_once (lookup other t.tokens) client c,
      lookup-remove_all (tokens_of client t) other t.tokens,
      lookup-remove client c t.by_client,
      string_eq.beq_iff client c,
    ),
  )

  -- A token registered again for another client still authenticates as that client after that
  -- client is revoked, and stops to when the first client is.
  pub revoke_misses_registered_over :
      (suffix : String → String) (no_claims : Claims) (t : TokenAuth Claims) (token first : String)
      (ctx : AuthContext Claims)
      → IsIndexed t
      → owned (lookup token t.tokens) first ≡ true
      → first ≢ ctx.client_id
      → let again = register t token ctx in
        (authenticate suffix no_claims (revoke again ctx.client_id) bearer (some token) ≡ ok ctx)
        × (authenticate_token (revoke again first) (some token) ≡ or_unknown none)
  unfolding register authenticate revoke
  revoke_misses_registered_over suffix no_claims t token first ctx h mine differs = (
    ground (
      arith,
      h ctx.client_id token,
      lookup-insert token token ctx t.tokens,
      lookup-remove_all (tokens_of ctx.client_id t) token (insert token ctx t.tokens),
      string_eq.beq_iff token token,
      string_eq.beq_iff first ctx.client_id,
      owned_once (lookup token t.tokens) first ctx.client_id,
    ),
    ground (
      arith,
      h first token,
      owned_once (lookup token t.tokens) first first,
      lookup-remove_all (tokens_of first t) token (insert token ctx t.tokens),
    ),
  )
