-- ===== src/Session/Auth.antt =====
-- rifts-session/src/session/auth.rs: authentication. The claims of a principal are a value of
-- serde_json, which nothing here reads; `no_claims` is `json!({})`. `suffix` is the fresh ULID of
-- `rand_suffix`. Each map is behind a lock and a method is one step.
pub mod Revoked
use rifts.Prelude.{
  ℕ, String, Bool, true, false, Option, none, some, List, [], ◌∷◌, ◌++◌, if◌then◌else◌, ◌==◌,
  string_eq,
}
use rifts.Prelude.Map.{Map, lookup, insert, remove, contains_key}
use rifts.Prelude.Reap.{member, remove_all}
use rifts.Errors.{Result, ok, err, in_auth, AuthReject, Piece, text, Message}
use rifts.Protocol.Hello.{AuthMode, bearer, anonymous}

pub record AuthHints : Type 0 where
  pub region : Option String
  pub device : Option String
  pub risk : Option ℕ

abbrev pub no_hints : AuthHints
no_hints = record { region = none; device = none; risk = none }

pub record AuthContext (Claims : Type 0) : Type 0 where
  pub client_id : String
  pub claims : Claims
  pub mode : AuthMode
  pub hints : AuthHints

-- `AuthProvider`, as a connection calls it.
pub record AuthProvider (Claims : Type 0) : Type 0 where
  pub authenticate : AuthMode → Option String → Result (AuthContext Claims)
  pub supported_modes : List AuthMode

-- `supported_modes` where a provider does not define it.
abbrev pub default_modes : List AuthMode
default_modes = bearer ∷ anonymous ∷ []

-- `HashSet::insert`.
abbrev pub add_to_set : String → List String → List String
add_to_set x xs = if member x xs then xs else xs ++ x ∷ []

abbrev pub or_no_tokens : Option (List String) → List String
or_no_tokens none = []
or_no_tokens (some tokens) = tokens

abbrev pub or_unknown {ℓ} : {A : Type ℓ} → Option A → Result A
or_unknown none = err (in_auth (AuthReject.invalid (text "unknown token" ∷ [])))
or_unknown (some a) = ok a

pub record TokenAuth (Claims : Type 0) : Type 0 where
  pub tokens : Map String (AuthContext Claims)
  pub by_client : Map String (List String)

module _ {Claims : Type 0} where
  abbrev pub new : TokenAuth Claims
  new = record { tokens = []; by_client = [] }

  abbrev pub tokens_of : String → TokenAuth Claims → List String
  tokens_of client t = or_no_tokens (lookup client t.by_client)

  -- The reverse index is written only where the token was not registered before.
  unfoldable pub register : TokenAuth Claims → String → AuthContext Claims → TokenAuth Claims
  register t token ctx = record {
    tokens = insert token ctx t.tokens;
    by_client =
        if contains_key token t.tokens
        then t.by_client
        else insert ctx.client_id (add_to_set token (tokens_of ctx.client_id t)) t.by_client;
  }

  abbrev pub authenticate_token : TokenAuth Claims → Option String → Result (AuthContext Claims)
  authenticate_token t none = err (in_auth AuthReject.required)
  authenticate_token t (some token) = or_unknown (lookup token t.tokens)

  unfoldable pub authenticate :
      (suffix : String → String)
      → (no_claims : Claims) → TokenAuth Claims
      → AuthMode
      → Option String
      → Result (AuthContext Claims)
  authenticate suffix no_claims t anonymous token = ok (record {
    client_id = suffix "anon-";
    claims = no_claims;
    mode = anonymous;
    hints = no_hints;
  })
  authenticate suffix no_claims t _ token = authenticate_token t token

  unfoldable pub revoke : TokenAuth Claims → (client : String) → TokenAuth Claims
  revoke t client = record {
    tokens = remove_all (tokens_of client t) t.tokens;
    by_client = remove client t.by_client;
  }

  -- `AllowAllAuth`.
  unfoldable pub allow_all : (no_claims : Claims) → AuthProvider Claims
  allow_all no_claims = record {
    authenticate = λ mode token. ok (record {
      client_id = "anonymous";
      claims = no_claims;
      mode = anonymous;
      hints = no_hints;
    });
    supported_modes = default_modes;
  }
