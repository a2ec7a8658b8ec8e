-- ===== src/Topic/Name.antt =====
-- rifts-core/src/topic/store.rs, `validate_name`. `str::len` counts the bytes of UTF-8 and
-- `char::is_control` is the Unicode class Cc: the code points below 32 and from 127 to 159.
use Prim.Native.Char.{code}
use rifts.Prelude.{
  ℕ, ◌+◌, ◌≡◌, refl, ◌≢◌, ◌≤◌, ◌<◌, ◌↔◌, ◌⊎◌, String, Bool, true, false, ◌&&◌, ◌||◌, List, [], ◌∷◌,
  All, ltb, leb, ◌==◌, nat_eq, if◌then◌else◌, arith,
}
use rifts.Errors.{text, nat, Message, invalid_name, in_topic, Result, ok, err}

abbrev pub codes : String → List ℕ
codes String.[] = []
codes (String.◌∷◌ c s) = code c ∷ codes s

abbrev pub utf8_width : ℕ → ℕ
utf8_width c = if ltb c 0x80 then 1 else if ltb c 0x800 then 2 else if ltb c 0x1_0000 then 3 else 4

unfoldable pub utf8_len : List ℕ → ℕ
utf8_len [] = 0
utf8_len (c ∷ cs) = utf8_width c + utf8_len cs

abbrev pub is_control : ℕ → Bool
is_control c = ltb c 32 || (leb 127 c && leb c 159)

unfoldable pub any_control : List ℕ → Bool
any_control [] = false
any_control (c ∷ cs) = is_control c || any_control cs

abbrev starts_with_dollar : List ℕ → Bool
starts_with_dollar [] = false
starts_with_dollar (c ∷ cs) = c == b'$'

abbrev is_empty : List ℕ → Bool
is_empty [] = true
is_empty (_ ∷ _) = false

abbrev refuse : Message → Result (Unit {0})
refuse m = err (in_topic (invalid_name m))

validate_codes : String → List ℕ → Result (Unit {0})
validate_codes name cs =
    if is_empty cs
    then refuse (text "empty topic" ∷ [])
    else if ltb 256 (utf8_len cs)
    then refuse (text "name too long: " ∷ nat (utf8_len cs) ∷ text " > 256" ∷ [])
    else if starts_with_dollar cs
    then refuse (text "name starts with reserved '$' prefix: " ∷ text name ∷ [])
    else if any_control cs
    then refuse (text "name contains control characters" ∷ [])
    else ok tt

unfoldable pub validate_name : String → Result (Unit {0})
unfolding validate_codes utf8_len any_control
validate_name name = validate_codes name (codes name)

-- A name of a topic, as the source lists the rules.
pub record IsTopicName (cs : List ℕ) : Type 0 where
  pub nonempty : cs ≢ []
  pub short : utf8_len cs ≤ 256
  pub unreserved : (c : ℕ) (rest : List ℕ) → cs ≡ c ∷ rest → c ≢ b'$'
  pub printable : All (λ c. (31 < c) × ((c < 127) ⊎ (159 < c))) cs

any_control_sound :
    (cs : List ℕ) → any_control cs ≡ false → All (λ c. (31 < c) × ((c < 127) ⊎ (159 < c))) cs
unfolding any_control
any_control_sound [] h = tt
any_control_sound (c ∷ cs) h = ground (arith, any_control_sound cs)

any_control_complete :
    (cs : List ℕ) → All (λ c. (31 < c) × ((c < 127) ⊎ (159 < c))) cs → any_control cs ≡ false
unfolding any_control
any_control_complete [] h = refl
any_control_complete (c ∷ cs) h = ground (arith, any_control_complete cs h.1)

validate_codes-ok : (name : String) (cs : List ℕ) → validate_codes name cs ≡ ok tt → IsTopicName cs
unfolding validate_codes
validate_codes-ok name [] h = cc
validate_codes-ok name (c ∷ cs) h = record {
  nonempty = λ e. cc;
  short = ground arith;
  unreserved = λ d rest e. ground arith;
  printable = any_control_sound (c ∷ cs) (ground arith);
}

IsTopicName-ok : (name : String) (cs : List ℕ) → IsTopicName cs → validate_codes name cs ≡ ok tt
unfolding validate_codes
IsTopicName-ok name [] v = absurd (v.nonempty refl)
IsTopicName-ok name (c ∷ cs) v =
    ground (arith, any_control_complete (c ∷ cs) v.printable, v.unreserved c cs refl)

-- A name is accepted exactly when it is not empty, has at most 256 bytes of UTF-8, does not begin
-- with `$` and holds no control character.
pub validate_name_exact : (name : String) → (validate_name name ≡ ok tt) ↔ IsTopicName (codes name)
unfolding validate_name
validate_name_exact name = (validate_codes-ok name (codes name), IsTopicName-ok name (codes name))
