-- ===== src/Protocol/Version.antt =====
-- rifts-core/src/protocol/version.rs: the encoded version and the negotiation of the major version.
use rifts.Prelude.{
  ℕ, ◌+◌, ◌*◌, ◌/◌, ◌^◌, ◌≡◌, refl, ◌↔◌, ◌&&◌, Option, none, some, arith, leb, if◌then◌else◌,
}

abbrev pub protocol_major : ℕ
protocol_major = 1

abbrev pub protocol_minor : ℕ
protocol_minor = 0

-- `SUPPORTED_MAJOR`, the inclusive range 1..=1.
abbrev pub supported_first : ℕ
supported_first = 1

abbrev pub supported_last : ℕ
supported_last = 1

-- `major << 8 | minor`; the two fields share no bit, so the word is their sum.
unfoldable pub encoded_version : ℕ
encoded_version = protocol_major * 2 ^ 8 + protocol_minor

unfoldable pub negotiate_major : ℕ → Option ℕ
negotiate_major client_major =
    if leb supported_first client_major && leb client_major supported_last
    then some client_major
    else none

-- Negotiation answers a client's major version exactly when it is the server's own, with that
-- version; and the version in the server's frames is one that it negotiates.
pub negotiate_major_exact :
    (client m : ℕ)
    → ((negotiate_major client ≡ some m) ↔ ((client ≡ protocol_major) × (m ≡ client)))
      × (negotiate_major (encoded_version / 2 ^ 8) ≡ some protocol_major)
unfolding negotiate_major encoded_version
negotiate_major_exact client m = ((λ h. ground arith, λ h. ground arith), refl)
