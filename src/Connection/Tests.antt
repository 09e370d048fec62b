-- ===== src/Connection/Tests.antt =====
-- Two ends that shake hands: crates/mlink-core/src/core/connection.rs.
use mlink.Prelude.{
  ℕ, ◌≡◌, ◌⊎◌, refl, arith, String, List, [], ◌∷◌, none, some, false, ◌==◌, if◌then◌else◌,
}
use mlink.Protocol.Errors.{Result, ok, err, timeout}
use mlink.Protocol.Messages.{Handshake}
use mlink.Connection.{new_connections, add, remove, central, peripheral, negotiate_role}
use mlink.Connection.Roles.{negotiate_role-negotiate_role}
use mlink.Connection.Handshake.{HandshakeCodec, Timed, in_time, perform_handshake}
use mlink.Connection.Handshake.Agreement.{
  Introduced, perform_handshake_mutual, perform_handshake-Introduced,
}

abbrev side : String → ℕ → Handshake
side uuid mtu = record {
  app_uuid = uuid;
  version = 1;
  mtu = mtu;
  compress = false;
  encrypt = false;
  last_seq = 0;
  resume_streams = [];
  room_hash = none;
  session_id = none;
  session_last_seq = 0;
}

abbrev left : Handshake
left = side "left" 512

abbrev right : Handshake
right = side "right" 185

-- A codec of these two records.
abbrev side_in : List ℕ → Result Handshake
side_in [] = err timeout
side_in (n ∷ rest) = if n == 0 then ok left else ok right

abbrev codec : HandshakeCodec
codec = record { encode = λ h. ok ((if h.mtu == 512 then 0 else 1) ∷ []); decode = side_in }

perform_handshake_mutual_example :
    (from_a from_b : List ℕ) × (perform_handshake codec
        (λ bytes. in_time (ok tt))
        (in_time (ok from_b))
        left
      ≡ (some from_a, ok right))
    × (perform_handshake codec (λ bytes. in_time (ok tt)) (in_time (ok from_a)) right
        ≡ (some from_b, ok left))
perform_handshake_mutual_example =
    perform_handshake_mutual codec left right (0 ∷ []) (1 ∷ []) refl refl refl refl (omega arith)
      (omega arith)

abbrev both :
    (from_a from_b : List ℕ) × (perform_handshake codec
        (λ bytes. in_time (ok tt))
        (in_time (ok from_b))
        left
      ≡ (some from_a, ok right))
    × (perform_handshake codec (λ bytes. in_time (ok tt)) (in_time (ok from_a)) right
        ≡ (some from_b, ok left))
both =
    perform_handshake_mutual codec left right (0 ∷ []) (1 ∷ []) refl refl refl refl (omega arith)
      (omega arith)

perform_handshake-Introduced_example :
    (out : List ℕ) × (some both.0 ≡ some out)
    × (◌≡◌ {A = Timed (Unit {0})} (in_time (ok tt)) (in_time (ok tt)))
    × ((bytes : List ℕ) × (in_time (ok both.1) ≡ in_time (ok bytes)) × Introduced codec right bytes)
perform_handshake-Introduced_example =
    perform_handshake-Introduced codec (λ bytes. in_time (ok tt)) (in_time (ok both.1)) left right
      (some both.0) both.2

negotiate_role_smaller : negotiate_role "aaa" "aab" ≡ central
unfolding negotiate_role
negotiate_role_smaller = refl

replaced_connection : (remove (add (add new_connections "p" 1) "p" 2) "p").0 ≡ some 2
unfolding add remove
replaced_connection = refl

negotiate_role-negotiate_role_example :
    ((◌≡◌ {A = String} "aaa" "aab")
      × (negotiate_role "aaa" "aab" ≡ peripheral)
      × (negotiate_role "aab" "aaa" ≡ peripheral))
    ⊎ (((negotiate_role "aaa" "aab" ≡ central) × (negotiate_role "aab" "aaa" ≡ peripheral))
        ⊎ ((negotiate_role "aaa" "aab" ≡ peripheral) × (negotiate_role "aab" "aaa" ≡ central)))
negotiate_role-negotiate_role_example = negotiate_role-negotiate_role "aaa" "aab"
