-- ===== src/Streams/Ids.antt =====
-- Which numbers the two ends of a connection give to their streams.
use mlink.Prelude.{
  ℕ, ◌+◌, ◌%◌, ◌^◌, ◌≡◌, ◌≢◌, refl, ap, ◌∙◌, arith, inl, inr, String, List, [], ◌∷◌,
}
use mlink.Connection.{Role, central, peripheral, negotiate_role}
use mlink.Connection.Roles.{negotiate_role-negotiate_role}
use mlink.Streams.{Counters, first_counters, next_stream_id}

-- The counters of a node that has opened streams in these roles, with whatever peers.
abbrev pub counters_after : List Role → Counters → Counters
counters_after [] c = c
counters_after (r ∷ rs) c = counters_after rs (next_stream_id r c).1

-- The number of the next stream of a node with this history, in a role.
abbrev pub next_after : List Role → Role → ℕ
next_after history role = (next_stream_id role (counters_after history first_counters)).0

abbrev parity : Role → ℕ
parity central = 0
parity peripheral = 1

record Apart (c : Counters) : Type 0 where
  even : c.of_central % 2 ≡ 0
  odd : c.of_peripheral % 2 ≡ 1

wrapped : (n p : ℕ) → n % 2 ≡ p → (n + 2) % 2 ^ 16 % 2 ≡ p
wrapped n p h = omega arith

step-Apart : (r : Role) (c : Counters) → Apart c → Apart (next_stream_id r c).1
unfolding next_stream_id
step-Apart central c h = record { even = wrapped c.of_central 0 h.even; odd = h.odd }
step-Apart peripheral c h = record { even = h.even; odd = wrapped c.of_peripheral 1 h.odd }

counters_after-Apart : (rs : List Role) (c : Counters) → Apart c → Apart (counters_after rs c)
counters_after-Apart [] c h = h
counters_after-Apart (r ∷ rs) c h =
    counters_after-Apart rs (next_stream_id r c).1 (step-Apart r c h)

next_stream_id-parity : (r : Role) (c : Counters) → Apart c → (next_stream_id r c).0 % 2 ≡ parity r
unfolding next_stream_id
next_stream_id-parity central c h = h.even
next_stream_id-parity peripheral c h = h.odd

next_after-parity : (rs : List Role) (r : Role) → next_after rs r % 2 ≡ parity r
next_after-parity rs r =
    next_stream_id-parity r (counters_after rs first_counters)
      (counters_after-Apart rs first_counters (record { even = refl; odd = refl }))

parity_of : (rs : List Role) (r q : Role) → r ≡ q → next_after rs r % 2 ≡ parity q
parity_of rs r q e = next_after-parity rs r ∙ ap parity e

-- Two ends with different identifiers, each in the role that it negotiates over its own and the other's
-- identifier: whatever streams each has opened before, in either role and with the counters wrapped
-- or not, the number that one gives to its next stream is never the one that the other gives to its
-- own.
pub next_stream_id-negotiate_role :
    (a b : String) (history_a history_b : List Role)
    → a ≢ b
    → next_after history_a (negotiate_role a b) ≢ next_after history_b (negotiate_role b a)
next_stream_id-negotiate_role a b history_a history_b differ same =
    elim (negotiate_role-negotiate_role a b) [
      | inl (equal, _, _) ↦ differ equal
      | inr (inl (ra, rb)) ↦ absurd (
          omega (
            arith,
            same,
            parity_of history_a (negotiate_role a b) central ra,
            parity_of history_b (negotiate_role b a) peripheral rb,
          ))
      | inr (inr (ra, rb)) ↦ absurd (
          omega (
            arith,
            same,
            parity_of history_a (negotiate_role a b) peripheral ra,
            parity_of history_b (negotiate_role b a) central rb,
          ))
    ]
