-- ===== src/Transport/Framed/RoundTrip.antt =====
-- What a reader reads of the messages that a writer wrote.
use mlink.Prelude.{
  ℕ, zero, suc, ◌^◌, ◌<◌, ◌≡◌, refl, sym, ap, ◌∙◌, arith, List, [], ◌∷◌, ◌++◌, map, Option, none,
  some, length, length-append, drop, take-length_append, All, to_be_bytes,
  from_be_bytes-to_be_bytes,
}
use mathlib.Core.List.{append_assoc, append-nil}
use mlink.Protocol.Errors.{Result, ok, err, io}
use mlink.Transport.Framed.{
  WriteHalf, StreamConnection, read, write, read_exact, write_all, set_inbound, set_writer,
}

-- The bytes of one message.
abbrev pub framed : List ℕ → List ℕ
framed payload = to_be_bytes 4 (length payload) ++ payload

pub drop-length_append {ℓ} : {A : Type ℓ} (xs ys : List A) → drop (length xs) (xs ++ ys) ≡ ys
drop-length_append [] ys = refl
drop-length_append (x ∷ xs) ys = drop-length_append xs ys

pub read_exact-append :
    (n : ℕ) (xs rest : List ℕ) → length xs ≡ n → read_exact n (xs ++ rest) ≡ (ok xs, rest)
unfolding read_exact
read_exact-append n xs rest e =
    rw (← e) (
      ground (arith, length-append xs rest, take-length_append xs rest, drop-length_append xs rest))

pub append-four :
    (head payload rest : List ℕ) → (head ++ payload) ++ rest ≡ head ++ (payload ++ rest)
append-four head payload rest = append_assoc head payload rest

-- A whole message is read, and what follows it is left.
pub read-framed :
    (c : StreamConnection) (payload rest : List ℕ)
    → length payload < 2 ^ 32
    → read (set_inbound c (framed payload ++ rest)) ≡ (ok payload, set_inbound c rest)
unfolding read read_exact
read-framed c [] rest h = ground arith
read-framed c (x ∷ xs) rest h = ground (
  arith,
  from_be_bytes-to_be_bytes 4 (length (x ∷ xs)),
  length-append xs rest,
  take-length_append xs rest,
  drop-length_append xs rest,
)

pub read-framed_alone :
    (c : StreamConnection) (payload : List ℕ)
    → length payload < 2 ^ 32
    → read (set_inbound c (framed payload)) ≡ (ok payload, set_inbound c [])
read-framed_alone c payload h =
    ap (λ b. read (set_inbound c b)) (sym (append-nil (framed payload)))
    ∙ read-framed c payload [] h

-- A writer that does not fail adds the bytes of the message.
pub write-framed :
    (c : StreamConnection) (sent payload : List ℕ)
    → length payload < 2 ^ 32
    → write (set_writer c (record { sent = sent; fault = none })) payload
      ≡ (ok tt, set_writer c (record { sent = sent ++ framed payload; fault = none }))
unfolding write write_all
write-framed c sent [] h = refl
write-framed c sent (x ∷ xs) h =
    ground (arith, append_assoc sent (to_be_bytes 4 (length (x ∷ xs))) (x ∷ xs))

pub write_each : StreamConnection → List (List ℕ) → StreamConnection
write_each c [] = c
write_each c (m ∷ ms) = write_each (write c m).1 ms

pub read_each : ℕ → StreamConnection → List (Result (List ℕ)) × StreamConnection
read_each zero c = ([], c)
read_each (suc n) c = let r = read c in let rs = read_each n r.1 in (r.0 ∷ rs.0, rs.1)

all_framed : List (List ℕ) → List ℕ
all_framed [] = []
all_framed (m ∷ ms) = framed m ++ all_framed ms

write_each-sent :
    (c : StreamConnection) (sent : List ℕ) (ms : List (List ℕ))
    → All (λ m. length m < 2 ^ 32) ms
    → write_each (set_writer c (record { sent = sent; fault = none })) ms
      ≡ set_writer c (record { sent = sent ++ all_framed ms; fault = none })
unfolding write_each all_framed
write_each-sent c sent [] h =
    ap (λ s. set_writer c (record { sent = s; fault = none })) (sym (append-nil sent))
write_each-sent c sent (m ∷ ms) h =
    ap (λ r. write_each r.1 ms) (write-framed c sent m h.0)
    ∙ write_each-sent c (sent ++ framed m) ms h.1
    ∙ ap (λ s. set_writer c (record { sent = s; fault = none }))
        (append_assoc sent (framed m) (all_framed ms))

read_each-framed :
    (c : StreamConnection) (ms : List (List ℕ)) (rest : List ℕ)
    → All (λ m. length m < 2 ^ 32) ms
    → read_each (length ms) (set_inbound c (all_framed ms ++ rest))
      ≡ (map (λ m. ok m) ms, set_inbound c rest)
unfolding read_each all_framed
read_each-framed c [] rest h = refl
read_each-framed c (m ∷ ms) rest h =
    ap (λ r. ((r.0 ∷ (read_each (length ms) r.1).0), (read_each (length ms) r.1).1))
      (ap (λ b. read (set_inbound c b)) (append_assoc (framed m) (all_framed ms) rest)
        ∙ read-framed c m (all_framed ms ++ rest) h.0)
    ∙ ap (λ rs. (ok m ∷ rs.0, rs.1)) (read_each-framed c ms rest h.1)

abbrev pub taken_bytes : Option WriteHalf → List ℕ
taken_bytes none = []
taken_bytes (some w) = w.sent

abbrev pub fresh_writer : WriteHalf
fresh_writer = record { sent = []; fault = none }

-- The messages that one end writes, each shorter than 2 ^ 32 bytes, are read at the other end in
-- the same order and with the same boundaries, and nothing is left: the read after them fails, with
-- the text of a stream that has ended.
pub read_each-write_each :
    (a b : StreamConnection) (ms : List (List ℕ))
    → All (λ m. length m < 2 ^ 32) ms
    → (read_each
          (length ms)
          (set_inbound b (taken_bytes (write_each (set_writer a fresh_writer) ms).write_half))
        ≡ (map (λ m. ok m) ms, set_inbound b []))
      × (read (set_inbound b []) ≡ (err (io "early eof"), set_inbound b []))
read_each-write_each a b ms h = (
  ap (λ w. read_each (length ms) (set_inbound b (taken_bytes w.write_half)))
        (write_each-sent a [] ms h)
      ∙ ap (λ t. read_each (length ms) (set_inbound b t)) (sym (append-nil (all_framed ms)))
      ∙ read_each-framed b ms [] h,
  (unfold read in unfold read_exact in ground arith),
)
