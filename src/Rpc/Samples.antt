-- ===== src/Rpc/Samples.antt =====
-- A codec whose texts and records can be read back: a text is its characters' numbers, each one more,
-- up to a zero.
use Prim.Native.Nat.{ℕ, zero, suc, Ordering, compare}
use Prim.Native.Char.{Char, char, code, IsLt}
use Prim.Native.String.{String, [], ◌∷◌}
use mathlib.Core.List.{List}
use mathlib.Core.Path.{◌≡◌, refl, ap, ◌∙◌}
use mathlib.Core.Option.{Option, none, some}
use mlink.Protocol.Errors.{Result, ok, err, timeout}
use mlink.Rpc.{RpcRequest, RpcResponse}
use mlink.Rpc.Dispatch.{RpcCodec}
use mlink.Rpc.Calls.{Faithful}

abbrev Both : Ordering → Ordering → Type 0
Both Ordering.lt o = IsLt o
Both Ordering.eq o = ⊥
Both Ordering.gt o = ⊥

abbrev Scalar : Ordering → Ordering → Ordering → Type 0
Scalar Ordering.lt o p = Unit
Scalar Ordering.eq o p = Both o p
Scalar Ordering.gt o p = Both o p

abbrev made_of : (o p : Ordering) → (Both o p → Char) → Option Char
made_of Ordering.lt Ordering.lt f = some (f tt)
made_of Ordering.lt p f = none
made_of Ordering.eq p f = none
made_of Ordering.gt p f = none

abbrev made : (o p q : Ordering) → (Scalar o p q → Char) → Option Char
made Ordering.lt p q f = some (f tt)
made Ordering.eq p q f = made_of p q f
made Ordering.gt p q f = made_of p q f

abbrev char_at : ℕ → Option Char
char_at n = made (compare n 55296) (compare 57343 n) (compare n 1114112) (λ k. char n k)

made_of-eq : (o p : Ordering) (f : Both o p → Char) (k : Both o p) → made_of o p f ≡ some (f k)
made_of-eq Ordering.lt Ordering.lt f k = refl
made_of-eq Ordering.lt Ordering.eq f k = elim k [ ]
made_of-eq Ordering.lt Ordering.gt f k = elim k [ ]
made_of-eq Ordering.eq p f k = elim k [ ]
made_of-eq Ordering.gt p f k = elim k [ ]

made-eq :
    (o p q : Ordering) (f : Scalar o p q → Char) (k : Scalar o p q) → made o p q f ≡ some (f k)
made-eq Ordering.lt p q f k = refl
made-eq Ordering.eq p q f k = made_of-eq p q f k
made-eq Ordering.gt p q f k = made_of-eq p q f k

char_at-code : (c : Char) → char_at (code c) ≡ some c
char_at-code (char n k) = made-eq _ _ _ (λ k'. char n k') k

abbrev text_before : String → List ℕ → List ℕ
text_before [] rest = List.◌∷◌ 0 rest
text_before (c ∷ s) rest = List.◌∷◌ (suc (code c)) (text_before s rest)

abbrev cons : Option Char → Option (String × List ℕ) → Option (String × List ℕ)
cons none r = none
cons (some c) none = none
cons (some c) (some (s, rest)) = some (c ∷ s, rest)

abbrev read_text : List ℕ → Option (String × List ℕ)
read_text List.[] = none
read_text (List.◌∷◌ zero rest) = some ([], rest)
read_text (List.◌∷◌ (suc n) rest) = cons (char_at n) (read_text rest)

read_text-text_before :
    (s : String) (rest : List ℕ) → read_text (text_before s rest) ≡ some (s, rest)
read_text-text_before [] rest = refl
read_text-text_before (c ∷ s) rest =
    ap (λ o. cons o (read_text (text_before s rest))) (char_at-code c)
    ∙ ap (cons (some c)) (read_text-text_before s rest)

abbrev text_alone : Option (String × List ℕ) → Option String
text_alone none = none
text_alone (some (s, rest)) = some s

abbrev request_by : ℕ → Option (String × List ℕ) → Result RpcRequest
request_by id none = err timeout
request_by id (some (s, rest)) = ok (record { request_id = id; method = s; bytes = rest })

abbrev request_in : List ℕ → Result RpcRequest
request_in List.[] = err timeout
request_in (List.◌∷◌ id rest) = request_by id (read_text rest)

abbrev response_in : List ℕ → Result RpcResponse
response_in List.[] = err timeout
response_in (List.◌∷◌ id List.[]) = err timeout
response_in (List.◌∷◌ id (List.◌∷◌ status rest)) =
    ok (record { request_id = id; status = status; bytes = rest })

abbrev request_out : RpcRequest → List ℕ
request_out r = List.◌∷◌ r.request_id (text_before r.method r.bytes)

abbrev response_out : RpcResponse → List ℕ
response_out r = List.◌∷◌ r.request_id (List.◌∷◌ r.status r.bytes)

abbrev pub codec : RpcCodec
codec = record {
  encode_request = λ r. ok (request_out r);
  decode_request = request_in;
  encode_response = λ r. ok (response_out r);
  decode_response = response_in;
  bytes_of_text = λ s. text_before s List.[];
  from_utf8 = λ bytes. text_alone (read_text bytes);
  display = λ e. "error";
}

pub codec-Faithful : Faithful codec
codec-Faithful = record {
  request_bytes = request_out;
  response_bytes = response_out;
  request_eq = λ r. refl;
  request_back = λ r. ap (request_by r.request_id) (read_text-text_before r.method r.bytes);
  response_eq = λ r. refl;
  response_back = λ r. refl;
  text_back = λ s. ap text_alone (read_text-text_before s List.[]);
}
