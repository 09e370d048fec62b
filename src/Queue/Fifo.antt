-- ===== src/Queue/Fifo.antt =====
-- What a room's queue holds after any messages.
use mlink.Prelude.{
  ℕ, ◌-◌, ◌≤◌, ◌<◌, ◌≡◌, refl, arith, ap, ◌∙◌, String, List, [], ◌∷◌, ◌++◌, Bool, true, false,
  Option, none, some, if◌then◌else◌, leb, length, length-append, length-drop, drop, retain, str_eq,
  eq_iff, str_eq_refl, lookup, lookup-insert, keep_last, keep_last_twice, Bool-cases, inl, inr,
}
use mathlib.Core.List.{append_assoc, append-nil}
use mlink.Queue.{
  MessageEntry, MessageQueue, new_queue, bucket_of, or_default, without_first, push_bucket,
  push_message, drain, drained, queue_len, max_messages_per_room,
}

module _ {ℓ} {Value : Type ℓ} where
  abbrev pub push_messages : MessageQueue Value → List (MessageEntry Value) → MessageQueue Value
  push_messages q [] = q
  push_messages q (e ∷ es) = push_messages (push_message q e) es

  without_first-append :
      (b ys : List (MessageEntry Value)) → 0 < length b → without_first b ++ ys ≡ drop 1 (b ++ ys)
  without_first-append [] ys h = absurd (omega arith)
  without_first-append (x ∷ b) ys h = refl

  push_bucket-keep_last :
      (b : List (MessageEntry Value)) (e : MessageEntry Value)
      → length b ≤ max_messages_per_room
      → push_bucket b e ≡ keep_last max_messages_per_room (b ++ (e ∷ []))
  unfolding push_bucket
  push_bucket-keep_last b e h = elim (Bool-cases (leb max_messages_per_room (length b))) [
    | inl full ↦
        let q : length (b ++ (e ∷ [])) - max_messages_per_room ≡ 1 =
          ground (arith, length-append b (e ∷ [])) in
        rw (full, q) (without_first-append b (e ∷ []) (ground arith))
    | inr room ↦
        let q : length (b ++ (e ∷ [])) - max_messages_per_room ≡ 0 =
          ground (arith, length-append b (e ∷ [])) in
        rw (room, q)
  ]

  or_default-if :
      (b : Bool) (x : List (MessageEntry Value)) (o : Option (List (MessageEntry Value)))
      → or_default (if b then some x else o) ≡ (if b then x else or_default o)
  or_default-if true x o = refl
  or_default-if false x o = refl

  length-keep_last : (n : ℕ) (xs : List (MessageEntry Value)) → length (keep_last n xs) ≤ n
  length-keep_last n xs = omega (arith, length-drop (length xs - n) xs)

  bucket-push :
      (q : MessageQueue Value) (e : MessageEntry Value) (room : String)
      → bucket_of room (push_message q e)
        ≡ (if str_eq e.room room then push_bucket (bucket_of e.room q) e else bucket_of room q)
  unfolding push_message
  bucket-push q e room =
      ap or_default (lookup-insert room e.room (push_bucket (bucket_of e.room q) e) q.queues)
      ∙ or_default-if (str_eq e.room room) (push_bucket (bucket_of e.room q) e)
          (lookup room q.queues)

  -- A message for the room, and one for another.
  bucket-push_same :
      (q : MessageQueue Value) (e : MessageEntry Value) (room : String)
      → str_eq e.room room ≡ true
      → length (bucket_of room q) ≤ max_messages_per_room
      → bucket_of room (push_message q e)
        ≡ keep_last max_messages_per_room (bucket_of room q ++ (e ∷ []))
  bucket-push_same q e room h k =
      bucket-push q e room
      ∙ rw h (
          ap (λ r. push_bucket (bucket_of r q) e) ((eq_iff e.room room).0 h)
          ∙ push_bucket-keep_last (bucket_of room q) e k)

  bucket-push_other :
      (q : MessageQueue Value) (e : MessageEntry Value) (room : String)
      → str_eq e.room room ≡ false
      → bucket_of room (push_message q e) ≡ bucket_of room q
  bucket-push_other q e room h = bucket-push q e room ∙ rw h

  abbrev pub of_room : String → List (MessageEntry Value) → List (MessageEntry Value)
  of_room room es = retain (λ e. str_eq e.room room) es

  bucket-push_messages :
      (room : String) (es : List (MessageEntry Value)) (q : MessageQueue Value)
      → length (bucket_of room q) ≤ max_messages_per_room
      → bucket_of room (push_messages q es)
        ≡ keep_last max_messages_per_room (bucket_of room q ++ of_room room es)
  bucket-push_messages room [] q h =
      let e : length (bucket_of room q) - max_messages_per_room ≡ 0 = omega arith in
      rw (append-nil, e)
  bucket-push_messages room (x ∷ es) q h = elim (Bool-cases (str_eq x.room room)) [
    | inl same ↦
        let b = bucket_of room q in
        let e = bucket-push_same q x room same h in
        rw same (
          bucket-push_messages room es (push_message q x)
            (rw e (length-keep_last max_messages_per_room (b ++ (x ∷ []))))
          ∙ ap (λ l. keep_last max_messages_per_room (l ++ of_room room es)) e
          ∙ keep_last_twice max_messages_per_room (b ++ (x ∷ [])) (of_room room es)
          ∙ ap (λ l. keep_last max_messages_per_room l) (append_assoc b (x ∷ []) (of_room room es)))
    | inr other ↦
        let e = bucket-push_other q x room other in
        rw other (
          bucket-push_messages room es (push_message q x) (rw e h)
          ∙ ap (λ l. keep_last max_messages_per_room (l ++ of_room room es)) e)
  ]

  drained-bucket :
      (q : MessageQueue Value) (room : String) (o : Option (List (MessageEntry Value)))
      → lookup room q.queues ≡ o
      → ((drained q room o).0 ≡ or_default o) × (queue_len (drained q room o).1 room ≡ 0)
  unfolding queue_len
  drained-bucket q room none e = (refl, rw e)
  drained-bucket q room (some b) e =
      (refl, rw (lookup-insert room room [] q.queues, str_eq_refl room))

  drain-bucket :
      (q : MessageQueue Value) (room : String)
      → ((drain q room).0 ≡ bucket_of room q) × (queue_len (drain q room).1 room ≡ 0)
  unfolding drain
  drain-bucket q room = drained-bucket q room (lookup room q.queues) refl

  -- After any messages to any rooms, draining a room gives the last 500 messages to it, in their
  -- order, and leaves none.
  pub drain-push_messages :
      (room : String) (es : List (MessageEntry Value))
      → ((drain (push_messages new_queue es) room).0
          ≡ keep_last max_messages_per_room (of_room room es))
        × (queue_len (drain (push_messages new_queue es) room).1 room ≡ 0)
  drain-push_messages room es =
      let (d, n) = drain-bucket (push_messages new_queue es) room in
      (d ∙ bucket-push_messages room es new_queue (omega arith), n)
