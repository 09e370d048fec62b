-- ===== src/Queue.antt =====
-- crates/mlink-daemon/src/queue.rs: messages that wait for a client, by room.
-- The payload, a JSON value that the queue never looks at, is a parameter.
pub mod Fifo
mod Tests
use mlink.Prelude.{
  ℕ, String, List, [], ◌∷◌, ◌++◌, Option, none, some, if◌then◌else◌, leb, length, lookup, insert,
  delete,
}

abbrev pub max_messages_per_room : ℕ
max_messages_per_room = 500

pub record MessageEntry {ℓ} (Value : Type ℓ) : Type ℓ where
  pub room : String
  pub from : String
  pub payload : Value
  pub ts : ℕ

pub record MessageQueue {ℓ} (Value : Type ℓ) : Type ℓ where
  pub queues : List (String × List (MessageEntry Value))

module _ {ℓ} {Value : Type ℓ} where
  abbrev pub new_queue : MessageQueue Value
  new_queue = record { queues = [] }

  -- `or_default`, `unwrap_or(0)`.
  abbrev pub or_default : Option (List (MessageEntry Value)) → List (MessageEntry Value)
  or_default none = []
  or_default (some b) = b

  abbrev pub bucket_of : String → MessageQueue Value → List (MessageEntry Value)
  bucket_of room q = or_default (lookup room q.queues)

  abbrev without_first : List (MessageEntry Value) → List (MessageEntry Value)
  without_first [] = []
  without_first (e ∷ es) = es

  unfoldable pub push_bucket :
      List (MessageEntry Value) → MessageEntry Value → List (MessageEntry Value)
  push_bucket b entry =
      (if leb max_messages_per_room (length b) then without_first b else b) ++ (entry ∷ [])

  unfoldable pub push_message : MessageQueue Value → MessageEntry Value → MessageQueue Value
  unfolding push_bucket
  push_message q entry = record {
    queues = insert entry.room (push_bucket (bucket_of entry.room q) entry) q.queues;
  }

  -- A bucket that is drained stays, empty.
  abbrev pub drained :
      MessageQueue Value
      → String
      → Option (List (MessageEntry Value))
      → List (MessageEntry Value) × MessageQueue Value
  drained q room none = ([], q)
  drained q room (some b) = (b, record { queues = insert room [] q.queues })

  unfoldable pub drain :
      MessageQueue Value → String → List (MessageEntry Value) × MessageQueue Value
  drain q room = drained q room (lookup room q.queues)

  unfoldable pub queue_len : MessageQueue Value → String → ℕ
  queue_len q room = length (bucket_of room q)

  unfoldable pub remove_room : MessageQueue Value → String → MessageQueue Value
  remove_room q room = record { queues = delete room q.queues }
