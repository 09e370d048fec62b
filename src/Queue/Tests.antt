-- ===== src/Queue/Tests.antt =====
-- Two rooms: crates/mlink-daemon/src/queue.rs.
use mlink.Prelude.{ℕ, ◌≡◌, String, List, [], ◌∷◌, keep_last}
use mlink.Queue.{MessageEntry, new_queue, drain, queue_len, max_messages_per_room}
use mlink.Queue.Fifo.{push_messages, of_room, drain-push_messages}

abbrev entry : String → ℕ → MessageEntry ℕ
entry room n = record { room = room; from = "peer"; payload = n; ts = n }

abbrev entries : List (MessageEntry ℕ)
entries = entry "a" 1 ∷ entry "b" 2 ∷ entry "a" 3 ∷ []

drain-push_messages_example :
    ((drain (push_messages new_queue entries) "a").0
      ≡ keep_last max_messages_per_room (of_room "a" entries))
    × (queue_len (drain (push_messages new_queue entries) "a").1 "a" ≡ 0)
drain-push_messages_example = drain-push_messages "a" entries
