-- ===== src/Session/Recv/Delivery.antt =====
-- Messages through the whole receive path: sent over any links, repeated and out of order.
use mlink.Prelude.{
  ℕ, ◌+◌, ◌%◌, ◌^◌, ◌<◌, ◌≡◌, refl, arith, List, [], ◌∷◌, map, length, false, if◌then◌else◌, ap,
  ◌∙◌, String, All,
}
use mlink.Link.{record_success}
use mlink.Protocol.Seq.{Observation, observe, u32_mod, new_window, DedupWindow}
use mlink.Protocol.Seq.Window.{contains}
use mlink.Protocol.Seq.Stream.{deliver, keep, NoRepeat, InHalf, NotLate, deliver_exactly_once}
use mlink.Session.State.{Session, Env, now, update_link}
use mlink.Session.Recv.{
  maybe_flush_ack, read_any, waited, ReadEvent, received, ReadOutcome, msg, continue,
  all_links_gone, no_links,
}
use mlink.Session.Recv.Frames.{
  encode_message, handle_bytes-message, outcome_of, maybe_flush_ack-SameRead, no_links-update_link,
}

abbrev gathered : ReadOutcome → List (ℕ × List ℕ) → List (ℕ × List ℕ)
gathered (msg seq payload) got = (seq, payload) ∷ got
gathered continue got = got
gathered all_links_gone got = got

-- A caller that asks for one message after the other: the rounds of `recv`, taken up again after each
-- message. All the messages that it gets for the events, the last one first.
unfoldable pub listen : Env → Session → List (ℕ × List ℕ) → List ReadEvent → List (ℕ × List ℕ)
unfolding read_any
listen env s got [] = got
listen env s got (e ∷ es) =
    let (o, s2) = read_any env (maybe_flush_ack env s) e in
    let rest = listen env s2 (gathered o got) es in if no_links s.links then got else rest

module _ (payload_of : ℕ → List ℕ) where
  -- Message `n` arrives over a link.
  abbrev pub arrival : String × ℕ → ReadEvent
  arrival (id, n) = received id (encode_message (n % u32_mod) (payload_of n))

  abbrev pub message_of : ℕ → ℕ × List ℕ
  message_of n = (n % u32_mod, payload_of n)

  gathered-keep :
      (o : Observation) (n : ℕ) (got : List ℕ)
      → gathered (outcome_of (n % u32_mod) (payload_of n) o) (map message_of got)
        ≡ map message_of (keep o n got)
  gathered-keep Observation.accept n got = refl
  gathered-keep Observation.duplicate n got = refl
  gathered-keep Observation.stale n got = refl

  module _ (fits : (n : ℕ) → length (payload_of n) + 4 < 2 ^ 16) (env : Env) where
    read_arrival :
        (s : Session) (id : String) (n : ℕ)
        → ((read_any env s (arrival (id, n))).0
            ≡ outcome_of (n % u32_mod) (payload_of n) (observe s.dedup (n % u32_mod)).0)
          × ((read_any env s (arrival (id, n))).1.dedup ≡ (observe s.dedup (n % u32_mod)).1)
          × (no_links (read_any env s (arrival (id, n))).1.links ≡ no_links s.links)
    unfolding read_any
    read_arrival s id n =
        let s' : Session = record (waited s) {
          links = update_link id (λ l. record_success l (now env (waited s))) s.links;
        } in
        let (o, same) =
          handle_bytes-message env s' (n % u32_mod) (payload_of n) (omega arith) (fits n) in
        (
          o,
          same.dedup_eq,
          same.no_links_eq
              ∙ no_links-update_link id (λ l. record_success l (now env (waited s))) s.links,
        )

    -- One round: the acknowledgements that are due, then the arrival.
    round_arrival :
        (s : Session) (id : String) (n : ℕ)
        → ((read_any env (maybe_flush_ack env s) (arrival (id, n))).0
            ≡ outcome_of (n % u32_mod) (payload_of n) (observe s.dedup (n % u32_mod)).0)
          × ((read_any env (maybe_flush_ack env s) (arrival (id, n))).1.dedup
              ≡ (observe s.dedup (n % u32_mod)).1)
          × (no_links (read_any env (maybe_flush_ack env s) (arrival (id, n))).1.links
              ≡ no_links s.links)
    round_arrival s id n =
        let same = maybe_flush_ack-SameRead env s in
        let (o, d, l) = read_arrival (maybe_flush_ack env s) id n in
        (
          o
              ∙ ap
                  (λ (w : DedupWindow).
                    outcome_of (n % u32_mod) (payload_of n) (observe w (n % u32_mod)).0)
                  same.dedup_eq,
          d ∙ ap (λ (w : DedupWindow). (observe w (n % u32_mod)).1) same.dedup_eq,
          l ∙ same.no_links_eq,
        )

    listen-step :
        (s : Session) (got : List (ℕ × List ℕ)) (e : ReadEvent) (es : List ReadEvent)
        → no_links s.links ≡ false
        → listen env s got (e ∷ es)
          ≡ listen env
              (read_any env (maybe_flush_ack env s) e).1
              (gathered (read_any env (maybe_flush_ack env s) e).0 got)
              es
    unfolding listen
    listen-step s got e es h = rw h

    listen-deliver :
        (ns : List (String × ℕ)) (s : Session) (got : List ℕ)
        → no_links s.links ≡ false
        → listen env s (map message_of got) (map arrival ns)
          ≡ map message_of (deliver s.dedup got (map (λ x. x.1) ns))
    unfolding deliver
    listen-deliver [] s got h = unfold listen in refl
    listen-deliver ((id, n) ∷ ns) s got h =
        let s2 = (read_any env (maybe_flush_ack env s) (arrival (id, n))).1 in
        let (o, d, l) = round_arrival s id n in
        let got' = keep (observe s.dedup (n % u32_mod)).0 n got in
        listen-step s (map message_of got) (arrival (id, n)) (map arrival ns) h
        ∙ ap (λ g. listen env s2 g (map arrival ns))
            (ap (λ (p : ReadOutcome). gathered p (map message_of got)) o
              ∙ gathered-keep (observe s.dedup (n % u32_mod)).0 n got)
        ∙ listen-deliver ns s2 got' (l ∙ h)
        ∙ ap (λ (w : DedupWindow). map message_of (deliver w got' (map (λ x. x.1) ns))) d

    -- If the numbers that arrive lie in one half of the number space and each is less than 128
    -- behind the largest before it, then over whatever links they come, in whatever order and
    -- however often, the caller gets each message once, with its payload, and no other.
    pub listen_exactly_once :
        (s : Session) (b : ℕ) (first : String × ℕ) (ns : List (String × ℕ))
        → no_links s.links ≡ false
        → s.dedup ≡ new_window
        → All (InHalf b) (map (λ x. x.1) (first ∷ ns))
        → NotLate first.1 (map (λ x. x.1) ns)
        → (got : List ℕ) × (listen env s [] (map arrival (first ∷ ns)) ≡ map message_of got)
          × NoRepeat got
          × ((m : ℕ) → contains got m ≡ contains (map (λ x. x.1) (first ∷ ns)) m)
    listen_exactly_once s b first ns h fresh half late =
        let (once, all) = deliver_exactly_once b first.1 (map (λ x. x.1) ns) half late in
        (
          deliver new_window [] (map (λ x. x.1) (first ∷ ns)),
          listen-deliver (first ∷ ns) s [] h
              ∙ ap
                  (λ (w : DedupWindow). map message_of (deliver w [] (map (λ x. x.1) (first ∷ ns))))
                  fresh,
          once,
          all,
        )
