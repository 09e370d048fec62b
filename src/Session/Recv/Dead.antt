-- ===== src/Session/Recv/Dead.antt =====
-- Reads that fail: when `recv` gives up, and when it goes on waiting.
use mlink.Prelude.{
  ◌≡◌, refl, sym, arith, List, [], ◌∷◌, ◌++◌, map, any, Bool, true, false, not, none, some,
  if◌then◌else◌, ap, ◌∙◌, String, str_eq, Bool-cases, inl, inr,
}
use mlink.Link.{Link, record_error}
use mlink.Protocol.Errors.{MlinkError, err, no_healthy_link}
use mlink.Session.State.{Session, Env, update_link, link_removed}
use mlink.Session.Recv.{
  maybe_flush_ack, read_any, ReadEvent, failed, continue, all_links_gone, no_links, recv, settle,
}
use mlink.Session.Recv.Frames.{names, names-update_link, maybe_flush_ack-SameRead}

-- A link of another name.
abbrev pub has_other : String → List Link → Bool
has_other id ls = any (λ l. not (str_eq l.id id)) ls

has_other-names :
    (id : String) (ls ks : List Link) → names ls ≡ names ks → has_other id ls ≡ has_other id ks
has_other-names id ls ks h =
    on_names id ls ∙ ap (λ ns. any (λ n. not (str_eq n id)) ns) h ∙ sym (on_names id ks)
  where
    on_names :
        (id : String) (ls : List Link) → has_other id ls ≡ any (λ n. not (str_eq n id)) (names ls)
    on_names id [] = refl
    on_names id (l ∷ ls) = ground (arith, on_names id ls)

no_links-has_other : (id : String) (ls : List Link) → has_other id ls ≡ true → no_links ls ≡ false
no_links-has_other id [] h = cc
no_links-has_other id (l ∷ ls) h = refl

id-record_error : (l : Link) → (record_error l).id ≡ l.id
unfolding record_error
id-record_error l = refl

-- The events of reads that fail.
abbrev pub failures : List (String × MlinkError) → List ReadEvent
failures fs = map (λ f. failed f.0 f.1) fs

module _ (env : Env) where
  read_failed :
      (s : Session) (id : String) (e : MlinkError)
      → ((read_any env s (failed id e)).0
          ≡ (if has_other id s.links then continue else all_links_gone))
        × (names (read_any env s (failed id e)).1.links ≡ names s.links)
        × ((read_any env s (failed id e)).1.events
            ≡ s.events ++ (link_removed s.peer_id id "recv_error" ∷ []))
        × ((read_any env s (failed id e)).1.peer_id ≡ s.peer_id)
  unfolding read_any
  read_failed s id e =
      let same = names-update_link id record_error s.links id-record_error in
      let other = has_other-names id (update_link id record_error s.links) s.links same in
      rw other (ground (arith, same))

  recv-step :
      (s : Session) (e : ReadEvent) (es : List ReadEvent)
      → no_links s.links ≡ false
      → recv env s (e ∷ es)
        ≡ settle
            (read_any env (maybe_flush_ack env s) e).0
            (read_any env (maybe_flush_ack env s) e).1
            (recv env (read_any env (maybe_flush_ack env s) e).1 es)
  unfolding recv
  recv-step s e es h = rw h

  -- Where there are links of two names, no number of failed reads makes `recv` return: it waits for
  -- further events.
  pub recv_waits :
      (fs : List (String × MlinkError)) (s : Session)
      → ((id : String) → has_other id s.links ≡ true)
      → (recv env s (failures fs)).0 ≡ none
  recv_waits [] s two = unfold recv in rw (no_links-has_other "" s.links (two ""))
  recv_waits ((id, e) ∷ fs) s two =
      let s1 = maybe_flush_ack env s in
      let s2 = (read_any env s1 (failed id e)).1 in
      let same = (maybe_flush_ack-SameRead env s).names_eq in
      let (o, n, _, _) = read_failed s1 id e in
      let q : (read_any env s1 (failed id e)).0 ≡ continue =
        o ∙ rw (has_other-names id s1.links s.links same, two id) in
      rw (recv-step s (failed id e) (failures fs) (no_links-has_other "" s.links (two "")), q)
        (recv_waits fs s2 (λ k. has_other-names k s2.links s.links (n ∙ same) ∙ two k))

  -- Where all links have one name, the failure of its read ends `recv` with the error that no
  -- healthy link is there; with no link at all it ends so at once.
  pub recv_gives_up :
      (s : Session) (id : String) (e : MlinkError) (es : List ReadEvent)
      → has_other id s.links ≡ false
      → (recv env s (failed id e ∷ es)).0 ≡ some (err (no_healthy_link (s.peer_id)))
  recv_gives_up s id e es h = elim (Bool-cases (no_links s.links)) [
    | inl q ↦ unfold recv in rw q
    | inr q ↦
        let s1 = maybe_flush_ack env s in
        let same = maybe_flush_ack-SameRead env s in
        let (o, _, _, p) = read_failed s1 id e in
        let gone : (read_any env s1 (failed id e)).0 ≡ all_links_gone =
          o ∙ rw (has_other-names id s1.links s.links same.names_eq, h) in
        rw (recv-step s (failed id e) es q, gone, p ∙ same.peer_id_eq)
  ]
