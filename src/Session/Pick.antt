-- ===== src/Session/Pick.antt =====
-- crates/mlink-core/src/core/session/io.rs: the inline scheduler of a session, which picks the link to
-- write over.
pub mod Scheduler
use mlink.Prelude.{
  ℕ, zero, suc, ◌+◌, ◌-◌, ◌%◌, ◌^◌, ◌<◌, String, List, [], ◌∷◌, ◌++◌, Bool, true, false, not,
  Option, none, some, if◌then◌else◌, ltb, leb, ◌==◌, ◌&&◌, min, find, retain, str_eq, length,
  to_be_bytes, map,
}
use mlink.Prelude.Int.{ℤ, leb_ℤ}
use mlink.Link.{Link, LinkHealth, TransportKind, score, is_healthy}
use mlink.Protocol.Errors.{
  Result, ok, err, MlinkError, no_healthy_link, payload_too_large, security_error, aes_key_length,
  ◌>>=◌,
}
use mlink.Protocol.Types.{MessageType, Frame, encode_flags, magic_number, protocol_version}
use mlink.Protocol.Frame.{encode_frame}
use mlink.Protocol.Seq.{next_seq}
use mlink.Protocol.Ack.{AckFrame, push, ack_cum, sack, unacked_since}
use mlink.Session.State.{
  Session, Env, SessionEvent, switched, SwitchCause, active_failed, LinkStatus, LinkRole,
  active_role, standby_role, PendingFrame, SchedulerState, now, emit, link_by_id, link_send,
  switchback_hysteresis,
}

abbrev pub or_empty : Option String → String
or_empty none = ""
or_empty (some id) = id

abbrev pub better : Link → Option Link → Option Link
better l none = some l
better l (some m) = if leb_ℤ (score l) (score m) then some m else some l

-- The last of the links with the largest score (`max_by_key`).
unfoldable pub max_by_score : List Link → Option Link
max_by_score [] = none
max_by_score (l ∷ ls) = better l (max_by_score ls)

abbrev pub eligible : Env → Session → String → Link → Bool
eligible env s exclude_id l = not (str_eq l.id exclude_id) && is_healthy l (now env s)

abbrev pub id_of : Option Link → Option String
id_of none = none
id_of (some l) = some (l.id)

unfoldable pub best_excluding : Env → Session → String → Option String
unfolding max_by_score
best_excluding env s exclude_id = id_of (max_by_score (retain (eligible env s exclude_id) s.links))

abbrev pub pick_best : Env → Session → Option String
pick_best env s = best_excluding env s ""

-- The second half of `current_or_pick`: the best link, made active if none was.
abbrev pub pin : Session → String → Session
pin s id = elim s.active [ none ↦ record s { active = some id } | some a ↦ s ]

abbrev pub pick : Env → Session → Option String → Option Link × Session
pick env s none = (none, s)
pick env s (some id) = (link_by_id s id, pin s id)

abbrev pub healthy_or : Env → Session → Option Link → Option Link × Session
healthy_or env s none = pick env s (pick_best env s)
healthy_or env s (some l) =
    if is_healthy l (now env s) then (some l, s) else pick env s (pick_best env s)

unfoldable pub current_or_pick : Env → Session → Option Link × Session
unfolding best_excluding link_by_id
current_or_pick env s = elim s.active [
  | none ↦ pick env s (pick_best env s)
  | some id ↦ healthy_or env s (link_by_id s id)
]

abbrev pub promote : Session → Option String → Option String × Session
promote s none = (none, s)
promote s (some next_id) = (
  some next_id,
  emit (record s { active = some next_id })
      (switched s.peer_id (or_empty s.active) next_id active_failed),
)

-- The cause that the source returns too is always `active_failed`.
unfoldable pub promote_on_failure : Env → Session → String → Option String × Session
unfolding best_excluding
promote_on_failure env s failing_id = promote s (best_excluding env s failing_id)

-- `HashMap::remove`, and `entry(k).or_insert(0)` with a saturating increment of a `u8`.
abbrev pub remove_streak : String → List (String × ℕ) → List (String × ℕ)
remove_streak k m = retain (λ e. not (str_eq e.0 k)) m

abbrev pub bump_streak : String → List (String × ℕ) → List (String × ℕ)
bump_streak k [] = (k, 1) ∷ []
bump_streak k ((j, n) ∷ m) =
    if str_eq j k then (j, min (n + 1) 255) ∷ m else (j, n) ∷ bump_streak k m

abbrev pub streak : String → List (String × ℕ) → ℕ
streak k [] = 0
streak k ((j, n) ∷ m) = if str_eq j k then n else streak k m

unfoldable pub should_switchback : Session → String → String → Bool × Session
should_switchback s current best =
    let st = s.sched_state in
    if str_eq current best
    then (
      false,
      record s { sched_state = record st { better_streak = remove_streak best st.better_streak } },
    )
    else (let bumped = bump_streak best st.better_streak in
        (
          leb switchback_hysteresis (streak best bumped),
          record s { sched_state = record st { better_streak = bumped } },
        ))
