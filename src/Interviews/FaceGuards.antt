-- ===== src/Interviews/FaceGuards.antt =====
-- `record_proctoring_event` changes the database only for a qualified event of the current
-- connection.
use i_bot_core_api_service.Prelude.{
  ℕ, ◌≤◌, ◌⊎◌, Option-cases, arith, is_some_of, eq_iff, ◌≡◌, refl, ap, String, true, false, Option,
  none, some, ◌==◌, nat_eq, string_eq, Bool-cases, inl, inr,
}
use i_bot_core_api_service.Db.{Db, Uuid, InterviewSession, is_live, ◌>>=◌}
use i_bot_core_api_service.Repositories.Env.{Env}
use i_bot_core_api_service.Repositories.Statements.{session_by_id}
use i_bot_core_api_service.Violations.{Python}
use i_bot_core_api_service.Interviews.Rows.{locked_session}
use i_bot_core_api_service.Interviews.TabSwitch.{is_stale}
use i_bot_core_api_service.Interviews.Episodes.{FaceEvent}
use i_bot_core_api_service.Interviews.FaceRecord.{face_policy, is_unqualified}
use i_bot_core_api_service.Interviews.Proctoring.{record_proctoring_event}
use i_bot_core_api_service.Interviews.FaceEvents.{face-unqualified, face-stale}

-- What has to hold of a report before it may change anything.
pub record IsAllowed (id : Uuid) (connection_id : String) (ca_id : Uuid) (e : FaceEvent) (db : Db)
    (s : InterviewSession) : Type 0 where
  pub stored : session_by_id db id ≡ some s
  pub own : s.candidate_assessment_id ≡ ca_id
  pub live : is_live s.status ≡ true
  pub connection : s.active_connection_id ≡ some connection_id
  pub policy : ℕ × ℕ
  pub typed : face_policy e.event_type ≡ some policy
  pub long_enough : policy.0 ≤ e.observed_duration_ms
  pub qualified : is_unqualified policy.0 e ≡ false

face-missing :
    (py : Python) (env : Env) (id : Uuid) (connection_id : String) (ca_id : Uuid) (e : FaceEvent)
    (db : Db)
    → session_by_id db id ≡ none
    → (record_proctoring_event py env id connection_id ca_id e db).1 ≡ db
unfolding record_proctoring_event locked_session ◌>>=◌
face-missing py env id connection_id ca_id e db h = rw h refl

face-foreign :
    (py : Python) (env : Env) (id : Uuid) (connection_id : String) (ca_id : Uuid) (e : FaceEvent)
    (db : Db) (s : InterviewSession)
    → session_by_id db id ≡ some s
    → (s.candidate_assessment_id == ca_id) ≡ false
    → (record_proctoring_event py env id connection_id ca_id e db).1 ≡ db
unfolding record_proctoring_event locked_session ◌>>=◌
face-foreign py env id connection_id ca_id e db s h k = rw (h, k) refl

face-untyped :
    (py : Python) (env : Env) (id : Uuid) (connection_id : String) (ca_id : Uuid) (e : FaceEvent)
    (db : Db) (s : InterviewSession)
    → session_by_id db id ≡ some s
    → (s.candidate_assessment_id == ca_id) ≡ true
    → face_policy e.event_type ≡ none
    → (record_proctoring_event py env id connection_id ca_id e db).1 ≡ db
unfolding record_proctoring_event locked_session ◌>>=◌
face-untyped py env id connection_id ca_id e db s h k t = rw (h, k, t) refl

long_enough_of :
    (minimum : ℕ) (e : FaceEvent)
    → is_unqualified minimum e ≡ false
    → minimum ≤ e.observed_duration_ms
long_enough_of minimum e h = ground arith

is_some_of-eq :
    (column : Option String) (value : String) → is_some_of column value ≡ true → column ≡ some value
is_some_of-eq none value h = cc
is_some_of-eq (some text) value h = ap some ((eq_iff text value).0 h)

not_stale :
    (connection_id : String) (s : InterviewSession)
    → is_stale connection_id s ≡ false
    → is_some_of s.active_connection_id connection_id ≡ true
not_stale connection_id s h = ground arith

IsAllowed-of :
    (id : Uuid) (connection_id : String) (ca_id : Uuid) (e : FaceEvent) (db : Db)
    (s : InterviewSession) (policy : ℕ × ℕ)
    → session_by_id db id ≡ some s
    → (s.candidate_assessment_id == ca_id) ≡ true
    → face_policy e.event_type ≡ some policy
    → is_unqualified policy.0 e ≡ false
    → is_stale connection_id s ≡ false
    → IsAllowed id connection_id ca_id e db s
IsAllowed-of id connection_id ca_id e db s policy stored own typed qualified current = record {
  stored = stored;
  own = ground arith;
  live = ground arith;
  connection =
      is_some_of-eq s.active_connection_id connection_id (not_stale connection_id s current);
  policy = policy;
  typed = typed;
  long_enough = long_enough_of policy.0 e qualified;
  qualified = qualified;
}

-- A proctoring event leaves the database as it is unless it comes from the current connection of
-- a live session of that enrollment, its type has a policy, it lasted as long as the policy asks
-- for, and its evidence fits its type.
pub face-changes :
    (py : Python) (env : Env) (id : Uuid) (connection_id : String) (ca_id : Uuid) (e : FaceEvent)
    (db : Db)
    → ((record_proctoring_event py env id connection_id ca_id e db).1 ≡ db)
      ⊎ ((s : InterviewSession) × IsAllowed id connection_id ca_id e db s)
face-changes py env id connection_id ca_id e db = elim (Option-cases (session_by_id db id)) [
  | inl missing ↦ inl (face-missing py env id connection_id ca_id e db missing)
  | inr (s, stored) ↦ elim (Bool-cases (s.candidate_assessment_id == ca_id)) [
    | inr foreign ↦ inl (face-foreign py env id connection_id ca_id e db s stored foreign)
    | inl own ↦ elim (Option-cases (face_policy e.event_type)) [
      | inl untyped ↦ inl (face-untyped py env id connection_id ca_id e db s stored own untyped)
      | inr (policy, typed) ↦ elim (Bool-cases (is_unqualified policy.0 e)) [
        | inl unqualified ↦ inl (
            ap (λ r. r.1)
              (face-unqualified py env id connection_id ca_id e db s stored own policy typed
                unqualified))
        | inr qualified ↦ elim (Bool-cases (is_stale connection_id s)) [
          | inl stale ↦ inl (
              ap (λ r. r.1)
                (face-stale py env id connection_id ca_id e db s stored own policy typed qualified
                  stale))
          | inr current ↦ inr (
            s,
            IsAllowed-of id connection_id ca_id e db s policy stored own typed qualified current,
          )
        ]
      ]
    ]
  ]
]
