-- ===== src/Sessions/Validate.antt =====
-- `InterviewSessionService._validate_active_token`, and the values that the responses read.
use i_bot_core_api_service.Prelude.{
  String, Bool, true, false, ◌&&◌, ◌||◌, Option, none, some, List, [], ◌∷◌, leb, ◌==◌, string_eq,
  if◌then◌else◌,
}
use i_bot_core_api_service.Json.{Json, arr, obj, to_list, get, truthy}
use i_bot_core_api_service.Db.{
  Time, SessionStatus, EnrollmentStatus, is_terminal_session, is_terminal_candidate, Error,
  invalid_session_token, session_expired, session_closed,
}
use i_bot_core_api_service.Repositories.Env.{Env}
use i_bot_core_api_service.Repositories.Contexts.{SessionContext}
use i_bot_core_api_service.Violations.{Python, text_of}

-- `expires_at is None or expires_at <= now`
abbrev pub expiry_reached : Option Time → Time → Bool
expiry_reached none now = true
expiry_reached (some t) now = leb t now

abbrev pub is_none : Option Time → Bool
is_none none = true
is_none (some _) = false

-- `window_end is not None and window_end <= now and interview_started_at is None`
abbrev pub window_missed : Option Time → Option Time → Time → Bool
window_missed none started now = false
window_missed (some t) started now = leb t now && is_none started

abbrev pub is_closed : SessionStatus → EnrollmentStatus → Bool
is_closed s c = is_terminal_session s || is_terminal_candidate c

-- The clock is read once for each of the two comparisons.
unfoldable pub validate_active_token : Env → Option SessionContext → Option Error
validate_active_token env none = some invalid_session_token
validate_active_token env (some c) =
    if expiry_reached c.session_token_expires_at (env.utc_now 0)
    then some session_expired
    else if window_missed c.window_end c.interview_started_at (env.utc_now 1)
    then some session_expired
    else if is_closed c.session_status c.candidate_assessment_status
    then some session_closed
    else none

-- `str(value or default)` of a text column.
abbrev pub text_or : String → String → String
text_or value default = if value == "" then default else value

-- `str(column)` of a nullable text column.
abbrev pub str_of_column : Option String → String
str_of_column none = "None"
str_of_column (some s) = s

abbrev section_name : Python → Json → List String → List String
section_name py (obj fs) later =
    let name = get "section_name" fs in if truthy name then text_of py name ∷ later else later
section_name py _ later = later

section_names : Python → List Json → List String
section_names py [] = []
section_names py (section ∷ rest) = section_name py section (section_names py rest)

abbrev plan_sections : Python → Json → List String
plan_sections py (arr sections) = section_names py (to_list sections)
plan_sections py _ = []

-- `_sections_overview`, of the context's interview plan.
unfoldable pub sections_overview : Python → Json → List String
unfolding section_names
sections_overview py (obj plan) = plan_sections py (get "sections" plan)
sections_overview py _ = []
