-- ===== src/Tests/Sessions.antt =====
-- A session, a refresh of it, and the ends of it. The hash of a credential is the credential.
use backend.Prelude.{
  ℕ, ◌+◌, ◌<◌, ◌≤◌, ◌⊎◌, ◌≡◌, ◌≢◌, refl, true, false, [], ◌∷◌, Option, none, some, ◌==◌, All,
  count_where, if◌then◌else◌, find_unique, arith,
}
use backend.Text.{Text, text_eq}
use backend.Text.Split.{split}
use backend.Auth.Session.{
  User, Session, SessionRefreshToken, Tables, RequestMetadata, cleared, unauthorized, signed_in,
}
use backend.Auth.Session.Token.{
  parse_refresh_token, refresh_cookie, join_credential, parse_refresh_token-refresh_cookie,
}
use backend.Auth.Session.Create.{
  IssuedRefreshCredential, Lifetimes, new_session, new_token, create_session, credentials_changed,
}
use backend.Auth.Session.Refresh.{
  RefreshContext, is_session, is_live_session, load_and_validate_refresh_context, refresh_session,
  assert_refresh_allowed, check_credential, credential_matches, finish_refresh,
  handle_consumed_refresh_token, rotate_refresh_credential_atomically,
  record_refresh_metadata_changes,
}
use backend.Auth.Session.Logout.{logout, logout_all_sessions, is_live_of, revoke_session}
use backend.Auth.Session.Steps.{
  History, is_issued, creates, states, changes_users, Reach, starts, next, stops,
}
use backend.Auth.Session.SingleUse.{rotate-once}
use backend.Auth.Session.Current.{HasCurrent}
use backend.Auth.Session.Current.Kept.{Reach-HasCurrent}
use backend.Auth.Session.Admitted.{IsAdmitted, refresh_session-IsAdmitted}
use backend.Auth.Session.Live.{refresh_session-signs_in}
use backend.Auth.Session.Ended.{IsEnded, IsEnded-refresh_session}
use backend.Auth.Session.Ends.{logout-ends, logout_all_sessions-ends}
use backend.Auth.Session.Replay.{
  IsSpent, IsWithinGrace, IsUntouched, IsEnding, refresh_session-spent,
}
use backend.Auth.Session.Replay.Twice.{refresh_session-replay}

abbrev session_id : Text
session_id = b's' ∷ []

abbrev issued_as : ℕ → IssuedRefreshCredential
issued_as token_id = record {
  token_id = token_id ∷ [];
  credential = join_credential (token_id ∷ []) (b'x' ∷ []);
  hash = join_credential (token_id ∷ []) (b'x' ∷ []);
}

abbrev first : IssuedRefreshCredential
first = issued_as b't'

abbrev second : IssuedRefreshCredential
second = issued_as b'u'

abbrev third : IssuedRefreshCredential
third = issued_as b'v'

abbrev lifetimes : Lifetimes
lifetimes = record { refresh_ms = 50000; session_refresh_ms = 20000 }

abbrev nobody : RequestMetadata
nobody = record { ip_hash = none; user_agent = none }

abbrev user : User
user = record { id = 7; password = none }

abbrev cookie_of : IssuedRefreshCredential → Option Text
cookie_of i = some (refresh_cookie session_id i.credential)

abbrev with_user : History
with_user = record {
  tables = record { users = user ∷ []; sessions = []; refresh_tokens = []; events = [] };
  issued = [];
  rotated = [];
}

with_user-Reach : Reach with_user
with_user-Reach = next starts (states _ (changes_users (user ∷ [])))

abbrev signed : Tables
signed =
    (create_session lifetimes 7 1000 false none nobody session_id first with_user.tables).tables

abbrev history : History
history = record { tables = signed; issued = first.token_id ∷ session_id ∷ []; rotated = [] }

new_second : is_issued history.issued second.token_id ≡ false
unfolding text_eq
new_second = refl

history-Reach : Reach history
unfolding text_eq
history-Reach =
    next with_user-Reach (creates lifetimes 7 1000 false none nobody session_id first refl refl)

abbrev session : Session
session = new_session lifetimes 7 1000 false nobody session_id first

abbrev token : SessionRefreshToken
token = new_token session_id first

abbrev context : RefreshContext
context = record {
  parsed_token = record {
    session_id = session_id;
    token_id = first.token_id;
    refresh_credential = first.credential;
  };
  refresh_token = token;
  session = session;
}

rotate-once_example : count_where (text_eq first.token_id) history.rotated ≤ 1
rotate-once_example = rotate-once history first.token_id history-Reach

Reach-HasCurrent_example : All (HasCurrent signed.refresh_tokens) signed.sessions
Reach-HasCurrent_example = Reach-HasCurrent history history-Reach

parse_refresh_token-refresh_cookie_example :
    parse_refresh_token (cookie_of first) ≡ some context.parsed_token
parse_refresh_token-refresh_cookie_example =
    parse_refresh_token-refresh_cookie session_id (b't' ∷ []) (b'x' ∷ []) (refl, (refl, tt))
      (refl, (refl, tt)) (refl, (refl, tt))

refreshed_outcome :
    (refresh_session text_eq (cookie_of first) second nobody 2000 signed).outcome ≡ signed_in 7
unfolding text_eq split create_session new_session credentials_changed parse_refresh_token
    refresh_session load_and_validate_refresh_context assert_refresh_allowed check_credential
    credential_matches finish_refresh handle_consumed_refresh_token
    rotate_refresh_credential_atomically record_refresh_metadata_changes
refreshed_outcome = refl

refresh_session-IsAdmitted_example :
    (s : Session) × (r : SessionRefreshToken) × IsAdmitted text_eq (cookie_of first) 2000 signed s r
    × (s.user_id ≡ 7)
refresh_session-IsAdmitted_example =
    refresh_session-IsAdmitted text_eq (cookie_of first) second nobody 2000 signed 7
      refreshed_outcome

token-IsAdmitted : IsAdmitted text_eq (cookie_of first) 2000 signed session token
unfolding text_eq split parse_refresh_token create_session new_session credentials_changed
token-IsAdmitted = record {
  parsed = context.parsed_token;
  is_parsed = refl;
  session_found = refl;
  token_found = refl;
  not_revoked = refl;
  not_expired = omega arith;
  not_consumed = refl;
  is_owned = refl;
  is_verified = refl;
}

refresh_session-signs_in_example :
    (refresh_session text_eq (cookie_of first) second nobody 2000 history.tables).outcome
    ≡ signed_in session.user_id
refresh_session-signs_in_example =
    refresh_session-signs_in text_eq (cookie_of first) second nobody 2000 history session token
      history-Reach token-IsAdmitted

-- Used again within the grace.
refresh_session-replay_example :
    let a = refresh_session text_eq (cookie_of first) second nobody 2000 signed in
    let b = refresh_session text_eq (cookie_of first) third nobody 3000 a.tables in
    (a.outcome ≡ signed_in 7)
    × (b.outcome ≡ unauthorized)
    × (((3000 ≤ 2000 + 3000) × (3000 < session.expires_at) × IsUntouched a.tables b)
        ⊎ (((2000 + 3000 < 3000) ⊎ (session.expires_at ≤ 3000)) × IsEnding session_id b))
unfolding new_session
refresh_session-replay_example =
    refresh_session-replay text_eq (cookie_of first) second third nobody nobody 2000 3000 history
      session token history-Reach token-IsAdmitted (omega arith)

abbrev logged_out : Tables
logged_out = (logout text_eq (cookie_of first) 3000 signed).1

session_found : find_unique (is_session session_id) signed.sessions ≡ some session
unfolding text_eq create_session new_session credentials_changed
session_found = refl

session_live : session.revoked_at ≡ none
unfolding new_session
session_live = refl

session_verified : text_eq first.credential session.refresh_token_hash ≡ true
unfolding text_eq new_session
session_verified = refl

first_parsed : parse_refresh_token (cookie_of first) ≡ some context.parsed_token
unfolding parse_refresh_token split
first_parsed = refl

logout-ends_example :
    ((logout text_eq (cookie_of first) 3000 signed).0 ≡ cleared)
    × (count_where (is_live_session session.id) logged_out.sessions ≡ 0)
logout-ends_example =
    logout-ends text_eq (cookie_of first) context.parsed_token 3000 signed session first_parsed
      session_found session_live session_verified

logout_all_sessions-ends_example :
    count_where (is_live_of 8) (logout_all_sessions 7 3000 signed).1.sessions
    ≡ (if 7 == 8 then 0 else count_where (is_live_of 8) signed.sessions)
logout_all_sessions-ends_example = logout_all_sessions-ends 7 3000 8 signed

abbrev ended : History
ended = record {
  tables = revoke_session session_id 3000 signed;
  issued = history.issued;
  rotated = history.rotated;
}

ended-IsEnded : IsEnded session_id ended
unfolding revoke_session text_eq create_session new_session credentials_changed
ended-IsEnded = record { was_issued = refl; none_live = refl }

IsEnded-refresh_session_example :
    (refresh_session text_eq (cookie_of first) second nobody 4000 ended.tables).outcome
    ≢ signed_in 7
IsEnded-refresh_session_example =
    IsEnded-refresh_session text_eq (cookie_of first) context.parsed_token second nobody 4000 7
      ended ended first_parsed ended-IsEnded stops

-- The tables in which the first token was spent at 2000 and the second at 2500.
abbrev rotated : Tables
rotated =
    (refresh_session text_eq (cookie_of second) third nobody 2500
      (refresh_session text_eq (cookie_of first) second nobody 2000 signed).tables).tables

abbrev spent_token : SessionRefreshToken
spent_token = record token { consumed_at = some 2000 }

abbrev rotated_session : Session
rotated_session = record session {
  refresh_token_hash = third.hash;
  last_used_at = some 2500;
  rotated_at = some 2500;
}

first_token-IsSpent : IsSpent text_eq (cookie_of first) rotated rotated_session spent_token 2000
unfolding text_eq split create_session new_session credentials_changed parse_refresh_token
    refresh_session load_and_validate_refresh_context assert_refresh_allowed check_credential
    credential_matches finish_refresh handle_consumed_refresh_token
    rotate_refresh_credential_atomically record_refresh_metadata_changes
first_token-IsSpent = record {
  parsed = context.parsed_token;
  is_parsed = refl;
  session_found = refl;
  token_found = refl;
  not_revoked = refl;
  consumed = refl;
  is_owned = refl;
  is_verified = refl;
}

-- The first token comes back at 2600: it is not the one that the last rotation spent.
refresh_session-spent_example :
    let a = refresh_session text_eq (cookie_of first) second nobody 2600 rotated in
    (a.outcome ≡ unauthorized)
    × (((2600 < rotated_session.expires_at)
          × IsWithinGrace rotated_session 2000 2600
          × IsUntouched rotated a)
        ⊎ (((rotated_session.expires_at ≤ 2600) ⊎ (¬ IsWithinGrace rotated_session 2000 2600))
            × IsEnding rotated_session.id a))
refresh_session-spent_example =
    refresh_session-spent text_eq (cookie_of first) second nobody 2000 2600 rotated rotated_session
      spent_token first_token-IsSpent
