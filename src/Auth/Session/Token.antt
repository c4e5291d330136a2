-- ===== src/Auth/Session/Token.antt =====
-- The refresh token of the cookie: `parseRefreshToken` and the tokens that `createSession` and
-- `refreshSession` build, of apps/auth/src/app/session/services.
use backend.Prelude.{
  ◌≡◌, refl, Bool, true, false, ◌&&◌, List, [], ◌∷◌, ◌++◌, Option, none, some, if◌then◌else◌,
}
use backend.Text.{Text}
use backend.Text.Split.{split, split_last, split_next, IsFree}

pub record ParsedRefreshToken : Type 0 where
  pub session_id : Text
  pub token_id : Text
  pub refresh_credential : Text

abbrev pub non_empty : Text → Bool
non_empty [] = false
non_empty (c ∷ s) = true

abbrev of_parts : List Text → Option ParsedRefreshToken
of_parts (session_id ∷ token_id ∷ secret ∷ []) =
    if non_empty session_id && non_empty token_id && non_empty secret
    then some (record {
      session_id = session_id;
      token_id = token_id;
      refresh_credential = token_id ++ b'.' ∷ secret;
    })
    else none
of_parts _ = none

unfoldable pub parse_refresh_token : Option Text → Option ParsedRefreshToken
parse_refresh_token none = none
parse_refresh_token (some token) = of_parts (split b'.' token)

-- `${tokenId}.${secret}`
abbrev pub join_credential : (token_id secret : Text) → Text
join_credential token_id secret = token_id ++ b'.' ∷ secret

-- `${session.id}.${credential}`
abbrev pub refresh_cookie : (session_id credential : Text) → Text
refresh_cookie session_id credential = session_id ++ b'.' ∷ credential

-- A part that a cookie keeps apart: not empty, and without a dot.
abbrev pub IsPart : Text → Type 0
IsPart s = (non_empty s ≡ true) × IsFree b'.' s

-- The cookie of a session, a token and a secret, each not empty and without a dot, is parsed to the
-- session, the token and the credential it was built from.
pub parse_refresh_token-refresh_cookie :
    (session_id token_id secret : Text)
    → IsPart session_id
    → IsPart token_id
    → IsPart secret
    → parse_refresh_token (some (refresh_cookie session_id (join_credential token_id secret)))
      ≡ some (record {
        session_id = session_id;
        token_id = token_id;
        refresh_credential = join_credential token_id secret;
      })
unfolding parse_refresh_token
parse_refresh_token-refresh_cookie s t c (ns, hs) (nt, ht) (nc, hc) =
    rw (split_next b'.' s (t ++ b'.' ∷ c) hs)
      (rw (split_next b'.' t c ht) (rw (split_last b'.' c hc) (rw ns (rw nt (rw nc refl)))))
