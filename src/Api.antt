-- ===== src/Api.antt =====
-- backend/src/cryptoswarm/api/auth.py and api/routes/login.py: the session of the dashboard.
-- Parameters: the signing library (`dumps` at a time, and `loads` with a maximal age at a time, where
-- `none` is a bad or expired signature and the inner option the entry `u`), the verification of a
-- bcrypt hash (`none` is one of the two exceptions that are caught), and the environment's hash. Times
-- are seconds.
pub mod Routes
pub mod Stats
pub mod Live
use Prim.Native.Char.{code}
use aicrypto_trader.Base.{
  ℕ, ◌+◌, ◌≤◌, String, ◌≡◌, ◌≢◌, ◌↔◌, Option, none, some, Bool, true, false, not, ◌&&◌, leb, str_eq,
  eq_iff, if◌then◌else◌, arith,
}
use aicrypto_trader.Config.{Settings}

pub record Services : Type 0 where
  pub dumps : String → String → ℕ → String
  pub loads : String → String → ℕ → ℕ → Option (Option String)
  pub bcrypt_verify : String → String → Option Bool
  pub password_hash : String

-- Whether a password is accepted, or the comparison raises.
pub data Verdict : Type 0 where
  accepted rejected type_error : Verdict

-- The answer to a login: a redirect with the session's cookie, the status 401, or an exception.
pub data LoginAnswer : Type 0 where
  redirect : String → LoginAnswer
  invalid login_raised : LoginAnswer

-- The user of a request, or the reason of the status 401.
pub data Access : Type 0 where
  granted : String → Access
  not_authenticated session_expired : Access

-- 8 hours
abbrev pub session_max_age : ℕ
session_max_age = 28_800

unfoldable pub is_ascii : String → Bool
is_ascii String.[] = true
is_ascii (String.◌∷◌ c s) = leb (code c) 127 && is_ascii s

abbrev verdict : Bool → Verdict
verdict true = accepted
verdict false = rejected

-- `hmac.compare_digest` of two texts: it raises unless both are ASCII.
unfoldable pub compare_digest : String → String → Verdict
compare_digest a b = if is_ascii a && is_ascii b then verdict (str_eq a b) else type_error

unfoldable pub check_password : Services → String → String → Verdict
check_password s plain stored =
    if str_eq s.password_hash ""
    then compare_digest plain stored
    else elim (s.bcrypt_verify plain s.password_hash) [ none ↦ rejected | some b ↦ verdict b ]

unfoldable pub make_session_token : Services → ℕ → String → String → String
make_session_token s now username secret = s.dumps secret username now

unfoldable pub verify_session_token : Services → ℕ → String → String → Option String
verify_session_token s now token secret = elim (s.loads secret token session_max_age now) [
  | none ↦ none
  | some u ↦ u
]

abbrev user_access : Option String → Access
user_access none = session_expired
user_access (some u) = if str_eq u "" then session_expired else granted u

-- `require_auth` of the cookie, if there is one.
unfoldable pub require_auth : {F : Type 0} → Services → Settings F → ℕ → Option String → Access
require_auth s cfg now none = not_authenticated
require_auth s cfg now (some token) =
    if str_eq token ""
    then not_authenticated
    else user_access (verify_session_token s now token cfg.dashboard_secret_key)

-- `login_submit`
unfoldable pub login_submit :
    {F : Type 0} → Services → Settings F → ℕ → String → String → LoginAnswer
login_submit s cfg now username password =
    if not (str_eq username cfg.dashboard_username)
    then invalid
    else elim (check_password s password cfg.dashboard_password) [
      | rejected ↦ invalid
      | type_error ↦ login_raised
      | accepted ↦ redirect (make_session_token s now username cfg.dashboard_secret_key)
    ]

-- A login gives a session exactly if the user name is the configured one and the password is
-- accepted; the session is then the signed name.
pub login_submit_redirect :
    {F : Type 0} (s : Services) (cfg : Settings F) (now : ℕ) (username password token : String)
    → (login_submit s cfg now username password ≡ redirect token) ↔ (
        (username ≡ cfg.dashboard_username)
        × (check_password s password cfg.dashboard_password ≡ accepted)
        × (token ≡ s.dumps cfg.dashboard_secret_key username now))
unfolding login_submit make_session_token
login_submit_redirect s cfg now username password token =
    ground (arith, eq_iff username cfg.dashboard_username)

-- If the signing library gives back a name that it signed not longer ago than the maximal age, in a
-- token that is not empty, then the cookie of a login is granted to its user for 8 hours.
pub require_auth-login_submit :
    {F : Type 0} (s : Services) (cfg : Settings F) (since now : ℕ)
    (username password token : String)
    → ((u : String) → s.dumps cfg.dashboard_secret_key u since ≢ "")
    → ((u : String) (age : ℕ)
        → now ≤ since + age
        → s.loads cfg.dashboard_secret_key (s.dumps cfg.dashboard_secret_key u since) age now
          ≡ some (some u))
    → username ≢ ""
    → now ≤ since + 28_800
    → login_submit s cfg since username password ≡ redirect token
    → require_auth s cfg now (some token) ≡ granted username
unfolding require_auth verify_session_token
require_auth-login_submit s cfg since now username password token full signed named young ok =
    let (_, _, is_token) = (login_submit_redirect s cfg since username password token).0 ok in
    let token_text = s.dumps cfg.dashboard_secret_key username since in
    rw is_token (
      ground (
        arith,
        full username,
        signed username session_max_age young,
        eq_iff token_text "",
        eq_iff username "",
        named,
      ))
