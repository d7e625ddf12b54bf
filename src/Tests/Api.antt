-- ===== src/Tests/Api.antt =====
-- A login with a sample signing library, whose token is the name after one character.
use aicrypto_trader.Base.{ℕ, ◌+◌, ◌≤◌, String, ◌≡◌, ◌≢◌, refl, Option, none, some, arith, eq_iff}
use aicrypto_trader.Api.{
  Services, login_submit, redirect, require_auth, granted, check_password, compare_digest, is_ascii,
  make_session_token, require_auth-login_submit,
}
use aicrypto_trader.Tests.Samples.{cfg}

abbrev unsigned : String → Option (Option String)
unsigned String.[] = none
unsigned (String.◌∷◌ c s) = some (some s)

abbrev signed_by : String → String → ℕ → String
signed_by secret username now = String.◌∷◌ "s" username

abbrev services : Services
services = record {
  dumps = signed_by;
  loads = λ secret token age now. unsigned token;
  bcrypt_verify = λ plain hashed. none;
  password_hash = "";
}

signs : (u : String) → services.dumps cfg.dashboard_secret_key u 0 ≢ ""
signs u h = cc h

login_works : login_submit services cfg 0 "admin" "cryptoswarm2024" ≡ redirect "sadmin"
unfolding login_submit check_password compare_digest is_ascii make_session_token
login_works = refl

abbrev admin : String
admin = "admin"

named : admin ≢ ""
named h = ground (arith, eq_iff admin "")

still_young : 28_000 ≤ 0 + 28_800
still_young = omega arith

gives_back :
    (u : String) (age : ℕ)
    → 28_000 ≤ 0 + age
    → services.loads cfg.dashboard_secret_key
        (services.dumps cfg.dashboard_secret_key u 0)
        age
        28_000
      ≡ some (some u)
gives_back u age h = refl

require_auth-login_submit_example :
    require_auth services cfg 28_000 (some "sadmin") ≡ granted "admin"
require_auth-login_submit_example =
    require_auth-login_submit services cfg 0 28_000 admin "cryptoswarm2024" "sadmin" signs
      gives_back named still_young login_works
