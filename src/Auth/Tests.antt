-- ===== src/Auth/Tests.antt =====
-- The login at concrete inputs.
use text.Mathlib.TextEquality.{eq_iff}
use net_test_toy.Auth.{
  Auth, AuthTokens, JwtPayload, answered, clear_user, initial_state, login_user, reduce,
  refresh_access_token, rejected, settle_refresh, settle_validate, store_tokens, to_base64,
  username_key, validate_token,
}
use net_test_toy.Auth.Session.{
  IsSynced, clear_user_lem, initial_state-IsSynced, login_survives_reload, reduce-IsSynced,
  refresh_keeps_token, username_alone,
}
use net_test_toy.Base.{Option, String, [], arith, none, refl, some, text_dec, true, ◌∷◌, ◌≡◌}

abbrev alice : JwtPayload
alice = record {
  email = some "";
  cognito_username = some "corp_alice";
  sub = none;
  emailaddress = none;
  name = none;
}

abbrev read_alice : String → Option JwtPayload
read_alice s = some alice

abbrev id_only : AuthTokens
id_only = record {
  access_token = none;
  id_token = some "h.p.s";
  refresh_token = none;
  access_token_camel = none;
  refresh_token_camel = none;
  expires_at = none;
}

abbrev fresh : Auth
fresh = record { state = initial_state []; storage = [] }

abbrev named : Auth
named = record { state = initial_state []; storage = (username_key, "bob") ∷ [] }

login_user_alice : login_user read_alice "h.p.s" ≡ "alice"
unfolding login_user text_dec
login_user_alice = refl

login_user_two_parts : login_user read_alice "h.p" ≡ ""
unfolding login_user text_dec
login_user_two_parts = refl

to_base64_both : to_base64 "a-_b" ≡ "a+/b"
unfolding to_base64
to_base64_both = refl

reduce-IsSynced_example : IsSynced (reduce read_alice (store_tokens id_only) fresh)
reduce-IsSynced_example =
    reduce-IsSynced read_alice (store_tokens id_only) fresh tt (initial_state-IsSynced [])

clear_user_lem_example :
    settle_validate (reduce read_alice clear_user named).storage
    ≡ rejected (some "No authentication data found")
clear_user_lem_example = (clear_user_lem read_alice named "theme").0

login_survives_reload_example :
    (initial_state (reduce read_alice (store_tokens id_only) fresh).storage).is_authenticated ≡ true
login_survives_reload_example =
    (login_survives_reload read_alice id_only "h.p.s" fresh (ground (arith, eq_iff "h.p.s" ""))
      (λ e. ground (arith, eq_iff "alice" "", login_user_alice))).0

username_alone_example :
    (reduce read_alice
      (validate_token true (settle_validate named.storage))
      named).state.is_authenticated
    ≡ true
unfolding text_dec
username_alone_example = (username_alone read_alice true "bob" named refl refl refl).1

refresh_keeps_token_example :
    (reduce read_alice
      (refresh_access_token (settle_refresh "r" (answered id_only)))
      fresh).state.refresh_token
    ≡ some "r"
refresh_keeps_token_example =
    (refresh_keeps_token read_alice "r" id_only fresh (λ e. ground (arith, eq_iff "r" ""))).0
