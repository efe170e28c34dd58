-- ===== src/Auth.antt =====
-- auth/store/authSlice.ts: the login. `read_payload` stands for `atob`, `decodeURIComponent` and
-- `JSON.parse` on the payload of a token; `none` is an exception or `null`. The storage is taken
-- to have room for the tokens.
use mathlib.Core.Option
use Prim.Native.Char.{code, Char}
use Prim.Native.String
mod Types
pub mod Session
mod Tests
pub use Types.*
use net_test_toy.Base.{
  Bool, List, Option, String, [], false, if◌then◌else◌, leb, map, none, some, suc, true, zero, ℕ,
  ◌&&◌, ◌<>◌, ◌==◌, ◌||◌, ◌∷◌,
}
use net_test_toy.Base.Dict.{erase, insert, lookup}
use net_test_toy.Storage.{Storage, or_else, truthy}

same_code : ℕ → Char → Bool
same_code n c = leb (code c) n && leb n (code c)

-- `s.split(c)` for a separator of one character
split_push : Char → List String → List String
split_push c [] = String.◌∷◌ c String.[] ∷ []
split_push c (w ∷ ws) = String.◌∷◌ c w ∷ ws

split : ℕ → String → List String
unfolding same_code split_push
split n String.[] = "" ∷ []
split n (String.◌∷◌ c s) =
    let rest = split n s in if same_code n c then "" ∷ rest else split_push c rest

-- `s.replace(/-/g, "+").replace(/_/g, "/")`
to_base64 : String → String
unfolding same_code
to_base64 String.[] = ""
to_base64 (String.◌∷◌ c s) =
    let rest = to_base64 s in
    if same_code b'-' c
    then "+" <> rest
    else (if same_code b'_' c then "/" <> rest else String.◌∷◌ c rest)

decode_jwt : (String → Option JwtPayload) → String → Option JwtPayload
unfolding split to_base64
decode_jwt read_payload token = if token == "" then none else elim (split b'.' token) [
  | _ ∷ base64_url ∷ _ ∷ [] ↦ if base64_url == "" then none else read_payload (to_base64 base64_url)
  | _ ↦ none
]

-- `decoded?.email || decoded?.["cognito:username"] || … || ""`
user_of : Option JwtPayload → String
user_of none = ""
user_of (some p) =
    or_else p.email
      (or_else p.cognito_username (or_else p.sub (or_else p.emailaddress (or_else p.name ""))))

-- `includes("_")` holds where the split has two parts.
strip_prefix : String → String
unfolding split
strip_prefix user = elim (split b'_' user) [ _ ∷ name ∷ [] ↦ name | _ ↦ user ]

-- the user that an `id_token` names
pub login_user : (String → Option JwtPayload) → String → String
unfolding decode_jwt user_of strip_prefix
login_user read_payload token = strip_prefix (user_of (decode_jwt read_payload token))

abbrev pub first_of : Option String → Option String → Option String
first_of a b = elim (truthy a) [ some t ↦ some t | none ↦ truthy b ]

-- the `try` and `catch` of the thunks
pub settle_fetch : Option String → Answer → Stage AuthTokens
settle_fetch none a = rejected (some "Missing code")
settle_fetch (some code) thrown = rejected (some "Exception during token fetch")
settle_fetch (some code) (answered t) =
    if code == "" then rejected (some "Missing code") else fulfilled t

pub settle_refresh : String → Answer → Stage AuthTokens
settle_refresh refresh_token thrown = rejected (some "Token refresh failed")
settle_refresh refresh_token (answered t) = fulfilled (record {
  access_token = t.access_token;
  id_token = t.id_token;
  refresh_token = some (or_else t.refresh_token refresh_token);
  access_token_camel = none;
  refresh_token_camel = none;
  expires_at = none;
})

abbrev pub is_some {ℓ} : {A : Type ℓ} → Option A → Bool
is_some none = false
is_some (some a) = true

-- `validateToken`
pub settle_validate : Storage → Stage TokenValidationResult
settle_validate s =
    let access_token = truthy (lookup access_token_key s) in
    let refresh_token = truthy (lookup refresh_token_key s) in
    let id_token = truthy (lookup id_token_key s) in
    let username = truthy (lookup username_key s) in
    let result : TokenValidationResult = record {
      username = or_else username "";
      access_token = access_token;
      id_token = id_token;
      refresh_token = refresh_token;
    } in
    if is_some username && (is_some access_token || is_some id_token)
    then fulfilled result
    else (if is_some username || is_some access_token || is_some id_token
        then fulfilled result
        else rejected (some "No authentication data found"))

-- the state on a page load
pub initial_state : Storage → AuthState
initial_state s = record {
  user_email = some (or_else (lookup username_key s) "");
  is_authenticated =
      is_some (truthy (lookup username_key s))
      && (is_some (truthy (lookup access_token_key s)) || is_some (truthy (lookup id_token_key s)));
  is_loading = true;
  error = none;
  access_token = truthy (lookup access_token_key s);
  refresh_token = truthy (lookup refresh_token_key s);
  id_token = truthy (lookup id_token_key s);
  expires_at = none;
}

abbrev erase_all : List String → Storage → Storage
erase_all [] s = s
erase_all (k ∷ ks) s = erase_all ks (erase k s)

-- `Object.values(LS_KEYS)`
abbrev pub token_keys : List String
token_keys = access_token_key ∷ id_token_key ∷ refresh_token_key ∷ username_key ∷ []

abbrev put : String → Option String → Storage → Storage
put k none s = s
put k (some t) s = insert k t s

abbrev keep : Option String → Option String → Option String
keep none old = old
keep (some t) old = some t

abbrev nonzero : Option ℕ → Option ℕ → Option ℕ
nonzero none old = old
nonzero (some zero) old = old
nonzero (some (suc n)) old = some (suc n)

user_cleared : Auth → Auth
user_cleared a =
    let s = a.state in
    record {
      state = record s {
        user_email = none;
        is_authenticated = false;
        is_loading = false;
        access_token = none;
        refresh_token = none;
        id_token = none;
        expires_at = none;
      };
      storage = erase last_visited_route_key (erase_all token_keys a.storage);
    }

set_loading : Bool → Auth → Auth
set_loading b a = let s = a.state in record a { state = record s { is_loading = b } }

with_error : Option String → Auth → Auth
with_error e a = let s = a.state in record a { state = record s { is_loading = false; error = e } }

-- a validation that is not silent shows that it loads
loads : Bool → Bool → Bool → Bool
loads silent b old = if silent then old else b

validated : Bool → TokenValidationResult → Auth → Auth
unfolding loads
validated silent r a =
    let s = a.state in
    record a {
      state = record s {
        user_email = keep (truthy (some r.username)) s.user_email;
        is_authenticated = true;
        is_loading = loads silent false s.is_loading;
      };
    }

module _ (read_payload : String → Option JwtPayload) where
  -- The storage has room: no `setItem` throws between the writes.
  tokens_stored : AuthTokens → Auth → Auth
  tokens_stored t a =
      let access_token = first_of t.access_token_camel t.access_token in
      let refresh_token = first_of t.refresh_token_camel t.refresh_token in
      let id_token = truthy t.id_token in
      let user = Option.map (login_user read_payload) id_token in
      let s = a.state in
      record {
        state = record s {
          access_token = keep access_token s.access_token;
          refresh_token = keep refresh_token s.refresh_token;
          id_token = keep id_token s.id_token;
          expires_at = nonzero t.expires_at s.expires_at;
          user_email = keep user s.user_email;
          is_authenticated = true;
        };
        storage = put username_key user (
            put id_token_key id_token
              (put refresh_token_key refresh_token (put access_token_key access_token a.storage)));
      }

  pub reduce : Action → Auth → Auth
  unfolding tokens_stored user_cleared set_loading with_error loads validated
  reduce (set_user_email e) a =
      let s = a.state in
      record { state = record s { user_email = some e }; storage = insert username_key e a.storage }
  reduce (store_tokens t) a = tokens_stored t a
  reduce clear_user a = user_cleared a
  reduce (redirect_to_login reason) a = record a { storage = erase_all token_keys a.storage }
  reduce redirect_to_app a = a
  reduce (fetch_token pending) a =
      let s = a.state in record a { state = record s { is_loading = true; error = none } }
  reduce (fetch_token (fulfilled t)) a = tokens_stored t (set_loading false a)
  reduce (fetch_token (rejected e)) a = with_error e a
  reduce (refresh_access_token pending) a = set_loading true a
  reduce (refresh_access_token (fulfilled t)) a = tokens_stored t (set_loading false a)
  reduce (refresh_access_token (rejected e)) a = with_error e a
  reduce (validate_token silent pending) a =
      let s = a.state in
      record a { state = record s { is_loading = loads silent true s.is_loading } }
  reduce (validate_token silent (fulfilled r)) a = validated silent r a
  reduce (validate_token silent (rejected e)) a =
      let s = a.state in
      record a {
        state = record s { is_authenticated = false; is_loading = loads silent false s.is_loading };
      }
