-- ===== src/Auth/Types.antt =====
-- auth/store/authSlice.ts: the state of the login, its tokens, keys and actions.
use net_test_toy.Base.{Bool, Option, String, ℕ}
use net_test_toy.Storage.{Storage}

pub record AuthTokens : Type 0 where
  pub access_token : Option String
  pub id_token : Option String
  pub refresh_token : Option String
  pub access_token_camel : Option String
  pub refresh_token_camel : Option String
  pub expires_at : Option ℕ

pub record TokenValidationResult : Type 0 where
  pub username : String
  pub access_token : Option String
  pub id_token : Option String
  pub refresh_token : Option String

-- `null` and `undefined` are both `none`.
pub record AuthState : Type 0 where
  pub user_email : Option String
  pub is_authenticated : Bool
  pub is_loading : Bool
  pub error : Option String
  pub access_token : Option String
  pub refresh_token : Option String
  pub id_token : Option String
  pub expires_at : Option ℕ

pub record JwtPayload : Type 0 where
  pub email : Option String
  pub cognito_username : Option String
  pub sub : Option String
  pub emailaddress : Option String
  pub name : Option String

-- The slice's state and the storage area that its reducers write.
pub record Auth : Type 0 where
  pub state : AuthState
  pub storage : Storage

-- `LS_KEYS`
abbrev pub access_token_key : String
access_token_key = "auth_access_token"

abbrev pub id_token_key : String
id_token_key = "auth_id_token"

abbrev pub refresh_token_key : String
refresh_token_key = "auth_refresh_token"

abbrev pub username_key : String
username_key = "userEmail"

abbrev pub last_visited_route_key : String
last_visited_route_key = "lastVisitedRoute"

-- The stages of a thunk; a rejection has the payload of `rejectWithValue`, if any.
pub data Stage {ℓ} (A : Type ℓ) : Type ℓ where
  pending : Stage A
  fulfilled : A → Stage A
  rejected : Option String → Stage A

-- What `fetchWrapper` gives for a request to the token address.
pub data Answer : Type 0 where
  answered : AuthTokens → Answer
  thrown : Answer

pub data Action : Type 0 where
  set_user_email : String → Action
  store_tokens : AuthTokens → Action
  clear_user : Action
  redirect_to_login : Option String → Action
  redirect_to_app : Action
  fetch_token : Stage AuthTokens → Action
  refresh_access_token : Stage AuthTokens → Action
  validate_token : Bool → Stage TokenValidationResult → Action
