-- ===== src/Auth/Session.antt =====
-- The session of authSlice.ts: the state against the storage, and what a page load finds.
use text.Mathlib.TextEquality.{eq_iff}
use mathlib.Core.Option
use text.Mathlib.Text
use net_test_toy.Auth.{
  Action, Auth, AuthTokens, JwtPayload, access_token_key, answered, clear_user, erase_all,
  fetch_token, first_of, fulfilled, id_token_key, initial_state, keep, last_visited_route_key,
  login_user, put, redirect_to_login, reduce, refresh_access_token, refresh_token_key, rejected,
  set_loading, set_user_email, settle_refresh, settle_validate, store_tokens, token_keys,
  tokens_stored, user_cleared, username_key, validate_token, validated,
}
use net_test_toy.Base.{
  Bool, List, Option, String, [], ap, arith, false, if◌then◌else◌, none, refl, some, sym, true, ◌∙◌,
  ◌∷◌, ◌≡◌, ◌≢◌,
}
use net_test_toy.Base.Texts.{includes}
use net_test_toy.Base.Dict.{erase, lookup, lookup-erase, lookup-insert}
use net_test_toy.Storage.{Storage, or_else, truthy}

-- The tokens of the state are those of the storage.
pub record IsSynced (a : Auth) : Type 0 where
  pub access : truthy a.state.access_token ≡ truthy (lookup access_token_key a.storage)
  pub refresh : truthy a.state.refresh_token ≡ truthy (lookup refresh_token_key a.storage)
  pub id : truthy a.state.id_token ≡ truthy (lookup id_token_key a.storage)

-- The action does not leave the page for the login.
abbrev pub Stays : Action → Type 0
Stays (redirect_to_login reason) = ⊥
Stays _ = Unit

truthy-truthy : (t : Option String) → truthy (truthy t) ≡ truthy t
truthy-truthy none = refl
truthy-truthy (some s) = ground arith

refreshed_full :
    (t : Option String) (r : String) → r ≢ "" → truthy (some (or_else t r)) ≡ some (or_else t r)
refreshed_full none r h = ground arith
refreshed_full (some s) r h = ground arith

truthy-some : (t : Option String) (i : String) → truthy t ≡ some i → truthy (some i) ≡ some i
truthy-some none i h = ground arith
truthy-some (some s) i h = ground arith

lookup-put-some :
    (k : String) (t : Option String) (v : String) (s : Storage)
    → t ≡ some v
    → lookup k (put k t s) ≡ some v
lookup-put-some k none v s h = ground arith
lookup-put-some k (some w) v s h = ground (arith, lookup-insert k k w s)

put-keep :
    (k : String) (t old : Option String) (s : Storage)
    → truthy old ≡ truthy (lookup k s)
    → truthy (keep t old) ≡ truthy (lookup k (put k t s))
put-keep k none old s h = h
put-keep k (some v) old s h = ground (arith, lookup-insert k k v s)

put-other :
    (k j : String) (t : Option String) (s : Storage)
    → Text.◌==◌ k j ≡ false
    → lookup j (put k t s) ≡ lookup j s
put-other k j none s h = refl
put-other k j (some v) s h = ground (arith, lookup-insert k j v s, eq_iff k j)

lookup-erase_all :
    (j : String) (ks : List String) (s : Storage)
    → lookup j (erase_all ks s) ≡ (if includes j ks then none else lookup j s)
lookup-erase_all j [] s = refl
lookup-erase_all j (k ∷ ks) s =
    ground (arith, lookup-erase_all j ks (erase k s), lookup-erase k j s)

user_cleared_forgets :
    (j : String) (a : Auth)
    → includes j token_keys ≡ true
    → lookup j (user_cleared a).storage ≡ none
unfolding user_cleared
user_cleared_forgets j a h = ground (
  arith,
  lookup-erase last_visited_route_key j (erase_all token_keys a.storage),
  lookup-erase_all j token_keys a.storage,
)

-- On a page load the state's tokens are those of the storage.
pub initial_state-IsSynced :
    (s : Storage) → IsSynced (record { state = initial_state s; storage = s })
unfolding initial_state
initial_state-IsSynced s = record {
  access = truthy-truthy _;
  refresh = truthy-truthy _;
  id = truthy-truthy _;
}

module _ (read_payload : String → Option JwtPayload) where
  tokens_stored-IsSynced :
      (t : AuthTokens) (a : Auth) → IsSynced a → IsSynced (tokens_stored read_payload t a)
  unfolding tokens_stored
  tokens_stored-IsSynced t a v =
      let acc = first_of t.access_token_camel t.access_token in
      let ref = first_of t.refresh_token_camel t.refresh_token in
      let idt = truthy t.id_token in
      let user = Option.map (login_user read_payload) idt in
      let s1 = put access_token_key acc a.storage in
      let s2 = put refresh_token_key ref s1 in
      let s3 = put id_token_key idt s2 in
      record {
        access =
            put-keep access_token_key acc a.state.access_token a.storage v.access
            ∙ ap truthy (
                sym (
                  put-other username_key access_token_key user s3 refl
                  ∙ put-other id_token_key access_token_key idt s2 refl
                  ∙ put-other refresh_token_key access_token_key ref s1 refl));
        refresh =
            put-keep refresh_token_key ref a.state.refresh_token s1 (
              v.refresh
              ∙ ap truthy (sym (put-other access_token_key refresh_token_key acc a.storage refl)))
            ∙ ap truthy (
                sym (
                  put-other username_key refresh_token_key user s3 refl
                  ∙ put-other id_token_key refresh_token_key idt s2 refl));
        id =
            put-keep id_token_key idt a.state.id_token s2 (
              v.id
              ∙ ap truthy (
                  sym (
                    put-other refresh_token_key id_token_key ref s1 refl
                    ∙ put-other access_token_key id_token_key acc a.storage refl)))
            ∙ ap truthy (sym (put-other username_key id_token_key user s3 refl));
      }

  -- Where the storage has room for the tokens, every action but the redirection to the login keeps
  -- the tokens of the state and those of the storage the same.
  pub reduce-IsSynced :
      (c : Action) (a : Auth) → Stays c → IsSynced a → IsSynced (reduce read_payload c a)
  unfolding reduce set_loading
  reduce-IsSynced (store_tokens t) a h v = tokens_stored-IsSynced t a v
  reduce-IsSynced (fetch_token (fulfilled t)) a h v =
      tokens_stored-IsSynced t (set_loading false a)
        (record { access = v.access; refresh = v.refresh; id = v.id })
  reduce-IsSynced (refresh_access_token (fulfilled t)) a h v =
      tokens_stored-IsSynced t (set_loading false a)
        (record { access = v.access; refresh = v.refresh; id = v.id })
  reduce-IsSynced clear_user a h v = record {
    access = ap truthy (sym (user_cleared_forgets access_token_key a (ground arith)));
    refresh = ap truthy (sym (user_cleared_forgets refresh_token_key a (ground arith)));
    id = ap truthy (sym (user_cleared_forgets id_token_key a (ground arith)));
  }
  reduce-IsSynced (set_user_email e) a h v = record {
    access =
        v.access
        ∙ ap truthy (sym (put-other username_key access_token_key (some e) a.storage refl));
    refresh =
        v.refresh
        ∙ ap truthy (sym (put-other username_key refresh_token_key (some e) a.storage refl));
    id = v.id ∙ ap truthy (sym (put-other username_key id_token_key (some e) a.storage refl));
  }
  reduce-IsSynced c a h v = ground arith

  -- After a logout the storage validates no more, neither at once nor on a page load, and every key
  -- but those of the login and the last route keeps its value.
  pub clear_user_lem :
      (a : Auth) (j : String)
      → let s : Storage = (reduce read_payload clear_user a).storage in
        (settle_validate s ≡ rejected (some "No authentication data found"))
        × ((initial_state s).is_authenticated ≡ false)
        × (lookup j s ≡ (
            if includes j (last_visited_route_key ∷ token_keys) then none else lookup j a.storage))
  unfolding reduce user_cleared settle_validate initial_state
  clear_user_lem a j =
      let access = user_cleared_forgets access_token_key a (ground arith) in
      let id = user_cleared_forgets id_token_key a (ground arith) in
      let name = user_cleared_forgets username_key a (ground arith) in
      (
        ground (arith, access, id, name),
        ground (arith, access, id, name),
        ground (
          arith,
          lookup-erase last_visited_route_key j (erase_all token_keys a.storage),
          lookup-erase_all j token_keys a.storage,
        ),
      )

  -- Where the storage has room for the tokens, a login whose identity token names a user outlives the
  -- page: the state that a page load reads from the storage is authenticated, for that user and with
  -- that token.
  pub login_survives_reload :
      (t : AuthTokens) (i : String) (a : Auth)
      → truthy t.id_token ≡ some i
      → login_user read_payload i ≢ ""
      → let s = initial_state (reduce read_payload (store_tokens t) a).storage in
        (s.is_authenticated ≡ true)
        × (s.user_email ≡ some (login_user read_payload i))
        × (s.id_token ≡ some i)
  unfolding reduce tokens_stored initial_state
  login_survives_reload t i a e h =
      let acc = first_of t.access_token_camel t.access_token in
      let ref = first_of t.refresh_token_camel t.refresh_token in
      let user = Option.map (login_user read_payload) (truthy t.id_token) in
      let s1 = put refresh_token_key ref (put access_token_key acc a.storage) in
      let s2 = put id_token_key (truthy t.id_token) s1 in
      let name =
        lookup-put-some username_key user (login_user read_payload i) s2
          (ap (Option.map (login_user read_payload)) e) in
      let id =
        put-other username_key id_token_key user s2 refl
        ∙ lookup-put-some id_token_key (truthy t.id_token) i s1 e in
      let full = truthy-some t.id_token i e in
      (ground (arith, name, id, full, h), ground (arith, name, h), ap truthy id ∙ full)

  -- A refresh that is answered keeps a refresh token, in the state and in the storage: the new one
  -- where the answer has one, else the one that was sent.
  pub refresh_keeps_token :
      (r : String) (t : AuthTokens) (a : Auth)
      → r ≢ ""
      → let b = reduce read_payload (refresh_access_token (settle_refresh r (answered t))) a in
        (b.state.refresh_token ≡ some (or_else t.refresh_token r))
        × (lookup refresh_token_key b.storage ≡ some (or_else t.refresh_token r))
  unfolding reduce tokens_stored set_loading settle_refresh
  refresh_keeps_token r t a h =
      let acc = first_of none t.access_token in
      let ref = first_of none (some (or_else t.refresh_token r)) in
      let user = Option.map (login_user read_payload) (truthy t.id_token) in
      let s1 = put access_token_key acc a.storage in
      let s2 = put refresh_token_key ref s1 in
      let full : ref ≡ some (or_else t.refresh_token r) = refreshed_full t.refresh_token r h in
      (
        ap (λ x. keep x a.state.refresh_token) full,
        put-other username_key refresh_token_key user (put id_token_key (truthy t.id_token) s2) refl
            ∙ put-other id_token_key refresh_token_key (truthy t.id_token) s2 refl
            ∙ lookup-put-some refresh_token_key ref (or_else t.refresh_token r) s1 full,
      )

-- Where the storage has a user name but neither an access token nor an identity token, a page load
-- is not authenticated, and the validation that follows it authenticates.
pub username_alone :
    (r : String → Option JwtPayload) (silent : Bool) (u : String) (a : Auth)
    → truthy (lookup username_key a.storage) ≡ some u
    → truthy (lookup access_token_key a.storage) ≡ none
    → truthy (lookup id_token_key a.storage) ≡ none
    → ((initial_state a.storage).is_authenticated ≡ false)
      × ((reduce r (validate_token silent (settle_validate a.storage)) a).state.is_authenticated
          ≡ true)
unfolding reduce validated settle_validate initial_state
username_alone r silent u a e f g = (ground (arith, e, f, g), ground (arith, e, f, g))
