-- ===== src/Connections/Run.antt =====
-- Any sequence of actions of store/connectionSlice.ts, and the copy of the state in the storage.
use net_test_toy.Connections.{
  Action, ConnectionState, DaemonType, LocalDaemon, Store, UnifiedClient, add, add_client, assign,
  change_client, client_ids, commit, daemon_client_id, discovered, drop_client, ensure_selected,
  has_id, local_ids, reduce, refreshed, remove_client, remove_gone, select,
  set_client_poll_interval, set_global_interval, set_global_poll_interval, set_interval,
  set_selected_clients, set_status, sync_daemon, sync_daemons, sync_local, sync_local_daemons,
  synced, toggle_client_enabled, toggle_daemon, toggle_daemon_of, toggle_enabled, toggle_selected,
  toggle_selected_client, update, update_client, without_client,
}
use net_test_toy.Connections.Ids.{any-has_id, client_ids-append, client_ids-update_first}
use net_test_toy.Connections.Valid.{
  IsAllowed, IsValid, add_client-IsValid, change_client-IsValid, ensure_selected-IsValid,
  remove-IsValid, remove_client-IsValid, select-IsValid, set_client_status-IsValid,
  set_global_poll_interval-IsValid, state-commit, toggle_daemon-IsValid,
  toggle_selected_client-IsValid, with_clients-IsValid,
}
use net_test_toy.Base.{
  Bool, Bool-cases, List, String, [], any, arith, false, if◌then◌else◌, inl, inr, refl, some, true,
  ◌++◌, ◌∷◌, ◌≡◌, ◌⊎◌,
}
use net_test_toy.Base.Texts.{includes, includes-append, push-Distinct, without}

client_ids-sync_daemon :
    (d : LocalDaemon) (cs : List UnifiedClient)
    → client_ids (sync_daemon d cs) ≡ (
        if includes (daemon_client_id d) (client_ids cs)
        then client_ids cs
        else client_ids cs ++ daemon_client_id d ∷ [])
unfolding sync_daemon refreshed discovered
client_ids-sync_daemon d cs = ground (
  arith,
  any-has_id (daemon_client_id d) cs,
  client_ids-update_first (has_id (daemon_client_id d)) (refreshed d) (λ c. refl) cs,
  client_ids-append cs (discovered d ∷ []),
)

sync_daemon-IsValid :
    (d : LocalDaemon) (s : ConnectionState)
    → IsValid s
    → IsValid (record s { clients = sync_daemon d s.clients })
sync_daemon-IsValid d s v =
    elim (Bool-cases (includes (daemon_client_id d) (client_ids s.clients))) [
      | inl old ↦
          with_clients-IsValid s (sync_daemon d s.clients)
            (ground (arith, client_ids-sync_daemon d s.clients)) v
      | inr new ↦ record {
        distinct =
            rw (client_ids-sync_daemon d s.clients, new)
              (push-Distinct (daemon_client_id d) (client_ids s.clients) new v.distinct);
        known = λ i h.
            rw (client_ids-sync_daemon d s.clients, new)
              (ground (
                arith,
                v.known i h,
                includes-append i (client_ids s.clients) (daemon_client_id d ∷ []),
              ));
        above = v.above;
        below = v.below;
      }
    ]

sync_daemons-IsValid :
    (ds : List LocalDaemon) (s : ConnectionState) (gone : List String)
    → IsValid s
    → IsValid (record s { clients = (sync_daemons ds s.clients gone).0 })
unfolding sync_daemons
sync_daemons-IsValid [] s gone v = v
sync_daemons-IsValid (d ∷ ds) s gone v =
    sync_daemons-IsValid ds (record s { clients = sync_daemon d s.clients })
      (without (daemon_client_id d) gone) (sync_daemon-IsValid d s v)

remove_gone-IsValid :
    (ids : List String) (s : ConnectionState) → IsValid s → IsValid (remove_gone ids s)
unfolding remove_gone
remove_gone-IsValid [] s v = v
remove_gone-IsValid (id ∷ ids) s v =
    remove_gone-IsValid ids (without_client id s) (remove-IsValid id s v)

synced-IsValid : (ds : List LocalDaemon) (s : ConnectionState) → IsValid s → IsValid (synced ds s)
unfolding synced
synced-IsValid ds s v =
    ensure_selected-IsValid _
      (remove_gone-IsValid _ _ (sync_daemons-IsValid ds s (local_ids s.clients) v))

abbrev IsEmpty {ℓ} : {A : Type ℓ} → List A → Type 0
IsEmpty [] = Unit
IsEmpty (_ ∷ _) = ⊥

ensure_selected_some :
    (s : ConnectionState) (xs : List String) (cs : List UnifiedClient)
    → s.selected_client_ids ≡ xs
    → s.clients ≡ cs
    → (ensure_selected s).selected_client_ids ≡ []
    → (ensure_selected s).clients ≡ []
unfolding ensure_selected
ensure_selected_some s (x ∷ xs) cs e f h = ground arith
ensure_selected_some s [] [] e f h = ground arith
ensure_selected_some s [] (c ∷ cs) e f h = ground arith

-- The actions that see to it that a client is selected.
abbrev pub reselects : Action → Bool
reselects (drop_client id) = true
reselects (sync_local ds) = true
reselects _ = false

first-cases :
    (xs : List String) → (xs ≡ []) ⊎ ((x : String) × (rest : List String) × (xs ≡ x ∷ rest))
first-cases [] = inl refl
first-cases (x ∷ xs) = inr (x, xs, refl)

-- `id` is selected, and the id of a client.
abbrev pub HasSelected : String → ConnectionState → Type 0
HasSelected id s =
    (includes id s.selected_client_ids ≡ true) × (includes id (client_ids s.clients) ≡ true)

-- The actions that write the storage.
abbrev pub saves : Action → Bool
saves (set_status now id st e) = false
saves _ = true

abbrev pub IsSaved : Store → Type 0
IsSaved w = w.saved ≡ some w.state

module _ (room : ConnectionState → Bool) where
  -- Each allowed action keeps the ids of the clients distinct, the selection within the clients,
  -- and the global interval within its bounds.
  pub reduce-IsValid :
      (a : Action) (w : Store)
      → IsAllowed a w.state
      → IsValid w.state
      → IsValid (reduce room a w).state
  unfolding reduce update_client assign toggle_client_enabled set_selected_clients
      set_client_poll_interval sync_local_daemons
  reduce-IsValid (add now p) w ok v = add_client-IsValid room now p w ok v
  reduce-IsValid (update id u) w ok v =
      change_client-IsValid room id (assign u) w (λ c. ground arith) v
  reduce-IsValid (drop_client id) w ok v = remove_client-IsValid room id w v
  reduce-IsValid (toggle_enabled id) w ok v = change_client-IsValid room id _ w (λ c. refl) v
  reduce-IsValid (toggle_daemon_of id t) w ok v = toggle_daemon-IsValid room id t w v
  reduce-IsValid (set_status now id st e) w ok v = set_client_status-IsValid room now id st e w v
  reduce-IsValid (select ids) w ok v = select-IsValid room ids w ok v
  reduce-IsValid (toggle_selected id) w ok v = toggle_selected_client-IsValid room id w ok v
  reduce-IsValid (set_global_interval n) w ok v = set_global_poll_interval-IsValid room n w v
  reduce-IsValid (set_interval id n) w ok v = change_client-IsValid room id _ w (λ c. refl) v
  reduce-IsValid (sync_local ds) w ok v = rw (state-commit room) (synced-IsValid ds w.state v)

  some_id :
      (a : Action) (w : Store)
      → reselects a ≡ true
      → (reduce room a w).state.selected_client_ids ≡ []
      → (reduce room a w).state.clients ≡ []
  unfolding reduce remove_client sync_local_daemons synced
  some_id (drop_client id) w e h =
      rw (state-commit room) (ensure_selected_some _ _ _ refl refl (rw (state-commit room) at h))
  some_id (sync_local ds) w e h =
      rw (state-commit room) (ensure_selected_some _ _ _ refl refl (rw (state-commit room) at h))
  some_id a w e h = cc

  reselects-IsAllowed : (a : Action) (s : ConnectionState) → reselects a ≡ true → IsAllowed a s
  reselects-IsAllowed (drop_client id) s e = tt
  reselects-IsAllowed (sync_local ds) s e = tt
  reselects-IsAllowed a s e = cc

  -- After a removal or a synchronisation in a well-formed state there is no client, or an existing
  -- client is selected.
  pub some_selected :
      (a : Action) (w : Store)
      → reselects a ≡ true
      → IsValid w.state
      → ((reduce room a w).state.clients ≡ [])
        ⊎ ((id : String) × HasSelected id (reduce room a w).state)
  some_selected a w e v = elim (first-cases (reduce room a w).state.selected_client_ids) [
    | inl nothing ↦ inl (some_id a w e nothing)
    | inr (id, rest, e') ↦
        let selected : includes id (reduce room a w).state.selected_client_ids ≡ true =
          rw e' (ground arith) in
        inr (
          id,
          (selected, (reduce-IsValid a w (reselects-IsAllowed a w.state e) v).known id selected),
        )
  ]

module _ (room : ConnectionState → Bool) (r : (s : ConnectionState) → room s ≡ true) where
  commit-IsSaved : (s : ConnectionState) (w : Store) → IsSaved (commit room s w)
  unfolding commit
  commit-IsSaved s w = ground (arith, r s)

  change_client-IsSaved :
      (id : String) (f : UnifiedClient → UnifiedClient) (w : Store)
      → IsSaved w
      → IsSaved (change_client room id f w)
  unfolding change_client
  change_client-IsSaved id f w h = elim (Bool-cases (any (has_id id) w.state.clients)) [
    | inl hit ↦ rw hit (commit-IsSaved _ w)
    | inr miss ↦ rw miss h
  ]

  toggle_daemon-IsSaved :
      (id : String) (t : DaemonType) (w : Store) → IsSaved w → IsSaved (toggle_daemon room id t w)
  unfolding toggle_daemon
  toggle_daemon-IsSaved id t w h = grind (arith, change_client-IsSaved)

  toggle_selected_client-IsSaved :
      (id : String) (w : Store) → IsSaved (toggle_selected_client room id w)
  unfolding toggle_selected_client
  toggle_selected_client-IsSaved id w =
      elim (Bool-cases (includes id w.state.selected_client_ids)) [
        | inl on ↦ rw on (commit-IsSaved _ w)
        | inr off ↦ rw off (commit-IsSaved _ w)
      ]

  -- Where the storage has room for every state, each action but a change of a client's status
  -- leaves the storage with a copy of the state, if it had one before.
  pub reduce-IsSaved :
      (a : Action) (w : Store) → saves a ≡ true → IsSaved w → IsSaved (reduce room a w)
  unfolding reduce add_client update_client remove_client toggle_client_enabled set_selected_clients
      set_global_poll_interval set_client_poll_interval sync_local_daemons
  reduce-IsSaved (add now p) w e h = commit-IsSaved _ w
  reduce-IsSaved (update id u) w e h = change_client-IsSaved id _ w h
  reduce-IsSaved (drop_client id) w e h = commit-IsSaved _ w
  reduce-IsSaved (toggle_enabled id) w e h = change_client-IsSaved id _ w h
  reduce-IsSaved (toggle_daemon_of id t) w e h = toggle_daemon-IsSaved id t w h
  reduce-IsSaved (set_status now id st f) w e h = cc
  reduce-IsSaved (select ids) w e h = commit-IsSaved _ w
  reduce-IsSaved (toggle_selected id) w e h = toggle_selected_client-IsSaved id w
  reduce-IsSaved (set_global_interval n) w e h = commit-IsSaved _ w
  reduce-IsSaved (set_interval id n) w e h = change_client-IsSaved id _ w h
  reduce-IsSaved (sync_local ds) w e h = commit-IsSaved _ w
