-- ===== src/Connections/Valid.antt =====
-- What the reducers of store/connectionSlice.ts keep true of the state.
use net_test_toy.Connections.{
  Action, ClientStatus, ConnectionState, DaemonType, NewClient, Store, UnifiedClient, add,
  add_client, change_client, clamp_interval, client_ids, commit, ensure_selected, has_id,
  new_client, remove_client, select, set_client_status, set_global_poll_interval, toggle_daemon,
  toggle_selected, toggle_selected_client, update,
}
use net_test_toy.Connections.Ids.{client_ids-append, client_ids-filter, client_ids-update_first}
use net_test_toy.Base.{
  Bool, Bool-cases, List, Option, String, [], any, arith, false, filter, inl, inr, none, not, refl,
  true, ℕ, ◌<>◌, ◌∷◌, ◌≡◌, ◌≤◌, ◌⊎◌,
}
use net_test_toy.Base.Texts.{
  Distinct, Subset, decimal, includes, includes-append, includes-without, push-Distinct, without,
  without-Distinct,
}

-- Clients have distinct ids, selected ids are ids of clients, and the global interval lies between
-- one second and sixty.
pub record IsValid (s : ConnectionState) : Type 0 where
  pub distinct : Distinct (client_ids s.clients)
  pub known : Subset s.selected_client_ids (client_ids s.clients)
  pub above : 1 ≤ s.global_poll_interval
  pub below : s.global_poll_interval ≤ 60

-- What the callers see to: a new id is fresh, an update leaves the id, and the ids to select are
-- ids of clients.
abbrev pub IsAllowed : Action → ConnectionState → Type 0
IsAllowed (add now p) s = includes ("client-" <> decimal now) (client_ids s.clients) ≡ false
IsAllowed (update id u) s = u.id ≡ none
IsAllowed (select ids) s = Subset ids (client_ids s.clients)
IsAllowed (toggle_selected id) s = includes id (client_ids s.clients) ≡ true
IsAllowed _ s = Unit

pub with_clients-IsValid :
    (s : ConnectionState) (cs : List UnifiedClient)
    → client_ids cs ≡ client_ids s.clients
    → IsValid s
    → IsValid (record s { clients = cs })
with_clients-IsValid s cs e v = record {
  distinct = rw e v.distinct;
  known = λ i h. rw e (v.known i h);
  above = v.above;
  below = v.below;
}

pub ensure_selected_cases :
    (s : ConnectionState) (xs : List String) (cs : List UnifiedClient)
    → s.selected_client_ids ≡ xs
    → s.clients ≡ cs
    → (ensure_selected s ≡ s)
      ⊎ ((c : UnifiedClient) × (rest : List UnifiedClient) × (s.clients ≡ c ∷ rest)
          × (ensure_selected s ≡ record s { selected_client_ids = c.id ∷ [] }))
unfolding ensure_selected
ensure_selected_cases s (x ∷ xs) cs e f = inl (ground arith)
ensure_selected_cases s [] [] e f = inl (ground arith)
ensure_selected_cases s [] (c ∷ cs) e f = inr (c, cs, f, ground arith)

pub ensure_selected-IsValid : (s : ConnectionState) → IsValid s → IsValid (ensure_selected s)
ensure_selected-IsValid s v = elim (ensure_selected_cases s _ _ refl refl) [
  | inl same ↦ rw same v
  | inr (c, rest, e, picked) ↦ rw picked (record {
    distinct = v.distinct;
    known = λ i h. rw e (ground arith);
    above = v.above;
    below = v.below;
  })
]

without-Subset :
    (id : String) (xs ys : List String) → Subset xs ys → Subset (without id xs) (without id ys)
without-Subset id xs ys h s m =
    ground (arith, h s, includes-without s id xs, includes-without s id ys)

pub remove-IsValid :
    (id : String) (s : ConnectionState)
    → IsValid s
    → IsValid (record s {
      clients = filter (λ c. not (has_id id c)) s.clients;
      selected_client_ids = without id s.selected_client_ids;
    })
remove-IsValid id s v = record {
  distinct =
      rw (client_ids-filter id s.clients) (without-Distinct id (client_ids s.clients) v.distinct);
  known =
      rw (client_ids-filter id s.clients)
        (without-Subset id s.selected_client_ids (client_ids s.clients) v.known);
  above = v.above;
  below = v.below;
}

module _ (room : ConnectionState → Bool) where
  pub state-commit : (s : ConnectionState) (w : Store) → (commit room s w).state ≡ s
  unfolding commit
  state-commit s w = ground arith

  pub change_client-IsValid :
      (id : String) (f : UnifiedClient → UnifiedClient) (w : Store)
      → ((c : UnifiedClient) → (f c).id ≡ c.id)
      → IsValid w.state
      → IsValid (change_client room id f w).state
  unfolding change_client
  change_client-IsValid id f w same v = elim (Bool-cases (any (has_id id) w.state.clients)) [
    | inl hit ↦
        rw (hit, state-commit)
          (with_clients-IsValid w.state _
            (client_ids-update_first (has_id id) f same w.state.clients) v)
    | inr miss ↦ rw miss v
  ]

  pub add_client-IsValid :
      (now : ℕ) (p : NewClient) (w : Store)
      → includes ("client-" <> decimal now) (client_ids w.state.clients) ≡ false
      → IsValid w.state
      → IsValid (add_client room now p w).state
  unfolding add_client
  add_client-IsValid now p w fresh v = rw state-commit (record {
    distinct =
        rw (client_ids-append w.state.clients (new_client now p ∷ []))
          (push-Distinct _ (client_ids w.state.clients) fresh v.distinct);
    known = λ i h. rw (client_ids-append w.state.clients (new_client now p ∷ [])) (
        ground (
          arith,
          v.known i h,
          includes-append i (client_ids w.state.clients) (client_ids (new_client now p ∷ [])),
        ));
    above = v.above;
    below = v.below;
  })

  pub remove_client-IsValid :
      (id : String) (w : Store) → IsValid w.state → IsValid (remove_client room id w).state
  unfolding remove_client
  remove_client-IsValid id w v =
      rw state-commit (ensure_selected-IsValid _ (remove-IsValid id w.state v))

  pub select-IsValid :
      (ids : List String) (w : Store)
      → Subset ids (client_ids w.state.clients)
      → IsValid w.state
      → IsValid (commit room (record w.state { selected_client_ids = ids }) w).state
  select-IsValid ids w h v =
      rw state-commit
        (record { distinct = v.distinct; known = h; above = v.above; below = v.below })

  pub toggle_selected_client-IsValid :
      (id : String) (w : Store)
      → includes id (client_ids w.state.clients) ≡ true
      → IsValid w.state
      → IsValid (toggle_selected_client room id w).state
  unfolding toggle_selected_client
  toggle_selected_client-IsValid id w known v =
      elim (Bool-cases (includes id w.state.selected_client_ids)) [
        | inl on ↦ rw on (
            select-IsValid _ w
              (λ i h. ground (arith, v.known i, includes-without i id w.state.selected_client_ids))
              v)
        | inr off ↦ rw off (
            select-IsValid _ w
              (λ i h.
                ground (arith, v.known i, includes-append i w.state.selected_client_ids (id ∷ [])))
              v)
      ]

  pub toggle_daemon-IsValid :
      (id : String) (t : DaemonType) (w : Store)
      → IsValid w.state
      → IsValid (toggle_daemon room id t w).state
  unfolding toggle_daemon
  toggle_daemon-IsValid id t w v = grind (arith, change_client-IsValid)

  pub set_client_status-IsValid :
      (now id : String) (st : ClientStatus) (e : Option String) (w : Store)
      → IsValid w.state
      → IsValid (set_client_status room now id st e w).state
  unfolding set_client_status
  set_client_status-IsValid now id st e w v = elim (Bool-cases (any (has_id id) w.state.clients)) [
    | inl hit ↦ rw hit (
        with_clients-IsValid w.state _
          (client_ids-update_first (has_id id) _ (λ c. refl) w.state.clients) v)
    | inr miss ↦ rw miss v
  ]

  pub set_global_poll_interval-IsValid :
      (n : ℕ) (w : Store) → IsValid w.state → IsValid (set_global_poll_interval room n w).state
  unfolding set_global_poll_interval clamp_interval
  set_global_poll_interval-IsValid n w v =
      rw state-commit (record {
        distinct = v.distinct;
        known = v.known;
        above = omega arith;
        below = omega arith;
      })
