-- ===== src/LabManager/Hosts.antt =====
-- The managed hosts of labManagerSlice.ts: the saved list, and what an answer changes.
use net_test_toy.LabManager.{
  Action, HostFile, HostResult, Lab, LabAnswer, LabManagerState, ManagedHost, Mutation, Stage,
  add_managed_host, answered, apply_result, apply_results, commit, drop_data, fetch_lab_data,
  fetch_single_host_data, fulfilled, has_id, lab_data, mutate, mutated, reduce, remove_managed_host,
  result_of, set_mutating, storage_key, thrown, toggle_managed_host, toggled, update_managed_host,
}
use net_test_toy.Base.{
  List, Option, String, [], ap, arith, false, filter, find, if◌then◌else◌, map, none, not, refl,
  some, true, update_first, ◌==◌, ◌∙◌, ◌∷◌, ◌≡◌,
}
use net_test_toy.Base.Texts.{Distinct, includes}
use net_test_toy.Base.Dict.{lookup, lookup-insert}
use net_test_toy.Storage.{Storage}

abbrev pub host_ids : List ManagedHost → List String
host_ids = map (λ h. h.id)

find-absent_id :
    (j : String) (hs : List ManagedHost)
    → includes j (host_ids hs) ≡ false
    → find (has_id j) hs ≡ none
find-absent_id j [] h = refl
find-absent_id j (x ∷ hs) h = ground (arith, find-absent_id j hs)

find-filter_out :
    (j : String) (hs : List ManagedHost) → find (has_id j) (filter (λ h. not (h.id == j)) hs) ≡ none
find-filter_out j [] = refl
find-filter_out j (x ∷ hs) = ground (arith, find-filter_out j hs)

find-update_first-none :
    (j : String) (g : ManagedHost → ManagedHost) (hs : List ManagedHost)
    → find (has_id j) hs ≡ none
    → find (has_id j) (update_first (has_id j) g hs) ≡ none
find-update_first-none j g [] h = refl
find-update_first-none j g (x ∷ hs) h = ground (arith, find-update_first-none j g hs)

-- The daemons that an answer lists.
abbrev pub daemons_of : {P : Type 0} → LabAnswer P → List P
daemons_of (answered ds cs) = ds
daemons_of (thrown m) = []

-- The daemons known of a host, after the answers for the hosts `hs`.
abbrev pub after :
    {P : Type 0} → (String → LabAnswer P) → Option ManagedHost → Option (List P) → Option (List P)
after answer none known = known
after answer (some h) known = if h.enabled then some (daemons_of (answer h.url)) else known

lookup-lab_data :
    {P : Type 0} (j : String) (answer : String → LabAnswer P) (hs : List ManagedHost)
    (s : LabManagerState P)
    → Distinct (host_ids hs)
    → lookup j (apply_results (lab_data answer hs) s).daemons
      ≡ after answer (find (has_id j) hs) (lookup j s.daemons)
unfolding lab_data apply_results apply_result result_of
lookup-lab_data j answer [] s u = refl
lookup-lab_data j answer (h ∷ hs) s u =
    let r = result_of h (answer h.url) in
    ground (
      arith,
      lookup-lab_data j answer hs s u.1,
      lookup-lab_data j answer hs (apply_result r s) u.1,
      lookup-insert h.id j (daemons_of (answer h.url)) s.daemons,
      find-absent_id h.id hs u.0,
    )

managed_hosts-mutated :
    {P : Type 0} (m : Mutation) (t : Stage Unit) (s : LabManagerState P)
    → (mutated m t s).managed_hosts ≡ s.managed_hosts
unfolding mutated set_mutating
managed_hosts-mutated m t s = ground arith

-- The text of the storage, if any, is that of the hosts; without one there is no host.
abbrev pub IsText : HostFile → Option String → List ManagedHost → Type 0
IsText f none hs = hs ≡ []
IsText f (some text) hs = text ≡ f.stringify hs

module _ {P : Type 0} (f : HostFile) where
  abbrev pub IsSaved : Lab P → Type 0
  IsSaved w = IsText f (lookup storage_key w.storage) w.state.managed_hosts

  commit-IsSaved : (s : LabManagerState P) (w : Lab P) → IsSaved w → IsSaved (commit f s w)
  unfolding commit
  commit-IsSaved s w v =
      ground (arith, lookup-insert storage_key storage_key (f.stringify s.managed_hosts) w.storage)

  -- Every action keeps the text of the storage that of the hosts, whether the storage has room or
  -- not; where the storage has no text, there is no host.
  pub reduce-IsSaved_hosts : (c : Action P) (w : Lab P) → IsSaved w → IsSaved (reduce f c w)
  unfolding reduce
  reduce-IsSaved_hosts (add_managed_host now n) w v = commit-IsSaved _ w v
  reduce-IsSaved_hosts (update_managed_host h) w v =
      let s = w.state in
      let hs = update_first (has_id h.id) (λ _. h) s.managed_hosts in
      ground (arith, commit-IsSaved (record s { managed_hosts = hs }) w v)
  reduce-IsSaved_hosts (remove_managed_host id) w v = commit-IsSaved _ w v
  reduce-IsSaved_hosts (toggle_managed_host id) w v =
      let s = w.state in
      let t = record s { managed_hosts = update_first (has_id id) toggled s.managed_hosts } in
      ground (arith, commit-IsSaved t w v, commit-IsSaved (drop_data id t) w v)
  reduce-IsSaved_hosts (fetch_lab_data (fulfilled rs)) w v = commit-IsSaved _ w v
  reduce-IsSaved_hosts (fetch_single_host_data (fulfilled r)) w v = commit-IsSaved _ w v
  reduce-IsSaved_hosts (mutate m t) w v = ground (arith, managed_hosts-mutated m t w.state)
  reduce-IsSaved_hosts c w v = ground arith

  state-commit :
      (s : LabManagerState P) (w : Lab P)
      → ((s : Storage) (k t : String) → f.room s k t ≡ true)
      → (commit f s w).state ≡ s
  unfolding commit
  state-commit s w h = ground (arith, h w.storage storage_key (f.stringify s.managed_hosts))

  -- Where the ids of the hosts are distinct and the storage has room, a fetch of all the data leaves
  -- under the id of each enabled host the daemons that it answers, none where its request fails, and
  -- under any other id what was known.
  pub lookup-fetch_lab_data :
      (j : String) (answer : String → LabAnswer P) (hs : List ManagedHost) (w : Lab P)
      → Distinct (host_ids hs)
      → ((s : Storage) (k t : String) → f.room s k t ≡ true)
      → lookup j (reduce f (fetch_lab_data (fulfilled (lab_data answer hs))) w).state.daemons
        ≡ after answer (find (has_id j) hs) (lookup j w.state.daemons)
  unfolding reduce
  lookup-fetch_lab_data j answer hs w u h =
      ap (λ t. lookup j t.daemons)
        (state-commit (apply_results (lab_data answer hs) (record w.state { is_loading = false })) w
          h)
      ∙ lookup-lab_data j answer hs (record w.state { is_loading = false }) u

  -- An answer that arrives after its host has been removed puts the host's daemons back.
  pub late_answer :
      (r : HostResult P) (w : Lab P)
      → ((s : Storage) (k t : String) → f.room s k t ≡ true)
      → let t =
          reduce f
            (fetch_single_host_data (fulfilled r))
            (reduce f (remove_managed_host r.host_id) w) in
        (find (has_id r.host_id) t.state.managed_hosts ≡ none)
        × (lookup r.host_id t.state.daemons ≡ some r.daemons)
  unfolding reduce drop_data apply_result
  late_answer r w h =
      let id = r.host_id in
      let v = reduce f (remove_managed_host id) w in
      let s = w.state in
      let kept = filter (λ x. not (x.id == id)) s.managed_hosts in
      let gone =
        ap (λ t. find (has_id id) t.managed_hosts)
          (state-commit (drop_data id (record s { managed_hosts = kept })) w h)
        ∙ find-filter_out id s.managed_hosts in
      let single = state-commit (apply_result r (record v.state { is_loading = false })) v h in
      (
        ap (λ t. find (has_id id) t.managed_hosts) single
            ∙ find-update_first-none id _ v.state.managed_hosts gone,
        ap (λ t. lookup id t.daemons) single
            ∙ ground (arith, lookup-insert id id r.daemons v.state.daemons),
      )
