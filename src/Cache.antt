-- ===== src/Cache.antt =====
-- utils/cacheUtils.ts: the cache of API responses in the browser's storage, and the API status.
-- Each call that reads the clock takes the time `now` in milliseconds.
mod Types
pub mod Json
pub mod Lookup
pub mod Clear
pub mod Clean
pub mod Status
pub mod Stamps
pub mod Eviction
pub mod Fetch
mod Sample
mod Tests
use Prim.Native.Char.{code}
use text.Mathlib.Text.{starts_with}
pub use Types.*
use net_test_toy.Base.{
  Bool, List, Option, String, [], false, if◌then◌else◌, leb, length, ltb, map, none, not, some,
  take, true, ℕ, ◌&&◌, ◌*◌, ◌++◌, ◌+◌, ◌/◌, ◌<>◌, ◌==◌, ◌||◌, ◌∷◌,
}
use net_test_toy.Base.Dict.{erase, insert, keys, lookup}
use net_test_toy.Storage.{Storage, or_else, truthy}

pub get_cache_key : String → String
get_cache_key key = cache_prefix <> key

abbrev pub ttl_of : Option Ttl → Ttl
ttl_of none = millis default_ttl
ttl_of (some t) = t

abbrev pub version_of : Option String → String
version_of v = or_else v cache_version

-- `age > ttl`; a missing time gives the age NaN, which is above nothing.
pub is_expired : ℕ → Ttl → Option ℕ → Bool
is_expired now (millis n) (some t) = ltb (t + n) now
is_expired now (millis n) none = false
is_expired now infinity t = false

-- `entry.version !== wanted`
pub is_version : Option String → String → Bool
is_version none wanted = false
is_version (some v) wanted = v == wanted

-- `a.timestamp - b.timestamp > 0`
abbrev pub is_after : Stamp → Stamp → Bool
is_after a b = elim a.timestamp [
  | none ↦ false
  | some t ↦ elim b.timestamp [ none ↦ false | some u ↦ ltb u t ]
]

-- The stable sort by timestamp, oldest first.
abbrev pub insert_stamp : Stamp → List Stamp → List Stamp
insert_stamp a [] = a ∷ []
insert_stamp a (b ∷ bs) = if is_after a b then b ∷ insert_stamp a bs else a ∷ b ∷ bs

abbrev pub sort_stamps : List Stamp → List Stamp
sort_stamps [] = []
sort_stamps (a ∷ as') = insert_stamp a (sort_stamps as')

pub remove_stamps : List Stamp → Storage → Storage
remove_stamps [] s = s
remove_stamps (a ∷ as') s = remove_stamps as' (erase a.key s)

-- the loop of `clear`
pub remove_cached : List String → Storage → Storage
remove_cached [] s = s
remove_cached (k ∷ ks) s = remove_cached ks (if starts_with k cache_prefix then erase k s else s)

pub clear : Manager → Manager
clear m = record m { storage = remove_cached (keys m.storage) m.storage }

pub remove : String → Manager → Manager
remove key m = record m { storage = erase (get_cache_key key) m.storage }

-- `item.length`, in UTF-16 units
utf16_length : String → ℕ
utf16_length String.[] = 0
utf16_length (String.◌∷◌ c s) = (if ltb (code c) 0x10000 then 1 else 2) + utf16_length s

-- the loop of `getStats`: how many entries, and their size
stats_from : List String → Storage → ℕ × ℕ → ℕ × ℕ
unfolding utf16_length
stats_from [] s acc = acc
stats_from (k ∷ ks) s (entries, size) = stats_from ks s (
    if starts_with k cache_prefix
    then (
      entries + 1,
      elim (truthy (lookup k s)) [ none ↦ size | some item ↦ size + utf16_length item ],
    )
    else (entries, size))

pub get_stats : Manager → ℕ × ℕ
unfolding stats_from
get_stats m = stats_from (keys m.storage) m.storage (0, 0)

-- `this.statusChangeListeners.forEach(...)`
pub notify_status_listeners : Manager → Manager
notify_status_listeners m = record m {
  delivered = m.delivered ++ map (λ l. (l, m.status)) m.listeners;
}

contains : List ℕ → ℕ → Bool
contains [] l = false
contains (x ∷ xs) l = leb x l && leb l x || contains xs l

remove_listener : List ℕ → ℕ → List ℕ
remove_listener [] l = []
remove_listener (x ∷ xs) l =
    if leb x l && leb l x then remove_listener xs l else x ∷ remove_listener xs l

-- A Set holds a listener once.
pub on_status_change : ℕ → Manager → Manager
unfolding contains
on_status_change l m =
    if contains m.listeners l then m else record m { listeners = m.listeners ++ l ∷ [] }

pub unsubscribe : ℕ → Manager → Manager
unfolding remove_listener
unsubscribe l m = record m { listeners = remove_listener m.listeners l }

abbrev pub initial_status : CacheStatus
initial_status = record { is_cached_mode = false; last_api_success = none; failed_requests = 0 }

-- `this.status.lastApiSuccess && Date.now() - this.status.lastApiSuccess > 30000`
abbrev pub is_silent : ℕ → Option ℕ → Bool
is_silent now none = false
is_silent now (some t) = ltb 0 t && ltb (t + 30000) now

-- the object that `set` stores
abbrev pub entry_of : {D : Type 0} → ℕ → Option D → Option String → Entry D
entry_of now payload version = record {
  payload = payload;
  timestamp = now;
  version = version_of version;
}

module _ {D : Type 0} (h : Host D) where
  -- one round of `cleanExpiredEntries`: corrupted entries go, and those older than seven days
  pub clean_entry : ℕ → String → Storage → Storage
  unfolding is_expired
  clean_entry now k s =
      if starts_with k cache_prefix
      then (elim (truthy (lookup k s)) [
        | none ↦ s
        | some stored ↦ elim (h.parse stored) [
          | none ↦ erase k s
          | some entry ↦
              if is_expired now (millis (7 * 24 * 60 * 60 * 1000)) entry.timestamp
              then erase k s
              else s
        ]
      ])
      else s

  clean_keys : ℕ → List String → Storage → Storage
  unfolding clean_entry
  clean_keys now [] s = s
  clean_keys now (k ∷ ks) s = clean_keys now ks (clean_entry now k s)

  pub clean_expired_entries : ℕ → Storage → Storage
  unfolding clean_keys
  clean_expired_entries now s = clean_keys now (keys s) s

  -- the collecting loop of `handleStorageError`
  pub collect_stamps : List String → List Stamp → Storage → List Stamp × Storage
  collect_stamps [] found s = (found, s)
  collect_stamps (k ∷ ks) found s =
      let skip = collect_stamps ks found s in
      let corrupted = collect_stamps ks found (erase k s) in
      if starts_with k cache_prefix
      then (elim (truthy (lookup k s)) [
        | none ↦ skip
        | some stored ↦ elim (h.parse stored) [
          | none ↦ corrupted
          | some entry ↦
              collect_stamps ks (found ++ record { key = k; timestamp = entry.timestamp } ∷ []) s
        ]
      ])
      else skip

  -- Removes the oldest quarter, rounded up.
  pub handle_storage_error : Storage → Storage
  unfolding collect_stamps remove_stamps
  handle_storage_error s =
      let (found, s') = collect_stamps (keys s) [] s in
      remove_stamps (take ((length found + 3) / 4) (sort_stamps found)) s'

  pub set : ℕ → String → Option D → Option String → Manager → Manager
  unfolding get_cache_key handle_storage_error
  set now key payload version m =
      let k = get_cache_key key in
      let text = h.stringify (entry_of now payload version) in
      if h.room m.storage k text
      then record m { storage = insert k text m.storage }
      else record m { storage = handle_storage_error m.storage }

  -- `get` past `JSON.parse`
  pub read_entry : ℕ → String → CacheConfig → Manager → Option (Parsed D) → Option D × Manager
  unfolding is_version is_expired remove
  read_entry now key config m none = (none, m)
  read_entry now key config m (some entry) =
      if not (is_version entry.version (version_of config.version))
      then (none, remove key m)
      else if is_expired now (ttl_of config.ttl) entry.timestamp
      then (none, remove key m)
      else (entry.payload, m)

  pub get : ℕ → String → CacheConfig → Manager → Option D × Manager
  unfolding get_cache_key read_entry
  get now key config m = elim (truthy (lookup (get_cache_key key) m.storage)) [
    | none ↦ (none, m)
    | some stored ↦ read_entry now key config m (h.parse stored)
  ]

  pub has : ℕ → String → CacheConfig → Manager → Bool × Manager
  unfolding get
  has now key config m =
      let (found, m') = get now key config m in (elim found [ none ↦ false | some _ ↦ true ], m')

  pub load_status : Storage → CacheStatus
  load_status s = elim (truthy (lookup cache_status_key s)) [
    | none ↦ initial_status
    | some stored ↦ elim (h.parse_status stored) [ none ↦ initial_status | some st ↦ st ]
  ]

  -- A storage without room leaves the status unsaved.
  pub save_status : Manager → Manager
  save_status m =
      let text = h.stringify_status m.status in
      if h.room m.storage cache_status_key text
      then record m { storage = insert cache_status_key text m.storage }
      else m

  pub update_status : CacheStatus → Manager → Manager
  unfolding save_status notify_status_listeners
  update_status st m = notify_status_listeners (save_status (record m { status = st }))

  pub record_api_success : ℕ → Manager → Manager
  unfolding update_status
  record_api_success now m =
      update_status
        (record { is_cached_mode = false; last_api_success = some now; failed_requests = 0 }) m

  -- The result says whether the warning "Entering cached mode" is printed.
  pub record_api_failure : ℕ → Manager → Bool × Manager
  unfolding update_status
  record_api_failure now m =
      let failed = m.status.failed_requests + 1 in
      let enter = leb 3 failed || is_silent now m.status.last_api_success in
      let m' =
        update_status
          (record {
            is_cached_mode = enter;
            last_api_success = m.status.last_api_success;
            failed_requests = failed;
          })
          m in
      (enter && not m'.status.is_cached_mode, m')

  -- the private constructor
  pub construct : ℕ → Storage → Manager
  unfolding clean_expired_entries load_status
  construct now s =
      let s' = clean_expired_entries now s in
      record { storage = s'; status = load_status s'; listeners = []; delivered = [] }
