-- ===== src/Thunk.antt =====
-- What a slice of the store hears of a thunk.
use net_test_toy.Base.{Option, String, suc, ℕ, ◌-◌}

-- The stages of a thunk; the end carries the time of its reducer as an ISO text.
pub data Stage {ℓ} (A : Type ℓ) : Type ℓ where
  pending : Stage A
  fulfilled : String → A → Stage A
  rejected : Option String → Stage A

-- A request is sent when its thunk is pending, and over when it settles.
pub data Progress : Type 0 where
  sent over other : Progress

abbrev pub progress_of {ℓ} : {A : Type ℓ} → Stage A → Progress
progress_of pending = sent
progress_of (fulfilled now a) = over
progress_of (rejected m) = over

abbrev pub count_one : Progress → ℕ → ℕ
count_one sent n = suc n
count_one over n = n - 1
count_one other n = n
