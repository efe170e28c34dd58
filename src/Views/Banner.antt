-- ===== src/Views/Banner.antt =====
-- store/slices/bannerSlice.ts: the messages that are shown.
use mathlib.Core.List.{append-nil, append_assoc}
use net_test_toy.Base.{
  Bool, Bool-cases, List, Option, String, [], ap, arith, drop, false, filter, if◌then◌else◌, inl,
  inr, length, length-append, length-drop, ltb, none, not, some, suc, zero, ℕ, ◌++◌, ◌+◌, ◌-◌, ◌==◌,
  ◌∙◌, ◌∷◌, ◌≡◌, ◌≤◌,
}

pub data BannerType : Type 0 where
  info warning failure success : BannerType

pub record Banner : Type 0 where
  pub id : String
  pub message : String
  pub kind : BannerType
  pub timestamp : String
  pub dismissible : Option Bool
  pub auto_hide : Option Bool
  pub duration : Option ℕ

pub record BannerState : Type 0 where
  pub banners : List Banner
  pub current_banner : Option Banner
  pub show_banner_history : Bool
  pub loading : Bool
  pub error : Option String

pub data BannerAction : Type 0 where
  set_banners : List Banner → BannerAction
  add_banner : Banner → BannerAction
  set_current_banner : Option Banner → BannerAction
  dismiss_banner : String → BannerAction
  set_show_banner_history : Bool → BannerAction
  set_loading : Bool → BannerAction
  set_error : Option String → BannerAction

abbrev pub initial_state : BannerState
initial_state = record {
  banners = [];
  current_banner = none;
  show_banner_history = false;
  loading = false;
  error = none;
}

-- `if (bs.length > 50) bs = bs.slice(-50)`
unfoldable pub last_fifty : List Banner → List Banner
last_fifty bs = if ltb 50 (length bs) then drop (length bs - 50) bs else bs

abbrev pub shown_without : String → Option Banner → Option Banner
shown_without i none = none
shown_without i (some b) = if b.id == i then none else some b

unfoldable pub reduce : BannerState → BannerAction → BannerState
reduce s (set_banners bs) = record s { banners = bs }
reduce s (add_banner b) = record s { banners = last_fifty (s.banners ++ b ∷ []) }
reduce s (set_current_banner b) = record s { current_banner = b }
reduce s (dismiss_banner i) = record s {
  banners = filter (λ b. not (b.id == i)) s.banners;
  current_banner = shown_without i s.current_banner;
}
reduce s (set_show_banner_history b) = record s { show_banner_history = b }
reduce s (set_loading b) = record s { loading = b }
reduce s (set_error e) = record s { error = e }

abbrev pub run : List BannerAction → BannerState → BannerState
run [] s = s
run (a ∷ actions) s = run actions (reduce s a)

abbrev pub added : List Banner → List BannerAction
added [] = []
added (b ∷ bs) = add_banner b ∷ added bs

no_excess : (bs : List Banner) → ltb 50 (length bs) ≡ false → length bs - 50 ≡ 0
no_excess bs e = ground arith

last_fifty-drop : (bs : List Banner) → last_fifty bs ≡ drop (length bs - 50) bs
unfolding last_fifty
last_fifty-drop bs = elim (Bool-cases (ltb 50 (length bs))) [
  | inl e ↦ ground (arith, e)
  | inr e ↦ ground (arith, e, no_excess bs e)
]

shifted : (k m : ℕ) → suc (k + m) ≡ suc k + m
shifted k m = omega arith

drop-append :
    (k m : ℕ) (xs ys : List Banner)
    → k ≤ length xs
    → drop m (drop k xs ++ ys) ≡ drop (k + m) (xs ++ ys)
drop-append zero m xs ys h = ap (λ n. drop n (xs ++ ys)) (omega arith)
drop-append (suc k) m [] ys h = ground arith
drop-append (suc k) m (x ∷ xs) ys h =
    drop-append k m xs ys (omega arith) ∙ ap (λ n. drop n ((x ∷ xs) ++ ys)) (shifted k m)

last_fifty-append : (xs ys : List Banner) → last_fifty (last_fifty xs ++ ys) ≡ last_fifty (xs ++ ys)
last_fifty-append xs ys =
    rw
      (
        last_fifty-drop (last_fifty xs ++ ys),
        last_fifty-drop xs,
        last_fifty-drop (xs ++ ys),
        drop-append (length xs - 50) (length (drop (length xs - 50) xs ++ ys) - 50) xs ys
            (omega arith),
      )
      (ap (λ n. drop n (xs ++ ys))
        (ground (
          arith,
          length-append (drop (length xs - 50) xs) ys,
          length-append xs ys,
          length-drop (length xs - 50) xs,
        )))

last_fifty-short : (bs : List Banner) → length bs ≤ 50 → last_fifty bs ≡ bs
unfolding last_fifty
last_fifty-short bs h = ground arith

length-last_fifty : (bs : List Banner) → length (last_fifty bs) ≤ 50
length-last_fifty bs = rw last_fifty-drop (omega (arith, length-drop (length bs - 50) bs))

-- Banners that are added one after the other to a list of at most fifty leave the last fifty of
-- both together.
pub added_banners :
    (bs : List Banner) (s : BannerState)
    → length s.banners ≤ 50
    → (run (added bs) s).banners ≡ last_fifty (s.banners ++ bs)
unfolding reduce
added_banners [] s h = ground (arith, last_fifty-short s.banners h, append-nil s.banners)
added_banners (b ∷ bs) s h =
    added_banners bs (reduce s (add_banner b)) (length-last_fifty (s.banners ++ b ∷ []))
    ∙ (last_fifty-append (s.banners ++ b ∷ []) bs
        ∙ ap last_fifty (append_assoc s.banners (b ∷ []) bs))
