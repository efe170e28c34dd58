-- ===== src/Views/Mobile.antt =====
-- store/slices/mobileSlice.ts: the size of the screen, and the class of device it stands for.
use net_test_toy.Base.{
  Bool, Bool-cases, Option, arith, false, if◌then◌else◌, inl, inr, ltb, none, not, some, true, ℕ,
  ◌&&◌, ◌+◌, ◌≡◌,
}

pub data Orientation : Type 0 where
  landscape portrait : Orientation

pub record MobileState : Type 0 where
  pub is_mobile : Bool
  pub is_tablet : Bool
  pub is_desktop : Bool
  pub screen_width : ℕ
  pub screen_height : ℕ
  pub orientation : Orientation
  pub fixed_width : Bool
  pub sidebar_collapsed : Bool
  pub navigation_collapsed : Bool
  pub force_fixed_width : Bool
  pub fixed_width_value : ℕ
  pub natural_is_mobile : Bool

pub data MobileAction : Type 0 where
  set_screen_dimensions : ℕ → ℕ → MobileAction
  set_is_mobile : Bool → MobileAction
  set_is_tablet : Bool → MobileAction
  set_is_desktop : Bool → MobileAction
  set_orientation : Orientation → MobileAction
  set_fixed_width : Bool → MobileAction
  set_sidebar_collapsed : Bool → MobileAction
  set_navigation_collapsed : Bool → MobileAction
  toggle_sidebar : MobileAction
  toggle_navigation : MobileAction
  set_force_fixed_width : Bool → MobileAction
  set_fixed_width_value : ℕ → MobileAction
  set_natural_is_mobile : Bool → MobileAction

abbrev width_of : Option (ℕ × ℕ) → ℕ
width_of none = 1920
width_of (some (w, h)) = w

abbrev height_of : Option (ℕ × ℕ) → ℕ
height_of none = 1080
height_of (some (w, h)) = h

-- `window` is the size of the window, where there is one.
abbrev pub initial_state : Option (ℕ × ℕ) → MobileState
initial_state window = record {
  is_mobile = false;
  is_tablet = false;
  is_desktop = true;
  screen_width = width_of window;
  screen_height = height_of window;
  orientation = landscape;
  fixed_width = false;
  sidebar_collapsed = false;
  navigation_collapsed = false;
  force_fixed_width = false;
  fixed_width_value = 425;
  natural_is_mobile = false;
}

pub dimensions : ℕ → ℕ → MobileState → MobileState
dimensions w h s = record s {
  screen_width = w;
  screen_height = h;
  is_mobile = not (ltb 768 w);
  is_tablet = ltb 768 w && not (ltb 1024 w);
  is_desktop = ltb 1024 w;
  orientation = if ltb h w then landscape else portrait;
}

unfoldable pub reduce : MobileState → MobileAction → MobileState
reduce s (set_screen_dimensions w h) = dimensions w h s
reduce s (set_is_mobile b) = record s { is_mobile = b }
reduce s (set_is_tablet b) = record s { is_tablet = b }
reduce s (set_is_desktop b) = record s { is_desktop = b }
reduce s (set_orientation o) = record s { orientation = o }
reduce s (set_fixed_width b) = record s { fixed_width = b }
reduce s (set_sidebar_collapsed b) = record s { sidebar_collapsed = b }
reduce s (set_navigation_collapsed b) = record s { navigation_collapsed = b }
reduce s toggle_sidebar = record s { sidebar_collapsed = not s.sidebar_collapsed }
reduce s toggle_navigation = record s { navigation_collapsed = not s.navigation_collapsed }
reduce s (set_force_fixed_width b) = record s { force_fixed_width = b }
reduce s (set_fixed_width_value n) = record s { fixed_width_value = n }
reduce s (set_natural_is_mobile b) = record s { natural_is_mobile = b }

-- 1, where the flag is up
abbrev one : Bool → ℕ
one true = 1
one false = 0

-- Of the three classes of a device, a screen of any size has exactly one, whatever was said before.
one_class :
    (w h : ℕ) (s : MobileState)
    → one (dimensions w h s).is_mobile
        + one (dimensions w h s).is_tablet
        + one (dimensions w h s).is_desktop
      ≡ 1
unfolding dimensions
one_class w h s = elim (Bool-cases (ltb 768 w)) [ inl e ↦ ground arith | inr e ↦ ground arith ]
