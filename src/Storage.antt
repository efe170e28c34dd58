-- ===== src/Storage.antt =====
-- The browser's storage area, which the caches, the connections and the login share.
-- A storage maps texts to texts; `setItem` refuses what has no room (a parameter of its users).
use net_test_toy.Base.{String, Option, none, some, if◌then◌else◌, ◌==◌}
use net_test_toy.Base.Dict.{Dict}

abbrev pub Storage : Type 0
Storage = Dict String

-- `if (!s)`, `s || …`: an empty text counts as missing.
abbrev pub truthy : Option String → Option String
truthy none = none
truthy (some s) = if s == "" then none else some s

abbrev pub or_else : Option String → String → String
or_else none s = s
or_else (some t) s = if t == "" then s else t
