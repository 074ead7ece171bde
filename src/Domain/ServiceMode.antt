-- ===== src/Domain/ServiceMode.antt =====
-- `ServiceMode` and `supportedServiceModes` of packages/domain/src/trip.ts.
use nitip_cuy.Prelude.{Bool, true, false, List, [], ◌∷◌, if◌then◌else◌, any}
use nitip_cuy.Text.{Text, text_eq}

pub data ServiceMode : Type 0 where
  shop_for_me carry_my_item : ServiceMode
  -- a string outside the declared type, which the run-time guards refuse
  unsupported : Text → ServiceMode

-- `a === b`
unfoldable pub mode_eq : ServiceMode → ServiceMode → Bool
mode_eq shop_for_me shop_for_me = true
mode_eq carry_my_item carry_my_item = true
mode_eq (unsupported s) (unsupported t) = text_eq s t
mode_eq _ _ = false

-- `supportedServiceModes.has(mode)`
abbrev pub is_supported : ServiceMode → Bool
is_supported (unsupported s) = false
is_supported _ = true

-- `modes.includes(mode)`
abbrev pub includes : List ServiceMode → ServiceMode → Bool
includes modes mode = any (mode_eq mode) modes

-- `[...new Set(modes)]`: the first of each, in order. `seen` holds those that were met before.
unfoldable pub unique_after : List ServiceMode → List ServiceMode → List ServiceMode
unfolding mode_eq
unique_after seen [] = []
unique_after seen (m ∷ ms) =
    let skipped = unique_after seen ms in
    let kept = m ∷ unique_after (m ∷ seen) ms in if includes seen m then skipped else kept

unfoldable pub unique_modes : List ServiceMode → List ServiceMode
unfolding unique_after
unique_modes = unique_after []
