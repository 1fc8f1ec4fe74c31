-- ===== src/App/KeyActions.antt =====
-- Pictus/app_types.h and app_types.cpp: the actions of the keyboard, and the identifiers by which
-- the settings name them.
pub mod Identifiers
use Prim.Native.String.{String}
use pictus.Base.{ℕ, ◌==◌, Bool, true, false, Option, none, some, List, [], ◌∷◌, if◌then◌else◌}
use pictus.Base.Int.{ℤ}
use pictus.Base.Text.{codes, text_eq}

pub data KeyAction : Type 0 where
  undefined next_image next_skip_image previous_image previous_skip_image rename_file random_image
        zoom_in zoom_out zoom_default zoom_full zoom_free pan_up pan_down pan_left pan_right
        first_image last_image recycle_current_file delete_current_file remove_current_image
        toggle_fullscreen close_application open_settings copy_image toggle_full_size_default_zoom
        rotate_left rotate_right pan_screen_up pan_screen_down pan_screen_left pan_screen_right
        pan_upper_edge pan_lower_edge pan_left_edge pan_right_edge :
      KeyAction

-- The value of the enumerator, by which the bimap compares.
unfoldable pub number : KeyAction → ℕ
number undefined = 0
number next_image = 1
number next_skip_image = 2
number previous_image = 3
number previous_skip_image = 4
number rename_file = 5
number random_image = 6
number zoom_in = 7
number zoom_out = 8
number zoom_default = 9
number zoom_full = 10
number zoom_free = 11
number pan_up = 12
number pan_down = 13
number pan_left = 14
number pan_right = 15
number first_image = 16
number last_image = 17
number recycle_current_file = 18
number delete_current_file = 19
number remove_current_image = 20
number toggle_fullscreen = 21
number close_application = 22
number open_settings = 23
number copy_image = 24
number toggle_full_size_default_zoom = 25
number rotate_left = 26
number rotate_right = 27
number pan_screen_up = 28
number pan_screen_down = 29
number pan_screen_left = 30
number pan_screen_right = 31
number pan_upper_edge = 32
number pan_lower_edge = 33
number pan_left_edge = 34
number pan_right_edge = 35

pub record KeyboardPress : Type 0 where
  pub key : ℤ
  pub alt : Bool
  pub shift : Bool
  pub ctrl : Bool

-- A `boost::bimap`, as the list of its pairs.
abbrev pub Bimap : Type 0 → Type 0
Bimap A = List (List ℕ × A)

-- `left.find` and `right.find`
unfoldable pub find_left : {A : Type 0} → List ℕ → Bimap A → Option A
unfolding text_eq
find_left t [] = none
find_left t ((s, a) ∷ rest) = if text_eq s t then some a else find_left t rest

unfoldable pub find_right : {A : Type 0} → (A → ℕ) → A → Bimap A → Option (List ℕ)
find_right value a [] = none
find_right value a ((s, b) ∷ rest) = if value b == value a then some s else find_right value a rest

abbrev pub relation : {A : Type 0} → String → A → List ℕ × A
relation s a = (codes s, a)

unfoldable pub action_identifiers : Bimap KeyAction
action_identifiers =
    relation "CloseApplication" close_application
    ∷ relation "NextImage" next_image
    ∷ relation "NextSkipImage" next_skip_image
    ∷ relation "PrevImage" previous_image
    ∷ relation "PrevSkipImage" previous_skip_image
    ∷ relation "RandomImage" random_image
    ∷ relation "RenameFile" rename_file
    ∷ relation "RemoveFile" delete_current_file
    ∷ relation "RecycleFile" recycle_current_file
    ∷ relation "RemoveImage" remove_current_image
    ∷ relation "OpenSettings" open_settings
    ∷ relation "PanUp" pan_up
    ∷ relation "PanDown" pan_down
    ∷ relation "PanLeft" pan_left
    ∷ relation "PanRight" pan_right
    ∷ relation "ToggleFullscreen" toggle_fullscreen
    ∷ relation "FirstImage" first_image
    ∷ relation "LastImage" last_image
    ∷ relation "ZoomIn" zoom_in
    ∷ relation "ZoomOut" zoom_out
    ∷ relation "ZoomDefault" zoom_default
    ∷ relation "ZoomFree" zoom_free
    ∷ relation "ZoomFull" zoom_full
    ∷ relation "CopyImage" copy_image
    ∷ relation "ToggleFullSizeDefaultZoom" toggle_full_size_default_zoom
    ∷ relation "RotateLeft" rotate_left
    ∷ relation "RotateRight" rotate_right
    ∷ relation "PanScreenUp" pan_screen_up
    ∷ relation "PanScreenDown" pan_screen_down
    ∷ relation "PanScreenLeft" pan_screen_left
    ∷ relation "PanScreenRight" pan_screen_right
    ∷ relation "PanUpperEdge" pan_upper_edge
    ∷ relation "PanLowerEdge" pan_lower_edge
    ∷ relation "PanLeftEdge" pan_left_edge
    ∷ relation "PanRightEdge" pan_right_edge
    ∷ []

-- The identifier of an action that has none is undefined: the result is `none`.
unfoldable pub key_action_to_identifier : KeyAction → Option (List ℕ)
unfolding find_right number action_identifiers
key_action_to_identifier action = find_right number action action_identifiers

abbrev or_undefined : Option KeyAction → KeyAction
or_undefined none = undefined
or_undefined (some action) = action

unfoldable pub identifier_to_key_action : List ℕ → KeyAction
unfolding find_left action_identifiers
identifier_to_key_action identifier = or_undefined (find_left identifier action_identifiers)
