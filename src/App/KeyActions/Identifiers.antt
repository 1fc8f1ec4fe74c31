-- ===== src/App/KeyActions/Identifiers.antt =====
-- The identifiers of the keyboard actions.
use pictus.Base.{◌≡◌, ◌==◌, refl, true, false, some, List, ℕ}
use pictus.Base.Text.{codes, has_no}
use pictus.App.KeyActions.{
  KeyAction, number, key_action_to_identifier, identifier_to_key_action, undefined, next_image,
  next_skip_image, previous_image, previous_skip_image, rename_file, random_image, zoom_in,
  zoom_out, zoom_default, zoom_full, zoom_free, pan_up, pan_down, pan_left, pan_right, first_image,
  last_image, recycle_current_file, delete_current_file, remove_current_image, toggle_fullscreen,
  close_application, open_settings, copy_image, toggle_full_size_default_zoom, rotate_left,
  rotate_right, pan_screen_up, pan_screen_down, pan_screen_left, pan_screen_right, pan_upper_edge,
  pan_lower_edge, pan_left_edge, pan_right_edge,
}

-- The text that names an action: no other action has it, and it has no comma.
abbrev pub IsNamed : KeyAction → Type 0
IsNamed action =
    (t : List ℕ) × (key_action_to_identifier action ≡ some t)
    × (identifier_to_key_action t ≡ action)
    × (has_no b',' t ≡ true)
    × ((number action == 0) ≡ false)

abbrev pub Named : KeyAction → Type 0
Named undefined = ⊥
Named _ = Unit {0}

pub action-IsNamed : (action : KeyAction) → Named action → IsNamed action
unfolding key_action_to_identifier number identifier_to_key_action has_no
action-IsNamed undefined h = absurd h
action-IsNamed next_image h = (codes "NextImage", refl, refl, refl, refl)
action-IsNamed next_skip_image h = (codes "NextSkipImage", refl, refl, refl, refl)
action-IsNamed previous_image h = (codes "PrevImage", refl, refl, refl, refl)
action-IsNamed previous_skip_image h = (codes "PrevSkipImage", refl, refl, refl, refl)
action-IsNamed rename_file h = (codes "RenameFile", refl, refl, refl, refl)
action-IsNamed random_image h = (codes "RandomImage", refl, refl, refl, refl)
action-IsNamed zoom_in h = (codes "ZoomIn", refl, refl, refl, refl)
action-IsNamed zoom_out h = (codes "ZoomOut", refl, refl, refl, refl)
action-IsNamed zoom_default h = (codes "ZoomDefault", refl, refl, refl, refl)
action-IsNamed zoom_full h = (codes "ZoomFull", refl, refl, refl, refl)
action-IsNamed zoom_free h = (codes "ZoomFree", refl, refl, refl, refl)
action-IsNamed pan_up h = (codes "PanUp", refl, refl, refl, refl)
action-IsNamed pan_down h = (codes "PanDown", refl, refl, refl, refl)
action-IsNamed pan_left h = (codes "PanLeft", refl, refl, refl, refl)
action-IsNamed pan_right h = (codes "PanRight", refl, refl, refl, refl)
action-IsNamed first_image h = (codes "FirstImage", refl, refl, refl, refl)
action-IsNamed last_image h = (codes "LastImage", refl, refl, refl, refl)
action-IsNamed recycle_current_file h = (codes "RecycleFile", refl, refl, refl, refl)
action-IsNamed delete_current_file h = (codes "RemoveFile", refl, refl, refl, refl)
action-IsNamed remove_current_image h = (codes "RemoveImage", refl, refl, refl, refl)
action-IsNamed toggle_fullscreen h = (codes "ToggleFullscreen", refl, refl, refl, refl)
action-IsNamed close_application h = (codes "CloseApplication", refl, refl, refl, refl)
action-IsNamed open_settings h = (codes "OpenSettings", refl, refl, refl, refl)
action-IsNamed copy_image h = (codes "CopyImage", refl, refl, refl, refl)
action-IsNamed toggle_full_size_default_zoom h =
    (codes "ToggleFullSizeDefaultZoom", refl, refl, refl, refl)
action-IsNamed rotate_left h = (codes "RotateLeft", refl, refl, refl, refl)
action-IsNamed rotate_right h = (codes "RotateRight", refl, refl, refl, refl)
action-IsNamed pan_screen_up h = (codes "PanScreenUp", refl, refl, refl, refl)
action-IsNamed pan_screen_down h = (codes "PanScreenDown", refl, refl, refl, refl)
action-IsNamed pan_screen_left h = (codes "PanScreenLeft", refl, refl, refl, refl)
action-IsNamed pan_screen_right h = (codes "PanScreenRight", refl, refl, refl, refl)
action-IsNamed pan_upper_edge h = (codes "PanUpperEdge", refl, refl, refl, refl)
action-IsNamed pan_lower_edge h = (codes "PanLowerEdge", refl, refl, refl, refl)
action-IsNamed pan_left_edge h = (codes "PanLeftEdge", refl, refl, refl, refl)
action-IsNamed pan_right_edge h = (codes "PanRightEdge", refl, refl, refl, refl)
