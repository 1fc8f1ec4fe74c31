-- ===== src/App/Translators/Choices.antt =====
-- Round trips of the settings that choose one of a few values.
use pictus.Base.{ℕ, ◌≡◌, refl, Option, some, List}
use pictus.App.Translators.{
  Reading, value, FilterMode, undefined_mode, direct_copy, nearest_neighbor, bilinear, lanczos3,
  num_modes, get_filter_mode, put_filter_mode, Language, english, swedish, get_language,
  put_language, ResizeBehaviour, resize_enlarge_or_reduce, resize_enlarge_only, resize_reduce_only,
  get_resize_behavior, put_resize_behavior, ResizePositionMethod, position_to_screen,
  position_to_current, position_nothing, get_resize_position_method, put_resize_position_method,
  ZoomMode, zoom_free, zoom_fit_image, zoom_full_size, get_zoom_mode, put_zoom_mode, MouseAction,
  get_mouse_action, put_mouse_action, mouse_disable, mouse_pan, mouse_context,
  mouse_toggle_full_size_default_zoom, mouse_next_image, mouse_prev_image, mouse_zoom_in,
  mouse_zoom_out, mouse_fullscreen, mouse_fullscreen_preview_no_click,
  mouse_fullscreen_preview_click, mouse_rotate_left, mouse_rotate_right, mouse_undefined,
}

-- The value is written, and its text is read as the value.
abbrev pub IsKept : {A : Type 0} → (List ℕ → Reading A) → (A → Option (List ℕ)) → A → Type 0
IsKept get put a = (t : List ℕ) × (put a ≡ some t) × (get t ≡ value a)

-- The modes that a user can choose.
abbrev pub Scales : FilterMode → Type 0
Scales nearest_neighbor = Unit {0}
Scales bilinear = Unit {0}
Scales lanczos3 = Unit {0}
Scales undefined_mode = ⊥
Scales direct_copy = ⊥
Scales num_modes = ⊥

filter_mode-IsKept : (m : FilterMode) → Scales m → IsKept get_filter_mode put_filter_mode m
unfolding get_filter_mode put_filter_mode
filter_mode-IsKept nearest_neighbor h = (_, refl, refl)
filter_mode-IsKept bilinear h = (_, refl, refl)
filter_mode-IsKept lanczos3 h = (_, refl, refl)
filter_mode-IsKept undefined_mode h = absurd h
filter_mode-IsKept direct_copy h = absurd h
filter_mode-IsKept num_modes h = absurd h

language-IsKept : (l : Language) → IsKept get_language put_language l
unfolding get_language put_language
language-IsKept english = (_, refl, refl)
language-IsKept swedish = (_, refl, refl)

resize_behavior-IsKept : (b : ResizeBehaviour) → IsKept get_resize_behavior put_resize_behavior b
unfolding get_resize_behavior put_resize_behavior
resize_behavior-IsKept resize_enlarge_or_reduce = (_, refl, refl)
resize_behavior-IsKept resize_enlarge_only = (_, refl, refl)
resize_behavior-IsKept resize_reduce_only = (_, refl, refl)

position-IsKept :
    (p : ResizePositionMethod) → IsKept get_resize_position_method put_resize_position_method p
unfolding get_resize_position_method put_resize_position_method
position-IsKept position_to_screen = (_, refl, refl)
position-IsKept position_to_current = (_, refl, refl)
position-IsKept position_nothing = (_, refl, refl)

zoom_mode-IsKept : (z : ZoomMode) → IsKept get_zoom_mode put_zoom_mode z
unfolding get_zoom_mode put_zoom_mode
zoom_mode-IsKept zoom_free = (_, refl, refl)
zoom_mode-IsKept zoom_fit_image = (_, refl, refl)
zoom_mode-IsKept zoom_full_size = (_, refl, refl)

mouse_action-IsKept : (a : MouseAction) → IsKept get_mouse_action put_mouse_action a
unfolding get_mouse_action put_mouse_action
mouse_action-IsKept mouse_disable = (_, refl, refl)
mouse_action-IsKept mouse_pan = (_, refl, refl)
mouse_action-IsKept mouse_context = (_, refl, refl)
mouse_action-IsKept mouse_toggle_full_size_default_zoom = (_, refl, refl)
mouse_action-IsKept mouse_next_image = (_, refl, refl)
mouse_action-IsKept mouse_prev_image = (_, refl, refl)
mouse_action-IsKept mouse_zoom_in = (_, refl, refl)
mouse_action-IsKept mouse_zoom_out = (_, refl, refl)
mouse_action-IsKept mouse_fullscreen = (_, refl, refl)
mouse_action-IsKept mouse_fullscreen_preview_no_click = (_, refl, refl)
mouse_action-IsKept mouse_fullscreen_preview_click = (_, refl, refl)
mouse_action-IsKept mouse_rotate_left = (_, refl, refl)
mouse_action-IsKept mouse_rotate_right = (_, refl, refl)
mouse_action-IsKept mouse_undefined = (_, refl, refl)

-- Each setting that chooses one of a few values is read as the value that was written: the filter
-- modes that scale, the languages, the ways to resize and to place the window, the zoom modes and
-- the actions of the mouse.
pub settings-IsKept :
    ((m : FilterMode) → Scales m → IsKept get_filter_mode put_filter_mode m)
    × ((l : Language) → IsKept get_language put_language l)
    × ((b : ResizeBehaviour) → IsKept get_resize_behavior put_resize_behavior b)
    × ((p : ResizePositionMethod) → IsKept get_resize_position_method put_resize_position_method p)
    × ((z : ZoomMode) → IsKept get_zoom_mode put_zoom_mode z)
    × ((a : MouseAction) → IsKept get_mouse_action put_mouse_action a)
settings-IsKept = (
  filter_mode-IsKept, language-IsKept, resize_behavior-IsKept, position-IsKept, zoom_mode-IsKept,
  mouse_action-IsKept,
)
