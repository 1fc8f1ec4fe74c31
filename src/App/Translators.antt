-- ===== src/App/Translators.antt =====
-- Pictus/reg_*_translator.cpp: how the settings are written as texts, and read from them. The
-- colours are left out: they use hexadecimal streams.
pub mod Choices
pub mod Bindings
use pictus.Base.{
  ℕ, ◌<◌, ◌==◌, Bool, true, false, ◌||◌, Option, none, some, List, [], ◌∷◌, ◌++◌, if◌then◌else◌,
  get_elem?,
}
use pictus.Base.Int.{ℤ, pos, negsuc, eqb_ℤ}
use pictus.Base.Text.{codes, text_eq, write_ℤ, read_int, split, implode}
use pictus.App.KeyActions.{
  KeyAction, KeyboardPress, undefined, number, key_action_to_identifier, identifier_to_key_action,
  Bimap, relation, find_left, find_right,
}

-- What a translator reads: a value, or `boost::none`. `unset` is a number that the stream left unset
-- (the text has nothing but white space), on which the code then goes on.
pub data Reading (A : Type 0) : Type 0 where
  value : A → Reading A
  nothing unset : Reading A

abbrev reading : {A : Type 0} → Option A → Reading A
reading none = nothing
reading (some a) = value a

-- Filter::Mode
pub data FilterMode : Type 0 where
  undefined_mode direct_copy nearest_neighbor bilinear lanczos3 num_modes : FilterMode

abbrev filter_mode_number : Option ℤ → Reading FilterMode
filter_mode_number none = unset
filter_mode_number (some n) =
    if eqb_ℤ n (pos 1)
    then value nearest_neighbor
    else if eqb_ℤ n (pos 2)
    then value bilinear
    else if eqb_ℤ n (pos 3)
    then value lanczos3
    else nothing

unfoldable pub get_filter_mode : List ℕ → Reading FilterMode
unfolding text_eq read_int
get_filter_mode [] = nothing
get_filter_mode (c ∷ cs) =
    let sval = c ∷ cs in
    if text_eq sval (codes "Bilinear")
    then value bilinear
    else if text_eq sval (codes "Nearest")
    then value nearest_neighbor
    else if text_eq sval (codes "Lanczos3")
    then value lanczos3
    else filter_mode_number (read_int sval)

unfoldable pub put_filter_mode : FilterMode → Option (List ℕ)
put_filter_mode nearest_neighbor = some (codes "Nearest")
put_filter_mode bilinear = some (codes "Bilinear")
put_filter_mode lanczos3 = some (codes "Lanczos3")
put_filter_mode undefined_mode = none
put_filter_mode direct_copy = none
put_filter_mode num_modes = none

pub data Language : Type 0 where
  english swedish : Language

abbrev language_number : Option ℤ → Reading Language
language_number none = unset
language_number (some n) =
    if eqb_ℤ n (pos 0) then value english else if eqb_ℤ n (pos 1) then value swedish else nothing

unfoldable pub get_language : List ℕ → Reading Language
unfolding text_eq read_int
get_language sval =
    if text_eq sval (codes "English")
    then value english
    else if text_eq sval (codes "Swedish")
    then value swedish
    else language_number (read_int sval)

unfoldable pub put_language : Language → Option (List ℕ)
put_language english = some (codes "English")
put_language swedish = some (codes "Swedish")

pub data ResizeBehaviour : Type 0 where
  resize_enlarge_or_reduce resize_enlarge_only resize_reduce_only : ResizeBehaviour

unfoldable pub resize_number : ResizeBehaviour → ℕ
resize_number resize_enlarge_or_reduce = 0
resize_number resize_enlarge_only = 1
resize_number resize_reduce_only = 2

abbrev pub resize_behavior_identifier : Bimap ResizeBehaviour
resize_behavior_identifier =
    relation "EnlargeOnly" resize_enlarge_only
    ∷ relation "EnlargeOrReduce" resize_enlarge_or_reduce
    ∷ relation "ReduceOnly" resize_reduce_only
    ∷ []

unfoldable pub get_resize_behavior : List ℕ → Reading ResizeBehaviour
unfolding text_eq find_left
get_resize_behavior sval =
    if text_eq sval (codes "0")
    then value resize_enlarge_or_reduce
    else if text_eq sval (codes "1")
    then value resize_enlarge_only
    else if text_eq sval (codes "2")
    then value resize_reduce_only
    else reading (find_left sval resize_behavior_identifier)

unfoldable pub put_resize_behavior : ResizeBehaviour → Option (List ℕ)
unfolding find_right resize_number
put_resize_behavior val = find_right resize_number val resize_behavior_identifier

pub data ResizePositionMethod : Type 0 where
  position_to_screen position_to_current position_nothing : ResizePositionMethod

unfoldable pub position_number : ResizePositionMethod → ℕ
position_number position_to_screen = 0
position_number position_to_current = 1
position_number position_nothing = 2

abbrev pub resize_position_method_identifier : Bimap ResizePositionMethod
resize_position_method_identifier =
    relation "PositionToScreen" position_to_screen
    ∷ relation "PositionToCurrent" position_to_current
    ∷ relation "PositionNothing" position_nothing
    ∷ []

unfoldable pub get_resize_position_method : List ℕ → Reading ResizePositionMethod
unfolding text_eq find_left
get_resize_position_method sval =
    if text_eq sval (codes "0")
    then value position_to_screen
    else if text_eq sval (codes "1")
    then value position_to_current
    else if text_eq sval (codes "2")
    then value position_nothing
    else reading (find_left sval resize_position_method_identifier)

unfoldable pub put_resize_position_method : ResizePositionMethod → Option (List ℕ)
unfolding find_right position_number
put_resize_position_method val = find_right position_number val resize_position_method_identifier

pub data ZoomMode : Type 0 where
  zoom_free zoom_fit_image zoom_full_size : ZoomMode

unfoldable pub zoom_number : ZoomMode → ℕ
zoom_number zoom_free = 0
zoom_number zoom_fit_image = 1
zoom_number zoom_full_size = 2

abbrev pub zoom_mode_identifier : Bimap ZoomMode
zoom_mode_identifier =
    relation "ZoomFree" zoom_free
    ∷ relation "ZoomFitImage" zoom_fit_image
    ∷ relation "ZoomFullSize" zoom_full_size
    ∷ []

unfoldable pub get_zoom_mode : List ℕ → Reading ZoomMode
unfolding text_eq find_left
get_zoom_mode sval =
    if text_eq sval (codes "0")
    then value zoom_free
    else if text_eq sval (codes "1")
    then value zoom_fit_image
    else if text_eq sval (codes "2")
    then value zoom_full_size
    else reading (find_left sval zoom_mode_identifier)

unfoldable pub put_zoom_mode : ZoomMode → Option (List ℕ)
unfolding find_right zoom_number
put_zoom_mode val = find_right zoom_number val zoom_mode_identifier

-- Reg::KeyboardBinding
pub record KeyboardBinding : Type 0 where
  pub key : KeyboardPress
  pub action : KeyAction

-- One turn of the loop over the modifiers.
unfoldable pub add_modifier : List ℕ → KeyboardPress → KeyboardPress
unfolding text_eq
add_modifier mod_text k =
    if text_eq mod_text (codes "Alt")
    then record k { alt = true }
    else if text_eq mod_text (codes "Shift")
    then record k { shift = true }
    else if text_eq mod_text (codes "Ctrl")
    then record k { ctrl = true }
    else k

unfoldable pub add_modifiers : List (List ℕ) → KeyboardPress → KeyboardPress
unfolding add_modifier
add_modifiers [] k = k
add_modifiers (m ∷ ms) k = add_modifiers ms (add_modifier m k)

abbrev pub plain_key : ℤ → KeyboardPress
plain_key k = record { key = k; alt = false; shift = false; ctrl = false }

abbrev bind_to : KeyAction → KeyboardPress → Reading KeyboardBinding
bind_to action k =
    if number action == number undefined
    then nothing
    else value (record { key = k; action = action })

abbrev bind : List ℕ → List ℕ → Option ℤ → Reading KeyboardBinding
bind modifiers identifier none = unset
bind modifiers identifier (some k) =
    bind_to (identifier_to_key_action identifier)
      (add_modifiers (split b'+' modifiers) (plain_key k))

unfoldable pub bind_parts : List (List ℕ) → Reading KeyboardBinding
unfolding add_modifiers split read_int identifier_to_key_action number
bind_parts (k ∷ modifiers ∷ identifier ∷ []) = bind modifiers identifier (read_int k)
bind_parts _ = nothing

unfoldable pub get_keyboard_binding : List ℕ → Reading KeyboardBinding
unfolding bind_parts split
get_keyboard_binding sval = bind_parts (split b',' sval)

abbrev push_if : Bool → List ℕ → List (List ℕ) → List (List ℕ)
push_if b t ts = if b then t ∷ ts else ts

unfoldable pub modifiers_of : KeyboardPress → List (List ℕ)
modifiers_of k =
    push_if k.alt (codes "Alt") (push_if k.shift (codes "Shift") (push_if k.ctrl (codes "Ctrl") []))

abbrev parts_of : KeyboardPress → Option (List ℕ) → Option (List ℕ)
parts_of k none = none
parts_of k (some identifier) =
    some (implode b',' (write_ℤ k.key ∷ implode b'+' (modifiers_of k) ∷ identifier ∷ []))

unfoldable pub put_keyboard_binding : KeyboardBinding → Option (List ℕ)
unfolding modifiers_of key_action_to_identifier implode write_ℤ
put_keyboard_binding val = parts_of val.key (key_action_to_identifier val.action)

-- App::MouseAction, in the order of their numbers.
pub data MouseAction : Type 0 where
  mouse_disable mouse_pan mouse_context mouse_toggle_full_size_default_zoom mouse_next_image
        mouse_prev_image mouse_zoom_in mouse_zoom_out mouse_fullscreen
        mouse_fullscreen_preview_no_click mouse_fullscreen_preview_click mouse_rotate_left
        mouse_rotate_right mouse_undefined :
      MouseAction

abbrev pub mouse_actions : List MouseAction
mouse_actions =
    mouse_disable ∷ mouse_pan ∷ mouse_context ∷ mouse_toggle_full_size_default_zoom
    ∷ mouse_next_image ∷ mouse_prev_image ∷ mouse_zoom_in ∷ mouse_zoom_out ∷ mouse_fullscreen
    ∷ mouse_fullscreen_preview_no_click ∷ mouse_fullscreen_preview_click ∷ mouse_rotate_left
    ∷ mouse_rotate_right ∷ mouse_undefined ∷ []

unfoldable pub mouse_number : MouseAction → ℕ
mouse_number mouse_disable = 0
mouse_number mouse_pan = 1
mouse_number mouse_context = 2
mouse_number mouse_toggle_full_size_default_zoom = 3
mouse_number mouse_next_image = 4
mouse_number mouse_prev_image = 5
mouse_number mouse_zoom_in = 6
mouse_number mouse_zoom_out = 7
mouse_number mouse_fullscreen = 8
mouse_number mouse_fullscreen_preview_no_click = 9
mouse_number mouse_fullscreen_preview_click = 10
mouse_number mouse_rotate_left = 11
mouse_number mouse_rotate_right = 12
mouse_number mouse_undefined = 13

abbrev mouse_action_number : Option ℤ → Reading MouseAction
mouse_action_number none = unset
mouse_action_number (some (negsuc n)) = value mouse_disable
mouse_action_number (some (pos n)) = elim (get_elem? mouse_actions n) [
  | none ↦ value mouse_disable
  | some action ↦ value action
]

-- Numbers that no action has are read as `MouseDisable`.
unfoldable pub get_mouse_action : List ℕ → Reading MouseAction
unfolding read_int
get_mouse_action sval = mouse_action_number (read_int sval)

unfoldable pub put_mouse_action : MouseAction → Option (List ℕ)
unfolding write_ℤ mouse_number
put_mouse_action val = some (write_ℤ (pos (mouse_number val)))
