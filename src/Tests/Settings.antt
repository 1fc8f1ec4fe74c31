-- ===== src/Tests/Settings.antt =====
-- The settings as texts (source/Pictus/reg_*_translator.cpp) for a concrete binding of keys.
use pictus.Base.{ℕ, ◌≡◌, refl, arith, true, false, some, List}
use pictus.Base.Int.{pos}
use pictus.Base.Text.{codes}
use pictus.App.KeyActions.{pan_screen_up}
use pictus.App.Translators.{
  KeyboardBinding, value, nothing, get_keyboard_binding, put_keyboard_binding, get_zoom_mode,
  zoom_fit_image,
}
use pictus.App.Translators.Bindings.{get_keyboard_binding-put}

abbrev binding : KeyboardBinding
binding = record {
  key = record { key = pos 315; alt = true; shift = false; ctrl = true };
  action = pan_screen_up;
}

binding_text : put_keyboard_binding binding ≡ some (codes "315,Alt+Ctrl,PanScreenUp")
unfolding put_keyboard_binding
binding_text = refl

unknown_action : get_keyboard_binding (codes "315,Alt,Jump") ≡ nothing
unfolding get_keyboard_binding
unknown_action = refl

old_number : get_zoom_mode (codes "1") ≡ value zoom_fit_image
unfolding get_zoom_mode
old_number = refl

get_keyboard_binding-put_example :
    (t : List ℕ) × (put_keyboard_binding binding ≡ some t)
    × (get_keyboard_binding t ≡ value binding)
get_keyboard_binding-put_example = get_keyboard_binding-put binding 315 refl (omega arith) tt
