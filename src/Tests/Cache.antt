-- ===== src/Tests/Cache.antt =====
-- The image cache (source/Pictus/imagecache.cpp) with a few files.
use Prim.Native.String.{String}
use text.Mathlib.TextEquality.{eq_iff}
use mathlib.Core.List.{Perm}
use pictus.Base.{ℕ, ◌≢◌, refl, inl, true, false, none, some, List, [], ◌∷◌, arith}
use pictus.Cache.State.{FileEntry, Cacher, Returns, ◌>>◌}
use pictus.Cache.Cacher.{apply_priorities, current_image_filename, init}
use pictus.Cache.Cacher.Moves.{next_image, previous_image}
use pictus.Cache.Cacher.Edits.{remove_image_index, remove_current_image, sort, sort_date_modified}
use pictus.Cache.Cacher.Frame.{names}
use pictus.Cache.Cacher.Priorities.{Prioritised, apply_priorities-Returns}
use pictus.Cache.Cacher.Handover.{HandedOver, run-apply_priorities}
use pictus.Cache.Cacher.Safety.{IsValid, Safe}
use pictus.Cache.Cacher.Histories.{
  Op, add, store, next, remove_current, remove_at, wrap, step, run, step-run_safe,
}
use pictus.Cache.Cacher.Navigation.{IsBack, previous_image-next_image}
use pictus.Cache.Cacher.Removal.{
  Removed, remove_image_index-keeps_current, remove_current_image-shows_neighbour,
}
use pictus.Cache.Cacher.Sorting.{sorted, Restored, sort-keeps_current}

abbrev entry : String → FileEntry
entry name = record { fullname = name; image = none }

-- Four files, the third of them current.
abbrev four_files : Cacher
four_files = record {
  files =
      entry "a.png"
      ∷ entry "b.png"
      ∷ record { fullname = "c.png"; image = some 0 }
      ∷ entry "d.png"
      ∷ [];
  index = 2;
  went_forward = true;
  wrap_around = true;
  codecs = some (λ _. true);
  next_id = 1;
  calls = [];
}

abbrev no_files : Cacher
no_files = record four_files { files = []; index = 0 }

abbrev by_image : FileEntry → ℕ
by_image e = elim e.image [ none ↦ 1 | some p ↦ 0 ]

abbrev history : List Op
history = store (some (λ _. true)) ∷ add "a.png" ∷ add "b.png" ∷ wrap true ∷ next ∷ remove_at 0 ∷ []

apply_priorities-Returns_example :
    Returns (apply_priorities true four_files) (Prioritised four_files)
apply_priorities-Returns_example = apply_priorities-Returns true four_files (omega arith)

run-apply_priorities_example : Returns (apply_priorities false four_files) (HandedOver four_files)
run-apply_priorities_example = run-apply_priorities false four_files (omega arith)

step-run_safe_example : Safe (step remove_current (run init history)) (IsValid 7)
step-run_safe_example =
    step-run_safe history remove_current (tt, (tt, (tt, (tt, (tt, (tt, tt)))))) tt (omega arith)

remove_image_index-keeps_current_example :
    Returns (remove_image_index 1 four_files) (Removed four_files 1 "c.png")
unfolding current_image_filename
remove_image_index-keeps_current_example =
    remove_image_index-keeps_current 1 four_files (omega arith, omega arith) (omega arith)
      (omega arith)

remove_current_image-shows_neighbour_example :
    Returns (remove_current_image four_files) (Removed four_files 2 "d.png")
remove_current_image-shows_neighbour_example =
    remove_current_image-shows_neighbour four_files "d.png" (omega arith, omega arith) (omega arith)
      refl

abbrev c_png : String
c_png = "c.png"

c_png-not_empty : c_png ≢ ""
c_png-not_empty = λ e. ground (arith, (eq_iff c_png "").1 e)

sort-keeps_current_example :
    Returns
      (sort sort_date_modified by_image four_files)
      (Restored "c.png" (sorted sort_date_modified by_image four_files))
    × Perm (names (sorted sort_date_modified by_image four_files)) (names four_files)
unfolding current_image_filename
sort-keeps_current_example =
    sort-keeps_current sort_date_modified by_image four_files (omega arith) (omega arith)
      c_png-not_empty

previous_image-next_image_example :
    Returns ((next_image >> previous_image) four_files) (IsBack four_files)
previous_image-next_image_example =
    previous_image-next_image four_files (omega arith, omega arith) (inl refl)
