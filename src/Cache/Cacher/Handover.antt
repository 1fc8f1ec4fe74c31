-- ===== src/Cache/Cacher/Handover.antt =====
-- What the background thread's queue holds when the cacher has set its priorities.
use pictus.Base.{ℕ, ◌≤◌, ◌<◌, ◌≡◌, ◌∙◌, sym, Bool, Option, List, [], ◌∷◌, length, ap, subst}
use pictus.Cache.Queue.{WorkRequest, run, run-append, cache_image}
use pictus.Cache.State.{Cacher, Returns, Returns-mono}
use pictus.Cache.Cacher.{apply_priorities, current_image_filename}
use pictus.Cache.Cacher.Frame.{image_in}
use pictus.Cache.Cacher.Priorities.{IsQueue, Prioritised, apply_priorities-Returns}

abbrev pub queue_of : Cacher → List WorkRequest
queue_of c = run [] c.calls

-- The queue starts with the current image, has no request twice and none that is not of the list.
abbrev pub HandedOver : Cacher → Option ℕ → Cacher → Type 0
HandedOver c image d =
    IsQueue (record { image = image; filename = current_image_filename c }) d (queue_of d)
    × (length (queue_of d) ≤ 5)
    × (image_in d.files d.index ≡ image)

-- Whatever the queue held before: after `apply_priorities` at a position of the list it holds five
-- requests at most, the current image first, no request twice, and each of them empty or the image
-- and the name of one entry.
pub run-apply_priorities :
    (flip : Bool) (c : Cacher)
    → c.index < length c.files
    → Returns (apply_priorities flip c) (HandedOver c)
unfolding run
run-apply_priorities flip c h =
    Returns-mono (Prioritised c) (HandedOver c) _ (apply_priorities-Returns flip c h)
      λ image d (s, queue, e, q, few, at, made).
        let same : queue ≡ queue_of d =
          sym (ap (run []) e ∙ run-append [] c.calls (cache_image queue ∷ [])) in
        (
          subst (IsQueue (record { image = image; filename = current_image_filename c }) d) same q,
          subst (λ (l : List WorkRequest). length l ≤ 5) same few,
          at,
        )
