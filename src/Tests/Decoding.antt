-- ===== src/Tests/Decoding.antt =====
-- The decoding of images (source/Pictus/ic_imageloader.cpp, ic_worklist.cpp) with two loaders.
use pictus.Base.{◌≡◌, ◌≢◌, refl, arith, true, false, none, some, List, [], ◌∷◌}
use pictus.Cache.Queue.{WorkRequest}
use pictus.Cache.Loader.{
  ImageLoader, Candidate, Replies, il_done_fast, il_loaded_header, set_header_data, finished,
  allocated, not_supported, get_state, load_state_done, load, load_header, detect_and_load_header,
  new_loader,
}
use pictus.Cache.Loader.Outcome.{Outcome}
use pictus.Cache.WorkList.{WorkList, locate_package, rebuild}
use pictus.Cache.WorkList.Choice.{AllValid, Scanned, locate_package-Scanned, locate_package-first}
use pictus.Cache.WorkList.Rebuilt.{Follows, rebuild-Follows}

abbrev candidate : Candidate
candidate = record { estimate = 100; can_detect = true; loads_header = true }

-- Everything works, and the image has no fast pass.
abbrev replies : Replies
replies = record {
  opens = true;
  is_open = true;
  own = some candidate;
  others = [];
  header_raises = false;
  has_hint = true;
  allocate_hint = not_supported;
  allocate_full = allocated;
  perform_load = some finished;
}

abbrev first_loader : ImageLoader
first_loader = new_loader (some 0) "a.png"

-- A loader behind its fast pass.
abbrev second_loader : ImageLoader
second_loader = record {
  image = some 1;
  filename = "b.png";
  codec = some (record { memory = 100; do_abort = false });
  may_skip_fast = false;
  state = il_done_fast;
  reader_open = true;
  image_calls = [];
}

abbrev work_list : WorkList
work_list = record {
  packages = second_loader ∷ first_loader ∷ [];
  memory_limit = 150;
  new_memory_limit = 50;
  has_store = true;
}

abbrev requests : List WorkRequest
requests =
    record { image = some 2; filename = "c.png" }
    ∷ record { image = some 1; filename = "b.png" }
    ∷ record { image = none; filename = "" }
    ∷ []

abbrev five_replies : List Replies
five_replies = replies ∷ replies ∷ replies ∷ replies ∷ replies ∷ []

-- Behind the first `Load`.
abbrev header_loader : ImageLoader
header_loader = record first_loader {
  codec = some (record { memory = 100; do_abort = false });
  state = il_loaded_header;
  reader_open = true;
  image_calls = set_header_data ∷ [];
}

-- The extension has no codec.
null_used : load (record replies { own = none }) first_loader ≡ none
unfolding load get_state load_header detect_and_load_header new_loader
null_used = refl

work_list-AllValid : AllValid work_list.packages
unfolding new_loader
work_list-AllValid = ((ground arith, refl), (refl, tt))

not_done : get_state second_loader ≢ load_state_done
unfolding get_state
not_done = ground arith

locate_package-Scanned_example : Scanned 150 0 work_list.packages (locate_package work_list)
locate_package-Scanned_example = locate_package-Scanned work_list work_list-AllValid

second_loader-chosen : locate_package work_list ≡ some (some second_loader)
second_loader-chosen =
    locate_package-first work_list second_loader (first_loader ∷ []) refl not_done

rebuild-Follows_example :
    (x : WorkList) × (rebuild requests work_list ≡ some x) × Follows requests work_list x
rebuild-Follows_example = rebuild-Follows requests work_list refl work_list-AllValid
