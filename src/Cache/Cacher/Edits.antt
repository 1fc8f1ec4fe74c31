-- ===== src/Cache/Cacher/Edits.antt =====
-- imagecache.cpp: the methods of `Cacher` that change the list of files or the settings.
use Prim.Native.String.{String}
use text.Mathlib.Text.{◌==◌ as str_eq}
use pictus.Base.{
  ℕ, Bool, true, false, ◌&&◌, ◌||◌, not, Option, none, some, List, [], ◌∷◌, ◌++◌, ◌==◌, ltb, leb,
  if◌then◌else◌, get_elem?, set, erase_at,
}
use pictus.Cache.Queue.{remove_image, reset}
use pictus.Cache.State.{
  FileEntry, Cacher, M, err, ◌>>=◌, ◌>>◌, pure, raise, gets, modify, invalid_call, invalid_param,
}
use pictus.Cache.Cacher.{pred_size, image_count, new_entry, current_image, apply_priorities, call}
use pictus.Cache.Cacher.Moves.{find_image, goto_image, peek_at}

unfoldable pub clear : M (Unit {0})
clear = do call reset; modify (λ c. record c { files = []; index = 0; went_forward = true })

unfoldable pub append_entry : String → Cacher → Cacher
append_entry filename c =
    let files = c.files ++ new_entry filename ∷ [] in
    let d = record c { files = files } in
    if image_count d == 1 then record d { index = 0; went_forward = true } else d

unfoldable pub add_image_last : String → M (Option ℕ)
unfolding append_entry
add_image_last filename c = elim c.codecs [
  | none ↦ err invalid_call
  | some exist ↦
      if exist filename
      then (do modify (append_entry filename); apply_priorities false) c
      else current_image c
]

-- What `RemoveCurrentImage` does to the list and the position.
unfoldable pub erase_current : Cacher → Cacher
erase_current c =
    let d = record c { files = erase_at c.files c.index } in
    if leb (image_count d) c.index || (not c.went_forward && ltb 0 c.index)
    then record d { index = pred_size c.index }
    else d

unfoldable pub erase_other : ℕ → Cacher → Cacher
erase_other i c =
    let d = record c { files = erase_at c.files i } in
    if leb (image_count d) c.index || ltb i c.index
    then record d { index = pred_size c.index }
    else d

unfoldable pub remove_current_image : M (Option ℕ)
unfolding erase_current
remove_current_image c =
    if image_count c == 0
    then raise invalid_call c
    else (do
      image ← current_image
      call (remove_image image)
      modify erase_current
      apply_priorities false)
        c

unfoldable pub remove_image_index : ℕ → M (Option ℕ)
unfolding remove_current_image erase_other
remove_image_index i c =
    if leb (image_count c) i
    then raise invalid_param c
    else if i == c.index
    then remove_current_image c
    else (do
      image ← peek_at i
      call (remove_image image)
      modify (erase_other i)
      apply_priorities false)
        c

unfoldable pub remove_found : Option ℕ → M (Option ℕ)
unfolding remove_image_index
remove_found none = current_image
remove_found (some i) = remove_image_index i

unfoldable pub remove_image_filename : String → M (Option ℕ)
unfolding remove_found
remove_image_filename filename = do found ← find_image filename; remove_found found

unfoldable pub rename_at : ℕ → String → List FileEntry → List FileEntry
rename_at i name files = elim (get_elem? files i) [
  | none ↦ files
  | some e ↦ set files i (record e { fullname = name })
]

unfoldable pub rename_found : String → Option ℕ → M Bool
unfolding rename_at
rename_found name none = pure false
rename_found name (some i) = do
  modify (λ c. record c { files = rename_at i name c.files })
  pure true

-- The open file's own `Renamed` is left to the stream, which is not part of the cacher's state.
unfoldable pub renamed_image : String → String → M Bool
unfolding rename_found
renamed_image old_filename new_filename = do
  found ← find_image old_filename
  rename_found new_filename found

unfoldable pub set_wrap_around : Bool → M (Unit {0})
set_wrap_around wrap = modify (λ c. record c { wrap_around = wrap })

unfoldable pub set_codec_factory_store : Option (String → Bool) → M (Unit {0})
set_codec_factory_store exist = modify (λ c. record c { codecs = exist })

pub data SortMethod : Type 0 where
  sort_nothing sort_filename sort_date_modified sort_date_created : SortMethod

-- `std::sort` by a key, as an insertion sort.
unfoldable pub insert_by : (FileEntry → ℕ) → FileEntry → List FileEntry → List FileEntry
insert_by key e [] = e ∷ []
insert_by key e (f ∷ fs) =
    let rest = insert_by key e fs in if ltb (key f) (key e) then f ∷ rest else e ∷ f ∷ fs

unfoldable pub sort_by : (FileEntry → ℕ) → List FileEntry → List FileEntry
unfolding insert_by
sort_by key [] = []
sort_by key (e ∷ es) = insert_by key e (sort_by key es)

-- The dates are those that boost::filesystem reports for the entries.
unfoldable pub sort_files : SortMethod → (FileEntry → ℕ) → List FileEntry → List FileEntry
sort_files sort_date_modified date_modified files = sort_by date_modified files
sort_files method date_modified files = files

-- The name that `Sort` looks for after it has sorted: none at position 0.
unfoldable pub sought : Cacher → String
sought c =
    if ltb 0 c.index
    then (elim (get_elem? c.files c.index) [ none ↦ "" | some e ↦ e.fullname ])
    else ""

unfoldable pub goto_found : Option ℕ → M (Option ℕ)
goto_found none = pure none
goto_found (some i) = goto_image i

-- The end of `Sort`: it goes back to the image that was current.
unfoldable pub restore : String → M (Option ℕ)
unfolding goto_found
restore name =
    if str_eq name ""
    then apply_priorities false
    else (do found ← find_image name; goto_found found; apply_priorities false)

unfoldable pub sort : SortMethod → (FileEntry → ℕ) → M (Option ℕ)
unfolding sort_by sort_files sought restore
sort method date_modified = do
  name ← gets sought
  modify (λ c. record c { files = sort_files method date_modified c.files })
  restore name

-- The new limit goes to the work list, not to the queue.
unfoldable pub memory_limit : M (Option ℕ)
memory_limit = apply_priorities false

-- A new background thread has an empty queue.
unfoldable pub construct : M (Unit {0})
construct = modify (λ c. record c { calls = []; files = []; index = 0; went_forward = true })

-- The loop of `FillCacher`.
unfoldable pub add_all : List String → M (Unit {0})
unfolding add_image_last
add_all [] = pure tt
add_all (name ∷ names) = do add_image_last name; add_all names

-- `FillCacher`, with the paths of the folder's contents, which never fails but by an exception.
unfoldable pub fill_cacher : List String → M Bool
unfolding clear add_all sort
fill_cacher contents = do clear; add_all contents; sort sort_filename (λ _. 0); pure true
