-- ===== src/Folders.antt =====
-- web/src/components/plans/DirBrowser.tsx, the folder picker, with useFsBrowse of
-- web/src/hooks/usePlans.ts and what answers it: handleFsBrowse in internal/api/ops_handlers.go and
-- Browse in internal/fsbrowse/fsbrowse.go.
pub mod Reachable
pub mod Up
mod Tests
use restic_ui.Base.{
  ℕ, zero, suc, Bool, true, false, not, ◌||◌, Option, none, some, List, [], ◌∷◌, ◌++◌,
  if◌then◌else◌, head?, get_elem?, map, ◌==◌,
}
use restic_ui.Base.Text.{Text, codes, text_eq, is_empty}

pub record FsEntry : Type 0 where
  pub name : Text
  pub path : Text

pub record FsListing : Type 0 where
  pub path : Text
  pub parent : Option Text
  pub entries : List FsEntry

-- An entry of a directory, as `os.ReadDir` gives it.
pub record DirEntry : Type 0 where
  pub name : Text
  pub is_dir : Bool

-- What Go's packages `path/filepath` and `sort` do.
pub record Paths : Type 0 where
  pub clean : Text → Text
  pub is_abs : Text → Bool
  pub dir : Text → Text
  pub join : Text → Text → Text
  pub sort : List FsEntry → List FsEntry

-- `os.ReadDir` at some moment: the entries, or the error's message.
pub data ReadResult : Type 0 where
  entries : List DirEntry → ReadResult
  unreadable : Text → ReadResult

abbrev pub ReadDir : Type 0
ReadDir = Text → ReadResult

-- The answer to a request: a listing, or the message of an error.
pub data Browsed : Type 0 where
  listed : FsListing → Browsed
  refused : Text → Browsed

abbrev pub root : Text
root = b'/' ∷ []

-- `strings.HasPrefix(name, ".")`
abbrev pub is_hidden : Text → Bool
is_hidden [] = false
is_hidden (c ∷ cs) = c == b'.'

-- The visible directories, in the order of the directory.
unfoldable pub visible : Paths → Text → List DirEntry → List FsEntry
visible fs path [] = []
visible fs path (e ∷ es) =
    let rest = visible fs path es in
    if not e.is_dir || is_hidden e.name
    then rest
    else record { name = e.name; path = fs.join path e.name } ∷ rest

-- `l.Parent`, which JSON leaves out if it is empty.
abbrev pub present : Text → Option Text
present parent = if is_empty parent then none else some parent

abbrev pub parent_of : Paths → Text → Option Text
parent_of fs path = if text_eq path root then none else present (fs.dir path)

abbrev pub list_dir : Paths → Text → ReadResult → Browsed
list_dir fs path (unreadable message) = refused message
list_dir fs path (entries es) =
    listed
      (record { path = path; parent = parent_of fs path; entries = fs.sort (visible fs path es) })

abbrev pub browse_clean : Paths → ReadDir → Text → Browsed
browse_clean fs read_dir path =
    if fs.is_abs path
    then list_dir fs path (read_dir path)
    else refused (codes "path must be absolute")

unfoldable pub browse : Paths → ReadDir → Text → Browsed
unfolding visible
browse fs read_dir path = browse_clean fs read_dir (fs.clean (if is_empty path then root else path))

-- The request for a folder; `encode` is `encodeURIComponent`.
abbrev pub browse_url : (Text → Text) → Text → Text
browse_url encode path = codes "/api/fs/browse?path=" ++ encode path

-- What the query of a folder holds: nothing yet, or the answer for that folder, given by the
-- directories as they were at some moment.
pub data View : Type 0 where
  loading : View
  answered : ReadDir → View

abbrev pub listing_of : Browsed → Option FsListing
listing_of (listed l) = some l
listing_of (refused message) = none

abbrev pub data_of : Paths → View → Text → Option FsListing
data_of fs loading path = none
data_of fs (answered read_dir) path = listing_of (browse fs read_dir path)

pub data Click : Type 0 where
  up : Click
  -- The `i`-th folder of the list.
  enter : (i : ℕ) → Click

-- `data?.parent && setPath(data.parent)`
abbrev pub up_from : Text → Option FsListing → Text
up_from path none = path
up_from path (some l) = elim l.parent [ none ↦ path | some parent ↦ parent ]

abbrev pub entry_path : Text → Option FsEntry → Text
entry_path path none = path
entry_path path (some e) = e.path

abbrev pub enter_from : Text → ℕ → Option FsListing → Text
enter_from path i none = path
enter_from path i (some l) = entry_path path (get_elem? l.entries i)

-- The selected path after a click.
unfoldable pub click : Paths → View → Click → Text → Text
unfolding browse
click fs v up path = up_from path (data_of fs v path)
click fs v (enter i) path = enter_from path i (data_of fs v path)

unfoldable pub run : Paths → List (View × Click) → Text → Text
unfolding click
run fs [] path = path
run fs ((v, c) ∷ clicks) path = run fs clicks (click fs v c path)

abbrev pub no_parent : Option FsListing → Bool
no_parent none = true
no_parent (some l) = elim l.parent [ none ↦ true | some parent ↦ is_empty parent ]

-- Whether the button "Up" is disabled: `!data?.parent`.
unfoldable pub up_disabled : Paths → View → Text → Bool
unfolding browse
up_disabled fs v path = no_parent (data_of fs v path)

-- What stands below the buttons.
pub data Body : Type 0 where
  spinner no_subfolders : Body
  message : Text → Body
  folders : List Text → Body

abbrev pub listing_body : List FsEntry → Body
listing_body [] = no_subfolders
listing_body (e ∷ es) = folders (map (λ x. x.name) (e ∷ es))

abbrev pub browsed_body : Browsed → Body
browsed_body (refused m) = message m
browsed_body (listed l) = listing_body l.entries

unfoldable pub body : Paths → View → Text → Body
unfolding browse
body fs loading path = spinner
body fs (answered read_dir) path = browsed_body (browse fs read_dir path)
