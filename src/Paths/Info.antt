-- ===== src/Paths/Info.antt =====
-- build_support/cpplint.py: `FileInfo`.
use turtle.Common.{◌+◌, Bool, not, ◌||◌, List, [], ◌∷◌, Option, none, some, if◌then◌else◌, drop}
use turtle.Common.Text.{Text, codes, eq_text, replace}
use turtle.Paths.{FileSystem, Settings}
use turtle.Paths.Os.{
  path_split, dirname, splitext, join_path, abspath, relpath, common_length, ancestors, is_nil,
}

-- `.replace('\\', '/')`
abbrev unix : Text → Text
unix p = replace (codes "\\") (codes "/") p

unfoldable pub full_name : FileSystem → Text → Text
full_name fs f = unix (abspath fs f)

-- The nearest of the directories that is the given one; the loop stops at one that is not there.
unfoldable pub find_repository : FileSystem → Text → List Text → Option Text
find_repository fs repo [] = none
find_repository fs repo (d ∷ ds) =
    let above = find_repository fs repo ds in
    if not (fs.exists d) then none else if eq_text d repo then some d else above

-- The top of an old svn checkout. From the root on the loop looks at the root again and again, so
-- it does not end where there is a `.svn` up to the root: `none`.
unfoldable pub find_svn_root : FileSystem → Text → List Text → Option Text
find_svn_root fs root [] = none
find_svn_root fs root (up ∷ above) =
    let higher = find_svn_root fs up above in
    if fs.exists (join_path up (codes ".svn")) then higher else some root

abbrev is_checkout : FileSystem → Text → Bool
is_checkout fs d =
    fs.exists (join_path d (codes ".git"))
    || fs.exists (join_path d (codes ".hg"))
    || fs.exists (join_path d (codes ".svn"))

-- The last of the directories below the root that is the top of a checkout.
unfoldable pub find_checkout : FileSystem → Text → List Text → Text
find_checkout fs root [] = root
find_checkout fs root (top ∷ []) = root
find_checkout fs root (d ∷ up ∷ ds) =
    find_checkout fs (if is_checkout fs d then d else root) (up ∷ ds)

-- `fullname[len(os.path.commonprefix([root_dir, project_dir])) + 1:]`
abbrev below : Text → Text → Text → Text
below root_dir project_dir fullname = drop (common_length root_dir project_dir + 1) fullname

abbrev pub above_all : List Text → List Text
above_all [] = []
above_all (_ ∷ ds) = ds

unfoldable pub checkout_name : FileSystem → Text → Text → Option Text
checkout_name fs fullname project_dir =
    if fs.exists (join_path project_dir (codes ".svn"))
    then elim (find_svn_root fs project_dir (above_all (ancestors project_dir))) [
      | none ↦ none
      | some root_dir ↦ some (below root_dir project_dir fullname)
    ]
    else let root_dir = find_checkout fs project_dir (ancestors project_dir) in
      if is_checkout fs root_dir then some (below root_dir project_dir fullname) else some fullname

abbrev pub repository_dir : FileSystem → Settings → Text → Option Text
repository_dir fs s project_dir =
    if is_nil s.repository
    then none
    else find_repository fs (full_name fs s.repository) (ancestors project_dir)

-- `none` where the loop of `find_svn_root` does not end.
unfoldable pub repository_name : FileSystem → Settings → Text → Option Text
repository_name fs s f =
    let fullname = full_name fs f in
    let project_dir = dirname fullname in
    if fs.exists fullname
    then elim (repository_dir fs s project_dir) [
      | some root_dir ↦ some (unix (relpath fs fullname root_dir))
      | none ↦ checkout_name fs fullname project_dir
    ]
    else some fullname

pub record SplitName : Type 0 where
  pub directory : Text
  pub base_name : Text
  pub extension : Text

abbrev split_of : Text → SplitName
split_of googlename =
    let parts = path_split googlename in
    let ends = splitext (parts.1) in
    record { directory = parts.0; base_name = ends.0; extension = ends.1 }

-- `Split`, `BaseName` and `Extension`
unfoldable pub split_name : FileSystem → Settings → Text → Option SplitName
split_name fs s f = elim (repository_name fs s f) [ none ↦ none | some name ↦ some (split_of name) ]
