-- ===== src/Samples/Paths.antt =====
-- The names of files, of build_support/cpplint.py, at concrete inputs.
use turtle.Common.{◌≡◌, refl, [], ◌∷◌, true, none, ◌↔◌, All}
use turtle.Common.Text.{codes, eq_text, behind_last, upper, is_alnum, is_digit}
use turtle.Paths.Os.{ancestors, dirname, path_split, behind_rfind, drop_slashes, ancestors_from}
use turtle.Paths.{FileSystem, initial_settings}
use turtle.Paths.Info.{full_name, repository_dir, repository_name}
use turtle.Paths.Ancestors.{Climb, HasSvn, repository_name-none}
use turtle.Paths.Guard.{guard_of, path_split_to_list, split_from}

-- There is a file, and a `.svn` in each directory.
abbrev everywhere : FileSystem
everywhere = record { exists = λ _. true; cwd = codes "/work" }

repository_name-none_example :
    let d = dirname (full_name everywhere (codes "a.cc")) in
    ((repository_name everywhere initial_settings (codes "a.cc") ≡ none) ↔ (
      (true ≡ true)
      × (repository_dir everywhere initial_settings d ≡ none)
      × All (HasSvn everywhere) (ancestors d)))
    × Climb d (ancestors d)
repository_name-none_example = repository_name-none everywhere initial_settings (codes "a.cc")

ancestors_run : ancestors (codes "/work/src") ≡ codes "/work/src" ∷ codes "/work" ∷ codes "/" ∷ []
unfolding ancestors ancestors_from dirname path_split behind_rfind behind_last drop_slashes eq_text
    codes
ancestors_run = refl

split_run : path_split_to_list (codes "../a/b.h") ≡ codes ".." ∷ codes "a" ∷ codes "b.h" ∷ []
unfolding path_split_to_list split_from path_split behind_rfind behind_last drop_slashes eq_text
    codes
split_run = refl

guard_run : guard_of (codes "src/a-b.h") ≡ codes "SRC_A_B_H_"
unfolding guard_of upper is_alnum is_digit codes
guard_run = refl
