-- ===== src/Fat/Tree.antt =====
-- The first pass of `build_fat16_image` over the files: the directories and where each file goes.
use mathlib.Core.List.{map}
use pugputer6309_emulator.Base.{
  ℕ, zero, suc, ◌+◌, List, [], ◌∷◌, ◌++◌, ◌==◌, if◌then◌else◌, length, get_or,
}
use pugputer6309_emulator.Bus.Types.{same_name}
use pugputer6309_emulator.Fat.Entries.{to_upper}

-- A subdirectory: its name and its index in `dirs`.
abbrev pub Subdir : Type 0
Subdir = List ℕ × ℕ

-- The subdirectories of each directory, the root's first, and the directory and the name of each
-- file.
pub record Tree : Type 0 where
  pub dirs : List (List Subdir)
  pub placed : List (ℕ × List ℕ)

abbrev push_char : ℕ → List (List ℕ) × List ℕ → List (List ℕ) × List ℕ
push_char c ([], leaf) = ([], c ∷ leaf)
push_char c (part ∷ parts, leaf) = ((c ∷ part) ∷ parts, leaf)

-- The parts of a path before a "/", and what follows the last "/".
unfoldable pub split_path : List ℕ → List (List ℕ) × List ℕ
unfolding push_char
split_path [] = ([], [])
split_path (c ∷ path) =
    let rest = split_path path in if c == b'/' then ([] ∷ rest.0, rest.1) else push_char c rest

-- The last subdirectory of that name, or `child`.
unfoldable pub find_child : List ℕ → List Subdir → ℕ → ℕ
find_child part [] child = child
find_child part (sd ∷ subdirs) child =
    find_child part subdirs (if same_name sd.0 part then sd.1 else child)

-- `dirs[dir].subdirs.emplace_back(...)`
unfoldable pub add_subdir : ℕ → Subdir → List (List Subdir) → List (List Subdir)
add_subdir dir sd [] = []
add_subdir zero sd (subdirs ∷ dirs) = (subdirs ++ sd ∷ []) ∷ dirs
add_subdir (suc dir) sd (subdirs ∷ dirs) = subdirs ∷ add_subdir dir sd dirs

-- The directory `part` of the directory `dir`, which is created if it is not there.
unfoldable pub enter_named : List (List Subdir) → ℕ → List ℕ → List (List Subdir) × ℕ
enter_named dirs dir part =
    let child = find_child part (get_or [] dirs dir) 0 in
    if child == 0
    then (add_subdir dir (part, length dirs) dirs ++ [] ∷ [], length dirs)
    else (dirs, child)

-- A part of a path that is empty is skipped.
unfoldable pub enter : List (List Subdir) → ℕ → List ℕ → List (List Subdir) × ℕ
enter dirs dir [] = (dirs, dir)
enter dirs dir (c ∷ part) = enter_named dirs dir (map to_upper (c ∷ part))

unfoldable pub enter_all : List (List Subdir) → ℕ → List (List ℕ) → List (List Subdir) × ℕ
enter_all dirs dir [] = (dirs, dir)
enter_all dirs dir (part ∷ parts) = let next = enter dirs dir part in enter_all next.0 next.1 parts

unfoldable pub place_file : Tree → List ℕ → Tree
place_file t name =
    let path = split_path name in
    let place = enter_all t.dirs 0 path.0 in
    record { dirs = place.0; placed = t.placed ++ (place.1, path.1) ∷ [] }

unfoldable pub place_files : Tree → List (List ℕ) → Tree
place_files t [] = t
place_files t (name ∷ names) = place_files (place_file t name) names

abbrev pub empty_tree : Tree
empty_tree = record { dirs = [] ∷ []; placed = [] }

abbrev pub count_placed : ℕ → List (ℕ × List ℕ) → ℕ
count_placed d [] = 0
count_placed d (p ∷ placed) = (if p.0 == d then 1 else 0) + count_placed d placed

-- `entry_count[d]`: the subdirectories, the files, and "." and ".." but in the root.
unfoldable pub entry_count : Tree → ℕ → ℕ
entry_count t d = length (get_or [] t.dirs d) + (if d == 0 then 0 else 2) + count_placed d t.placed
