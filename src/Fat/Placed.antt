-- ===== src/Fat/Placed.antt =====
-- The tree of directories after the first pass.
use pugputer6309_emulator.Base.{
  ℕ, zero, suc, ◌+◌, ◌≤◌, ◌<◌, ◌≡◌, refl, List, [], ◌∷◌, ◌++◌, ◌==◌, length, length-append, get_or,
  All, arith, if_both,
}
use pugputer6309_emulator.Fat.Tree.{
  Subdir, Tree, split_path, find_child, add_subdir, enter_named, enter, enter_all, place_file,
  place_files, empty_tree,
}

All-All :
    {A : Type 0} (P Q : A → Type 0) (xs : List A) → ((x : A) → P x → Q x) → All P xs → All Q xs
All-All P Q [] f h = tt
All-All P Q (x ∷ xs) f h = (f x h.0, All-All P Q xs f h.1)

All-append : {A : Type 0} (P : A → Type 0) (xs ys : List A) → All P xs → All P ys → All P (xs ++ ys)
All-append P [] ys h k = k
All-append P (x ∷ xs) ys h k = (h.0, All-append P xs ys h.1 k)

-- A subdirectory's index is that of a directory other than the root.
abbrev pub IsChild : ℕ → Subdir → Type 0
IsChild n sd = (0 < sd.1) × (sd.1 < n)

abbrev pub AllChildren : ℕ → List (List Subdir) → Type 0
AllChildren n dirs = All (λ subdirs. All (IsChild n) subdirs) dirs

find_child-lt :
    (n : ℕ) (part : List ℕ) (subdirs : List Subdir) (child : ℕ)
    → All (IsChild n) subdirs
    → child < n
    → find_child part subdirs child < n
unfolding find_child
find_child-lt n part [] child h k = k
find_child-lt n part (sd ∷ subdirs) child h k = find_child-lt n part subdirs _ h.1 (ground arith)

get_or-AllChildren :
    (n : ℕ) (dirs : List (List Subdir)) (dir : ℕ)
    → AllChildren n dirs
    → All (IsChild n) (get_or [] dirs dir)
get_or-AllChildren n [] dir h = tt
get_or-AllChildren n (subdirs ∷ dirs) zero h = h.0
get_or-AllChildren n (subdirs ∷ dirs) (suc dir) h = get_or-AllChildren n dirs dir h.1

length-add_subdir :
    (dir : ℕ) (sd : Subdir) (dirs : List (List Subdir))
    → length (add_subdir dir sd dirs) ≡ length dirs
unfolding add_subdir
length-add_subdir dir sd [] = refl
length-add_subdir zero sd (subdirs ∷ dirs) = refl
length-add_subdir (suc dir) sd (subdirs ∷ dirs) = omega (arith, length-add_subdir dir sd dirs)

add_subdir-AllChildren :
    (n dir : ℕ) (sd : Subdir) (dirs : List (List Subdir))
    → IsChild n sd
    → AllChildren n dirs
    → AllChildren n (add_subdir dir sd dirs)
unfolding add_subdir
add_subdir-AllChildren n dir sd [] c h = tt
add_subdir-AllChildren n zero sd (subdirs ∷ dirs) c h =
    (All-append (IsChild n) subdirs (sd ∷ []) h.0 (c, tt), h.1)
add_subdir-AllChildren n (suc dir) sd (subdirs ∷ dirs) c h =
    (h.0, add_subdir-AllChildren n dir sd dirs c h.1)

-- The indices of the directories after a step are in range, and there are no fewer directories.
pub record Steps (before : List (List Subdir)) (after : List (List Subdir) × ℕ) : Type 0 where
  pub children : AllChildren (length after.0) after.0
  pub within : after.1 < length after.0
  pub grows : length before ≤ length after.0

AllChildren-IsChild :
    (n m : ℕ) (dirs : List (List Subdir)) → n ≤ m → AllChildren n dirs → AllChildren m dirs
AllChildren-IsChild n m dirs l h =
    All-All _ _ dirs
      (λ (subdirs : List Subdir) (k : All (IsChild n) subdirs).
        All-All (IsChild n) (IsChild m) subdirs
          (λ (sd : Subdir) (c : IsChild n sd). (c.0, omega (arith, c.1))) k)
      h

created_dirs :
    (dirs : List (List Subdir)) (dir : ℕ) (part : List ℕ)
    → length (add_subdir dir (part, length dirs) dirs ++ [] ∷ []) ≡ length dirs + 1
created_dirs dirs dir part = omega (
  arith,
  length-append (add_subdir dir (part, length dirs) dirs) ([] ∷ []),
  length-add_subdir dir (part, length dirs) dirs,
)

created-Steps :
    (dirs : List (List Subdir)) (dir : ℕ) (part : List ℕ)
    → AllChildren (length dirs) dirs
    → 0 < length dirs
    → Steps dirs (add_subdir dir (part, length dirs) dirs ++ [] ∷ [], length dirs)
created-Steps dirs dir part h some =
    let n = length dirs in
    let e = created_dirs dirs dir part in
    let old =
      add_subdir-AllChildren (n + 1) dir (part, n) dirs (some, omega arith)
        (AllChildren-IsChild n (n + 1) dirs (omega arith) h) in
    record {
      children = rw e (
          All-append (All (IsChild (n + 1))) (add_subdir dir (part, n) dirs) ([] ∷ []) old
            (tt, tt));
      within = omega (arith, e);
      grows = omega (arith, e);
    }

enter_named-Steps :
    (dirs : List (List Subdir)) (dir : ℕ) (part : List ℕ)
    → AllChildren (length dirs) dirs
    → 0 < length dirs
    → Steps dirs (enter_named dirs dir part)
unfolding enter_named
enter_named-Steps dirs dir part h some =
    let child = find_child part (get_or [] dirs dir) 0 in
    if_both (Steps dirs) (child == 0) (created-Steps dirs dir part h some) (record {
      children = h;
      within =
          find_child-lt (length dirs) part (get_or [] dirs dir) 0
            (get_or-AllChildren (length dirs) dirs dir h) some;
      grows = omega arith;
    })

enter-Steps :
    (dirs : List (List Subdir)) (dir : ℕ) (part : List ℕ)
    → AllChildren (length dirs) dirs
    → dir < length dirs
    → Steps dirs (enter dirs dir part)
unfolding enter
enter-Steps dirs dir [] h l = record { children = h; within = l; grows = omega arith }
enter-Steps dirs dir (c ∷ part) h l = enter_named-Steps dirs dir _ h (omega arith)

enter_all-Steps :
    (dirs : List (List Subdir)) (dir : ℕ) (parts : List (List ℕ))
    → AllChildren (length dirs) dirs
    → dir < length dirs
    → Steps dirs (enter_all dirs dir parts)
unfolding enter_all
enter_all-Steps dirs dir [] h l = record { children = h; within = l; grows = omega arith }
enter_all-Steps dirs dir (part ∷ parts) h l =
    let one = enter-Steps dirs dir part h l in
    let rest =
      enter_all-Steps (enter dirs dir part).0 (enter dirs dir part).1 parts one.children
        one.within in
    record {
      children = rest.children;
      within = rest.within;
      grows = omega (arith, one.grows, rest.grows);
    }

-- There is a root, the index of a subdirectory is that of a directory other than the root, and a
-- file is placed in a directory that there is.
pub record IsTree (t : Tree) : Type 0 where
  pub rooted : 0 < length t.dirs
  pub children : AllChildren (length t.dirs) t.dirs
  pub files : All (λ (p : ℕ × List ℕ). p.0 < length t.dirs) t.placed

place_file-IsTree : (t : Tree) (name : List ℕ) → IsTree t → IsTree (place_file t name)
unfolding place_file
place_file-IsTree t name w =
    let path = split_path name in
    let s = enter_all-Steps t.dirs 0 path.0 w.children w.rooted in
    let n = length (enter_all t.dirs 0 path.0).0 in
    record {
      rooted = omega (arith, s.within);
      children = s.children;
      files =
          All-append (λ (p : ℕ × List ℕ). p.0 < n) t.placed _
            (All-All _ _ t.placed
              (λ (p : ℕ × List ℕ) (l : p.0 < length t.dirs). omega (arith, l, s.grows)) w.files)
            (s.within, tt);
    }

place_files-keeps : (t : Tree) (names : List (List ℕ)) → IsTree t → IsTree (place_files t names)
unfolding place_files
place_files-keeps t [] w = w
place_files-keeps t (name ∷ names) w =
    place_files-keeps (place_file t name) names (place_file-IsTree t name w)

-- Whatever the names of the files: after the first pass there is a root, every subdirectory is one
-- of the directories and not the root, and every file is placed in one of the directories.
pub place_files-IsTree : (names : List (List ℕ)) → IsTree (place_files empty_tree names)
place_files-IsTree names =
    place_files-keeps empty_tree names
      (record { rooted = omega arith; children = omega arith; files = omega arith })
