-- ===== src/Wire/Paths.antt =====
-- models.py: the test of a manifest path in `CandidateEvent.from_dict`, with what it uses of
-- `pathlib.PurePosixPath`, on the code points of a path.
use autonomous_math_ai.Base.{
  ℕ, Bool, false, not, ◌&&◌, ◌||◌, List, [], ◌∷◌, ◌++◌, if◌then◌else◌, nat_eq, list_eq, ◌==◌, elem,
  is_empty, keep, nat_beq,
}

abbrev pub slash : ℕ
slash = 47

abbrev pub backslash : ℕ
backslash = 92

abbrev pub dot : List ℕ
dot = 46 ∷ []

abbrev pub dot_dot : List ℕ
dot_dot = 46 ∷ 46 ∷ []

-- `text.split("/")`
abbrev pub before_first : ℕ → List (List ℕ) → List (List ℕ)
before_first c [] = (c ∷ []) ∷ []
before_first c (piece ∷ pieces) = (c ∷ piece) ∷ pieces

abbrev pub split_slash : List ℕ → List (List ℕ)
split_slash [] = [] ∷ []
split_slash (c ∷ cs) =
    let rest = split_slash cs in if nat_beq c slash then [] ∷ rest else before_first c rest

-- `"/".join(parts)`
abbrev pub join_slash : List (List ℕ) → List ℕ
join_slash [] = []
join_slash (p ∷ []) = p
join_slash (p ∷ q ∷ ps) = p ++ slash ∷ join_slash (q ∷ ps)

-- `path.is_absolute()`
abbrev pub is_absolute : List ℕ → Bool
is_absolute [] = false
is_absolute (c ∷ cs) = nat_beq c slash

abbrev pub is_part : List ℕ → Bool
is_part p = not (is_empty p || p == dot)

-- The root of a path: none, `/`, or `//` where the path begins with just two slashes.
abbrev pub after_two : List ℕ → List ℕ
after_two [] = slash ∷ slash ∷ []
after_two (c ∷ cs) = if nat_beq c slash then slash ∷ [] else slash ∷ slash ∷ []

abbrev pub after_one : List ℕ → List ℕ
after_one [] = slash ∷ []
after_one (c ∷ cs) = if nat_beq c slash then after_two cs else slash ∷ []

abbrev pub root : List ℕ → List ℕ
root [] = []
root (c ∷ cs) = if nat_beq c slash then after_one cs else []

abbrev pub tail_names : List ℕ → List (List ℕ)
tail_names path = keep is_part (split_slash path)

-- `path.parts`, which begin with the root
abbrev pub parts_under : List ℕ → List (List ℕ) → List (List ℕ)
parts_under [] ns = ns
parts_under (c ∷ cs) ns = (c ∷ cs) ∷ ns

abbrev pub parts : List ℕ → List (List ℕ)
parts path = parts_under (root path) (tail_names path)

-- `path.as_posix()`
abbrev pub posix_of : List ℕ → List (List ℕ) → List ℕ
posix_of [] [] = dot
posix_of [] (p ∷ ps) = join_slash (p ∷ ps)
posix_of (c ∷ cs) ns = (c ∷ cs) ++ join_slash ns

abbrev pub as_posix : List ℕ → List ℕ
as_posix path = posix_of (root path) (tail_names path)

abbrev pub ends_in_colon : List ℕ → Bool
ends_in_colon [] = false
ends_in_colon (c ∷ []) = nat_beq c 58
ends_in_colon (c ∷ d ∷ cs) = ends_in_colon (d ∷ cs)

abbrev pub begins_with_drive : List (List ℕ) → Bool
begins_with_drive [] = false
begins_with_drive (p ∷ ps) = ends_in_colon p

-- Neither of the two tests of a manifest path raises.
unfoldable pub is_project_relative : List ℕ → Bool
is_project_relative path =
    not (is_empty path || elem backslash path)
    && not (
        is_absolute path
        || (elem dot_dot (parts path)
            || (not (as_posix path == path) || begins_with_drive (parts path))))
