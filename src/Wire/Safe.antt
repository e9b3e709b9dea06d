-- ===== src/Wire/Safe.antt =====
-- models.py: where a manifest path that a candidate event names can lead.
use autonomous_math_ai.Base.{
  ℕ, ◌≡◌, ◌⊎◌, arith, Bool, true, false, List, [], ◌∷◌, nat_eq, list_eq, ◌==◌, elem, All, keep,
  is_empty, Bool-cases, inl, inr, refl, sym, ap, ◌∙◌, All-keep, list_beq_iff,
}
use autonomous_math_ai.Wire.Paths.{
  slash, backslash, dot, dot_dot, before_first, split_slash, join_slash, is_part, parts, as_posix,
  posix_of, is_absolute, root, tail_names, parts_under, is_project_relative,
}

-- The name of something in a directory: neither the directory itself nor the one above it.
abbrev pub IsName : List ℕ → Type 0
IsName p =
    (is_empty p ≡ false)
    × (elem slash p ≡ false)
    × (elem backslash p ≡ false)
    × ((p == dot) ≡ false)
    × ((p == dot_dot) ≡ false)

-- A path is the project itself, or goes down from it name by name.
abbrev pub IsInside : List ℕ → Type 0
IsInside path =
    (path ≡ dot)
    ⊎ ((p : List ℕ) × (ps : List (List ℕ)) × (path ≡ join_slash (p ∷ ps)) × All IsName (p ∷ ps))

-- What a piece of a path without the character c has not.
abbrev Lacks : ℕ → List ℕ → Type 0
Lacks c p = elem c p ≡ false

before_first-Lacks :
    (c d : ℕ) (ps : List (List ℕ))
    → nat_eq.beq c d ≡ false
    → All (Lacks c) ps
    → All (Lacks c) (before_first d ps)
before_first-Lacks c d [] n h = ground arith
before_first-Lacks c d (p ∷ ps) n h = (ground arith, h.1)

split_slash-no_slash : (cs : List ℕ) → All (Lacks slash) (split_slash cs)
split_slash-no_slash [] = (refl, tt)
split_slash-no_slash (c ∷ cs) =
    let rest = split_slash-no_slash cs in
    elim (Bool-cases (nat_eq.beq c slash)) [
      | inl here ↦ rw here (refl, rest)
      | inr there ↦ rw there (before_first-Lacks slash c (split_slash cs) (ground arith) rest)
    ]

split_slash-Lacks : (b : ℕ) (cs : List ℕ) → Lacks b cs → All (Lacks b) (split_slash cs)
split_slash-Lacks b [] h = (refl, tt)
split_slash-Lacks b (c ∷ cs) h =
    let rest = split_slash-Lacks b cs (ground arith) in
    elim (Bool-cases (nat_eq.beq c slash)) [
      | inl here ↦ rw here (refl, rest)
      | inr there ↦ rw there (before_first-Lacks b c (split_slash cs) (ground arith) rest)
    ]

keep_passes : (test : List ℕ → Bool) (ps : List (List ℕ)) → All (λ p. test p ≡ true) (keep test ps)
keep_passes test [] = tt
keep_passes test (p ∷ ps) = elim (Bool-cases (test p)) [
  | inl kept ↦ rw kept (kept, keep_passes test ps)
  | inr gone ↦ rw gone (keep_passes test ps)
]

pieces_are_names :
    (ps : List (List ℕ))
    → All (Lacks slash) ps
    → All (Lacks backslash) ps
    → All (λ p. is_part p ≡ true) ps
    → elem dot_dot ps ≡ false
    → All IsName ps
pieces_are_names [] s b k d = tt
pieces_are_names (p ∷ ps) s b k d = (
  (
    ground arith,
    s.0,
    b.0,
    ground arith,
    ground (arith, list_eq.beq_iff p dot_dot, list_eq.beq_iff dot_dot p),
  ),
  pieces_are_names ps s.1 b.1 k.1 (ground arith),
)

all_names :
    (path : List ℕ)
    → elem backslash path ≡ false
    → elem dot_dot (tail_names path) ≡ false
    → All IsName (tail_names path)
all_names path b d =
    pieces_are_names (tail_names path)
      (All-keep (Lacks slash) is_part (split_slash path) (split_slash-no_slash path))
      (All-keep (Lacks backslash) is_part (split_slash path) (split_slash-Lacks backslash path b))
      (keep_passes is_part (split_slash path)) d

posix-IsInside :
    (path : List ℕ) (ps : List (List ℕ)) → posix_of [] ps ≡ path → All IsName ps → IsInside path
posix-IsInside path [] e h = inl (sym e)
posix-IsInside path (p ∷ ps) e h = inr (p, ps, sym e, h)

no_root : (path : List ℕ) → is_absolute path ≡ false → root path ≡ []
no_root [] h = refl
no_root (c ∷ cs) h = ground arith

pub relative-IsInside : (path : List ℕ) → is_project_relative path ≡ true → IsInside path
unfolding is_project_relative
relative-IsInside path h =
    let rootless = no_root path (ground arith) in
    let posix : as_posix path ≡ path = (list_beq_iff (as_posix path) path).0 (ground arith) in
    let no_dots : elem dot_dot (parts path) ≡ false = ground arith in
    posix-IsInside path (tail_names path)
      (ap (λ r. posix_of r (tail_names path)) (sym rootless) ∙ posix)
      (all_names path (ground arith)
        (ap (λ r. elem dot_dot (parts_under r (tail_names path))) (sym rootless) ∙ no_dots))
