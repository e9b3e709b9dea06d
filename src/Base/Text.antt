-- ===== src/Base/Text.antt =====
-- Python's `" ".join(text.split())` on the code points of a text.
use Prim.Native.Char.{code}
use Prim.Native.String.{String}
use autonomous_math_ai.Base.Tests.{leb, nat_beq, if◌then◌else◌}
use Prim.Native.Nat.{ℕ}
use mathlib.Core.Bool.{Bool, ◌&&◌, ◌||◌}
use mathlib.Core.List.{List, [], ◌∷◌, ◌++◌}

abbrev pub codes : String → List ℕ
codes String.[] = []
codes (String.◌∷◌ c s) = code c ∷ codes s

abbrev pub between : ℕ → ℕ → ℕ → Bool
between low high c = leb low c && leb c high

-- `str.isspace` of one code point
unfoldable pub is_space : ℕ → Bool
is_space c =
    between 9 13 c
    || (between 28 32 c
        || (nat_beq c 133
            || (nat_beq c 160
                || (nat_beq c 5760
                    || (between 8192 8202 c
                        || (between 8232 8233 c
                            || (nat_beq c 8239 || (nat_beq c 8287 || nat_beq c 12288))))))))

-- A word that is not empty goes before the others.
abbrev word_before : List ℕ → List (List ℕ) → List (List ℕ)
word_before [] rest = rest
word_before (c ∷ cs) rest = (c ∷ cs) ∷ rest

-- `text.split()`, with the word that has begun.
unfoldable pub split_from : List ℕ → List ℕ → List (List ℕ)
unfolding is_space
split_from word [] = word_before word []
split_from word (c ∷ cs) =
    let broken = word_before word (split_from [] cs) in
    let longer = split_from (word ++ c ∷ []) cs in if is_space c then broken else longer

abbrev pub join_words : List (List ℕ) → List ℕ
join_words [] = []
join_words (w ∷ []) = w
join_words (w ∷ v ∷ ws) = w ++ 32 ∷ join_words (v ∷ ws)

unfoldable pub squeeze : String → List ℕ
unfolding split_from
squeeze text = join_words (split_from [] (codes text))
