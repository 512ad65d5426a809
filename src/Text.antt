-- ===== src/Text.antt =====
-- Rust's `String` and `&str` where the program walks them: the list of the characters' scalar
-- values, and the methods of `str` that the program calls on them.
use Prim.Native.Char.{code}
use tasknexus_client_agent.Prelude.{
  ℕ, ◌≡◌, refl, String, Bool, true, false, ◌&&◌, ◌||◌, Option, none, some, List, [], ◌∷◌, ◌++◌, eqb,
  leb, if◌then◌else◌, arith, is_empty,
}

abbrev pub Text : Type 0
Text = List ℕ

-- The characters of a literal.
abbrev pub codes : String → Text
codes String.[] = []
codes (String.◌∷◌ first rest) = code first ∷ codes rest

-- `strip_prefix`
unfoldable pub strip_prefix : Text → Text → Option Text
strip_prefix [] t = some t
strip_prefix (p ∷ ps) [] = none
strip_prefix (p ∷ ps) (c ∷ t) = let rest = strip_prefix ps t in if eqb p c then rest else none

abbrev pub starts_with : Text → Text → Bool
starts_with p t = elim (strip_prefix p t) [ none ↦ false | some rest ↦ true ]

-- `find(pattern)` with both sides of the first match: `some (before, after)`.
unfoldable pub split_once : Text → Text → Option (Text × Text)
split_once p [] = elim (strip_prefix p []) [ none ↦ none | some rest ↦ some ([], rest) ]
split_once p (c ∷ t) =
    let later = split_once p t in
    elim (strip_prefix p (c ∷ t)) [
      | some rest ↦ some ([], rest)
      | none ↦ elim later [ none ↦ none | some (before, rest) ↦ some (c ∷ before, rest) ]
    ]

-- `contains(c)`
unfoldable pub contains : ℕ → Text → Bool
contains c [] = false
contains c (d ∷ t) = eqb c d || contains c t

-- `rsplit(c).next()`: what stands behind the last `c`, the whole text if there is none.
unfoldable pub after_last : ℕ → Text → Text
unfolding contains
after_last c [] = []
after_last c (d ∷ t) =
    let rest = after_last c t in if contains c t then rest else if eqb c d then t else d ∷ t

-- `char::is_whitespace`
unfoldable pub is_whitespace : ℕ → Bool
is_whitespace c =
    eqb c 32
    || (leb 9 c && leb c 13)
    || eqb c 0x85
    || eqb c 0xa0
    || eqb c 0x1680
    || (leb 0x2000 c && leb c 0x200a)
    || eqb c 0x2028
    || eqb c 0x2029
    || eqb c 0x202f
    || eqb c 0x205f
    || eqb c 0x3000

unfoldable pub trim_start : Text → Text
unfolding is_whitespace
trim_start [] = []
trim_start (c ∷ t) = let rest = trim_start t in if is_whitespace c then rest else c ∷ t

unfoldable pub trim_end : Text → Text
unfolding is_whitespace
trim_end [] = []
trim_end (c ∷ t) =
    let rest = trim_end t in if is_empty rest && is_whitespace c then [] else c ∷ rest

-- `trim`
unfoldable pub trim : Text → Text
unfolding trim_start trim_end
trim t = trim_end (trim_start t)

pub strip_prefix_iff : (p t rest : Text) → strip_prefix p t ≡ some rest → t ≡ p ++ rest
unfolding strip_prefix
strip_prefix_iff [] t rest h = ground arith
strip_prefix_iff (p ∷ ps) [] rest h = ground arith
strip_prefix_iff (p ∷ ps) (c ∷ t) rest h = ground (arith, strip_prefix_iff ps t rest)

pub strip_prefix-append : (p t : Text) → strip_prefix p (p ++ t) ≡ some t
unfolding strip_prefix
strip_prefix-append [] t = refl
strip_prefix-append (p ∷ ps) t = ground (arith, strip_prefix-append ps t)

-- Both sides of a match and the pattern make up the text.
pub split_once-append :
    (p t before after : Text) → split_once p t ≡ some (before, after) → t ≡ before ++ (p ++ after)
unfolding split_once
split_once-append p [] before after h = ground (arith, strip_prefix_iff p [] after)
split_once-append p (c ∷ t) [] after h = ground (arith, strip_prefix_iff p (c ∷ t) after)
split_once-append p (c ∷ t) (b ∷ before) after h =
    ground (arith, strip_prefix_iff p (c ∷ t) after, split_once-append p t before after)
