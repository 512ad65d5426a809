-- ===== src/Executor/Paths/Join.antt =====
-- A name that was joined to a path is its last part, and the path its parent.
use tasknexus_client_agent.Prelude.{
  ℕ, ◌≡◌, refl, sym, ap, ◌∙◌, true, false, some, List, [], ◌∷◌, ◌++◌, eqb, last?, is_empty, text_eq,
  ◌==◌, arith, Bool-cases, inl, inr, eqb_iff,
}
use tasknexus_client_agent.Text.{Text, codes, contains, starts_with, strip_prefix}
use tasknexus_client_agent.Executor.Paths.{
  split, push_first, joined, join, is_skipped, trim_segments, init, normal_name, normal_last,
  last_name, file_name_in, file_name, with_first, parent_of, parent_in, parent, wants_separator,
}

split-plain : (c : ℕ) (t : Text) → contains c t ≡ false → split c t ≡ t ∷ []
unfolding split contains
split-plain c [] h = refl
split-plain c (d ∷ t) h = ground (arith, split-plain c t)

-- A text is split behind its last separator into the segments before it and the last one.
split-last :
    (c : ℕ) (t name : Text)
    → contains c name ≡ false
    → (first : Text) × (l : List Text) × (split c t ≡ first ∷ l)
      × (split c (t ++ c ∷ name) ≡ first ∷ (l ++ name ∷ []))
unfolding split
split-last c [] name h = ([], [], refl, rw (split-plain c name h) (ground arith))
split-last c (d ∷ t) name h =
    let ih = split-last c t name h in
    elim (Bool-cases (eqb d c)) [
      | inl same ↦ ([], ih.0 ∷ ih.1, rw (same, ih.2) refl, rw (same, ih.3) refl)
      | inr other ↦ (d ∷ ih.0, ih.1, rw (other, ih.2) refl, rw (other, ih.3) refl)
    ]

joined-push_first :
    (d : ℕ) (s : Text) (l : List Text) → joined (push_first d (s ∷ l)) ≡ d ∷ joined (s ∷ l)
joined-push_first d s [] = refl
joined-push_first d s (next ∷ l) = refl

joined-split : (t : Text) → joined (split b'/' t) ≡ t
unfolding split contains
joined-split [] = refl
joined-split (d ∷ t) =
    let shape = split-last b'/' t [] refl in
    elim (Bool-cases (eqb d b'/')) [
      | inl same ↦
          rw (same, shape.2)
            (ap (λ r. b'/' ∷ r) (ap joined (sym shape.2) ∙ joined-split t)
              ∙ ap (λ c. c ∷ t) (sym ((eqb_iff d b'/').0 same)))
      | inr other ↦
          rw (other, shape.2)
            (joined-push_first d shape.0 shape.1
              ∙ ap (λ r. d ∷ r) (ap joined (sym shape.2) ∙ joined-split t))
    ]

trim_segments-last :
    (l : List Text) (name : Text)
    → is_skipped name ≡ false
    → trim_segments (l ++ name ∷ []) ≡ l ++ name ∷ []
trim_segments-last [] name h = ground arith
trim_segments-last (s ∷ []) name h = rw h refl
trim_segments-last (s ∷ next ∷ l) name h = rw (trim_segments-last (next ∷ l) name h) refl

last?-append : (l : List Text) (name : Text) → last? (l ++ name ∷ []) ≡ some name
last?-append [] name = refl
last?-append (s ∷ []) name = refl
last?-append (s ∷ next ∷ l) name = last?-append (next ∷ l) name

init-append : (l : List Text) (name : Text) → init (l ++ name ∷ []) ≡ l
init-append [] name = refl
init-append (s ∷ []) name = refl
init-append (s ∷ next ∷ l) name = ap (λ k. s ∷ k) (init-append (next ∷ l) name)

-- A directory's path as `canonicalize` gives it, other than the root: absolute, and without a
-- separator or `.` at the end.
pub record IsDir (dir : Text) : Type 0 where
  pub rest : List Text
  pub parts : split b'/' dir ≡ [] ∷ rest
  pub nonempty : is_empty rest ≡ false
  pub trimmed : trim_segments rest ≡ rest
  pub open_end : wants_separator (last? dir) ≡ true

-- A name that may stand in a path: one segment, not empty, not `.` and not `..`.
pub record IsName (name : Text) : Type 0 where
  pub segment : contains b'/' name ≡ false
  pub kept : is_skipped name ≡ false
  pub below : (name == codes "..") ≡ false

starts_with-segment :
    (name : Text) → contains b'/' name ≡ false → starts_with (codes "/") name ≡ false
unfolding contains strip_prefix
starts_with-segment [] h = refl
starts_with-segment (c ∷ name) h = ground arith

pub join-segment :
    (dir name : Text)
    → wants_separator (last? dir) ≡ true
    → contains b'/' name ≡ false
    → join dir name ≡ dir ++ b'/' ∷ name
unfolding join
join-segment dir name o h = rw (starts_with-segment name h, o) refl

split-join :
    (dir name : Text) (d : IsDir dir)
    → IsName name
    → split b'/' (join dir name) ≡ [] ∷ (d.rest ++ name ∷ [])
split-join dir name d n =
    let shape = split-last b'/' dir name n.segment in
    ap (split b'/') (join-segment dir name d.open_end n.segment)
    ∙ shape.3
    ∙ ap (λ l. l ++ name ∷ []) (sym shape.2 ∙ d.parts)

last_name-append :
    (first : Text) (l : List Text) (name : Text)
    → last_name first (l ++ name ∷ []) ≡ normal_name name
last_name-append first [] name = refl
last_name-append first (s ∷ l) name = ap normal_last (last?-append (s ∷ l) name)

parent_of-append :
    (first : Text) (l : List Text) (name : Text)
    → parent_of first (l ++ name ∷ []) ≡ with_first first (trim_segments l)
parent_of-append first [] name = refl
parent_of-append first (s ∷ l) name =
    ap (λ k. with_first first (trim_segments k)) (init-append (s ∷ l) name)

with_first-cons : (l : List Text) → is_empty l ≡ false → with_first [] l ≡ some (joined ([] ∷ l))
with_first-cons [] h = cc
with_first-cons (s ∷ l) h = refl

-- The name is the last part of the path.
pub file_name-join :
    (dir name : Text) → IsDir dir → IsName name → file_name (join dir name) ≡ some name
unfolding file_name
file_name-join dir name d n =
    ap file_name_in (split-join dir name d n)
    ∙ ap (last_name []) (trim_segments-last d.rest name n.kept)
    ∙ last_name-append [] d.rest name
    ∙ rw (n.kept, n.below) refl

-- The directory is the path's parent.
pub parent-join : (dir name : Text) → IsDir dir → IsName name → parent (join dir name) ≡ some dir
unfolding parent
parent-join dir name d n =
    ap parent_in (split-join dir name d n)
    ∙ ap (parent_of []) (trim_segments-last d.rest name n.kept)
    ∙ parent_of-append [] d.rest name
    ∙ ap (with_first []) d.trimmed
    ∙ with_first-cons d.rest d.nonempty
    ∙ ap some (ap joined (sym d.parts) ∙ joined-split dir)
