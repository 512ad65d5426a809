-- ===== src/Store/Sorted.antt =====
-- The order in which `snapshot` lists the tasks.
use tasknexus_client_agent.Prelude.{
  ℤ, Bool, true, false, if-both, leb→le, pos_part, neg_part, ◌+◌, int_eq, leb_ℤ, eqb_ℤ, eqb_ℤ_iff,
  ◌≤ℤ◌, ◌==◌, Option, none, some, List, [], ◌∷◌, ◌≡◌, refl, arith, if◌then◌else◌, ◌∙◌, ap,
}
use tasknexus_client_agent.Store.{insert_sorted, sort_by_key}

leb_ℤ-below : (a b : ℤ) → leb_ℤ a b ≡ true → a ≤ℤ b
leb_ℤ-below a b h = leb→le (pos_part a + neg_part b) (pos_part b + neg_part a) h

leb_ℤ-above : (a b : ℤ) → leb_ℤ a b ≡ false → b ≤ℤ a
leb_ℤ-above a b h = ground arith

apart : (a b k : ℤ) → leb_ℤ a b ≡ false → eqb_ℤ a k ≡ true → eqb_ℤ b k ≡ true → ⊥
apart a b k h p q = let e = (eqb_ℤ_iff a k).0 p in let f = (eqb_ℤ_iff b k).0 q in ground arith

module _ {ℓ} {A : Type ℓ} (key : A → ℤ) where
  -- The first element with a key.
  abbrev pub find_first : ℤ → List A → Option A
  find_first k [] = none
  find_first k (x ∷ l) = if key x == k then some x else find_first k l

  abbrev pub or_last : Option A → Option A → Option A
  or_last none o = o
  or_last (some x) o = some x

  -- The last element with a key.
  abbrev pub find_last : ℤ → List A → Option A
  find_last k [] = none
  find_last k (x ∷ l) = or_last (find_last k l) (if key x == k then some x else none)

  abbrev pub Below : ℤ → List A → Type 0
  Below k [] = Unit
  Below k (x ∷ l) = k ≤ℤ key x

  abbrev pub IsSorted : List A → Type 0
  IsSorted [] = Unit
  IsSorted (x ∷ l) = Below (key x) l × IsSorted l

  insert_sorted-Below :
      (k : ℤ) (x : A) (l : List A) → k ≤ℤ key x → Below k l → Below k (insert_sorted key x l)
  unfolding insert_sorted
  insert_sorted-Below k x [] h b = h
  insert_sorted-Below k x (y ∷ l) h b = ground arith

  insert_sorted-IsSorted : (x : A) (l : List A) → IsSorted l → IsSorted (insert_sorted key x l)
  unfolding insert_sorted
  insert_sorted-IsSorted x [] s = (tt, tt)
  insert_sorted-IsSorted x (y ∷ l) s =
      if-both IsSorted (leb_ℤ (key x) (key y)) (λ h. (leb_ℤ-below (key x) (key y) h, s))
        (λ h. (
          insert_sorted-Below (key y) x l (leb_ℤ-above (key x) (key y) h) s.0,
          insert_sorted-IsSorted x l s.1,
        ))

  pub sort_by_key-IsSorted : (l : List A) → IsSorted (sort_by_key key l)
  unfolding sort_by_key
  sort_by_key-IsSorted [] = tt
  sort_by_key-IsSorted (x ∷ l) =
      insert_sorted-IsSorted x (sort_by_key key l) (sort_by_key-IsSorted l)

  or_last-swap :
      (o : Option A) (a b : Bool) (x y : A)
      → (a ≡ true → b ≡ true → ⊥)
      → or_last (or_last o (if a then some x else none)) (if b then some y else none)
        ≡ or_last (or_last o (if b then some y else none)) (if a then some x else none)
  or_last-swap (some z) a b x y h = refl
  or_last-swap none false false x y h = refl
  or_last-swap none false true x y h = refl
  or_last-swap none true false x y h = refl
  or_last-swap none true true x y h = elim (h refl refl) [ ]

  find_last-insert_sorted :
      (k : ℤ) (x : A) (l : List A) → find_last k (insert_sorted key x l) ≡ find_last k (x ∷ l)
  unfolding insert_sorted
  find_last-insert_sorted k x [] = refl
  find_last-insert_sorted k x (y ∷ l) =
      if-both (λ r. find_last k r ≡ find_last k (x ∷ y ∷ l)) (leb_ℤ (key x) (key y)) (λ h. refl)
        (λ h.
          ap (λ o. or_last o (if key y == k then some y else none)) (find_last-insert_sorted k x l)
          ∙ or_last-swap (find_last k l) (key x == k) (key y == k) x y (apart (key x) (key y) k h))

  pub find_last-sort : (k : ℤ) (l : List A) → find_last k (sort_by_key key l) ≡ find_last k l
  unfolding sort_by_key
  find_last-sort k [] = refl
  find_last-sort k (x ∷ l) =
      find_last-insert_sorted k x (sort_by_key key l)
      ∙ ap (λ o. or_last o (if key x == k then some x else none)) (find_last-sort k l)
