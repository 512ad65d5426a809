-- ===== src/Client/Queue/Turn.antt =====
-- The abstract view of `FairLogQueue`: a line of tasks, each with its messages, that is served in
-- turn. `queues` and `ready_tasks` together implement it.
use tasknexus_client_agent.Prelude.{
  ◌≡◌, refl, ap, ap₂, ◌∙◌, sym, ℤ, int_eq, Map, get, Option, none, some, List, [], ◌∷◌, ◌++◌, true,
  false, ◌==◌, ==_refl, eqb_ℤ_iff, arith, is_empty, or_else, if◌then◌else◌, map, map-append,
  Bool-cases, inl, inr, false≢true,
}
use tasknexus_client_agent.Client.Queue.{FairLogQueue, queued, push, pop}
use tasknexus_client_agent.Client.Queue.Inv.{
  mem, Distinct, IsValid, queued-push, first_waits, served, pop-eq-served, queued-served,
}

abbrev pub Line : Type 0 → Type 0
Line M = List (ℤ × List M)

pub mem-ne : (t r : ℤ) (l : List ℤ) → mem t l ≡ false → mem r l ≡ true → (t == r) ≡ false
mem-ne t r l h k = ground (arith, eqb_ℤ_iff t r)

module _ {M : Type 0} where
  -- A message goes behind its task's others; a task that is not in line joins at the end.
  pub enqueue : ℤ → M → Line M → Line M
  enqueue t m [] = (t, m ∷ []) ∷ []
  enqueue t m ((s, l) ∷ line) =
      if s == t then (s, l ++ m ∷ []) ∷ line else (s, l) ∷ enqueue t m line

  -- The first task gives its oldest message, and goes to the end if it has more.
  pub serve : Line M → Option M × Line M
  serve [] = (none, [])
  serve ((t, []) ∷ line) = (none, line)
  serve ((t, m ∷ []) ∷ line) = (some m, line)
  serve ((t, m ∷ n ∷ rest) ∷ line) = (some m, line ++ (t, n ∷ rest) ∷ [])

  abbrev line_of : List ℤ → (ℤ → List M) → Line M
  line_of l f = map (λ t. (t, f t)) l

  abbrev pub view : FairLogQueue M → Line M
  view q = line_of q.ready_tasks (λ t. queued t q)

  line_of_congr :
      (l : List ℤ) (f g : ℤ → List M)
      → ((t : ℤ) → mem t l ≡ true → f t ≡ g t)
      → line_of l f ≡ line_of l g
  line_of_congr [] f g h = refl
  line_of_congr (t ∷ l) f g h =
      ap₂ ◌∷◌ (ap (λ x. (t, x)) (h t (ground (arith, eqb_ℤ_iff t t))))
        (line_of_congr l f g (λ s k. h s (ground arith)))

  enqueue_new :
      (t : ℤ) (m : M) (l : List ℤ) (f : ℤ → List M)
      → mem t l ≡ false
      → enqueue t m (line_of l f) ≡ line_of l f ++ (t, m ∷ []) ∷ []
  unfolding enqueue
  enqueue_new t m [] f h = refl
  enqueue_new t m (s ∷ l) f h = ground (arith, eqb_ℤ_iff t s, eqb_ℤ_iff s t, enqueue_new t m l f)

  enqueue_old :
      (t : ℤ) (m : M) (l : List ℤ) (f g : ℤ → List M)
      → Distinct l
      → mem t l ≡ true
      → g t ≡ f t ++ m ∷ []
      → ((s : ℤ) → (t == s) ≡ false → g s ≡ f s)
      → enqueue t m (line_of l f) ≡ line_of l g
  unfolding enqueue
  enqueue_old t m [] f g d h e k = absurd (false≢true h)
  enqueue_old t m (s ∷ l) f g d h e k = elim (Bool-cases (s == t)) [
    | inl old ↦
        let same : s ≡ t = (eqb_ℤ_iff s t).0 old in
        let c : line_of l f ≡ line_of l g =
          line_of_congr l f g (λ r p. sym (k r (mem-ne t r l (rw (← same) d.0) p))) in
        ground (arith, same, c)
    | inr new ↦ ground (arith, k s, eqb_ℤ_iff s t, eqb_ℤ_iff t s, enqueue_old t m l f g)
  ]

  line_of-append :
      (t : ℤ) (l : List ℤ) (f : ℤ → List M) → line_of (l ++ t ∷ []) f ≡ line_of l f ++ (t, f t) ∷ []
  line_of-append t l f = rw map-append

  push-view :
      (t : ℤ) (m : M) (q : FairLogQueue M)
      → IsValid q
      → (waiting : List M) → queued t q ≡ waiting
      → line_of
          (if is_empty waiting then q.ready_tasks ++ t ∷ [] else q.ready_tasks)
          (λ s. queued s (push t m q))
        ≡ enqueue t m (view q)
  push-view t m q v [] e =
      let out : mem t q.ready_tasks ≡ false = ground (arith, v.in_line t) in
      let c : line_of q.ready_tasks (λ s. queued s (push t m q)) ≡ view q =
        line_of_congr q.ready_tasks _ _ (λ s p. rw (queued-push, mem-ne t s q.ready_tasks out p)) in
      let last : queued t (push t m q) ≡ m ∷ [] = rw (queued-push, ==_refl t, e) in
      line_of-append t q.ready_tasks (λ s. queued s (push t m q))
      ∙ cc (c, last)
      ∙ sym (enqueue_new t m q.ready_tasks (λ s. queued s q) out)
  push-view t m q v (x ∷ l) e = sym (
      enqueue_old t m q.ready_tasks (λ s. queued s q) (λ s. queued s (push t m q)) v.distinct
        (ground (arith, v.in_line t)) (rw (queued-push, ==_refl t) refl)
        (λ s k. rw (queued-push, k) refl))

  -- `push` on a valid queue is `enqueue` on its line.
  pub push_refines :
      (t : ℤ) (m : M) (q : FairLogQueue M) → IsValid q → view (push t m q) ≡ enqueue t m (view q)
  push_refines t m q v = unfold push in push-view t m q v (queued t q) refl

  others_view :
      (qs : Map ℤ (List M)) (t : ℤ) (ready : List ℤ) (rest : List M)
      → IsValid (record { queues = qs; ready_tasks = t ∷ ready })
      → line_of ready (λ s. queued s (served qs t ready rest))
        ≡ line_of ready (λ s. or_else (get s qs) [])
  others_view qs t ready rest v =
      line_of_congr ready _ _
        (λ s p. rw (queued-served qs t s ready rest, mem-ne t s ready v.distinct.0 p))

  served-view :
      (qs : Map ℤ (List M)) (t : ℤ) (ready : List ℤ) (m : M) (rest : List M)
      → IsValid (record { queues = qs; ready_tasks = t ∷ ready })
      → get t qs ≡ some (m ∷ rest)
      → (some m, view (served qs t ready rest))
        ≡ serve ((t, m ∷ rest) ∷ line_of ready (λ s. or_else (get s qs) []))
  unfolding serve
  served-view qs t ready m [] v h = ap (λ l. (some m, l)) (others_view qs t ready [] v)
  served-view qs t ready m (n ∷ rest) v h =
      let last : queued t (served qs t ready (n ∷ rest)) ≡ n ∷ rest =
        rw (queued-served qs t t ready (n ∷ rest), ==_refl t) refl in
      ap (λ l. (some m, l))
        (line_of-append t ready (λ s. queued s (served qs t ready (n ∷ rest)))
          ∙ cc (others_view qs t ready (n ∷ rest) v, last))

  pop-view :
      (qs : Map ℤ (List M)) (ready : List ℤ)
      → IsValid (record { queues = qs; ready_tasks = ready })
      → let (m, q') = pop (record { queues = qs; ready_tasks = ready }) in
        (m, view q') ≡ serve (view (record { queues = qs; ready_tasks = ready }))
  pop-view qs [] v = unfold pop serve in refl
  pop-view qs (t ∷ ready) v =
      let (m, rest, h) = first_waits qs t ready v in
      rw (pop-eq-served qs t ready m rest h)
        (unfold queued in rw h (served-view qs t ready m rest v h))

  -- `pop` on a valid queue gives what `serve` gives, and leaves the line that `serve` leaves.
  pub pop_refines :
      (q : FairLogQueue M) → IsValid q → let (m, q') = pop q in (m, view q') ≡ serve (view q)
  pop_refines q v = pop-view q.queues q.ready_tasks v
