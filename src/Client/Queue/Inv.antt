-- ===== src/Client/Queue/Inv.antt =====
-- The representation invariant of `FairLogQueue`.
use tasknexus_client_agent.Prelude.{
  ◌≡◌, ◌≢◌, refl, sym, ℤ, int_eq, Map, get, insert, remove, get-insert, get-remove, Option, none,
  some, List, [], ◌∷◌, ◌++◌, Bool, true, false, ◌||◌, ◌==◌, eqb_ℤ, eqb_ℤ_iff, arith, is_empty,
  or_else, not, false≢true, if◌then◌else◌,
}
use tasknexus_client_agent.Client.Queue.{FairLogQueue, new_queue, queued, push, pop_from, pop}

abbrev pub mem : ℤ → List ℤ → Bool
mem t [] = false
mem t (s ∷ l) = eqb_ℤ t s || mem t l

abbrev pub Distinct : List ℤ → Type 0
Distinct [] = Unit
Distinct (t ∷ l) = (mem t l ≡ false) × Distinct l

pub mem-append : (t s : ℤ) (l : List ℤ) → mem t (l ++ s ∷ []) ≡ (mem t l || eqb_ℤ t s)
mem-append t s [] = ground arith
mem-append t s (r ∷ l) = ground (arith, mem-append t s l)

pub Distinct-append : (s : ℤ) (l : List ℤ) → mem s l ≡ false → Distinct l → Distinct (l ++ s ∷ [])
Distinct-append s [] h d = (refl, tt)
Distinct-append s (t ∷ l) h d = (
  ground (arith, mem-append t s l, eqb_ℤ_iff s t, eqb_ℤ_iff t s),
  Distinct-append s l (ground arith) d.1,
)

line-Distinct :
    (b : Bool) (t : ℤ) (l : List ℤ)
    → mem t l ≡ not b
    → Distinct l
    → Distinct (if b then l ++ t ∷ [] else l)
line-Distinct true t l h d = Distinct-append t l h d
line-Distinct false t l h d = d

mem-line :
    (b : Bool) (t s : ℤ) (l : List ℤ)
    → mem t l ≡ not b
    → mem s (if b then l ++ t ∷ [] else l) ≡ (eqb_ℤ t s || mem s l)
mem-line true t s l h = ground (arith, mem-append s t l, eqb_ℤ_iff t s, eqb_ℤ_iff s t)
mem-line false t s l h = ground (arith, eqb_ℤ_iff t s)

-- No task stands in line twice, the tasks in line are those with a message that waits, and no
-- empty queue is kept.
pub record IsValid {M : Type 0} (q : FairLogQueue M) : Type 0 where
  pub distinct : Distinct q.ready_tasks
  pub in_line : (t : ℤ) → mem t q.ready_tasks ≡ not (is_empty (queued t q))
  pub no_empty : (t : ℤ) → get t q.queues ≢ some []

module _ {M : Type 0} where
  pub new_queue-IsValid : IsValid (new_queue {M = M})
  unfolding new_queue queued get
  new_queue-IsValid = record { distinct = tt; in_line = λ t. refl; no_empty = λ t h. cc }

  -- What a task has queued after a push: the new message at the end, and the other tasks' as before.
  pub queued-push :
      (t s : ℤ) (m : M) (q : FairLogQueue M)
      → queued s (push t m q) ≡ (if t == s then queued t q ++ m ∷ [] else queued s q)
  unfolding queued push
  queued-push t s m q = ground (arith, get-insert t s (queued t q ++ m ∷ []) q.queues)

  is_empty-snoc : (l : List M) (m : M) → is_empty (l ++ m ∷ []) ≡ false
  is_empty-snoc [] m = refl
  is_empty-snoc (x ∷ l) m = refl

  snoc-ne-nil : (l : List M) (m : M) → some (l ++ m ∷ []) ≢ some []
  snoc-ne-nil [] m h = cc
  snoc-ne-nil (x ∷ l) m h = cc

  pub ready-push :
      (t s : ℤ) (m : M) (q : FairLogQueue M)
      → IsValid q
      → mem s (push t m q).ready_tasks ≡ (eqb_ℤ t s || mem s q.ready_tasks)
  unfolding push
  ready-push t s m q v = mem-line (is_empty (queued t q)) t s q.ready_tasks (v.in_line t)

  -- `push` keeps the invariant.
  pub push-IsValid : (t : ℤ) (m : M) (q : FairLogQueue M) → IsValid q → IsValid (push t m q)
  push-IsValid t m q v = record {
    distinct =
        unfold push in
        line-Distinct (is_empty (queued t q)) t q.ready_tasks (v.in_line t) v.distinct;
    in_line = λ s. ground (
      arith,
      queued-push t s m q,
      is_empty-snoc (queued t q) m,
      v.in_line s,
      ready-push t s m q v,
    );
    no_empty = λ s.
        unfold push in
        ground (
          arith,
          get-insert t s (queued t q ++ m ∷ []) q.queues,
          v.no_empty s,
          snoc-ne-nil (queued t q) m,
        );
  }

  waiting :
      (o : Option (List M))
      → true ≡ not (is_empty (or_else o []))
      → (m : M) × (rest : List M) × (o ≡ some (m ∷ rest))
  waiting none h = absurd (false≢true (sym h))
  waiting (some []) h = absurd (false≢true (sym h))
  waiting (some (m ∷ rest)) h = (m, rest, refl)

  -- The task at the front of the line has a message.
  pub first_waits :
      (qs : Map ℤ (List M)) (t : ℤ) (ready : List ℤ)
      → IsValid (record { queues = qs; ready_tasks = t ∷ ready })
      → (m : M) × (rest : List M) × (get t qs ≡ some (m ∷ rest))
  unfolding queued
  first_waits qs t ready v = waiting (get t qs) (ground (arith, v.in_line t, eqb_ℤ_iff t t))

  -- The queue after a message of `t` is taken and `rest` is left to it.
  abbrev pub served : Map ℤ (List M) → ℤ → List ℤ → List M → FairLogQueue M
  served qs t ready [] = record { queues = remove t qs; ready_tasks = ready }
  served qs t ready (n ∷ rest) = record {
    queues = insert t (n ∷ rest) qs;
    ready_tasks = ready ++ t ∷ [];
  }

  pub pop-eq-served :
      (qs : Map ℤ (List M)) (t : ℤ) (ready : List ℤ) (m : M) (rest : List M)
      → get t qs ≡ some (m ∷ rest)
      → pop (record { queues = qs; ready_tasks = t ∷ ready }) ≡ (some m, served qs t ready rest)
  unfolding pop
  pop-eq-served qs t ready m [] h = rw (h, pop_from)
  pop-eq-served qs t ready m (n ∷ rest) h = rw (h, pop_from)

  pub queued-served :
      (qs : Map ℤ (List M)) (t s : ℤ) (ready : List ℤ) (rest : List M)
      → queued s (served qs t ready rest) ≡ (if t == s then rest else or_else (get s qs) [])
  unfolding queued
  queued-served qs t s ready [] = ground (arith, get-remove t s qs)
  queued-served qs t s ready (n ∷ rest) = ground (arith, get-insert t s (n ∷ rest) qs)

  pub served-IsValid :
      (qs : Map ℤ (List M)) (t : ℤ) (ready : List ℤ) (rest : List M)
      → IsValid (record { queues = qs; ready_tasks = t ∷ ready })
      → IsValid (served qs t ready rest)
  served-IsValid qs t ready [] v = record {
    distinct = v.distinct.1;
    in_line = λ s.
        unfold queued in
        ground (arith, get-remove t s qs, v.in_line s, v.distinct.0, eqb_ℤ_iff t s, eqb_ℤ_iff s t);
    no_empty = λ s. ground (arith, get-remove t s qs, v.no_empty s);
  }
  served-IsValid qs t ready (n ∷ rest) v = record {
    distinct = Distinct-append t ready v.distinct.0 v.distinct.1;
    in_line = λ s.
        unfold queued in
        ground (
          arith,
          mem-append s t ready,
          get-insert t s (n ∷ rest) qs,
          v.in_line s,
          eqb_ℤ_iff t s,
          eqb_ℤ_iff s t,
        );
    no_empty = λ s. ground (arith, get-insert t s (n ∷ rest) qs, v.no_empty s);
  }

  pop_from-IsValid :
      (qs : Map ℤ (List M)) (ready : List ℤ)
      → IsValid (record { queues = qs; ready_tasks = ready })
      → IsValid (pop (record { queues = qs; ready_tasks = ready })).1
  pop_from-IsValid qs [] v = unfold pop in v
  pop_from-IsValid qs (t ∷ ready) v =
      let (m, rest, h) = first_waits qs t ready v in
      rw (pop-eq-served qs t ready m rest h) (served-IsValid qs t ready rest v)

  -- `pop` keeps the invariant.
  pub pop-IsValid : (q : FairLogQueue M) → IsValid q → IsValid (pop q).1
  pop-IsValid q v = pop_from-IsValid q.queues q.ready_tasks v
