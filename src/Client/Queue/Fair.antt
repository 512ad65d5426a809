-- ===== src/Client/Queue/Fair.antt =====
-- When the messages of a task in the line of `FairLogQueue` are served.
use tasknexus_client_agent.Prelude.{
  ℕ, suc, ◌<◌, ◌≡◌, refl, subst, sym, ℤ, int_eq, Option, none, some, List, [], ◌∷◌, ◌++◌, Bool,
  true, false, ◌==◌, eqb_ℤ_iff, arith, is_empty, if◌then◌else◌, length, append_assoc, append-nil,
  Map, ◌⊎◌, inl, inr,
}
use tasknexus_client_agent.Client.Queue.{FairLogQueue, queued, push, pop}
use tasknexus_client_agent.Client.Queue.Turn.{mem-ne}
use tasknexus_client_agent.Client.Queue.Inv.{
  mem, IsValid, queued-push, push-IsValid, pop-IsValid, first_waits, served, pop-eq-served,
  queued-served,
}

-- What the send task does with the queue, in any order.
pub data Op (M : Type 0) : Type 0 where
  push_op : ℤ → M → Op M
  pop_op : Op M

pub mem-middle : (t : ℤ) (bs after : List ℤ) → mem t (bs ++ t ∷ after) ≡ true
mem-middle t [] after = ground (arith, eqb_ℤ_iff t t)
mem-middle t (b ∷ bs) after = ground (arith, mem-middle t bs after)

module _ {M : Type 0} where
  abbrev pub pops : List (Op M) → ℕ
  pops [] = 0
  pops (push_op t m ∷ ops) = pops ops
  pops (pop_op ∷ ops) = suc (pops ops)

  abbrev pub cons? : Option M → List M → List M
  cons? none out = out
  cons? (some m) out = m ∷ out

  -- The messages that a run pops, in order.
  pub sent : List (Op M) → FairLogQueue M → List M
  sent [] q = []
  sent (push_op t m ∷ ops) q = sent ops (push t m q)
  sent (pop_op ∷ ops) q = let (o, q') = pop q in cons? o (sent ops q')

  abbrev pub Comes : M → List M → Type 0
  Comes m [] = ⊥
  Comes m (x ∷ out) = (x ≡ m) ⊎ Comes m out

  push_keeps :
      (s t : ℤ) (x m : M) (rest : List M) (before after : List ℤ) (q : FairLogQueue M)
      → q.ready_tasks ≡ before ++ t ∷ after
      → queued t q ≡ m ∷ rest
      → (after' : List ℤ) × (rest' : List M) × ((push s x q).ready_tasks ≡ before ++ t ∷ after')
        × (queued t (push s x q) ≡ m ∷ rest')
  push_keeps s t x m rest before after q e h = (
    (if is_empty (queued s q) then after ++ s ∷ [] else after),
    (if s == t then rest ++ x ∷ [] else rest),
    unfold push in line_keeps (is_empty (queued s q)) q.ready_tasks e,
    rw queued-push (ground (arith, eqb_ℤ_iff s t)),
  )
    where
      line_keeps :
          (b : Bool) (l : List ℤ)
          → l ≡ before ++ t ∷ after
          → (if b then l ++ s ∷ [] else l) ≡ before ++ t ∷ (if b then after ++ s ∷ [] else after)
      line_keeps true l k = rw k (append_assoc before (t ∷ after) (s ∷ []))
      line_keeps false l k = k

  ready-served :
      (qs : Map ℤ (List M)) (t : ℤ) (ready : List ℤ) (rest : List M)
      → (served qs t ready rest).ready_tasks ≡ ready ++ (if is_empty rest then [] else t ∷ [])
  ready-served qs t ready [] = sym (append-nil ready)
  ready-served qs t ready (n ∷ rest) = refl

  pop_keeps :
      (qs : Map ℤ (List M)) (b t : ℤ) (bs after : List ℤ) (m : M) (rest : List M)
      → IsValid (record { queues = qs; ready_tasks = b ∷ bs ++ t ∷ after })
      → queued t (record { queues = qs; ready_tasks = b ∷ bs ++ t ∷ after }) ≡ m ∷ rest
      → let q' = (pop (record { queues = qs; ready_tasks = b ∷ bs ++ t ∷ after })).1 in
        (after' : List ℤ) × (q'.ready_tasks ≡ bs ++ t ∷ after') × (queued t q' ≡ m ∷ rest)
  pop_keeps qs b t bs after m rest v h =
      let (x, xs, g) = first_waits qs b (bs ++ t ∷ after) v in
      (
        after ++ (if is_empty xs then [] else b ∷ []),
        rw (pop-eq-served qs b (bs ++ t ∷ after) x xs g, ready-served qs b (bs ++ t ∷ after) xs)
            (append_assoc bs (t ∷ after) _),
        rw
            (
              pop-eq-served qs b (bs ++ t ∷ after) x xs g,
              queued-served qs b t (bs ++ t ∷ after) xs,
              mem-ne b t (bs ++ t ∷ after) v.distinct.0 (mem-middle t bs after),
            )
            (unfold queued in h),
      )

  pop_kept :
      (q : FairLogQueue M) (t b : ℤ) (bs after : List ℤ) (m : M) (rest : List M)
      → IsValid q
      → q.ready_tasks ≡ b ∷ bs ++ t ∷ after
      → queued t q ≡ m ∷ rest
      → (after' : List ℤ) × ((pop q).1.ready_tasks ≡ bs ++ t ∷ after')
        × (queued t (pop q).1 ≡ m ∷ rest)
  pop_kept q t b bs after m rest v e h =
      subst
        (λ l.
          (after' : List ℤ) × ((pop (at l)).1.ready_tasks ≡ bs ++ t ∷ after')
          × (queued t (pop (at l)).1 ≡ m ∷ rest))
        (sym e)
        (pop_keeps q.queues b t bs after m rest (subst (λ l. IsValid (at l)) e v)
          (subst (λ l. queued t (at l) ≡ m ∷ rest) e h))
    where
      at : List ℤ → FairLogQueue M
      at l = record { queues = q.queues; ready_tasks = l }

  pop_now :
      (qs : Map ℤ (List M)) (t : ℤ) (after : List ℤ) (m : M) (rest : List M)
      → IsValid (record { queues = qs; ready_tasks = t ∷ after })
      → queued t (record { queues = qs; ready_tasks = t ∷ after }) ≡ m ∷ rest
      → (pop (record { queues = qs; ready_tasks = t ∷ after })).0 ≡ some m
  unfolding queued
  pop_now qs t after m rest v h =
      let (x, xs, g) = first_waits qs t after v in
      rw (pop-eq-served qs t after x xs g) (ground (arith, g, h))

  Comes-cons? : (m : M) (o : Option M) (out : List M) → Comes m out → Comes m (cons? o out)
  Comes-cons? m none out h = h
  Comes-cons? m (some x) out h = inr h

  -- The oldest message of a task in line is sent by any run that pops more often than there are
  -- tasks before it in line.
  pub fair :
      (ops : List (Op M)) (q : FairLogQueue M) (t : ℤ) (before after : List ℤ) (m : M)
      (rest : List M)
      → IsValid q
      → q.ready_tasks ≡ before ++ t ∷ after
      → queued t q ≡ m ∷ rest
      → length before < pops ops
      → Comes m (sent ops q)
  unfolding sent
  fair [] q t before after m rest v e h k = absurd (omega arith)
  fair (push_op s x ∷ ops) q t before after m rest v e h k =
      let (after', rest', e', h') = push_keeps s t x m rest before after q e h in
      fair ops (push s x q) t before after' m rest' (push-IsValid s x q v) e' h' k
  fair (pop_op ∷ ops) q t [] after m rest v e h k =
      let at : List ℤ → FairLogQueue M = λ l. record { queues = q.queues; ready_tasks = l } in
      let first : (pop q).0 ≡ some m =
        subst (λ l. (pop (at l)).0 ≡ some m) (sym e)
          (pop_now q.queues t after m rest (subst (λ l. IsValid (at l)) e v)
            (subst (λ l. queued t (at l) ≡ m ∷ rest) e h)) in
      rw first (inl refl)
  fair (pop_op ∷ ops) q t (b ∷ bs) after m rest v e h k =
      let (after', e', h') = pop_kept q t b bs after m rest v e h in
      Comes-cons? m (pop q).0 (sent ops (pop q).1)
        (fair ops (pop q).1 t bs after' m rest (pop-IsValid q v) e' h' (omega arith))
