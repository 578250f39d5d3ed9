-- ===== src/LfQueue/Drain.antt =====
-- The reader's loop that source/nitek has in every thread: look at the next value of a queue of
-- source/llbase/lfqueue.h, handle it, move the read index on, until there is none. The queue is part
-- of the reader's state.
use nitek.Base.{
  ℕ, zero, suc, ◌<◌, ◌≡◌, refl, sym, ap, ◌∙◌, ◌⊎◌, inl, inr, none, some, List, [], ◌∷◌, arith,
  length, subst,
}
use nitek.Base.Run.{Fault, Result, ok, fault, out_of_fuel, Result-cases}
use nitek.LfQueue.{LfQueue, get_next_to_read, increment_read_index}
use nitek.LfQueue.Refine.{
  contents, IsValid, with_value, length-window, take, take_refines, read_refines,
}
use mathlib.Core.List.{head?}

abbrev pub map_result : {A B : Type 0} → (A → B) → Result A → Result B
map_result f (ok a) = ok (f a)
map_result f (fault e) = fault e

shorter :
    {T : Type 0} {fuel : ℕ} (q q' : LfQueue T) (x : T)
    → contents q ≡ x ∷ contents q'
    → q.n_blocks < suc fuel
    → q'.n_blocks < fuel
shorter q q' x e h = omega (
  arith,
  h,
  ap length e,
  length-window q.blocks q.size q.n_blocks q.i_read,
  length-window q'.blocks q'.size q'.n_blocks q'.i_read,
)

-- What the reader finds: nothing, or the oldest value, and then the read index can move on.
pub next_refines :
    {T : Type 0} (q : LfQueue T)
    → IsValid q
    → ((contents q ≡ []) × (get_next_to_read q ≡ none))
      ⊎ ((x : T) × (q' : LfQueue T) × (contents q ≡ x ∷ contents q')
          × (get_next_to_read q ≡ some x)
          × (increment_read_index q ≡ ok q')
          × IsValid q')
unfolding take with_value
next_refines q v = elim (take_refines q v) [
  | inl (e, t) ↦ inl (e, read_refines q v ∙ ap head? e)
  | inr (x, q', e, t, v', s) ↦
      let shown : get_next_to_read q ≡ some x = read_refines q v ∙ ap head? e in
      let turn : take q ≡ with_value x (increment_read_index q) = rw (shown, take) refl in
      inr (x, q', e, shown, moved (increment_read_index q) (sym turn ∙ t), v')
]
  where
    moved :
        {T Q : Type 0} {x : T} {q' : Q} (r : Result Q)
        → with_value x r ≡ ok (some x, q')
        → r ≡ ok q'
    moved (ok q) h = ground arith
    moved (fault e) h = ground arith

module _ {T S : Type 0} (queue_of : S → LfQueue T) (set_queue : LfQueue T → S → S)
    (handle : T → S → Result S) where
  -- The loop, with the queue's writer at rest.
  unfoldable pub drain : ℕ → S → Result S
  drain zero s = fault out_of_fuel
  drain (suc fuel) s = elim (get_next_to_read (queue_of s)) [
    | none ↦ ok s
    | some x ↦ elim (handle x s) [
      | fault e ↦ fault e
      | ok s' ↦ elim (increment_read_index (queue_of s')) [
        | fault e ↦ fault e
        | ok q ↦ drain fuel (set_queue q s')
      ]
    ]
  ]

  -- The values of a list handled in turn.
  unfoldable pub handle_all : List T → S → Result S
  handle_all [] s = ok s
  handle_all (x ∷ xs) s = elim (handle x s) [ fault e ↦ fault e | ok s' ↦ handle_all xs s' ]

  -- The queue is a part of the state that the handler neither reads nor writes.
  pub record IsPart : Type 0 where
    pub get_set : (q : LfQueue T) (s : S) → queue_of (set_queue q s) ≡ q
    pub set_set : (q q' : LfQueue T) (s : S) → set_queue q' (set_queue q s) ≡ set_queue q' s
    pub set_get : (s : S) → set_queue (queue_of s) s ≡ s
    pub apart :
        (x : T) (q : LfQueue T) (s : S)
        → handle x (set_queue q s) ≡ map_result (set_queue q) (handle x s)

  -- How the loop ends: the values are handled in turn and then the queue is empty, or the first
  -- fault of a handler ends it.
  pub data Drains (fuel : ℕ) (s : S) : Type 0 where
    empties :
        {s' : S} {q : LfQueue T}
        → handle_all (contents (queue_of s)) s ≡ ok s'
        → IsValid q
        → contents q ≡ []
        → drain fuel s ≡ ok (set_queue q s')
        → Drains fuel s
    stops :
        {e : Fault}
        → handle_all (contents (queue_of s)) s ≡ fault e
        → drain fuel s ≡ fault e
        → Drains fuel s

  module _ (part : IsPart) where
    handle-queue : (x : T) (s s' : S) → handle x s ≡ ok s' → queue_of s' ≡ queue_of s
    handle-queue x s s' h =
        let again : ok s' ≡ ok (set_queue (queue_of s) s') =
          sym h
          ∙ (ap (handle x) (sym (part.set_get s))
              ∙ (part.apart x (queue_of s) s ∙ ap (map_result (set_queue (queue_of s))) h)) in
        let same : s' ≡ set_queue (queue_of s) s' = ground (arith, again) in
        ap queue_of same ∙ part.get_set (queue_of s) s'

    handle_all-apart :
        (xs : List T) (q : LfQueue T) (s : S)
        → handle_all xs (set_queue q s) ≡ map_result (set_queue q) (handle_all xs s)
    unfolding handle_all
    handle_all-apart [] q s = refl
    handle_all-apart (x ∷ xs) q s = elim (Result-cases (handle x s)) [
      | inl (s', h) ↦ rw (part.apart x q s, h, handle_all) (handle_all-apart xs q s')
      | inr (e, h) ↦ rw (part.apart x q s, h, handle_all) refl
    ]

    -- One value more in front of a loop.
    extend :
        {fuel : ℕ} {s s' : S} {q' : LfQueue T}
        → drain (suc fuel) s ≡ drain fuel (set_queue q' s')
        → handle_all (contents (queue_of s)) s ≡ handle_all (contents q') s'
        → Drains fuel (set_queue q' s')
        → Drains (suc fuel) s
    extend {s' = s'} {q' = q'} step left (empties {s' = s2} {q = q} h v e g) =
        let rest : map_result (set_queue q') (handle_all (contents q') s') ≡ ok s2 =
          sym (handle_all-apart (contents q') q' s')
          ∙ subst (λ (p : LfQueue T). handle_all (contents p) (set_queue q' s') ≡ ok s2)
              (part.get_set q' s') h in
        elim (Result-cases (handle_all (contents q') s')) [
          | inl (s3, f) ↦
              let same : set_queue q' s3 ≡ s2 = ground (arith, f, rest) in
              empties {s' = s3} {q = q} (left ∙ f) v e
                (step ∙ (g ∙ ap ok (ap (set_queue q) (sym same) ∙ part.set_set q' q s3)))
          | inr (e', f) ↦ absurd (ground (arith, f, rest))
        ]
    extend {s' = s'} {q' = q'} step left (stops {e = e} h g) =
        let rest : map_result (set_queue q') (handle_all (contents q') s') ≡ fault e =
          sym (handle_all-apart (contents q') q' s')
          ∙ subst (λ (p : LfQueue T). handle_all (contents p) (set_queue q' s') ≡ fault e)
              (part.get_set q' s') h in
        elim (Result-cases (handle_all (contents q') s')) [
          | inl (s3, f) ↦ absurd (ground (arith, f, rest))
          | inr (e', f) ↦
              let same : e' ≡ e = ground (arith, f, rest) in
              stops {e = e} (left ∙ (f ∙ ap fault same)) (step ∙ g)
        ]

    pub drain_lem :
        (fuel : ℕ) (s : S) → IsValid (queue_of s) → (queue_of s).n_blocks < fuel → Drains fuel s
    unfolding drain handle_all
    drain_lem zero s v h = absurd (omega (arith, h))
    drain_lem (suc fuel) s v h = elim (next_refines (queue_of s) v) [
      | inl (e, t) ↦
          empties {s' = s} {q = queue_of s} (rw (e, handle_all) refl) v e
            (rw (t, part.set_get s, drain) refl)
      | inr (x, q', e, t, i, v') ↦ elim (Result-cases (handle x s)) [
        | inr (f, g) ↦ stops {e = f} (rw (e, g, handle_all) refl) (rw (t, g, drain) refl)
        | inl (s', g) ↦
            let kept : queue_of s' ≡ queue_of s = handle-queue x s s' g in
            let step : drain (suc fuel) s ≡ drain fuel (set_queue q' s') =
              rw (t, g, kept, i, drain) refl in
            let left : handle_all (contents (queue_of s)) s ≡ handle_all (contents q') s' =
              rw (e, g, handle_all) refl in
            extend step left (
              (drain_lem fuel (set_queue q' s') (rw (part.get_set q' s') v')
                (rw (part.get_set q' s') (shorter (queue_of s) q' x e h))))
      ]
    ]
