-- ===== src/LfQueue/Refine.antt =====
-- The queue of source/llbase/lfqueue.h against the list of what is written and not yet read.
use nitek.Base.{
  ℕ, zero, suc, ◌+◌, ◌-◌, ◌%◌, ◌^◌, ◌≤◌, ◌<◌, ◌≡◌, refl, ◌≢◌, ◌⊎◌, inl, inr, Bool-cases, ==→eq, ap,
  ap₂, ◌∙◌, Option, none, some, List, [], ◌∷◌, ◌++◌, arith, length, ◌==◌, update,
}
use nitek.Base.Run.{Result, ok, fault}
use nitek.LfQueue.{
  LfQueue, make, write_next, increment_write_index, get_next_to_read, increment_read_index, push,
}
use mathlib.Core.List.{head?}
use native.Mathlib.Decide.{dec_lt}
use native.Mathlib.Nat.{mod-add-mod, mod-eq_of_lt, mod-eq-sub-mod, add-zero}

-- Fewer than `size` steps round the blocks do not come back.
pub add-mod-ne : {size i k : ℕ} → i < size → suc k < size → (i + suc k) % size ≢ i
add-mod-ne {size} {i} {k} h g = elim (dec_lt (i + suc k) size) [
  | yes p ↦ omega (arith, mod-eq_of_lt p)
  | no p ↦ omega (
    arith,
    mod-eq-sub-mod {n = i + suc k} {m = size} (omega arith),
    mod-eq_of_lt {n = i + suc k - size} {m = size} (omega arith),
  )
]

unfoldable pub with_value : {T Q : Type 0} → T → Result Q → Result (Option T × Q)
with_value x (ok q) = ok (some x, q)
with_value x (fault e) = fault e

module _ {T : Type 0} where
  -- `n` blocks from index `i` on, going round at `size`, oldest first.
  abbrev pub window : (ℕ → T) → ℕ → ℕ → ℕ → List T
  window blocks size i zero = []
  window blocks size i (suc n) = blocks i ∷ window blocks size ((i + 1) % size) n

  abbrev pub contents : LfQueue T → List T
  contents q = window q.blocks q.size q.i_read q.n_blocks

  -- What the indices satisfy between calls. A vector never has 2 ^ 63 elements.
  pub record IsValid (q : LfQueue T) : Type 0 where
    pub small : q.size < 2 ^ 63
    pub read_in : q.i_read < q.size
    pub write_at : q.i_write ≡ (q.i_read + q.n_blocks) % q.size
    pub within : q.n_blocks ≤ q.size

  window-write :
      (blocks : ℕ → T) (size n i w : ℕ) (x : T)
      → i < size
      → n < size
      → w ≡ (i + n) % size
      → window (update blocks w x) size i (suc n) ≡ window blocks size i n ++ (x ∷ [])
  window-write blocks size zero i w x hi hn e = rw (e, add-zero, mod-eq_of_lt hi) (ground arith)
  window-write blocks size (suc n) i w x hi hn e =
      ap₂ ◌∷◌ (ground (arith, add-mod-ne hi hn, e))
        (window-write blocks size n ((i + 1) % size) w x (grind arith) (omega arith) (e ∙ shift))
    where
      shift : (i + suc n) % size ≡ ((i + 1) % size + n) % size
      shift = rw mod-add-mod (ap (λ k. k % size) (omega arith))

  pub window-suc :
      (blocks : ℕ → T) (size n i : ℕ)
      → n ≢ 0
      → window blocks size i n ≡ blocks i ∷ window blocks size ((i + 1) % size) (n - 1)
  window-suc blocks size zero i h = absurd (h refl)
  window-suc blocks size (suc n) i h = ap (λ k. window blocks size i (suc k)) (omega arith)

  -- A fresh queue is empty.
  pub make-IsValid : (default : T) (n : ℕ) → 0 < n → n < 2 ^ 63 → IsValid (make default n)
  unfolding make
  make-IsValid default n h small = record {
    small = small;
    read_in = h;
    write_at = grind arith;
    within = omega arith;
  }

  write-index :
      {q : LfQueue T}
      → IsValid q
      → (q.i_write + 1) % 2 ^ 64 % q.size ≡ (q.i_read + (q.n_blocks + 1)) % q.size
  write-index {q} v =
      let below : q.i_write < q.size = grind arith in
      let whole : (q.i_write + 1) % 2 ^ 64 ≡ q.i_write + 1 = omega arith in
      rw (whole, v.write_at, mod-add-mod) (ap (λ k. k % q.size) (omega arith))

  -- A write while there is room adds its value at the end and keeps the queue well formed.
  pub push_refines :
      (q : LfQueue T) (x : T)
      → IsValid q
      → q.n_blocks < q.size
      → IsValid (push q x) × (contents (push q x) ≡ contents q ++ (x ∷ []))
  unfolding push write_next increment_write_index
  push_refines q x v room =
      let moved : (q.i_write + 1) % 2 ^ 64 % q.size ≡ (q.i_read + (q.n_blocks + 1)) % q.size =
        write-index v in
      let counted : (q.n_blocks + 1) % 2 ^ 64 ≡ suc q.n_blocks = omega arith in
      (
        rw counted (record {
          small = v.small;
          read_in = v.read_in;
          write_at = moved ∙ ap (λ k. (q.i_read + k) % q.size) (omega arith);
          within = omega arith;
        }),
        rw counted (
            window-write q.blocks q.size q.n_blocks q.i_read q.i_write x v.read_in room v.write_at),
      )

  -- The reader is shown the oldest value, and nullptr exactly when there is none.
  pub read_refines : (q : LfQueue T) → IsValid q → get_next_to_read q ≡ head? (contents q)
  unfolding get_next_to_read
  read_refines q v = ground (arith, window-suc q.blocks q.size q.n_blocks q.i_read)

  -- A reader's turn: look, and if there is a value move the read index on.
  unfoldable pub take : LfQueue T → Result (Option T × LfQueue T)
  take q = elim (get_next_to_read q) [
    | none ↦ ok (none, q)
    | some x ↦ with_value x (increment_read_index q)
  ]

  read-index :
      {q : LfQueue T}
      → IsValid q
      → q.n_blocks ≢ 0
      → q.i_write ≡ ((q.i_read + 1) % q.size + (q.n_blocks - 1)) % q.size
  read-index {q} v some_left = rw (mod-add-mod, v.write_at) (ap (λ k. k % q.size) (omega arith))

  -- Reading takes the oldest value off, and never ends the process.
  pub take_refines :
      (q : LfQueue T)
      → IsValid q
      → ((contents q ≡ []) × (take q ≡ ok (none, q)))
        ⊎ ((x : T) × (q' : LfQueue T) × (contents q ≡ x ∷ contents q')
            × (take q ≡ ok (some x, q'))
            × IsValid q'
            × (q'.size ≡ q.size))
  unfolding take with_value increment_read_index get_next_to_read
  take_refines q v = elim (Bool-cases (q.n_blocks == 0)) [
    | inl e ↦ inl (rw (==→eq q.n_blocks 0 e), ground arith)
    | inr e ↦
        let whole : (q.i_read + 1) % 2 ^ 64 ≡ q.i_read + 1 = omega arith in
        let some_left : q.n_blocks ≢ 0 = ground arith in
        inr (
          q.blocks q.i_read,
          record q { i_read = (q.i_read + 1) % q.size; n_blocks = q.n_blocks - 1 },
          window-suc q.blocks q.size q.n_blocks q.i_read some_left,
          ground (arith, whole),
          record {
            small = v.small;
            read_in = grind arith;
            write_at = read-index v some_left;
            within = omega arith;
          },
          refl,
        )
  ]

  pub length-window : (blocks : ℕ → T) (size n i : ℕ) → length (window blocks size i n) ≡ n
  length-window blocks size zero i = refl
  length-window blocks size (suc n) i = ap suc (length-window blocks size n ((i + 1) % size))

  pub window-head :
      (blocks : ℕ → T) (size i n : ℕ) (x : T) (xs : List T)
      → window blocks size i n ≡ x ∷ xs
      → (n ≢ 0) × (blocks i ≡ x)
  window-head blocks size i zero x xs h = absurd (ground arith)
  window-head blocks size i (suc n) x xs h = (λ e. omega arith, ground arith)
