-- ===== src/MemPool/Tests.antt =====
-- The pool at work: the theorems at concrete pools.
use nitek.Base.{ℕ, ◌≢◌, ◌≡◌, refl, ◌⊎◌, true, false, arith, update}
use nitek.Base.Run.{ok, fault, exits}
use nitek.MemPool.{MemPool, make, search_free, update_next_free_index, allocate, deallocate}
use nitek.MemPool.Laws.{
  IsValid, make-IsValid, Allocated, OneLeft, allocate_lem, used, allocate-deallocate,
}

unfoldable all_free : MemPool ℕ
all_free = make 0 3

all_free-IsValid : IsValid all_free
unfolding all_free
all_free-IsValid = make-IsValid 0 3 (omega arith)

allocate_lem_example :
    ((p' : MemPool ℕ) × (allocate all_free 7 ≡ ok (0, p')) × Allocated all_free 7 p')
    ⊎ ((allocate all_free 7 ≡ fault exits) × OneLeft all_free)
unfolding all_free make
allocate_lem_example = allocate_lem all_free 7 all_free-IsValid

-- Three blocks of which the first is in use.
abbrev one_used : MemPool ℕ
one_used = record {
  object = λ i. 7;
  is_free = update (λ i. true) 0 false;
  size = 3;
  i_next_free = 1;
}

one_used-IsValid : IsValid one_used
one_used-IsValid = record { next_in = omega arith; next_is_free = refl }

-- The pool after the second block is given out too.
abbrev two_used : MemPool ℕ
two_used = record {
  object = update one_used.object 1 9;
  is_free = update one_used.is_free 1 false;
  size = 3;
  i_next_free = 2;
}

two_used-allocated : allocate one_used 9 ≡ ok (1, two_used)
unfolding allocate update_next_free_index search_free
two_used-allocated = refl

allocate-deallocate_example :
    (two_used.object 1 ≡ 9)
    × (p'' : MemPool ℕ) × (deallocate two_used 1 ≡ ok p'')
    × IsValid p''
    × ((j : ℕ) → p''.is_free j ≡ one_used.is_free j)
    × (used p'' ≡ used one_used)
    × ((j : ℕ) → 1 ≢ j → p''.object j ≡ one_used.object j)
    × (deallocate p'' 1 ≡ fault exits)
allocate-deallocate_example =
    allocate-deallocate one_used two_used 9 1 one_used-IsValid two_used-allocated
