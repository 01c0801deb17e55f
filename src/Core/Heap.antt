-- ===== src/Core/Heap.antt =====
-- An allocator that keeps the promises of malloc and realloc, for runs of the code.
use protobluff.Common.{
  ℕ, zero, suc, ◌≡◌, ◌≢◌, refl, sym, ap, ◌∙◌, arith, none, some, List, [], ◌∷◌, ◌++◌, length, take,
  min, take-append, take-take, length-append, length-take,
}
use protobluff.Core.Memory.{Allocator, IsAllocator}

-- An allocator that has memory: a block is filled up with zeros.
abbrev pub zeros : ℕ → List ℕ
zeros zero = []
zeros (suc n) = 0 ∷ zeros n

length-zeros : (n : ℕ) → length (zeros n) ≡ n
length-zeros zero = refl
length-zeros (suc n) = ap suc (length-zeros n)

abbrev pub heap : Allocator Unit
heap = record {
  allocate = λ m n. (some (zeros n), m);
  resize = λ m old n. (some (take n (old ++ zeros n)), m);
  free = λ m old. m;
}

some-eq : {x y : List ℕ} → some x ≡ some y → x ≡ y
some-eq e = cc

pub heap-IsAllocator : IsAllocator heap
heap-IsAllocator = record {
  allocate_size = λ m n b e. sym (ap length (some-eq e)) ∙ length-zeros n;
  resize_size = λ m old n b e.
      sym (ap length (some-eq e))
      ∙ omega (arith, length-take n (old ++ zeros n), length-append old (zeros n), length-zeros n);
  resize_keeps = λ m old n b e.
      ap (take (min n (length old))) (sym (some-eq e))
      ∙ (take-take (min n (length old)) n (old ++ zeros n) (omega arith)
          ∙ take-append (min n (length old)) old (zeros n) (omega arith));
}

pub heap-ample : (m : Unit) (block : List ℕ) (n : ℕ) → (heap.resize m block n).0 ≢ none
heap-ample m block n e = cc
