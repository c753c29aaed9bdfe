-- ===== src/Airline/Config/Range.antt =====
-- src/airline/Config.cc: the loops of the setters write exactly the nodes of their range.
use whitefield.Base.{
  ℕ, zero, suc, ◌+◌, ◌-◌, ◌≤◌, ◌<◌, ◌≡◌, refl, ap, ◌∙◌, true, false, none, some, List, length,
  get_elem?, modify, length-modify, get_elem?-modify_self, get_elem?-modify_ne, arith, ltb,
}
use whitefield.Base.Int.{ℤ, pos, negsuc, ◌<ℤ◌, ◌≤ℤ◌}
use mathlib.Core.Option
use native.Mathlib.Decide.{ℕ_discrete}
use whitefield.Airline.Config.{write_nodes, write_range}

module _ {A : Type 0} (f : A → A) where
  -- Every node from `i` up to `i + rounds` is changed by `f`, and no other.
  pub record Wrote (i rounds : ℕ) (xs ys : List A) : Type 0 where
    pub same_length : length ys ≡ length xs
    pub inside : (j : ℕ) → i ≤ j → j < i + rounds → get_elem? ys j ≡ Option.map f (get_elem? xs j)
    pub below : (j : ℕ) → j < i → get_elem? ys j ≡ get_elem? xs j
    pub above : (j : ℕ) → i + rounds ≤ j → get_elem? ys j ≡ get_elem? xs j

  inside_suc :
      (i rounds j : ℕ) (xs ys : List A)
      → Wrote (i + 1) rounds (modify i f xs) ys
      → Dec (i ≡ j)
      → i ≤ j
      → j < i + suc rounds
      → get_elem? ys j ≡ Option.map f (get_elem? xs j)
  inside_suc i rounds j xs ys w (yes e) p q =
      rw (← e) (w.below i (omega arith) ∙ get_elem?-modify_self f i xs)
  inside_suc i rounds j xs ys w (no ne) p q =
      w.inside j (omega arith) (omega arith) ∙ ap (Option.map f) (get_elem?-modify_ne f i j xs ne)

  Wrote-suc :
      (i rounds : ℕ) (xs ys : List A)
      → Wrote (i + 1) rounds (modify i f xs) ys
      → Wrote i (suc rounds) xs ys
  Wrote-suc i rounds xs ys w = record {
    same_length = w.same_length ∙ length-modify f i xs;
    inside = λ j p q. inside_suc i rounds j xs ys w (ℕ_discrete i j) p q;
    below = λ j p. w.below j (omega arith) ∙ get_elem?-modify_ne f i j xs (omega arith);
    above = λ j p. w.above j (omega arith) ∙ get_elem?-modify_ne f i j xs (omega arith);
  }

  pub write_nodes_total :
      (rounds i : ℕ) (xs : List A)
      → i + rounds ≤ length xs
      → (ys : List A) × (write_nodes f rounds i xs ≡ some ys) × Wrote i rounds xs ys
  unfolding write_nodes
  write_nodes_total zero i xs h = (
    xs,
    refl,
    record {
      same_length = refl;
      inside = λ j p q. absurd (omega arith);
      below = λ j p. refl;
      above = λ j p. refl;
    },
  )
  write_nodes_total (suc rounds) i xs h =
      let fits : ltb i (length xs) ≡ true = ground arith in
      let (ys, e, w) =
        write_nodes_total rounds (i + 1) (modify i f xs) (omega (arith, length-modify f i xs)) in
      (ys, rw fits e, Wrote-suc i rounds xs ys w)

  -- A range inside the array is written, every node of it and no other.
  pub write_range_total :
      (beg end : ℕ) (xs : List A)
      → beg ≤ end
      → end < length xs
      → (ys : List A) × (write_range f (pos beg) (pos end) xs ≡ some ys)
        × Wrote beg (end + 1 - beg) xs ys
  unfolding write_range
  write_range_total beg end xs p q =
      let (ys, e, w) = write_nodes_total (end + 1 - beg) beg xs (omega arith) in
      let ordered : ltb end beg ≡ false = ground arith in (ys, rw ordered e, w)

  -- A range that starts below 0 and is not empty is an access in front of the array.
  pub write_range_fault :
      (b : ℕ) (end : ℤ) (xs : List A)
      → (negsuc b ≤ℤ end) ≡ true
      → write_range f (negsuc b) end xs ≡ none
  unfolding write_range
  write_range_fault b (pos e) xs h = refl
  write_range_fault b (negsuc e) xs h = ground arith

  -- An empty range writes nothing.
  pub write_range_empty :
      (beg end : ℤ) (xs : List A) → (end <ℤ beg) ≡ true → write_range f beg end xs ≡ some xs
  unfolding write_range
  write_range_empty beg end xs h = rw h refl
