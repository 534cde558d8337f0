-- ===== src/Queue/Order.antt =====
-- In which order due rows are taken.
use skymail_backend.Prelude.{
  ℕ, zero, suc, ◌≡◌, refl, sym, ap, ◌∙◌, ◌≢◌, ◌⊎◌, inl, inr, Bool, true, false, ◌&&◌, not, List, [],
  ◌∷◌, arith, mem, take, select, All, ◌==◌, ==_iff, Bool-cases, subst,
}
use skymail_backend.Queue.{Row, ids_of, insert_row, sort_rows, taken_ids, due, before}
use skymail_backend.Queue.Claims.{
  In, Distinct, Distinct-unique, mem-ids_of, In-take, In-sort_rows, In-select,
}

before_total : (a b : Row) → before a b ≡ false → before b a ≡ true
before_total a b h = ground arith

before_trans : (a b c : Row) → before a b ≡ true → before b c ≡ true → before a c ≡ true
before_trans a b c h k = ground arith

before_refl : (a : Row) → before a a ≡ true
before_refl a = ground arith

abbrev First : Row → List Row → Type 0
First r = All λ y. before r y ≡ true

abbrev Sorted : List Row → Type 0
Sorted [] = Unit {0}
Sorted (x ∷ xs) = First x xs × Sorted xs

First-insert_row :
    (x r : Row) (xs : List Row) → before x r ≡ true → First x xs → First x (insert_row r xs)
unfolding insert_row
First-insert_row x r [] h f = (h, tt)
First-insert_row x r (y ∷ ys) h f = elim (Bool-cases (before r y)) [
  | inl e ↦ rw e (h, f)
  | inr n ↦ rw n (f.0, First-insert_row x r ys h f.1)
]

First-trans : (r y : Row) (ys : List Row) → before r y ≡ true → First y ys → First r ys
First-trans r y [] h f = tt
First-trans r y (z ∷ zs) h f = (before_trans r y z h f.0, First-trans r y zs h f.1)

Sorted-insert_row : (r : Row) (xs : List Row) → Sorted xs → Sorted (insert_row r xs)
unfolding insert_row
Sorted-insert_row r [] s = (tt, tt)
Sorted-insert_row r (y ∷ ys) s = elim (Bool-cases (before r y)) [
  | inl e ↦ rw e ((e, First-trans r y ys e s.0), s)
  | inr n ↦ rw n (First-insert_row y r ys (before_total r y n) s.0, Sorted-insert_row r ys s.1)
]

Sorted-sort_rows : (xs : List Row) → Sorted (sort_rows xs)
unfolding sort_rows
Sorted-sort_rows [] = tt
Sorted-sort_rows (x ∷ xs) = Sorted-insert_row x (sort_rows xs) (Sorted-sort_rows xs)

First-In : (x y : Row) (xs : List Row) → First x xs → In y xs → before x y ≡ true
First-In x y [] f i = absurd i
First-In x y (z ∷ zs) f (inl e) = subst (λ w. before x w ≡ true) (sym e) f.0
First-In x y (z ∷ zs) f (inr i) = First-In x y zs f.1 i

taken_first :
    (n : ℕ) (x y : Row) (xs : List Row)
    → Sorted xs
    → In x (take n xs)
    → In y xs
    → In y (take n xs) ⊎ (before x y ≡ true)
taken_first zero x y xs s i j = absurd i
taken_first (suc n) x y [] s i j = absurd j
taken_first (suc n) x y (z ∷ zs) s (inl e) (inl k) = inl (inl k)
taken_first (suc n) x y (z ∷ zs) s (inl e) (inr j) =
    inr (subst (λ w. before w y ≡ true) (sym e) (First-In z y zs s.0 j))
taken_first (suc n) x y (z ∷ zs) s (inr i) (inl k) = inl (inl k)
taken_first (suc n) x y (z ∷ zs) s (inr i) (inr j) = elim (taken_first n x y zs s.1 i j) [
  | inl t ↦ inl (inr t)
  | inr b ↦ inr b
]

In-insert_head : (r : Row) (xs : List Row) → In r (insert_row r xs)
unfolding insert_row
In-insert_head r [] = inl refl
In-insert_head r (y ∷ ys) = elim (Bool-cases (before r y)) [
  | inl e ↦ rw e (inl refl)
  | inr n ↦ rw n (inr (In-insert_head r ys))
]

In-insert_tail : (x r : Row) (xs : List Row) → In x xs → In x (insert_row r xs)
unfolding insert_row
In-insert_tail x r [] i = absurd i
In-insert_tail x r (y ∷ ys) (inl e) = elim (Bool-cases (before r y)) [
  | inl h ↦ rw h (inr (inl e))
  | inr n ↦ rw n (inl e)
]
In-insert_tail x r (y ∷ ys) (inr i) = elim (Bool-cases (before r y)) [
  | inl h ↦ rw h (inr (inr i))
  | inr n ↦ rw n (inr (In-insert_tail x r ys i))
]

In-sorted : (x : Row) (xs : List Row) → In x xs → In x (sort_rows xs)
unfolding sort_rows
In-sorted x [] i = i
In-sorted x (y ∷ ys) (inl e) =
    subst (λ w. In w (insert_row y (sort_rows ys))) (sym e) (In-insert_head y (sort_rows ys))
In-sorted x (y ∷ ys) (inr i) = In-insert_tail x y (sort_rows ys) (In-sorted x ys i)

pub In-selected :
    (p : Row → Bool) (x : Row) (xs : List Row) → p x ≡ true → In x xs → In x (select p xs)
In-selected p x [] h i = i
In-selected p x (y ∷ ys) h (inl e) = rw (ap p (sym e) ∙ h) (inl e)
In-selected p x (y ∷ ys) h (inr i) = elim (Bool-cases (p y)) [
  | inl q ↦ rw q (inr (In-selected p x ys h i))
  | inr n ↦ rw n (In-selected p x ys h i)
]

pub mem_of_In : (x : Row) (xs : List Row) → In x xs → mem x.id (ids_of xs) ≡ true
mem_of_In x [] i = absurd i
mem_of_In x (y ∷ ys) (inl e) =
    let same : (x.id == y.id) ≡ true = (==_iff x.id y.id).1 (ap (λ (r : Row). r.id) e) in
    ground arith
mem_of_In x (y ∷ ys) (inr i) = ground (arith, mem_of_In x ys i)

true-ne-false : true ≢ false
true-ne-false h = cc

-- A take passes no due row over: where a row that is due in the lane and locked by no one is not taken,
-- every row that is taken comes before it, by next_attempt_at and then by created_at.
pub taken_ids_order :
    (system : Bool) (max_rows now : ℕ) (locked : Row → Bool) (rows : List Row) (x y : Row)
    → Distinct rows
    → In x rows
    → mem x.id (taken_ids system max_rows now locked rows) ≡ true
    → In y rows
    → mem y.id (taken_ids system max_rows now locked rows) ≡ false
    → (due system now y && not (locked y)) ≡ true
    → before x y ≡ true
unfolding taken_ids
taken_ids_order system max_rows now locked rows x y d i taken j left ready =
    let p = λ (r : Row). due system now r && not (locked r) in
    let sorted = sort_rows (select p rows) in
    let (z, k, e) = mem-ids_of x.id (take max_rows sorted) taken in
    let (l, _) =
      In-select p z rows (In-sort_rows z (select p rows) (In-take max_rows z sorted k)) in
    let same : x ≡ z = Distinct-unique x z rows d i l (sym e) in
    let found : In y sorted = In-sorted y (select p rows) (In-selected p y rows ready j) in
    elim (taken_first max_rows z y sorted (Sorted-sort_rows (select p rows)) k found) [
      | inl t ↦ absurd (true-ne-false (sym (mem_of_In y (take max_rows sorted) t) ∙ left))
      | inr b ↦ subst (λ w. before w y ≡ true) (sym same) b
    ]
