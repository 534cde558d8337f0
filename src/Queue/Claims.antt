-- ===== src/Queue/Claims.antt =====
-- Which rows a take returns. A table has one row for an id (its primary key).
use skymail_backend.Prelude.{
  ℕ, zero, suc, ◌≤◌, ◌≡◌, refl, sym, ap, ◌∙◌, ◌≢◌, ◌⊎◌, inl, inr, Bool, true, false, ◌&&◌, not,
  List, [], ◌∷◌, map, arith, mem, length, take, select, All, ◌==◌, ==_iff, Bool-cases,
  length-take-le, length-select_or, subst, &&-true,
}
use skymail_backend.Queue.{
  Row, ids_of, insert_row, sort_rows, taken_ids, due, before, claim, take_rows,
}

abbrev pub In : Row → List Row → Type 0
In x [] = ⊥
In x (y ∷ ys) = (x ≡ y) ⊎ In x ys

abbrev pub Distinct : List Row → Type 0
Distinct [] = Unit {0}
Distinct (x ∷ xs) = All (λ y. y.id ≢ x.id) xs × Distinct xs

pub All-In : (P : Row → Type 0) (x : Row) (xs : List Row) → All P xs → In x xs → P x
All-In P x [] a i = absurd i
All-In P x (y ∷ ys) a (inl e) = subst P (sym e) a.0
All-In P x (y ∷ ys) a (inr i) = All-In P x ys a.1 i

pub Distinct-unique :
    (x y : Row) (xs : List Row) → Distinct xs → In x xs → In y xs → x.id ≡ y.id → x ≡ y
Distinct-unique x y [] d i j e = absurd i
Distinct-unique x y (z ∷ zs) d (inl i) (inl j) e = i ∙ sym j
Distinct-unique x y (z ∷ zs) d (inl i) (inr j) e =
    absurd (All-In (λ w. w.id ≢ z.id) y zs d.0 j (sym e ∙ ap (λ (w : Row). w.id) i))
Distinct-unique x y (z ∷ zs) d (inr i) (inl j) e =
    absurd (All-In (λ w. w.id ≢ z.id) x zs d.0 i (e ∙ ap (λ (w : Row). w.id) j))
Distinct-unique x y (z ∷ zs) d (inr i) (inr j) e = Distinct-unique x y zs d.1 i j e

pub mem-ids_of :
    (i : ℕ) (xs : List Row) → mem i (ids_of xs) ≡ true → (x : Row) × In x xs × (x.id ≡ i)
mem-ids_of i [] h = cc
mem-ids_of i (x ∷ xs) h = elim (Bool-cases (i == x.id)) [
  | inl e ↦ (x, inl refl, sym ((==_iff i x.id).0 e))
  | inr n ↦ let (y, j, e) = mem-ids_of i xs (ground arith) in (y, inr j, e)
]

pub In-take : (n : ℕ) (x : Row) (xs : List Row) → In x (take n xs) → In x xs
In-take zero x xs i = absurd i
In-take (suc n) x [] i = i
In-take (suc n) x (y ∷ ys) (inl e) = inl e
In-take (suc n) x (y ∷ ys) (inr i) = inr (In-take n x ys i)

later :
    (x r y : Row) (ys zs : List Row)
    → (In x zs → (x ≡ r) ⊎ In x ys)
    → In x (y ∷ zs)
    → (x ≡ r) ⊎ In x (y ∷ ys)
later x r y ys zs rest (inl e) = inr (inl e)
later x r y ys zs rest (inr i) = elim (rest i) [ inl e ↦ inl e | inr j ↦ inr (inr j) ]

In-insert_row : (x r : Row) (xs : List Row) → In x (insert_row r xs) → (x ≡ r) ⊎ In x xs
unfolding insert_row
In-insert_row x r [] i = i
In-insert_row x r (y ∷ ys) i = elim (Bool-cases (before r y)) [
  | inl e ↦ rw e at i
  | inr n ↦ later x r y ys (insert_row r ys) (In-insert_row x r ys) (rw n at i)
]

pub In-sort_rows : (x : Row) (xs : List Row) → In x (sort_rows xs) → In x xs
unfolding sort_rows
In-sort_rows x [] i = i
In-sort_rows x (y ∷ ys) i = elim (In-insert_row x y (sort_rows ys) i) [
  | inl e ↦ inl e
  | inr j ↦ inr (In-sort_rows x ys j)
]

first_or :
    (p : Row → Bool) (x y : Row) (ys : List Row)
    → p y ≡ true
    → (In x (select p ys) → In x ys × (p x ≡ true))
    → In x (y ∷ select p ys)
    → In x (y ∷ ys) × (p x ≡ true)
first_or p x y ys e rest (inl i) = (inl i, ap p i ∙ e)
first_or p x y ys e rest (inr i) = let (j, q) = rest i in (inr j, q)

pub In-select :
    (p : Row → Bool) (x : Row) (xs : List Row) → In x (select p xs) → In x xs × (p x ≡ true)
In-select p x [] i = absurd i
In-select p x (y ∷ ys) i = elim (Bool-cases (p y)) [
  | inl e ↦ first_or p x y ys e (In-select p x ys) (rw e at i)
  | inr n ↦ let (j, q) = In-select p x ys (rw n at i) in (inr j, q)
]

pub mem-taken_ids :
    (system : Bool) (max_rows now : ℕ) (locked : Row → Bool) (rows : List Row) (r : Row)
    → Distinct rows
    → In r rows
    → mem r.id (taken_ids system max_rows now locked rows) ≡ true
    → (due system now r && not (locked r)) ≡ true
unfolding taken_ids
mem-taken_ids system max_rows now locked rows r d i h =
    let p = λ (x : Row). due system now x && not (locked x) in
    let (x, j, e) = mem-ids_of r.id (take max_rows (sort_rows (select p rows))) h in
    let (k, q) =
      In-select p x rows
        (In-sort_rows x (select p rows) (In-take max_rows x (sort_rows (select p rows)) j)) in
    subst (λ y. p y ≡ true) (Distinct-unique x r rows d k i e) q

pub In-map :
    (f : Row → Row) (x : Row) (xs : List Row) → In x (map f xs) → (y : Row) × In y xs × (x ≡ f y)
In-map f x [] i = absurd i
In-map f x (y ∷ ys) (inl e) = (y, inl refl, e)
In-map f x (y ∷ ys) (inr i) = let (z, j, e) = In-map f x ys i in (z, inr j, e)

not-true : (b : Bool) → not b ≡ true → b ≡ false
not-true true h = cc
not-true false h = refl

same_id_never :
    (i : ℕ) (x : Row) (xs : List Row)
    → All (λ y. y.id ≢ x.id) xs
    → x.id ≡ i
    → length (select (λ r. r.id == i) xs) ≡ 0
same_id_never i x [] a e = refl
same_id_never i x (y ∷ ys) a e = ground (arith, same_id_never i x ys a.1 e, a.0)

pub same_id_once : (i : ℕ) (xs : List Row) → Distinct xs → length (select (λ r. r.id == i) xs) ≤ 1
same_id_once i [] d = omega arith
same_id_once i (x ∷ xs) d = ground (arith, same_id_never i x xs d.0, same_id_once i xs d.1)

select_none : (xs : List Row) → length (select (λ r. mem r.id []) xs) ≡ 0
select_none [] = refl
select_none (x ∷ xs) = select_none xs

length-select-mem :
    (ids : List ℕ) (xs : List Row)
    → Distinct xs
    → length (select (λ r. mem r.id ids) xs) ≤ length ids
length-select-mem [] xs d = omega (arith, select_none xs)
length-select-mem (i ∷ ids) xs d = omega (
  arith,
  length-select_or (λ r. r.id == i) (λ r. mem r.id ids) xs,
  same_id_once i xs d,
  length-select-mem ids xs d,
)

length-ids_of : (xs : List Row) → length (ids_of xs) ≡ length xs
length-ids_of [] = refl
length-ids_of (x ∷ xs) = ap suc (length-ids_of xs)

pub length-map_rows : (f : Row → Row) (xs : List Row) → length (map f xs) ≡ length xs
length-map_rows f [] = refl
length-map_rows f (x ∷ xs) = ap suc (length-map_rows f xs)

length-taken_ids :
    (system : Bool) (max_rows now : ℕ) (locked : Row → Bool) (rows : List Row)
    → length (taken_ids system max_rows now locked rows) ≤ max_rows
unfolding taken_ids
length-taken_ids system max_rows now locked rows =
    let p = λ (x : Row). due system now x && not (locked x) in
    omega (
      arith,
      length-ids_of (take max_rows (sort_rows (select p rows))),
      length-take-le max_rows (sort_rows (select p rows)),
    )

pub All-of-In : (P : Row → Type 0) (xs : List Row) → ((x : Row) → In x xs → P x) → All P xs
All-of-In P [] f = tt
All-of-In P (x ∷ xs) f = (f x (inl refl), All-of-In P xs λ y i. f y (inr i))

-- A row that a take returns: one of the table that was due and locked by no other transaction, now
-- claimed.
abbrev pub WasDue : Bool → ℕ → ℕ → (Row → Bool) → List Row → Row → Type 0
WasDue system by now locked rows t =
    (r : Row) × In r rows × (t ≡ claim now by r) × (due system now r ≡ true) × (locked r ≡ false)

-- A take of one lane, from a table with one row for an id, returns at most as many rows as it was asked
-- for; each is a row of the table that was pending, due, in the lane and locked by no other
-- transaction, now in processing and claimed by the process at the take's instant.
pub take_rows_sound :
    (system : Bool) (by max_rows now : ℕ) (locked : Row → Bool) (rows : List Row)
    → Distinct rows
    → let returned = (take_rows system by max_rows now locked rows).1 in
      (length returned ≤ max_rows) × All (WasDue system by now locked rows) returned
unfolding take_rows
take_rows_sound system by max_rows now locked rows d =
    let ids = taken_ids system max_rows now locked rows in
    let chosen = λ (r : Row). mem r.id ids in
    (
      omega (
        arith,
        length-map_rows (claim now by) (select chosen rows),
        length-select-mem ids rows d,
        length-taken_ids system max_rows now locked rows,
      ),
      All-of-In (WasDue system by now locked rows) (map (claim now by) (select chosen rows)) λ t i.
          let (r, j, e) = In-map (claim now by) t (select chosen rows) i in
          let (k, m) = In-select chosen r rows j in
          let (a, b) =
            &&-true (due system now r) (not (locked r))
              (mem-taken_ids system max_rows now locked rows r d k m) in
          (r, k, e, a, not-true (locked r) b),
    )
