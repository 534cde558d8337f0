-- ===== src/Taken/Passes.antt =====
-- What each check of a take promises of the rows that the process just took: it goes on with some, which
-- the process still has, and the process has none of the others.
use skymail_backend.Prelude.{
  ℕ, ◌≡◌, refl, sym, ap, ◌∙◌, ◌≢◌, inl, inr, subst, Bool, true, false, not, some, List, [], ◌∷◌,
  map, All, arith, mem, select, Bool-cases,
}
use skymail_backend.Queue.{Row, Statement, processing, ids_of}
use skymail_backend.Queue.Claims.{In, All-In, In-map, In-select, mem-ids_of, All-of-In}
use skymail_backend.Queue.Order.{In-selected, mem_of_In}
use skymail_backend.Store.{Store}
use skymail_backend.Taken.{run_all}
use skymail_backend.Taken.Steps.{
  has, Yields, names, act_all, act_all-id, act_all-idle, act_all-other, act_all-named, run_all-rows,
  map-map,
}

-- A row that a process took.
abbrev pub IsTaken : List Row → ℕ → Row → Type 0
IsTaken rows me r = In r rows × (r.status ≡ processing) × (r.claimed_by ≡ some me)

-- Of the rows of a take, the process has none but those that are kept.
abbrev pub HasOnly : ℕ → List Row → List Row → List Row → Type 0
HasOnly me rows kept table =
    (r : Row)
    → In r table
    → has me r ≡ true
    → mem r.id (ids_of rows) ≡ true
    → mem r.id (ids_of kept) ≡ true

-- A change of the rows of the queue alone that gives the process no row.
abbrev pub Gives : ℕ → Store → Store → Type 0
Gives me st after =
    (f : Row → Row) × (after ≡ record st { rows = map f st.rows })
    × ((r : Row) → (f r).id ≡ r.id)
    × ((r : Row) → has me r ≡ false → has me (f r) ≡ false)

abbrev pub Passes : ℕ → Store → List Row → Store × List Row → Type 0
Passes me st rows (after, kept) =
    Gives me st after × All (IsTaken after.rows me) kept × HasOnly me rows kept after.rows

pub In-mapped : (f : Row → Row) (x : Row) (xs : List Row) → In x xs → In (f x) (map f xs)
In-mapped f x [] i = i
In-mapped f x (y ∷ ys) (inl e) = inl (ap f e)
In-mapped f x (y ∷ ys) (inr i) = inr (In-mapped f x ys i)

true-ne-false : true ≢ false
true-ne-false h = cc

pub not-both {ℓ} : {A : Type ℓ} (b : Bool) → b ≡ true → b ≡ false → A
not-both b h n = absurd (true-ne-false (sym h ∙ n))

kept_on :
    (me now : ℕ) (ss : List Statement) (keep : Row → Bool) (st : Store) (rows : List Row)
    → All (Yields me) ss
    → All (IsTaken st.rows me) rows
    → ((r : Row) → In r rows → keep r ≡ not (names ss r.id))
    → All (IsTaken (map (act_all now st.tasks ss) st.rows) me) (select keep rows)
kept_on me now ss keep st rows y taken k =
    let f = act_all now st.tasks ss in
    All-of-In (IsTaken (map f st.rows) me) (select keep rows) λ r i.
      let (j, q) = In-select keep r rows i in
      let (l, a, b) = All-In (IsTaken st.rows me) r rows taken j in
      let out : names ss r.id ≡ false = ground (arith, k r j, q) in
      let same : f r ≡ r = act_all-other me now st.tasks ss r y out in
      (subst (λ x. In x (map f st.rows)) same (In-mapped f r st.rows l), a, b)

has_kept :
    (me now : ℕ) (ss : List Statement) (keep : Row → Bool) (st : Store) (rows : List Row)
    → All (Yields me) ss
    → ((r : Row) → In r rows → keep r ≡ not (names ss r.id))
    → HasOnly me rows (select keep rows) (map (act_all now st.tasks ss) st.rows)
has_kept me now ss keep st rows y k r i h m =
    let f = act_all now st.tasks ss in
    let (x, j, e) = In-map f r st.rows i in
    let same_id : r.id ≡ x.id = ap (λ (z : Row). z.id) e ∙ act_all-id me now st.tasks ss x y in
    elim (Bool-cases (names ss x.id)) [
      | inl n ↦ not-both (has me r) h (ap (has me) e ∙ act_all-named me now st.tasks ss x y n)
      | inr n ↦
          let (z, l, d) = mem-ids_of r.id rows m in
          let out : names ss z.id ≡ false = ap (names ss) (d ∙ same_id) ∙ n in
          let on : keep z ≡ true = k z l ∙ ap not out in
          subst (λ a. mem a (ids_of (select keep rows)) ≡ true) d
            (mem_of_In z (select keep rows) (In-selected keep z rows on l))
    ]

-- A check that runs statements which end claims, and goes on with the rows that they do not name.
pub run_all-Passes :
    (me now : ℕ) (ss : List Statement) (keep : Row → Bool) (st : Store) (rows : List Row)
    → All (Yields me) ss
    → All (IsTaken st.rows me) rows
    → ((r : Row) → In r rows → keep r ≡ not (names ss r.id))
    → Passes me st rows (run_all now ss st, select keep rows)
run_all-Passes me now ss keep st rows y taken k =
    let f = act_all now st.tasks ss in
    let path = run_all-rows now ss st in
    (
      (
        f,
        path,
        λ r. act_all-id me now st.tasks ss r y,
        λ r h. ap (has me) (act_all-idle me now st.tasks ss r y h) ∙ h,
      ),
      subst (λ (s : Store). All (IsTaken s.rows me) (select keep rows)) (sym path)
          (kept_on me now ss keep st rows y taken k),
      subst (λ (s : Store). HasOnly me rows (select keep rows) s.rows) (sym path)
          (has_kept me now ss keep st rows y k),
    )

pub Gives-trans : (me : ℕ) (a b c : Store) → Gives me a b → Gives me b c → Gives me a c
Gives-trans me a b c (f, p, i, h) (g, q, j, k) = (
  (λ r. g (f r)),
  q
      ∙ ap (λ (s : Store). record s { rows = map g s.rows }) p
      ∙ ap (λ rs. record a { rows = rs }) (map-map g f a.rows),
  λ r. j (f r) ∙ i r,
  λ r e. k (f r) (h r e),
)

pub HasOnly-trans :
    (me : ℕ) (b c : Store) (rows kept kept' : List Row)
    → HasOnly me rows kept b.rows
    → Gives me b c
    → HasOnly me kept kept' c.rows
    → HasOnly me rows kept' c.rows
HasOnly-trans me b c rows kept kept' one (g, q, j, k) two r i h m =
    let i' = subst (λ (s : Store). In r s.rows) q i in
    let (x, l, e) = In-map g r b.rows i' in
    let same_id : x.id ≡ r.id = sym (ap (λ (z : Row). z.id) e ∙ j x) in
    elim (Bool-cases (has me x)) [
      | inl own ↦
          let m' = subst (λ a. mem a (ids_of rows) ≡ true) (sym same_id) m in
          two r i h (subst (λ a. mem a (ids_of kept) ≡ true) same_id (one x l own m'))
      | inr free ↦ not-both (has me r) h (ap (has me) e ∙ k x free)
    ]

-- One check after another.
pub Passes-trans :
    (me : ℕ) (a b c : Store) (rows kept kept' : List Row)
    → Passes me a rows (b, kept)
    → Passes me b kept (c, kept')
    → Passes me a rows (c, kept')
Passes-trans me a b c rows kept kept' (g, t, o) (g', t', o') =
    (Gives-trans me a b c g g', t', HasOnly-trans me b c rows kept kept' o g' o')

-- A check that finds nothing to do.
pub Passes-refl :
    (me : ℕ) (st : Store) (rows : List Row)
    → All (IsTaken st.rows me) rows
    → Passes me st rows (st, rows)
Passes-refl me st rows taken = (
  ((λ r. r), ap (λ rs. record st { rows = rs }) (map_same st.rows), λ r. refl, λ r h. h),
  taken,
  λ r i h m. m,
)
  where
    map_same : (rs : List Row) → rs ≡ map (λ r. r) rs
    map_same [] = refl
    map_same (r ∷ rs) = ap (◌∷◌ r) (map_same rs)

-- What gives the process no row leaves it none but those that are kept.
pub HasOnly-Gives :
    (me : ℕ) (b c : Store) (rows kept : List Row)
    → HasOnly me rows kept b.rows
    → Gives me b c
    → HasOnly me rows kept c.rows
HasOnly-Gives me b c rows kept one g = HasOnly-trans me b c rows kept kept one g λ r i h m. m
