-- ===== src/Taken/Steps.antt =====
-- What statements that end claims do to one row, and to the table.
use skymail_backend.Prelude.{
  ℕ, ◌≡◌, refl, ap, ◌∙◌, Bool, true, false, ◌&&◌, ◌||◌, List, [], ◌∷◌, Text, map, All, ◌++◌, ◌==◌,
  arith, mem, holds, inl, inr, Bool-cases,
}
use skymail_backend.Queue.{Row, Task, Statement, is_processing, act, applies, assign, execute}
use skymail_backend.Store.{Store}
use skymail_backend.Taken.{run_all, HeldRow, held_ids, Reasoned, add_reason, by_reason, write_held}

-- The process has the row.
abbrev pub has : ℕ → Row → Bool
has me r = is_processing r.status && holds r.claimed_by me

-- A statement that ends the claims of a process.
abbrev pub Yields : ℕ → Statement → Type 0
Yields me (Statement.park_claimed ids by) = by ≡ me
Yields me (Statement.cancel_claimed ids by) = by ≡ me
Yields me (Statement.skip_claimed ids by error) = by ≡ me
Yields me (Statement.defer_claimed ids by delay) = by ≡ me
Yields me _ = ⊥

-- The rows that such a statement names.
abbrev pub named : Statement → List ℕ
named (Statement.park_claimed ids by) = ids
named (Statement.cancel_claimed ids by) = ids
named (Statement.skip_claimed ids by error) = ids
named (Statement.defer_claimed ids by delay) = ids
named _ = []

abbrev pub names : List Statement → ℕ → Bool
names [] i = false
names (s ∷ ss) i = mem i (named s) || names ss i

act-other :
    (me now : ℕ) (ts : List Task) (s : Statement) (r : Row)
    → Yields me s
    → mem r.id (named s) ≡ false
    → act now ts s r ≡ r
unfolding act applies
act-other me now ts (Statement.park_claimed ids by) r y h = rw h refl
act-other me now ts (Statement.cancel_claimed ids by) r y h = rw h refl
act-other me now ts (Statement.skip_claimed ids by error) r y h = rw h refl
act-other me now ts (Statement.defer_claimed ids by delay) r y h = rw h refl
act-other me now ts _ r y h = absurd y

act-named :
    (me now : ℕ) (ts : List Task) (s : Statement) (r : Row)
    → Yields me s
    → mem r.id (named s) ≡ true
    → has me (act now ts s r) ≡ false
unfolding act applies assign
act-named me now ts (Statement.park_claimed ids by) r y h = ground (arith, y)
act-named me now ts (Statement.cancel_claimed ids by) r y h = ground (arith, y)
act-named me now ts (Statement.skip_claimed ids by error) r y h = ground (arith, y)
act-named me now ts (Statement.defer_claimed ids by delay) r y h = ground (arith, y)
act-named me now ts _ r y h = absurd y

pub act-idle :
    (me now : ℕ) (ts : List Task) (s : Statement) (r : Row)
    → Yields me s
    → has me r ≡ false
    → act now ts s r ≡ r
unfolding act applies
act-idle me now ts (Statement.park_claimed ids by) r y h = ground (arith, y)
act-idle me now ts (Statement.cancel_claimed ids by) r y h = ground (arith, y)
act-idle me now ts (Statement.skip_claimed ids by error) r y h = ground (arith, y)
act-idle me now ts (Statement.defer_claimed ids by delay) r y h = ground (arith, y)
act-idle me now ts _ r y h = absurd y

act-id :
    (me now : ℕ) (ts : List Task) (s : Statement) (r : Row)
    → Yields me s
    → (act now ts s r).id ≡ r.id
unfolding act applies assign
act-id me now ts (Statement.park_claimed ids by) r y = ground arith
act-id me now ts (Statement.cancel_claimed ids by) r y = ground arith
act-id me now ts (Statement.skip_claimed ids by error) r y = ground arith
act-id me now ts (Statement.defer_claimed ids by delay) r y = ground arith
act-id me now ts _ r y = absurd y

-- Statements one after the other, on one row.
abbrev pub act_all : ℕ → List Task → List Statement → Row → Row
act_all now ts [] r = r
act_all now ts (s ∷ ss) r = act_all now ts ss (act now ts s r)

pub act_all-id :
    (me now : ℕ) (ts : List Task) (ss : List Statement) (r : Row)
    → All (Yields me) ss
    → (act_all now ts ss r).id ≡ r.id
act_all-id me now ts [] r y = refl
act_all-id me now ts (s ∷ ss) r y =
    act_all-id me now ts ss (act now ts s r) y.1 ∙ act-id me now ts s r y.0

pub act_all-idle :
    (me now : ℕ) (ts : List Task) (ss : List Statement) (r : Row)
    → All (Yields me) ss
    → has me r ≡ false
    → act_all now ts ss r ≡ r
act_all-idle me now ts [] r y h = refl
act_all-idle me now ts (s ∷ ss) r y h =
    ap (act_all now ts ss) (act-idle me now ts s r y.0 h) ∙ act_all-idle me now ts ss r y.1 h

-- A row that no statement names is as it was.
pub act_all-other :
    (me now : ℕ) (ts : List Task) (ss : List Statement) (r : Row)
    → All (Yields me) ss
    → names ss r.id ≡ false
    → act_all now ts ss r ≡ r
act_all-other me now ts [] r y h = refl
act_all-other me now ts (s ∷ ss) r y h =
    ap (act_all now ts ss) (act-other me now ts s r y.0 (ground arith))
    ∙ act_all-other me now ts ss r y.1 (ground arith)

-- A row that one names is the process's no more.
pub act_all-named :
    (me now : ℕ) (ts : List Task) (ss : List Statement) (r : Row)
    → All (Yields me) ss
    → names ss r.id ≡ true
    → has me (act_all now ts ss r) ≡ false
act_all-named me now ts [] r y h = cc
act_all-named me now ts (s ∷ ss) r y h = elim (Bool-cases (mem r.id (named s))) [
  | inl m ↦
      let gone = act-named me now ts s r y.0 m in
      ap (has me) (act_all-idle me now ts ss (act now ts s r) y.1 gone) ∙ gone
  | inr n ↦
      ap (λ x. has me (act_all now ts ss x)) (act-other me now ts s r y.0 n)
      ∙ act_all-named me now ts ss r y.1 (ground arith)
]

pub map-map : (f g : Row → Row) (rows : List Row) → map f (map g rows) ≡ map (λ r. f (g r)) rows
map-map f g [] = refl
map-map f g (r ∷ rs) = ap (◌∷◌ (f (g r))) (map-map f g rs)

pub map_id : (rows : List Row) → rows ≡ map (λ r. r) rows
map_id [] = refl
map_id (r ∷ rs) = ap (◌∷◌ r) (map_id rs)

-- The statements change the rows alone.
pub run_all-rows :
    (now : ℕ) (ss : List Statement) (st : Store)
    → run_all now ss st ≡ record st { rows = map (act_all now st.tasks ss) st.rows }
unfolding execute
run_all-rows now [] st = ap (λ rs. record st { rows = rs }) (map_id st.rows)
run_all-rows now (s ∷ ss) st =
    let st' = record st { rows = map (act now st.tasks s) st.rows } in
    run_all-rows now ss st'
    ∙ ap (λ rs. record st { rows = rs })
        (map-map (act_all now st.tasks ss) (act now st.tasks s) st.rows)

pub names-append :
    (i : ℕ) (ss ss' : List Statement) → names (ss ++ ss') i ≡ (names ss i || names ss' i)
names-append i [] ss' = refl
names-append i (s ∷ ss) ss' = ground (arith, names-append i ss ss')

pub Yields-append :
    (me : ℕ) (ss ss' : List Statement)
    → All (Yields me) ss
    → All (Yields me) ss'
    → All (Yields me) (ss ++ ss')
Yields-append me [] ss' a b = b
Yields-append me (s ∷ ss) ss' a b = (a.0, Yields-append me ss ss' a.1 b)

skips_of : ℕ → List Reasoned → List Statement
skips_of me = map λ g. Statement.skip_claimed g.ids me g.reason

names-add_reason :
    (me i : ℕ) (reason : Text) (id : ℕ) (gs : List Reasoned)
    → names (skips_of me (add_reason reason id gs)) i ≡ (i == id || names (skips_of me gs) i)
unfolding add_reason skips_of
names-add_reason me i reason id [] = ground arith
names-add_reason me i reason id (g ∷ gs) = ground (arith, names-add_reason me i reason id gs)

-- The statements of write_held name the rows that are held.
pub names-write_held :
    (me i : ℕ) (hs : List HeldRow) → names (write_held me hs) i ≡ mem i (held_ids hs)
unfolding write_held by_reason skips_of
names-write_held me i [] = refl
names-write_held me i (h ∷ hs) =
    names-add_reason me i h.reason h.id (by_reason hs)
    ∙ ap (λ b. i == h.id || b) (names-write_held me i hs)

skips_of-Yields : (me : ℕ) (gs : List Reasoned) → All (Yields me) (skips_of me gs)
unfolding skips_of
skips_of-Yields me [] = tt
skips_of-Yields me (g ∷ gs) = (refl, skips_of-Yields me gs)

pub write_held-Yields : (me : ℕ) (hs : List HeldRow) → All (Yields me) (write_held me hs)
unfolding write_held skips_of
write_held-Yields me hs = skips_of-Yields me (by_reason hs)
