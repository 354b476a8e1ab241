-- ===== src/Prelude/Lists.antt =====
-- Lists measured by native numbers, filtering by Boolean tests, and predicates on lists.
use Prim.Native.Nat.{ℕ, zero, suc, ◌+◌, ◌≤◌}
use mathlib.Core.Path.{◌≡◌, refl}
use mathlib.Core.Bool.{Bool, true, false, ◌&&◌, ◌||◌, false≢true}
use mathlib.Core.Logic.{inl, inr}
use mathlib.Core.Option.{Option, none, some}
use mathlib.Core.List.{List, [], ◌∷◌, ◌++◌}
use native.Mathlib.Omega.{arith}
use ledger_pro.Prelude.Tests.{leb, if◌then◌else◌, Bool-cases}

abbrev pub All {κ ℓ} : {Row : Type ℓ} → (Row → Type κ) → List Row → Type κ
All holds [] = Unit
All holds (row ∷ rest) = holds row × All holds rest

-- The sum of a column, as SQL's SUM over NUMERIC computes it.
abbrev pub total {ℓ} : {A : Type ℓ} → (A → ℕ) → List A → ℕ
total f [] = 0
total f (x ∷ xs) = f x + total f xs

-- `ORDER BY key ASC`: insertion into a sorted list, behind the rows with a smaller key.
abbrev pub insert_by {ℓ} : {A : Type ℓ} → (A → ℕ) → A → List A → List A
insert_by key x [] = x ∷ []
insert_by key x (y ∷ ys) = if leb (key x) (key y) then x ∷ y ∷ ys else y ∷ insert_by key x ys

abbrev pub order_by {ℓ} : {A : Type ℓ} → (A → ℕ) → List A → List A
order_by key [] = []
order_by key (x ∷ xs) = insert_by key x (order_by key xs)

-- `ORDER BY key DESC`
abbrev pub insert_by_desc {ℓ} : {A : Type ℓ} → (A → ℕ) → A → List A → List A
insert_by_desc key x [] = x ∷ []
insert_by_desc key x (y ∷ ys) =
    if leb (key y) (key x) then x ∷ y ∷ ys else y ∷ insert_by_desc key x ys

abbrev pub order_by_desc {ℓ} : {A : Type ℓ} → (A → ℕ) → List A → List A
order_by_desc key [] = []
order_by_desc key (x ∷ xs) = insert_by_desc key x (order_by_desc key xs)

module _ {ℓ} {A : Type ℓ} where
  abbrev pub length : List A → ℕ
  length [] = 0
  length (x ∷ xs) = suc (length xs)

  abbrev pub take : ℕ → List A → List A
  take zero xs = []
  take (suc n) [] = []
  take (suc n) (x ∷ xs) = x ∷ take n xs

  abbrev pub drop : ℕ → List A → List A
  drop zero xs = xs
  drop (suc n) [] = []
  drop (suc n) (x ∷ xs) = drop n xs

  abbrev pub get_last? : List A → Option A
  get_last? [] = none
  get_last? (x ∷ []) = some x
  get_last? (x ∷ y ∷ xs) = get_last? (y ∷ xs)

  -- The rows that a `WHERE` clause selects, in table order.
  abbrev pub where_rows : (A → Bool) → List A → List A
  where_rows p [] = []
  where_rows p (x ∷ xs) = let rest = where_rows p xs in if p x then x ∷ rest else rest

  -- The first row that a `WHERE … LIMIT 1` selects.
  abbrev pub first_row : (A → Bool) → List A → Option A
  first_row p [] = none
  first_row p (x ∷ xs) = if p x then some x else first_row p xs

  abbrev pub exists_row : (A → Bool) → List A → Bool
  exists_row p [] = false
  exists_row p (x ∷ xs) = if p x then true else exists_row p xs

  pub length-append : (xs ys : List A) → length (xs ++ ys) ≡ length xs + length ys
  length-append [] ys = omega arith
  length-append (x ∷ xs) ys = omega (arith, length-append xs ys)

  pub take-append-drop : (n : ℕ) (xs : List A) → take n xs ++ drop n xs ≡ xs
  take-append-drop zero xs = refl
  take-append-drop (suc n) [] = refl
  take-append-drop (suc n) (x ∷ xs) = rw (take-append-drop n xs)

  pub length-take-le : (n : ℕ) (xs : List A) → length (take n xs) ≤ n
  length-take-le zero xs = omega arith
  length-take-le (suc n) [] = omega arith
  length-take-le (suc n) (x ∷ xs) = omega (arith, length-take-le n xs)

  pub where_rows-append :
      (p : A → Bool) (xs ys : List A) → where_rows p (xs ++ ys) ≡ where_rows p xs ++ where_rows p ys
  where_rows-append p [] ys = refl
  where_rows-append p (x ∷ xs) ys = ground (arith, where_rows-append p xs ys)

pub All-append {κ ℓ} :
    {Row : Type ℓ} (P : Row → Type κ) (old new : List Row)
    → All P new
    → All P old
    → All P (old ++ new)
All-append P [] new added _ = added
All-append P (r ∷ old) new added (first, rest) = (first, All-append P old new added rest)

pub All-map {ℓ κ μ} :
    {A : Type ℓ} {P : A → Type κ} {Q : A → Type μ}
    → ((x : A) → P x → Q x)
    → (xs : List A) → All P xs
    → All Q xs
All-map f [] h = tt
All-map f (x ∷ xs) h = (f x h.0, All-map f xs h.1)

pub total-append {ℓ} :
    {A : Type ℓ} (f : A → ℕ) (xs ys : List A) → total f (xs ++ ys) ≡ total f xs + total f ys
total-append f [] ys = omega arith
total-append f (x ∷ xs) ys = omega (arith, total-append f xs ys)

-- The keys do not fall, and start at `lo` or above.
abbrev pub Ascending {ℓ} : {A : Type ℓ} → (A → ℕ) → ℕ → List A → Type 0
Ascending key lo [] = Unit
Ascending key lo (x ∷ xs) = (lo ≤ key x) × Ascending key (key x) xs

insert_by-head {ℓ} :
    {A : Type ℓ} (key : A → ℕ) (x : A) (xs : List A)
    → Ascending key (key x) xs
    → insert_by key x xs ≡ x ∷ xs
insert_by-head key x [] h = refl
insert_by-head key x (y ∷ ys) h = ground arith

-- A list that is in order stays as it is.
pub order_by-Ascending {ℓ} :
    {A : Type ℓ} (key : A → ℕ) (lo : ℕ) (xs : List A) → Ascending key lo xs → order_by key xs ≡ xs
order_by-Ascending key lo [] h = refl
order_by-Ascending key lo (x ∷ xs) h =
    rw (order_by-Ascending key (key x) xs h.1) (insert_by-head key x xs h.1)

pub Ascending-weaken {ℓ} :
    {A : Type ℓ} (key : A → ℕ) (lo lo' : ℕ) (xs : List A)
    → lo' ≤ lo
    → Ascending key lo xs
    → Ascending key lo' xs
Ascending-weaken key lo lo' [] h a = tt
Ascending-weaken key lo lo' (x ∷ xs) h a = (omega (arith, h, a.0), a.1)

pub exists_row_mono {ℓ} :
    {A : Type ℓ} (p q : A → Bool)
    → ((x : A) → p x ≡ true → q x ≡ true)
    → (xs : List A) → exists_row p xs ≡ true
    → exists_row q xs ≡ true
exists_row_mono p q f [] h = absurd (false≢true h)
exists_row_mono p q f (x ∷ xs) h = elim (Bool-cases (p x)) [
  | inl e ↦ rw (f x e)
  | inr e ↦ ground (arith, exists_row_mono p q f xs (rw e at h))
]

pub exists_row-where_rows {ℓ} :
    {A : Type ℓ} (p q : A → Bool) (xs : List A)
    → exists_row q (where_rows p xs) ≡ exists_row (λ x. p x && q x) xs
exists_row-where_rows p q [] = refl
exists_row-where_rows p q (x ∷ xs) = ground (arith, exists_row-where_rows p q xs)

exists_row-insert_by {ℓ} :
    {A : Type ℓ} (q : A → Bool) (key : A → ℕ) (x : A) (xs : List A)
    → exists_row q (insert_by key x xs) ≡ (q x || exists_row q xs)
exists_row-insert_by q key x [] = ground arith
exists_row-insert_by q key x (y ∷ ys) = ground (arith, exists_row-insert_by q key x ys)

-- Sorting keeps the rows.
pub exists_row-order_by {ℓ} :
    {A : Type ℓ} (q : A → Bool) (key : A → ℕ) (xs : List A)
    → exists_row q (order_by key xs) ≡ exists_row q xs
exists_row-order_by q key [] = refl
exists_row-order_by q key (x ∷ xs) =
    ground (arith, exists_row-insert_by q key x (order_by key xs), exists_row-order_by q key xs)

pub exists_row-take {ℓ} :
    {A : Type ℓ} (q : A → Bool) (n : ℕ) (xs : List A)
    → exists_row q (take n xs) ≡ true
    → exists_row q xs ≡ true
exists_row-take q zero xs h = absurd (false≢true h)
exists_row-take q (suc n) [] h = h
exists_row-take q (suc n) (x ∷ xs) h = ground (arith, exists_row-take q n xs)

pub exists_row-append {ℓ} :
    {A : Type ℓ} (p : A → Bool) (xs ys : List A)
    → exists_row p (xs ++ ys) ≡ (exists_row p xs || exists_row p ys)
exists_row-append p [] ys = refl
exists_row-append p (x ∷ xs) ys = ground (arith, exists_row-append p xs ys)

-- A row that is there stays there.
pub exists_row-grows {ℓ} :
    {A : Type ℓ} (p : A → Bool) (xs ys : List A)
    → exists_row p xs ≡ true
    → exists_row p (xs ++ ys) ≡ true
exists_row-grows p xs ys h = rw (exists_row-append p xs ys) (rw h refl)

pub length-where_rows-le {ℓ} :
    {A : Type ℓ} (p : A → Bool) (xs : List A) → length (where_rows p xs) ≤ length xs
length-where_rows-le p [] = omega arith
length-where_rows-le p (x ∷ xs) = ground (arith, length-where_rows-le p xs)
