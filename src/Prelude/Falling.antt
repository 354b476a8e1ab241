-- ===== src/Prelude/Falling.antt =====
-- Reading a list with falling keys page by page, as ORDER BY … DESC with a cursor does.
use Prim.Native.Nat.{ℕ, zero, suc, ◌≤◌, ◌<◌}
use mathlib.Core.Path.{◌≡◌, refl, sym, ap, ◌∙◌}
use mathlib.Core.Bool.{Bool, true, false}
use mathlib.Core.Logic.{inl, inr}
use mathlib.Core.List.{List, [], ◌∷◌}
use native.Mathlib.Omega.{arith}
use ledger_pro.Prelude.Tests.{ltb, leb, ◌==◌, Bool-cases}
use ledger_pro.Prelude.Lists.{
  All, insert_by_desc, order_by_desc, take, drop, where_rows, exists_row,
}

module _ {ℓ} {A : Type ℓ} (key : A → ℕ) where
  -- Each key is below the one before it; the first is below `hi`.
  abbrev pub Falling : ℕ → List A → Type 0
  Falling hi [] = Unit
  Falling hi (x ∷ xs) = (key x < hi) × Falling (key x) xs

  -- No key occurs twice.
  abbrev pub DistinctKeys : List A → Type 0
  DistinctKeys [] = Unit
  DistinctKeys (x ∷ xs) = (exists_row (λ y. key y == key x) xs ≡ false) × DistinctKeys xs

  abbrev pub earlier : ℕ → A → Bool
  earlier c x = ltb (key x) c

  -- The key of the last row, or `c` where there is none.
  abbrev pub final_key : ℕ → List A → ℕ
  final_key c [] = c
  final_key c (x ∷ xs) = final_key (key x) xs

  pub Falling-weaken : (lo hi : ℕ) (xs : List A) → lo ≤ hi → Falling lo xs → Falling hi xs
  Falling-weaken lo hi [] le h = tt
  Falling-weaken lo hi (x ∷ xs) le h = (omega (arith, le, h.0), h.1)

  insert-Falling :
      (hi : ℕ) (x : A) (xs : List A)
      → key x < hi
      → exists_row (λ y. key y == key x) xs ≡ false
      → Falling hi xs
      → Falling hi (insert_by_desc key x xs)
  insert-Falling hi x [] lt new h = (lt, tt)
  insert-Falling hi x (y ∷ ys) lt new h = elim (Bool-cases (leb (key y) (key x))) [
    | inl e ↦ rw e (lt, (ground (arith, new, e), h.1))
    | inr e ↦ rw e (h.0, insert-Falling (key y) x ys (ground (arith, e)) (ground (arith, new)) h.1)
  ]

  exists_row-insert_by_desc :
      (q : A → Bool) (x : A) (xs : List A)
      → q x ≡ false
      → exists_row q xs ≡ false
      → exists_row q (insert_by_desc key x xs) ≡ false
  exists_row-insert_by_desc q x [] a h = ground arith
  exists_row-insert_by_desc q x (y ∷ ys) a h =
      ground (arith, a, h, exists_row-insert_by_desc q x ys a)

  exists_row-order_by_desc :
      (q : A → Bool) (xs : List A)
      → exists_row q xs ≡ false
      → exists_row q (order_by_desc key xs) ≡ false
  exists_row-order_by_desc q [] h = refl
  exists_row-order_by_desc q (x ∷ xs) h =
      exists_row-insert_by_desc q x (order_by_desc key xs) (ground (arith, h))
        (exists_row-order_by_desc q xs (ground (arith, h)))

  -- Sorting rows with distinct keys.
  pub order_by_desc-Falling :
      (hi : ℕ) (xs : List A)
      → DistinctKeys xs
      → All (λ x. key x < hi) xs
      → Falling hi (order_by_desc key xs)
  order_by_desc-Falling hi [] d h = tt
  order_by_desc-Falling hi (x ∷ xs) d h =
      insert-Falling hi x (order_by_desc key xs) h.0
        (exists_row-order_by_desc (λ y. key y == key x) xs d.0)
        (order_by_desc-Falling hi xs d.1 h.1)

  insert-first : (x : A) (xs : List A) → Falling (key x) xs → insert_by_desc key x xs ≡ x ∷ xs
  insert-first x [] h = refl
  insert-first x (y ∷ ys) h = ground (arith, h.0)

  where_rows-Falling :
      (p : A → Bool) (hi : ℕ) (xs : List A) → Falling hi xs → Falling hi (where_rows p xs)
  where_rows-Falling p hi [] h = tt
  where_rows-Falling p hi (x ∷ xs) h = elim (Bool-cases (p x)) [
    | inl e ↦ rw e (h.0, where_rows-Falling p (key x) xs h.1)
    | inr e ↦
        rw e
          (Falling-weaken (key x) hi _ (omega (arith, h.0)) (where_rows-Falling p (key x) xs h.1))
  ]

  insert-where_rows :
      (p : A → Bool) (hi : ℕ) (x : A) (xs : List A)
      → p x ≡ true
      → exists_row (λ y. key y == key x) xs ≡ false
      → Falling hi xs
      → insert_by_desc key x (where_rows p xs) ≡ where_rows p (insert_by_desc key x xs)
  insert-where_rows p hi x [] px new h = rw px refl
  insert-where_rows p hi x (y ∷ ys) px new h = elim (Bool-cases (leb (key y) (key x))) [
    | inl e ↦
        let below : Falling (key x) (y ∷ ys) = (ground (arith, new, e), h.1) in
        rw e (
          rw px
            (insert-first x (where_rows p (y ∷ ys)) (where_rows-Falling p (key x) (y ∷ ys) below)))
    | inr e ↦
        let ih = insert-where_rows p (key y) x ys px (ground (arith, new)) h.1 in
        elim (Bool-cases (p y)) [
          | inl f ↦ rw f (rw e (rw f (ap (λ r. y ∷ r) ih)))
          | inr f ↦ rw f (rw e (rw f ih))
        ]
  ]

  insert-dropped :
      (p : A → Bool) (x : A) (xs : List A)
      → p x ≡ false
      → where_rows p (insert_by_desc key x xs) ≡ where_rows p xs
  insert-dropped p x [] px = rw px refl
  insert-dropped p x (y ∷ ys) px = elim (Bool-cases (leb (key y) (key x))) [
    | inl e ↦ rw e (rw px refl)
    | inr e ↦ rw e (elim (Bool-cases (p y)) [
      | inl f ↦ rw f (ap (λ r. y ∷ r) (insert-dropped p x ys px))
      | inr f ↦ rw f (insert-dropped p x ys px)
    ])
  ]

  -- WHERE and ORDER BY commute.
  pub order_by_desc-where_rows :
      (p : A → Bool) (hi : ℕ) (xs : List A)
      → DistinctKeys xs
      → All (λ x. key x < hi) xs
      → order_by_desc key (where_rows p xs) ≡ where_rows p (order_by_desc key xs)
  order_by_desc-where_rows p hi [] d h = refl
  order_by_desc-where_rows p hi (x ∷ xs) d h =
      let ih = order_by_desc-where_rows p hi xs d.1 h.1 in
      elim (Bool-cases (p x)) [
        | inl e ↦ rw e (
            rw ih (
              insert-where_rows p hi x (order_by_desc key xs) e
                (exists_row-order_by_desc (λ y. key y == key x) xs d.0)
                (order_by_desc-Falling hi xs d.1 h.1)))
        | inr e ↦ rw e (rw ih (sym (insert-dropped p x (order_by_desc key xs) e)))
      ]

  pub all_earlier :
      (c hi : ℕ) (xs : List A) → hi ≤ c → Falling hi xs → where_rows (earlier c) xs ≡ xs
  all_earlier c hi [] le h = refl
  all_earlier c hi (x ∷ xs) le h =
      ground (arith, le, h.0, all_earlier c (key x) xs (omega (arith, le, h.0)) h.1)

  earlier_again :
      (c d : ℕ) (xs : List A)
      → d ≤ c
      → where_rows (earlier d) (where_rows (earlier c) xs) ≡ where_rows (earlier d) xs
  earlier_again c d [] le = refl
  earlier_again c d (x ∷ xs) le = ground (arith, le, earlier_again c d xs le)

  where_rows-earlier-Falling :
      (c hi : ℕ) (xs : List A) → Falling hi xs → Falling c (where_rows (earlier c) xs)
  where_rows-earlier-Falling c hi [] h = tt
  where_rows-earlier-Falling c hi (x ∷ xs) h = elim (Bool-cases (earlier c x)) [
    | inl e ↦ rw e (ground (arith, e), where_rows-Falling (earlier c) (key x) xs h.1)
    | inr e ↦ rw e (where_rows-earlier-Falling c (key x) xs h.1)
  ]

  final_key-le : (n c : ℕ) (xs : List A) → Falling c xs → final_key c (take n xs) ≤ c
  final_key-le zero c xs h = omega arith
  final_key-le (suc n) c [] h = omega arith
  final_key-le (suc n) c (x ∷ xs) h = omega (arith, h.0, final_key-le n (key x) xs h.1)

  -- What is before the last row of a page is the list without the page.
  before_page :
      (n c : ℕ) (xs : List A)
      → Falling c xs
      → where_rows (earlier (final_key c (take n xs))) xs ≡ drop n xs
  before_page zero c xs h = all_earlier c c xs (omega arith) h
  before_page (suc n) c [] h = refl
  before_page (suc n) c (x ∷ xs) h =
      ground (arith, final_key-le n (key x) xs h.1, before_page n (key x) xs h.1)

  -- Where a page that is not empty leaves the reader.
  pub page_before :
      (m c hi : ℕ) (xs : List A) (z : A) (zs : List A)
      → Falling hi xs
      → where_rows (earlier c) xs ≡ z ∷ zs
      → where_rows (earlier (final_key (key z) (take m zs))) xs ≡ drop m zs
  page_before m c hi xs z zs h e =
      let falling = rw e at (where_rows-earlier-Falling c hi xs h) in
      let last = final_key-le m (key z) zs falling.1 in
      let again =
        earlier_again c (final_key (key z) (take m zs)) xs (omega (arith, last, falling.0)) in
      sym again ∙ rw e (before_page (suc m) c (z ∷ zs) falling)
