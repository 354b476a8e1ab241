-- ===== src/Prelude/Paging.antt =====
-- Reading a list with rising keys page by page: each page starts behind the last key of the page
-- before it.
use Prim.Native.Nat.{ℕ, zero, suc, ◌≤◌, ◌<◌}
use mathlib.Core.Path.{◌≡◌, refl, sym, ◌∙◌}
use mathlib.Core.Bool.{Bool}
use mathlib.Core.Logic.{◌⊎◌, inl, inr}
use mathlib.Core.List.{List, [], ◌∷◌}
use native.Mathlib.Omega.{arith}
use ledger_pro.Prelude.Tests.{ltb, Bool-cases}
use ledger_pro.Prelude.Lists.{take, drop, where_rows, Ascending}

-- Each key is above the one before it; the first is `lo` or above.
abbrev pub Rising {ℓ} : {A : Type ℓ} → (A → ℕ) → ℕ → List A → Type 0
Rising key lo [] = Unit
Rising key lo (x ∷ xs) = (lo ≤ key x) × Rising key (suc (key x)) xs

module _ {ℓ} {A : Type ℓ} (key : A → ℕ) where
  abbrev pub later : ℕ → A → Bool
  later c x = ltb c (key x)

  -- The key of the last row, or `c` where there is none.
  abbrev pub last_key : ℕ → List A → ℕ
  last_key c [] = c
  last_key c (x ∷ xs) = last_key (key x) xs

  Rising-suc : (lo : ℕ) (xs : List A) → Rising key (suc lo) xs → Ascending key lo xs
  Rising-suc lo [] h = tt
  Rising-suc lo (x ∷ xs) h = (omega (arith, h.0), Rising-suc (key x) xs h.1)

  pub Rising-Ascending : (lo : ℕ) (xs : List A) → Rising key lo xs → Ascending key lo xs
  Rising-Ascending lo [] h = tt
  Rising-Ascending lo (x ∷ xs) h = (h.0, Rising-suc (key x) xs h.1)

  pub Rising-weaken : (lo lo' : ℕ) (xs : List A) → lo' ≤ lo → Rising key lo xs → Rising key lo' xs
  Rising-weaken lo lo' [] le h = tt
  Rising-weaken lo lo' (x ∷ xs) le h = (omega (arith, le, h.0), h.1)

  pub where_rows-Rising :
      (p : A → Bool) (lo : ℕ) (xs : List A) → Rising key lo xs → Rising key lo (where_rows p xs)
  where_rows-Rising p lo [] h = tt
  where_rows-Rising p lo (x ∷ xs) h = elim (Bool-cases (p x)) [
    | inl e ↦ rw e (h.0, where_rows-Rising p (suc (key x)) xs h.1)
    | inr e ↦ rw e (
        Rising-weaken (suc (key x)) lo _ (omega (arith, h.0))
          (where_rows-Rising p (suc (key x)) xs h.1))
  ]

  -- A cursor below every key selects everything.
  pub all_later :
      (c lo : ℕ) (xs : List A) → c < lo → Rising key lo xs → where_rows (later c) xs ≡ xs
  all_later c lo [] lt h = refl
  all_later c lo (x ∷ xs) lt h =
      ground (arith, h.0, lt, all_later c (suc (key x)) xs (omega (arith, lt, h.0)) h.1)

  where_rows-later-Rising :
      (c lo : ℕ) (xs : List A) → Rising key lo xs → Rising key (suc c) (where_rows (later c) xs)
  where_rows-later-Rising c lo [] h = tt
  where_rows-later-Rising c lo (x ∷ xs) h = elim (Bool-cases (later c x)) [
    | inl e ↦ rw e (ground (arith, e), where_rows-Rising (later c) (suc (key x)) xs h.1)
    | inr e ↦ rw e (where_rows-later-Rising c (suc (key x)) xs h.1)
  ]

  -- A later cursor selects among the rows of an earlier one.
  pub later_again :
      (c d : ℕ) (xs : List A)
      → c ≤ d
      → where_rows (later d) (where_rows (later c) xs) ≡ where_rows (later d) xs
  later_again c d [] le = refl
  later_again c d (x ∷ xs) le = ground (arith, le, later_again c d xs le)

  le_last_key : (n c lo : ℕ) (xs : List A) → c < lo → Rising key lo xs → c ≤ last_key c (take n xs)
  le_last_key zero c lo xs lt h = omega arith
  le_last_key (suc n) c lo [] lt h = omega arith
  le_last_key (suc n) c lo (x ∷ xs) lt h =
      omega (arith, lt, h.0, le_last_key n (key x) (suc (key x)) xs (omega arith) h.1)

  -- What follows the last row of a page is the list without the page.
  after_page :
      (n c lo : ℕ) (xs : List A)
      → c < lo
      → Rising key lo xs
      → where_rows (later (last_key c (take n xs))) xs ≡ drop n xs
  after_page zero c lo xs lt h = all_later c lo xs lt h
  after_page (suc n) c lo [] lt h = refl
  after_page (suc n) c lo (x ∷ xs) lt h =
      let above = le_last_key n (key x) (suc (key x)) xs (omega arith) h.1 in
      let rest = after_page n (key x) (suc (key x)) xs (omega arith) h.1 in
      ground (arith, above, rest)

  pub List-cases : (xs : List A) → (xs ≡ []) ⊎ ((y : A) × (ys : List A) × (xs ≡ y ∷ ys))
  List-cases [] = inl refl
  List-cases (y ∷ ys) = inr (y, ys, refl)

  -- Where a page that is not empty leaves the reader.
  pub next_page :
      (m c lo : ℕ) (xs : List A) (z : A) (zs : List A)
      → Rising key lo xs
      → where_rows (later c) xs ≡ z ∷ zs
      → where_rows (later (last_key (key z) (take m zs))) xs ≡ drop m zs
  next_page m c lo xs z zs h e =
      let rising = rw e at (where_rows-later-Rising c lo xs h) in
      let past = le_last_key m (key z) (suc (key z)) zs (omega arith) rising.1 in
      let again = later_again c (last_key (key z) (take m zs)) xs (omega (arith, past, rising.0)) in
      let seen = after_page (suc m) c (suc c) (z ∷ zs) (omega arith) rising in
      sym again ∙ (rw e seen)
