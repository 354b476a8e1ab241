-- ===== src/Prelude/Walk.antt =====
-- A list that is handed out in pages: what a page must promise, and what a client sees who follows
-- the cursors.
use Prim.Native.Nat.{ℕ, zero, suc, ◌≤◌, ◌<◌}
use mathlib.Core.Path.{◌≡◌, refl, ◌∙◌}
use mathlib.Core.Logic.{◌≢◌, inl, inr}
use mathlib.Core.Option.{Option, none, some}
use mathlib.Core.List.{List, [], ◌∷◌, ◌++◌}
use native.Mathlib.Omega.{arith}
use ledger_pro.Prelude.Tests.{Option-cases}
use ledger_pro.Prelude.Lists.{length, take, drop, take-append-drop}

-- `page n c` is the page of `n` rows at the cursor `c`, with the cursor of the next one. `rest c`
-- is all that is to come.
pub record Paged (Row Cursor : Type 0) (IsCursor : Cursor → Type 0) : Type 0 where
  pub page : ℕ → Cursor → List Row × Option Cursor
  pub rest : Cursor → List Row
  pub page_rows :
      (n : ℕ) (c : Cursor) → 1 ≤ n → n ≤ 100 → IsCursor c → (page n c).0 ≡ take n (rest c)
  pub page_end :
      (n : ℕ) (c : Cursor) → 1 ≤ n → n ≤ 100 → IsCursor c → (page n c).1 ≡ none → rest c ≡ []
  pub page_next :
      (n : ℕ) (c : Cursor) (next : Cursor)
      → 1 ≤ n
      → n ≤ 100
      → IsCursor c
      → (page n c).1 ≡ some next
      → IsCursor next × (rest c ≢ []) × (rest next ≡ drop n (rest c))

length-drop-le : {A : Type 0} (n : ℕ) (xs : List A) → length (drop n xs) ≤ length xs
length-drop-le zero xs = omega arith
length-drop-le (suc n) [] = omega arith
length-drop-le (suc n) (x ∷ xs) = omega (arith, length-drop-le n xs)

take-nil : {A : Type 0} (n : ℕ) → take {A = A} n [] ≡ []
take-nil zero = refl
take-nil (suc n) = refl

length-drop-lt :
    {A : Type 0} (n : ℕ) (xs : List A) → 1 ≤ n → xs ≢ [] → length (drop n xs) < length xs
length-drop-lt zero xs h ne = absurd (omega (arith, h))
length-drop-lt (suc n) [] h ne = absurd (ne refl)
length-drop-lt (suc n) (x ∷ xs) h ne = omega (arith, length-drop-le n xs)

-- The client asks for a page, keeps its rows, and goes on while there is a cursor.
abbrev pub walk :
    {Row Cursor : Type 0} → (ℕ → Cursor → List Row × Option Cursor) → ℕ → ℕ → Cursor → List Row
walk page zero n c = []
walk page (suc fuel) n c =
    let (rows, next) = page n c in elim next [ none ↦ rows | some c' ↦ rows ++ walk page fuel n c' ]

module _ {Row Cursor : Type 0} {IsCursor : Cursor → Type 0} (s : Paged Row Cursor IsCursor) where
  -- With enough fuel the client has seen the rest, each row once and in order.
  pub walk_complete :
      (fuel n : ℕ) (c : Cursor)
      → 1 ≤ n
      → n ≤ 100
      → IsCursor c
      → length (s.rest c) < fuel
      → walk s.page fuel n c ≡ s.rest c
  walk_complete zero n c lo hi ok fits = absurd (omega (arith, fits))
  walk_complete (suc fuel) n c lo hi ok fits = elim (Option-cases (s.page n c).1) [
    | inl e ↦ rw (e, walk) (s.page_rows n c lo hi ok ∙ rw (s.page_end n c lo hi ok e) (take-nil n))
    | inr (next, e) ↦
        let (ok', ne, behind) = s.page_next n c next lo hi ok e in
        let shorter = length-drop-lt n (s.rest c) lo ne in
        let ih = walk_complete fuel n next lo hi ok' (rw behind (omega (arith, shorter, fits))) in
        rw (e, walk)
          (rw (s.page_rows n c lo hi ok) (rw ih (rw behind (take-append-drop n (s.rest c)))))
  ]
