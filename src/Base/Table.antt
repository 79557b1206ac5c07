-- ===== src/Base/Table.antt =====
-- Tables as lists of rows: what WHERE, UPDATE … WHERE, DELETE … WHERE and ORDER BY do to them.
-- `ORDER BY` leaves the order of ties open; here ties keep the order of the rows, as
-- `Array.prototype.sort` does.
use Prim.Native.Nat.{ℕ, zero, suc, ◌≤◌}
use mathlib.Core.Path.{◌≡◌, refl, ap, ◌∙◌}
use mathlib.Core.Logic.{inl, inr}
use mathlib.Core.Bool.{Bool, true, not, ◌||◌}
use mathlib.Core.List.{List, [], ◌∷◌, ◌++◌}
use native.Mathlib.Omega.{arith}
use simple_rss_notifications.Base.Tests.{leb, if◌then◌else◌, Bool-cases}
use simple_rss_notifications.Base.Lists.{length, take, any, All}

module _ {ℓ} {A : Type ℓ} where
  -- The rows for which the test holds.
  unfoldable pub select : (A → Bool) → List A → List A
  select p [] = []
  select p (x ∷ xs) = if p x then x ∷ select p xs else select p xs

  unfoldable pub update : (A → Bool) → (A → A) → List A → List A
  update p f [] = []
  update p f (x ∷ xs) = (if p x then f x else x) ∷ update p f xs

  unfoldable pub delete : (A → Bool) → List A → List A
  unfolding select
  delete p xs = select (λ x. not (p x)) xs

  unfoldable pub insert_by : (A → ℕ) → A → List A → List A
  insert_by key x [] = x ∷ []
  insert_by key x (y ∷ ys) = if leb (key x) (key y) then x ∷ y ∷ ys else y ∷ insert_by key x ys

  unfoldable pub order_by : (A → ℕ) → List A → List A
  unfolding insert_by
  order_by key [] = []
  order_by key (x ∷ xs) = insert_by key x (order_by key xs)

module _ {ℓ} {A : Type ℓ} where
  pub length-select-le : (p : A → Bool) (xs : List A) → length (select p xs) ≤ length xs
  unfolding select
  length-select-le p [] = omega arith
  length-select-le p (x ∷ xs) = ground (arith, length-select-le p xs)

  pub length-update : (p : A → Bool) (f : A → A) (xs : List A) → length (update p f xs) ≡ length xs
  unfolding update
  length-update p f [] = refl
  length-update p f (x ∷ xs) = ap suc (length-update p f xs)

  length-insert_by :
      (key : A → ℕ) (x : A) (xs : List A) → length (insert_by key x xs) ≡ suc (length xs)
  unfolding insert_by
  length-insert_by key x [] = refl
  length-insert_by key x (y ∷ ys) = ground (arith, length-insert_by key x ys)

  pub length-order_by : (key : A → ℕ) (xs : List A) → length (order_by key xs) ≡ length xs
  unfolding order_by
  length-order_by key [] = refl
  length-order_by key (x ∷ xs) =
      omega (arith, length-insert_by key x (order_by key xs), length-order_by key xs)

  -- Selecting commutes with appending.
  pub select-append :
      (p : A → Bool) (xs ys : List A) → select p (xs ++ ys) ≡ select p xs ++ select p ys
  unfolding select
  select-append p [] ys = refl
  select-append p (x ∷ xs) ys = ground (arith, select-append p xs ys)

  pub select-All : (p : A → Bool) (xs : List A) → All (λ x. p x ≡ true) (select p xs)
  unfolding select
  select-All p [] = tt
  select-All p (x ∷ xs) = ground (arith, select-All p xs)

module _ {ℓ κ} {A : Type ℓ} (P : A → Type κ) where
  pub All-select : (p : A → Bool) (xs : List A) → All P xs → All P (select p xs)
  unfolding select
  All-select p [] h = tt
  All-select p (x ∷ xs) h = ground (arith, All-select p xs)

  pub All-update :
      (p : A → Bool) (f : A → A) (xs : List A)
      → ((x : A) → p x ≡ true → P x → P (f x))
      → All P xs
      → All P (update p f xs)
  unfolding update
  All-update p f [] step h = tt
  All-update p f (x ∷ xs) step h = ground (arith, step x, All-update p f xs step)

  pub All-update_each :
      (p : A → Bool) (f : A → A) (xs : List A)
      → All (λ x. P (if p x then f x else x)) xs
      → All P (update p f xs)
  unfolding update
  All-update_each p f [] h = tt
  All-update_each p f (x ∷ xs) h = (h.0, All-update_each p f xs h.1)

  All-insert_by : (key : A → ℕ) (x : A) (xs : List A) → P x → All P xs → All P (insert_by key x xs)
  unfolding insert_by
  All-insert_by key x [] p h = (p, tt)
  All-insert_by key x (y ∷ ys) p h = ground (arith, All-insert_by key x ys p)

  pub All-order_by : (key : A → ℕ) (xs : List A) → All P xs → All P (order_by key xs)
  unfolding order_by
  All-order_by key [] h = tt
  All-order_by key (x ∷ xs) h = All-insert_by key x (order_by key xs) h.0 (All-order_by key xs h.1)

  All-of_insert_by :
      (key : A → ℕ) (x : A) (xs : List A) → All P (insert_by key x xs) → P x × All P xs
  unfolding insert_by
  All-of_insert_by key x [] h = h
  All-of_insert_by key x (y ∷ ys) h = ground (arith, All-of_insert_by key x ys)

  pub All-of_order_by : (key : A → ℕ) (xs : List A) → All P (order_by key xs) → All P xs
  unfolding order_by
  All-of_order_by key [] h = tt
  All-of_order_by key (x ∷ xs) h =
      let (here, rest) = All-of_insert_by key x (order_by key xs) h in
      (here, All-of_order_by key xs rest)

  pub All-of_select :
      (p : A → Bool) (xs : List A) → All P (select p xs) → All (λ x. p x ≡ true → P x) xs
  unfolding select
  All-of_select p [] h = tt
  All-of_select p (x ∷ xs) h = elim (Bool-cases (p x)) [
    | inl e ↦ let h' = rw e at h in (λ _. h'.0, All-of_select p xs h'.1)
    | inr e ↦ (λ e'. absurd (ground arith), All-of_select p xs (rw e at h))
  ]

-- In the order of a key.
module _ {ℓ} {A : Type ℓ} (key : A → ℕ) where
  abbrev pub IsOrdered : List A → Type 0
  IsOrdered [] = Unit
  IsOrdered (x ∷ xs) = All (λ y. key x ≤ key y) xs × IsOrdered xs

  All-le_trans : (m n : ℕ) (xs : List A) → m ≤ n → All (λ y. n ≤ key y) xs → All (λ y. m ≤ key y) xs
  All-le_trans m n [] h a = tt
  All-le_trans m n (x ∷ xs) h a = (omega arith, All-le_trans m n xs h a.1)

  insert_by-IsOrdered : (x : A) (xs : List A) → IsOrdered xs → IsOrdered (insert_by key x xs)
  unfolding insert_by
  insert_by-IsOrdered x [] h = (tt, tt)
  insert_by-IsOrdered x (y ∷ ys) h = ground (
    arith,
    insert_by-IsOrdered x ys h.1,
    All-le_trans (key x) (key y) ys,
    All-insert_by (λ z. key y ≤ key z) key x ys,
  )

  pub order_by-IsOrdered : (xs : List A) → IsOrdered (order_by key xs)
  unfolding order_by
  order_by-IsOrdered [] = tt
  order_by-IsOrdered (x ∷ xs) = insert_by-IsOrdered x (order_by key xs) (order_by-IsOrdered xs)

-- Ordering a table keeps its rows.
module _ {ℓ} {A : Type ℓ} (p : A → Bool) (key : A → ℕ) where
  any-insert_by : (x : A) (xs : List A) → any p (insert_by key x xs) ≡ (p x || any p xs)
  unfolding insert_by
  any-insert_by x [] = refl
  any-insert_by x (y ∷ ys) = ground (arith, any-insert_by x ys)

  pub any-order_by : (xs : List A) → any p (order_by key xs) ≡ any p xs
  unfolding order_by
  any-order_by [] = refl
  any-order_by (x ∷ xs) = ground (arith, any-insert_by x (order_by key xs), any-order_by xs)

  length-select-insert_by :
      (x : A) (xs : List A) → length (select p (insert_by key x xs)) ≡ length (select p (x ∷ xs))
  unfolding insert_by select
  length-select-insert_by x [] = refl
  length-select-insert_by x (y ∷ ys) = ground (arith, length-select-insert_by x ys)

  pub length-select-order_by :
      (xs : List A) → length (select p (order_by key xs)) ≡ length (select p xs)
  unfolding order_by select
  length-select-order_by [] = refl
  length-select-order_by (x ∷ xs) =
      length-select-insert_by x (order_by key xs)
      ∙ unfold select in ground (arith, length-select-order_by xs)

-- Fewer rows, no row more often.
module _ {ℓ} {A : Type ℓ} (p : A → Bool) where
  pub length-select-take :
      (n : ℕ) (xs : List A) → length (select p (take n xs)) ≤ length (select p xs)
  unfolding select
  length-select-take zero xs = omega arith
  length-select-take (suc n) [] = omega arith
  length-select-take (suc n) (x ∷ xs) = ground (arith, length-select-take n xs)

  pub length-select-select :
      (q : A → Bool) (xs : List A) → length (select p (select q xs)) ≤ length (select p xs)
  unfolding select
  length-select-select q [] = omega arith
  length-select-select q (x ∷ xs) = ground (arith, length-select-select q xs)
