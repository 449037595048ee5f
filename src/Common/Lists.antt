-- ===== src/Common/Lists.antt =====
-- Lists measured by native numbers, and the standard algorithms on vectors and sets.
use Prim.Native.Nat.{ℕ, suc, ◌+◌, ◌≤◌}
use mathlib.Core.Path.{◌≡◌, refl}
use mathlib.Core.Bool.{Bool, true, false, not, ◌&&◌, ◌||◌}
use mathlib.Core.List.{List, [], ◌∷◌, ◌++◌}
use native.Mathlib.Omega.{arith}
use crossdesk_server.Common.Tests.{if◌then◌else◌}
use crossdesk_server.Common.Keys.{Key, ◌==◌}

module _ {ℓ} {A : Type ℓ} where
  abbrev pub length : List A → ℕ
  length [] = 0
  length (x ∷ xs) = suc (length xs)

  pub length-append : (xs ys : List A) → length (xs ++ ys) ≡ length xs + length ys
  length-append [] ys = omega arith
  length-append (x ∷ xs) ys = omega (arith, length-append xs ys)

  abbrev pub is_empty : List A → Bool
  is_empty [] = true
  is_empty (x ∷ xs) = false

  pub is_empty-append : (xs : List A) (x : A) → is_empty (xs ++ x ∷ []) ≡ false
  is_empty-append [] x = refl
  is_empty-append (y ∷ xs) x = refl

  -- The entries that pass a test, in order.
  unfoldable pub keep : (A → Bool) → List A → List A
  keep p [] = []
  keep p (x ∷ xs) = let rest = keep p xs in if p x then x ∷ rest else rest

  pub length-keep-le : (p : A → Bool) (xs : List A) → length (keep p xs) ≤ length xs
  unfolding keep
  length-keep-le p [] = omega arith
  length-keep-le p (x ∷ xs) = ground (arith, length-keep-le p xs)

  -- std::count_if
  unfoldable pub count_if : (A → Bool) → List A → ℕ
  count_if p [] = 0
  count_if p (x ∷ xs) = (if p x then 1 else 0) + count_if p xs

  pub count_if-append :
      (p : A → Bool) (xs ys : List A) → count_if p (xs ++ ys) ≡ count_if p xs + count_if p ys
  unfolding count_if
  count_if-append p [] ys = omega arith
  count_if-append p (x ∷ xs) ys = omega (arith, count_if-append p xs ys)

module _ {ℓ} {A : Type ℓ} ⦃e : Key A⦄ where
  -- std::find(...) != end()
  unfoldable pub contains : List A → A → Bool
  contains [] a = false
  contains (x ∷ xs) a = x == a || contains xs a

  -- erase(std::remove(begin, end, a), end)
  unfoldable pub remove : A → List A → List A
  remove a [] = []
  remove a (x ∷ xs) = let rest = remove a xs in if x == a then rest else x ∷ rest

  -- std::set::insert
  unfoldable pub insert_set : A → List A → List A
  insert_set a xs = if contains xs a then xs else xs ++ a ∷ []

  pub contains-append :
      (xs : List A) (x a : A) → contains (xs ++ x ∷ []) a ≡ (contains xs a || x == a)
  unfolding contains
  contains-append [] x a = ground arith
  contains-append (y ∷ xs) x a = ground (arith, contains-append xs x a)

  pub contains-remove :
      (b : A) (xs : List A) (a : A) → contains (remove b xs) a ≡ (not (b == a) && contains xs a)
  unfolding contains remove
  contains-remove b [] a = ground arith
  contains-remove b (x ∷ xs) a =
      ground (arith, contains-remove b xs a, e.beq_iff x b, e.beq_iff x a, e.beq_iff b a)

  pub contains-insert_set :
      (b : A) (xs : List A) (a : A) → contains (insert_set b xs) a ≡ (b == a || contains xs a)
  unfolding insert_set
  contains-insert_set b xs a = ground (arith, contains-append xs b a, e.beq_iff b a)

  pub remove_absent : (b : A) (xs : List A) → contains xs b ≡ false → remove b xs ≡ xs
  unfolding contains remove
  remove_absent b [] h = refl
  remove_absent b (x ∷ xs) h = ground (arith, remove_absent b xs)

  pub is_empty-contains : (xs : List A) (a : A) → contains xs a ≡ true → is_empty xs ≡ false
  unfolding contains
  is_empty-contains [] a h = ground arith
  is_empty-contains (x ∷ xs) a h = refl

  -- No entry occurs twice.
  abbrev pub AllDistinct : List A → Type 0
  AllDistinct [] = Unit {0}
  AllDistinct (x ∷ xs) = (contains xs x ≡ false) × AllDistinct xs

  pub append-AllDistinct :
      (xs : List A) (x : A) → AllDistinct xs → contains xs x ≡ false → AllDistinct (xs ++ x ∷ [])
  unfolding contains
  append-AllDistinct [] x d h = ground arith
  append-AllDistinct (y ∷ xs) x d h =
      ground
        (arith, append-AllDistinct xs x d.1, contains-append xs x y, e.beq_iff y x, e.beq_iff x y)

  pub remove-AllDistinct : (b : A) (xs : List A) → AllDistinct xs → AllDistinct (remove b xs)
  unfolding remove
  remove-AllDistinct b [] d = tt
  remove-AllDistinct b (x ∷ xs) d =
      ground (arith, remove-AllDistinct b xs d.1, contains-remove b xs x)

  -- Removing an entry that occurs once shortens the list by one.
  pub length-remove :
      (b : A) (xs : List A)
      → AllDistinct xs
      → contains xs b ≡ true
      → length xs ≡ suc (length (remove b xs))
  unfolding contains remove
  length-remove b [] d h = ground arith
  length-remove b (x ∷ xs) d h =
      ground (arith, length-remove b xs d.1, remove_absent b xs, e.beq_iff x b)
