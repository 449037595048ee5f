-- ===== src/Common/Maps.antt =====
-- `std::unordered_map` and `std::map` as association lists in iteration order.
use Prim.Native.Nat.{ℕ, suc, ◌≤◌, ◌<◌}
use mathlib.Core.Path.{◌≡◌, refl, ap}
use mathlib.Core.Bool.{true}
use mathlib.Core.Option.{Option, none, some}
use mathlib.Core.List.{List, [], ◌∷◌}
use native.Mathlib.Omega.{arith}
use crossdesk_server.Common.Tests.{if◌then◌else◌, is_some}
use crossdesk_server.Common.Keys.{Key, ◌==◌, nat_key}
use crossdesk_server.Common.Lists.{length}

abbrev pub Assoc {ℓ κ} : Type ℓ → Type κ → Type (ℓ ⊔ κ)
Assoc K V = List (K × V)

-- What becomes of an entry: `none` erases it.
abbrev pub keep_revised {ℓ κ} : {K : Type ℓ} {V : Type κ} → K → Option V → Assoc K V → Assoc K V
keep_revised k none m = m
keep_revised k (some v) m = (k, v) ∷ m

abbrev pub and_then {κ} : {V : Type κ} → Option V → (V → Option V) → Option V
and_then none f = none
and_then (some v) f = f v

module _ {ℓ κ} {K : Type ℓ} {V : Type κ} ⦃e : Key K⦄ where
  -- find, at, count
  unfoldable pub find : K → Assoc K V → Option V
  find k [] = none
  find k ((j, v) ∷ m) = if j == k then some v else find k m

  -- map[k] = v on an unordered map
  unfoldable pub set : K → V → Assoc K V → Assoc K V
  set k v [] = (k, v) ∷ []
  set k v ((j, w) ∷ m) = if j == k then (k, v) ∷ m else (j, w) ∷ set k v m

  -- map[k] = v on an ordered map: a new key goes before the first larger one
  unfoldable pub set_ordered : K → V → Assoc K V → Assoc K V
  set_ordered k v [] = (k, v) ∷ []
  set_ordered k v ((j, w) ∷ m) =
      if j == k
      then (k, v) ∷ m
      else if e.lt k j
      then (k, v) ∷ (j, w) ∷ m
      else (j, w) ∷ set_ordered k v m

  -- erase(k)
  unfoldable pub erase : K → Assoc K V → Assoc K V
  erase k [] = []
  erase k ((j, w) ∷ m) = let rest = erase k m in if j == k then rest else (j, w) ∷ rest

  -- the loop `if (...) it = erase(it); else { change it->second; ++it; }`
  unfoldable pub revise : (K → V → Option V) → Assoc K V → Assoc K V
  revise f [] = []
  revise f ((j, w) ∷ m) = keep_revised j (f j w) (revise f m)

  pub find-set :
      (k j : K) (v : V) (m : Assoc K V) → find j (set k v m) ≡ (if k == j then some v else find j m)
  unfolding find set
  find-set k j v [] = refl
  find-set k j v ((i, w) ∷ m) =
      ground (arith, find-set k j v m, e.beq_iff i k, e.beq_iff i j, e.beq_iff k j)

  pub find-set_ordered :
      (k j : K) (v : V) (m : Assoc K V)
      → find j (set_ordered k v m) ≡ (if k == j then some v else find j m)
  unfolding find set_ordered
  find-set_ordered k j v [] = refl
  find-set_ordered k j v ((i, w) ∷ m) =
      ground (arith, find-set_ordered k j v m, e.beq_iff i k, e.beq_iff i j, e.beq_iff k j)

  pub find-erase :
      (k j : K) (m : Assoc K V) → find j (erase k m) ≡ (if k == j then none else find j m)
  unfolding find erase
  find-erase k j [] = ground arith
  find-erase k j ((i, w) ∷ m) =
      ground (arith, find-erase k j m, e.beq_iff i k, e.beq_iff i j, e.beq_iff k j)

  pub erase_absent : (k : K) (m : Assoc K V) → find k m ≡ none → erase k m ≡ m
  unfolding find erase
  erase_absent k [] h = refl
  erase_absent k ((i, w) ∷ m) h = ground (arith, erase_absent k m)

  pub length-set :
      (k : K) (v : V) (m : Assoc K V)
      → length (set k v m) ≡ (if is_some (find k m) then length m else suc (length m))
  unfolding find set
  length-set k v [] = refl
  length-set k v ((i, w) ∷ m) = ground (arith, length-set k v m)

  pub length-erase-le : (k : K) (m : Assoc K V) → length (erase k m) ≤ length m
  unfolding erase
  length-erase-le k [] = omega arith
  length-erase-le k ((i, w) ∷ m) = ground (arith, length-erase-le k m)

  pub length-revise-le : (f : K → V → Option V) (m : Assoc K V) → length (revise f m) ≤ length m
  unfolding revise
  length-revise-le f [] = omega arith
  length-revise-le f ((i, w) ∷ m) = ground (arith, length-revise-le f m)

  -- Each key has one entry.
  abbrev pub UniqueKeys : Assoc K V → Type κ
  UniqueKeys [] = Unit
  UniqueKeys ((j, w) ∷ m) = (find j m ≡ none) × UniqueKeys m

  pub set-UniqueKeys : (k : K) (v : V) (m : Assoc K V) → UniqueKeys m → UniqueKeys (set k v m)
  unfolding set find
  set-UniqueKeys k v [] u = (refl, tt)
  set-UniqueKeys k v ((i, w) ∷ m) u =
      ground (arith, set-UniqueKeys k v m u.1, find-set k i v m, e.beq_iff i k, e.beq_iff k i)

  pub erase-UniqueKeys : (k : K) (m : Assoc K V) → UniqueKeys m → UniqueKeys (erase k m)
  unfolding erase
  erase-UniqueKeys k [] u = tt
  erase-UniqueKeys k ((i, w) ∷ m) u = ground (arith, erase-UniqueKeys k m u.1, find-erase k i m)

  find_same : (k i : K) (m : Assoc K V) → (i == k) ≡ true → find i m ≡ find k m
  find_same k i m h = ap (λ j. find j m) ((e.beq_iff i k).0 h)

  revised_same : (f : K → V → Option V) (k i : K) (w : V) → (i == k) ≡ true → f i w ≡ f k w
  revised_same f k i w h = ap (λ j. f j w) ((e.beq_iff i k).0 h)

  pub find-revise :
      (f : K → V → Option V) (k : K) (m : Assoc K V)
      → UniqueKeys m
      → find k (revise f m) ≡ and_then (find k m) (f k)
  unfolding find revise
  find-revise f k [] u = refl
  find-revise f k ((i, w) ∷ m) u =
      ground (arith, find-revise f k m u.1, revised_same f k i w, find_same k i m, e.beq_iff i k)

  pub revise-UniqueKeys :
      (f : K → V → Option V) (m : Assoc K V) → UniqueKeys m → UniqueKeys (revise f m)
  unfolding revise
  revise-UniqueKeys f [] u = tt
  revise-UniqueKeys f ((i, w) ∷ m) u =
      ground (arith, revise-UniqueKeys f m u.1, find-revise f i m u.1)

-- Maps whose keys are numbers, in increasing order.
module _ {κ} {V : Type κ} where
  abbrev pub AllAbove : ℕ → Assoc ℕ V → Type 0
  AllAbove k [] = Unit {0}
  AllAbove k ((j, w) ∷ m) = (k < j) × AllAbove k m

  abbrev pub AreIncreasing : Assoc ℕ V → Type 0
  AreIncreasing [] = Unit {0}
  AreIncreasing ((j, w) ∷ m) = AllAbove j m × AreIncreasing m

  AllAbove-trans : (k j : ℕ) (m : Assoc ℕ V) → k < j → AllAbove j m → AllAbove k m
  AllAbove-trans k j [] h a = tt
  AllAbove-trans k j ((i, w) ∷ m) h a = (omega arith, AllAbove-trans k j m h a.1)

  set_ordered-AllAbove :
      (b k : ℕ) (v : V) (m : Assoc ℕ V) → b < k → AllAbove b m → AllAbove b (set_ordered k v m)
  unfolding set_ordered
  set_ordered-AllAbove b k v [] h a = (h, tt)
  set_ordered-AllAbove b k v ((i, w) ∷ m) h a = ground (arith, set_ordered-AllAbove b k v m h a.1)

  pub set_ordered-AreIncreasing :
      (k : ℕ) (v : V) (m : Assoc ℕ V) → AreIncreasing m → AreIncreasing (set_ordered k v m)
  unfolding set_ordered
  set_ordered-AreIncreasing k v [] a = (tt, tt)
  set_ordered-AreIncreasing k v ((i, w) ∷ m) a = ground (
    arith,
    set_ordered-AreIncreasing k v m a.1,
    set_ordered-AllAbove i k v m,
    AllAbove-trans k i m,
  )

  erase-AllAbove : (b k : ℕ) (m : Assoc ℕ V) → AllAbove b m → AllAbove b (erase k m)
  unfolding erase
  erase-AllAbove b k [] a = tt
  erase-AllAbove b k ((i, w) ∷ m) a = ground (arith, erase-AllAbove b k m a.1)

  pub erase-AreIncreasing : (k : ℕ) (m : Assoc ℕ V) → AreIncreasing m → AreIncreasing (erase k m)
  unfolding erase
  erase-AreIncreasing k [] a = tt
  erase-AreIncreasing k ((i, w) ∷ m) a =
      ground (arith, erase-AreIncreasing k m a.1, erase-AllAbove i k m)

  pub find_below : (b : ℕ) (m : Assoc ℕ V) (k : ℕ) → AllAbove b m → k ≤ b → find k m ≡ none
  unfolding find
  find_below b [] k a h = refl
  find_below b ((i, w) ∷ m) k a h = ground (arith, find_below b m k a.1)

  pub AreIncreasing-UniqueKeys : (m : Assoc ℕ V) → AreIncreasing m → UniqueKeys m
  AreIncreasing-UniqueKeys [] a = tt
  AreIncreasing-UniqueKeys ((i, w) ∷ m) a =
      (find_below i m i a.0 (omega arith), AreIncreasing-UniqueKeys m a.1)

  pub length-set_ordered :
      (k : ℕ) (v : V) (m : Assoc ℕ V)
      → AreIncreasing m
      → length (set_ordered k v m) ≡ (if is_some (find k m) then length m else suc (length m))
  unfolding find set_ordered
  length-set_ordered k v [] a = refl
  length-set_ordered k v ((i, w) ∷ m) a =
      ground (arith, length-set_ordered k v m a.1, find_below i m k a.0)

  revise-AllAbove :
      (f : ℕ → V → Option V) (b : ℕ) (m : Assoc ℕ V) → AllAbove b m → AllAbove b (revise f m)
  unfolding revise
  revise-AllAbove f b [] a = tt
  revise-AllAbove f b ((i, w) ∷ m) a = ground (arith, revise-AllAbove f b m a.1)

  pub revise-AreIncreasing :
      (f : ℕ → V → Option V) (m : Assoc ℕ V) → AreIncreasing m → AreIncreasing (revise f m)
  unfolding revise
  revise-AreIncreasing f [] a = tt
  revise-AreIncreasing f ((i, w) ∷ m) a =
      ground (arith, revise-AreIncreasing f m a.1, revise-AllAbove f i m a.0)
