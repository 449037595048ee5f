-- ===== src/Common/Keys.antt =====
-- The interface of map keys: equality as the hash maps use it, and `operator<` as `std::map` does.
use Prim.Native.Nat.{ℕ}
use Prim.Native.String.{String, compare}
use text.Mathlib.Text.{◌==◌ as str_eq, is_lt}
use text.Mathlib.TextEquality.{eq_iff}
use mathlib.Core.Path.{◌≡◌, refl}
use mathlib.Core.Logic.{◌↔◌}
use mathlib.Core.Bool.{Bool, true, ◌&&◌, ◌||◌}
use native.Mathlib.Omega.{arith}
use crossdesk_server.Common.Tests.{ltb, nat_beq, nat_beq_iff}

pub record Key {ℓ} (A : Type ℓ) : Type ℓ where
  pub beq : A → A → Bool
  pub lt : A → A → Bool
  pub beq_iff : (a b : A) → (beq a b ≡ true) ↔ (a ≡ b)

infix 50 ◌==◌
abbrev pub ◌==◌ {ℓ} : {A : Type ℓ} ⦃e : Key A⦄ → A → A → Bool
◌==◌ ⦃e⦄ = e.beq

instance abbrev pub nat_key : Key ℕ
nat_key = record { beq = nat_beq; lt = ltb; beq_iff = nat_beq_iff }

instance abbrev pub string_key : Key String
string_key = record { beq = str_eq; lt = λ s t. is_lt (compare s t); beq_iff = eq_iff }

pub pair_beq_iff {ℓ κ} :
    {A : Type ℓ} {B : Type κ} ⦃e : Key A⦄ ⦃f : Key B⦄ (p q : A × B)
    → ((p.0 == q.0 && p.1 == q.1) ≡ true) ↔ (p ≡ q)
pair_beq_iff ⦃e⦄ ⦃f⦄ (a, b) (c, d) = ground (arith, e.beq_iff a c, f.beq_iff b d)

-- `std::pair` compares by its first member, then by its second.
instance abbrev pub pair_key {ℓ κ} : {A : Type ℓ} {B : Type κ} ⦃e : Key A⦄ ⦃f : Key B⦄ → Key (A × B)
pair_key ⦃e⦄ ⦃f⦄ = record {
  beq = λ p q. p.0 == q.0 && p.1 == q.1;
  lt = λ p q. e.lt p.0 q.0 || (p.0 == q.0 && f.lt p.1 q.1);
  beq_iff = pair_beq_iff;
}

pub ==_refl {ℓ} : {A : Type ℓ} ⦃e : Key A⦄ (a : A) → (a == a) ≡ true
==_refl ⦃e⦄ a = (e.beq_iff a a).1 refl
