-- ===== src/AuthLimiter/Bucket/Budget.antt =====
-- The invariant of one budget, and that each step of a verification keeps it.
use crossdesk_server.Common.{
  ℕ, ◌+◌, ◌-◌, ◌≤◌, ◌<◌, String, ◌≡◌, refl, sym, ap, Bool, true, false, ◌&&◌, Option, none, some,
  ◌==◌, if◌then◌else◌, length, string_key, nat_key, find, find-set, find-erase, find-revise, revise,
  set, erase, length-set, length-erase-le, length-revise-le, UniqueKeys, set-UniqueKeys,
  erase-UniqueKeys, revise-UniqueKeys, Bool-cases, ==_refl, inl, inr, arith,
}
use crossdesk_server.AuthLimiter.Bucket.{
  Failures, Buckets, Policy, Operation, max_entries, reset_expired, probe, probe_found, hold, held,
  is_full, finished, store_finished, finish, finish_found, prune, pruned, cleared,
}
use crossdesk_server.AuthLimiter.Bucket.Sound.{
  pending_of, IsSound, IsReady, reset_expired-IsSound, bucket_delay-IsReady, held-IsSound,
  finished-IsSound, pending-reset_expired, pending-finished,
}

-- `tally` is the number of verifications in flight for each key.
pub record IsBudget (limit : ℕ) (b : Buckets) (tally : String → ℕ) : Type 0 where
  pub counted : (k : String) → pending_of (find k b) ≡ tally k
  pub sound : (k : String) (f : Failures) → find k b ≡ some f → IsSound limit f
  pub unique : UniqueKeys b
  pub small : length b ≤ max_entries

abbrev pub grown : String → (String → ℕ) → String → ℕ
grown key tally k = (if key == k then 1 else 0) + tally k

abbrev pub shrunk : String → (String → ℕ) → String → ℕ
shrunk key tally k = tally k - (if key == k then 1 else 0)

module _ (limit : ℕ) (b : Buckets) (tally : String → ℕ) where
  pub prune-IsBudget : (now : ℕ) → IsBudget limit b tally → IsBudget limit (prune now b) tally
  unfolding prune
  prune-IsBudget now v = record {
    counted = λ k. ground (arith, find-revise (pruned now) k b v.unique, v.counted k);
    sound = λ k f h. ground (arith, find-revise (pruned now) k b v.unique, v.sound k f);
    unique = revise-UniqueKeys (pruned now) b v.unique;
    small = omega (arith, length-revise-le (pruned now) b, v.small);
  }

  pub cleared-IsBudget :
      (matches : String → Bool) (now : ℕ)
      → IsBudget limit b tally
      → IsBudget limit (revise (cleared matches now) b) tally
  unfolding cleared
  cleared-IsBudget matches now v = record {
    counted = λ k. ground (arith, find-revise (cleared matches now) k b v.unique, v.counted k);
    sound = λ k f h. cleared_sound k f (find k b) refl h;
    unique = revise-UniqueKeys (cleared matches now) b v.unique;
    small = omega (arith, length-revise-le (cleared matches now) b, v.small);
  }
    where
      cleared_sound :
          (k : String) (f : Failures) (o : Option Failures)
          → find k b ≡ o
          → find k (revise (cleared matches now) b) ≡ some f
          → IsSound limit f
      cleared_sound k f none e h = ground (arith, find-revise (cleared matches now) k b v.unique)
      cleared_sound k f (some g) e h =
          ground (arith, find-revise (cleared matches now) k b v.unique, v.sound k g e)

  -- Storing a sound bucket.
  store-IsBudget :
      (key : String) (g : Failures) (next : String → ℕ)
      → length (set key g b) ≤ max_entries
      → IsSound limit g
      → ((k : String) → next k ≡ (if key == k then g.pending else tally k))
      → IsBudget limit b tally
      → IsBudget limit (set key g b) next
  store-IsBudget key g next small s n v = record {
    counted = λ k. ground (arith, find-set key k g b, n k, v.counted k);
    sound = λ k h p. ground (arith, find-set key k g b, v.sound k h);
    unique = set-UniqueKeys key g b v.unique;
    small = small;
  }

  length-set_found :
      (key : String) (f g : Failures)
      → find key b ≡ some f
      → length b ≤ max_entries
      → length (set key g b) ≤ max_entries
  length-set_found key f g e h = ground (arith, length-set key g b)

  -- The number in flight under a key, and under one that equals it.
  tally_same : (key k : String) → (key == k) ≡ true → tally k ≡ tally key
  tally_same key k h = ap tally (sym ((string_key.beq_iff key k).0 h))

  pub probe-IsBudget :
      (now : ℕ) (key : String)
      → 0 < limit
      → IsBudget limit b tally
      → IsBudget limit (probe limit now key b).0 tally
  unfolding probe
  probe-IsBudget now key pos v = by_case (find key b) refl
    where
      by_case :
          (o : Option Failures)
          → find key b ≡ o
          → IsBudget limit (probe_found limit now key b o).0 tally
      by_case none e = v
      by_case (some f) e =
          store-IsBudget key (reset_expired now f) tally
            (length-set_found key f (reset_expired now f) e v.small)
            (reset_expired-IsSound limit now f pos (v.sound key f e))
            (λ k.
              ground
                (arith, pending-reset_expired now f, v.counted k, v.counted key, tally_same key k))
            v

  -- A probe that reports no delay leaves room for one more verification.
  pub probe-IsReady :
      (now : ℕ) (key : String)
      → 0 < limit
      → IsBudget limit b tally
      → (probe limit now key b).1 ≡ 0
      → IsReady limit (find key (probe limit now key b).0)
  unfolding probe
  probe-IsReady now key pos v d = by_case (find key b) refl d
    where
      by_case :
          (o : Option Failures)
          → find key b ≡ o
          → (probe_found limit now key b o).1 ≡ 0
          → IsReady limit (find key (probe_found limit now key b o).0)
      by_case none e d = rw e tt
      by_case (some f) e d =
          rw (find-set key key (reset_expired now f) b, ==_refl key)
            (bucket_delay-IsReady limit now (reset_expired now f) pos d
              (reset_expired-IsSound limit now f pos (v.sound key f e)))

  pub hold-IsBudget :
      (now : ℕ) (key : String)
      → 0 < limit
      → IsReady limit (find key b)
      → is_full key b ≡ false
      → IsBudget limit b tally
      → IsBudget limit (hold now key b) (grown key tally)
  unfolding hold is_full
  hold-IsBudget now key pos ready free v = by_case (find key b) refl ready
    where
      by_case :
          (o : Option Failures)
          → find key b ≡ o
          → IsReady limit o
          → IsBudget limit (set key (held now o) b) (grown key tally)
      by_case none e ready =
          store-IsBudget key (held now none) (grown key tally)
            (ground (arith, length-set key (held now none) b)) (ground arith)
            (λ k. ground (arith, v.counted key, tally_same key k)) v
      by_case (some f) e ready =
          store-IsBudget key (held now (some f)) (grown key tally)
            (length-set_found key f (held now (some f)) e v.small)
            (held-IsSound limit now f pos ready (v.sound key f e))
            (λ k. ground (arith, v.counted key, tally_same key k)) v

  erase-IsBudget :
      (key : String) (next : String → ℕ)
      → ((k : String) → next k ≡ (if key == k then 0 else tally k))
      → IsBudget limit b tally
      → IsBudget limit (erase key b) next
  erase-IsBudget key next n v = record {
    counted = λ k. ground (arith, find-erase key k b, n k, v.counted k);
    sound = λ k h p. ground (arith, find-erase key k b, v.sound k h);
    unique = erase-UniqueKeys key b v.unique;
    small = omega (arith, length-erase-le key b, v.small);
  }

  store_finished-IsBudget :
      (key : String) (f g : Failures)
      → find key b ≡ some f
      → IsSound limit g
      → g.pending ≡ tally key - 1
      → IsBudget limit b tally
      → IsBudget limit (store_finished key g b) (shrunk key tally)
  unfolding store_finished
  store_finished-IsBudget key f g e s p v = elim (Bool-cases (g.count == 0 && g.pending == 0)) [
    | inl t ↦ rw t (erase-IsBudget key (shrunk key tally) (λ k. ground (arith, tally_same key k)) v)
    | inr t ↦ rw t (
        store-IsBudget key g (shrunk key tally) (length-set_found key f g e v.small) s
          (λ k. ground (arith, tally_same key k)) v)
  ]

  -- `buckets.at(key)` finds the bucket of a verification that is in flight, and gives its slot back.
  pub finish-IsBudget :
      (policy : Policy) (now generation : ℕ) (passed : Bool) (op : Operation) (key : String)
      → 0 < limit
      → 0 < tally key
      → IsBudget limit b tally
      → (b' : Buckets) × (finish policy limit now generation passed op key b ≡ some b')
        × IsBudget limit b' (shrunk key tally)
  unfolding finish
  finish-IsBudget policy now generation passed op key pos used v = by_case (find key b) refl
    where
      by_case :
          (o : Option Failures)
          → find key b ≡ o
          → (b' : Buckets) × (finish_found policy limit now generation passed op key b o ≡ some b')
            × IsBudget limit b' (shrunk key tally)
      by_case none e = absurd (ground (arith, v.counted key))
      by_case (some f) e =
          stored (finished policy limit now generation passed op f)
            (finished-IsSound limit now f policy generation passed op pos (v.sound key f e)
              (ground (arith, v.counted key)))
            (ground
              (arith, v.counted key, pending-finished policy limit now generation passed op f))
        where
          stored :
              (g : Failures)
              → IsSound limit g
              → g.pending ≡ tally key - 1
              → (b' : Buckets) × (some (store_finished key g b) ≡ some b')
                × IsBudget limit b' (shrunk key tally)
          stored g s p = (store_finished key g b, refl, store_finished-IsBudget key f g e s p v)
