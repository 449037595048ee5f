-- ===== src/AuthLimiter/Work/Windows.antt =====
-- A source gets no more tokens in a window than the limit, and waiting as told is enough.
use crossdesk_server.Common.{
  ℕ, suc, ◌+◌, ◌*◌, ◌≤◌, ◌<◌, String, ◌≡◌, ◌⊎◌, ltb→lt, sym, subst, not, ◌&&◌, set, leb, length,
  true, false, some, List, [], ◌∷◌, ltb, ◌==◌, if◌then◌else◌, is_some, nat_key, string_key, find,
  find-set, find-revise, UniqueKeys, set-UniqueKeys, revise-UniqueKeys, Bool-cases, inl, inr, arith,
  ==_refl,
}
use crossdesk_server.AuthLimiter.Bucket.{second, max_entries}
use crossdesk_server.AuthLimiter.Verify.{source_key}
use crossdesk_server.AuthLimiter.Work.{
  WorkLimiter, Window, admit, admit_key, charge, cleanup, current_window, live_window, retry,
}

-- The tokens that a source gets in a sequence of calls by any sources.
unfoldable pub granted : String → WorkLimiter → List (ℕ × String) → ℕ
granted key l [] = 0
granted key l ((now, source) ∷ calls) =
    (if source_key source == key then (if (admit l now source).1 == 0 then 1 else 0) else 0)
    + granted key (admit l now source).0 calls

pub run : WorkLimiter → List (ℕ × String) → WorkLimiter
run l [] = l
run l ((now, source) ∷ calls) = run (admit l now source).0 calls

-- The calls are earlier than a deadline.
abbrev pub AllBefore : ℕ → List (ℕ × String) → Type 0
AllBefore deadline [] = Unit {0}
AllBefore deadline ((now, source) ∷ calls) = (now < deadline) × AllBefore deadline calls

-- A window of `key` that is open until `deadline`, with `n` tokens gone.
pub record IsOpen (key : String) (deadline n : ℕ) (l : WorkLimiter) : Type 0 where
  pub found : find key l.sources ≡ some (record { count = n; expires = deadline })
  pub within : n ≤ l.source_limit
  pub unique : UniqueKeys l.sources

module _ (key : String) (deadline n now : ℕ) (l : WorkLimiter) (early : now < deadline) where
  cleanup-IsOpen : IsOpen key deadline n l → IsOpen key deadline n (cleanup l now)
  unfolding cleanup live_window
  cleanup-IsOpen o = elim (Bool-cases (leb l.next_cleanup now)) [
    | inl e ↦ rw e (record {
      found = rw (find-revise (live_window now) key l.sources o.unique, o.found) (ground arith);
      within = o.within;
      unique = revise-UniqueKeys (live_window now) l.sources o.unique;
    })
    | inr e ↦ rw e o
  ]

  store-IsOpen :
      (m : ℕ)
      → m ≤ l.source_limit
      → IsOpen key deadline n l
      → IsOpen key deadline m
          (record l { sources = set key (record { count = m; expires = deadline }) l.sources })
  store-IsOpen m h o = record {
    found = rw (find-set key key (record { count = m; expires = deadline }) l.sources, ==_refl key);
    within = h;
    unique = set-UniqueKeys key (record { count = m; expires = deadline }) l.sources o.unique;
  }

  charge_self :
      IsOpen key deadline n l
      → let r = charge l now key (record { count = n; expires = deadline }) in
        IsOpen key deadline (n + (if r.1 == 0 then 1 else 0)) r.0
  unfolding charge
  charge_self o =
      elim (Bool-cases
        (ltb 0 (retry l.source_limit now (record { count = n; expires = deadline })))) [
          | inl e ↦ rw e (
              subst
                (λ k. IsOpen key deadline k (record l {
                  sources = set key (record { count = n; expires = deadline }) l.sources;
                }))
                (ground arith) (store-IsOpen n o.within o))
          | inr e ↦ rw e (
              subst
                (λ k. IsOpen key deadline k (record l {
                  sources = set key (record { count = suc n; expires = deadline }) l.sources;
                }))
                (omega arith) (store-IsOpen (suc n) (unfold retry in ground arith) o))
        ]

  admit_key_self :
      IsOpen key deadline n l
      → IsOpen key deadline
          (n + (if (admit_key l now key).1 == 0 then 1 else 0))
          (admit_key l now key).0
  unfolding admit_key
  admit_key_self o = rw (o.found, current_window_open) (charge_self o)
    where
      current_window_open :
          current_window now (some (record { count = n; expires = deadline }))
          ≡ record { count = n; expires = deadline }
      current_window_open = unfold current_window in ground arith

  admit_key_same :
      (k : String)
      → (k == key) ≡ true
      → IsOpen key deadline n l
      → IsOpen key deadline
          (n + (if (admit_key l now k).1 == 0 then 1 else 0))
          (admit_key l now k).0
  admit_key_same k h o =
      subst
        (λ j.
          IsOpen key deadline (n + (if (admit_key l now j).1 == 0 then 1 else 0))
            (admit_key l now j).0)
        (sym ((string_key.beq_iff k key).0 h)) (admit_key_self o)

  set_other-IsOpen :
      (k : String) (w : Window)
      → (k == key) ≡ false
      → IsOpen key deadline n l
      → IsOpen key deadline n (record l { sources = set k w l.sources })
  set_other-IsOpen k w d o = record {
    found = rw (find-set k key w l.sources, d) o.found;
    within = o.within;
    unique = set-UniqueKeys k w l.sources o.unique;
  }

  charge_other :
      (k : String) (w : Window)
      → (k == key) ≡ false
      → IsOpen key deadline n l
      → IsOpen key deadline n (charge l now k w).0
  unfolding charge
  charge_other k w d o = elim (Bool-cases (ltb 0 (retry l.source_limit now w))) [
    | inl e ↦ rw e (set_other-IsOpen k w d o)
    | inr e ↦ rw e (set_other-IsOpen k (record w { count = suc w.count }) d o)
  ]

  admit_key_other :
      (k : String)
      → (k == key) ≡ false
      → IsOpen key deadline n l
      → IsOpen key deadline n (admit_key l now k).0
  unfolding admit_key
  admit_key_other k d o =
      elim (Bool-cases (not (is_some (find k l.sources)) && leb max_entries (length l.sources))) [
        | inl e ↦ rw e o
        | inr e ↦ rw e (charge_other k (current_window now (find k l.sources)) d o)
      ]

admit-IsOpen :
    (key : String) (deadline n now : ℕ) (l : WorkLimiter) (source : String)
    → now < deadline
    → IsOpen key deadline n l
    → IsOpen key deadline
        (n
          + (if source_key source == key
              then (if (admit l now source).1 == 0 then 1 else 0)
              else 0))
        (admit l now source).0
unfolding admit
admit-IsOpen key deadline n now l source early o = elim (Bool-cases (source_key source == key)) [
  | inl e ↦
      rw e (admit_key_same key deadline n now (cleanup l now) early (source_key source) e clean)
  | inr e ↦ rw e (
      subst (λ k. IsOpen key deadline k (admit_key (cleanup l now) now (source_key source)).0)
        (omega arith)
        (admit_key_other key deadline n now (cleanup l now) early (source_key source) e clean))
]
  where
    clean : IsOpen key deadline n (cleanup l now)
    clean = cleanup-IsOpen key deadline n now l early o

-- Once a source has a window with n tokens gone, then whatever calls come before the window ends,
-- by this and any other sources, the tokens it gets are counted exactly, and with those n they do
-- not pass the limit.
pub granted-IsOpen :
    (key : String) (deadline n : ℕ) (l : WorkLimiter) (calls : List (ℕ × String))
    → AllBefore deadline calls
    → IsOpen key deadline n l
    → IsOpen key deadline (n + granted key l calls) (run l calls)
unfolding granted run
granted-IsOpen key deadline n l [] b o = subst (λ k. IsOpen key deadline k l) (omega arith) o
granted-IsOpen key deadline n l ((now, source) ∷ calls) b o =
    subst (λ k. IsOpen key deadline k (run (admit l now source).0 calls)) (omega arith)
      (granted-IsOpen key deadline
        (n
          + (if source_key source == key
              then (if (admit l now source).1 == 0 then 1 else 0)
              else 0))
        (admit l now source).0 calls b.1 (admit-IsOpen key deadline n now l source b.0 o))

retry_bounds :
    (limit now n deadline : ℕ)
    → now < deadline
    → n ≤ limit
    → let r = retry limit now (record { count = n; expires = deadline }) in
      (n < limit → r ≡ 0)
      × (n ≡ limit
          → (0 < r) × (deadline ≤ now + r * second) × (now + r * second < deadline + second))
unfolding retry
retry_bounds limit now n deadline h k =
    (λ p. ground arith, λ p. (ground arith, ground arith, ground arith))

admit_key-retry :
    (l : WorkLimiter) (now n deadline : ℕ) (key : String)
    → now < deadline
    → IsOpen key deadline n l
    → (admit_key l now key).1 ≡ retry l.source_limit now (record { count = n; expires = deadline })
unfolding admit_key charge current_window
admit_key-retry l now n deadline key h o = rw o.found (ground arith)

source_limit-cleanup : (l : WorkLimiter) (now : ℕ) → (cleanup l now).source_limit ≡ l.source_limit
unfolding cleanup
source_limit-cleanup l now = ground arith

-- While a source's window is open a call is granted if tokens are left, and refused if they are
-- gone; the wait that a refusal names is the time to the window's end, rounded up to seconds.
pub admit-retry :
    (l : WorkLimiter) (now n deadline : ℕ) (source : String)
    → now < deadline
    → IsOpen (source_key source) deadline n l
    → let r = (admit l now source).1 in
      ((n < l.source_limit) × (r ≡ 0))
      ⊎ ((n ≡ l.source_limit)
          × (0 < r)
          × (deadline ≤ now + r * second)
          × (now + r * second < deadline + second))
unfolding admit
admit-retry l now n deadline source h o =
    rw
      (
        admit_key-retry (cleanup l now) now n deadline (source_key source) h
            (cleanup-IsOpen (source_key source) deadline n now l h o),
        source_limit-cleanup l now,
      )
      (elim (Bool-cases (ltb n l.source_limit)) [
        | inl e ↦ inl (ltb→lt n l.source_limit e, bounds.0 (ltb→lt n l.source_limit e))
        | inr e ↦
            let full : n ≡ l.source_limit = ground (arith, o.within) in
            let (a, b, c) = bounds.1 full in inr (full, a, b, c)
      ])
  where
    bounds :
        let r = retry l.source_limit now (record { count = n; expires = deadline }) in
        (n < l.source_limit → r ≡ 0)
        × (n ≡ l.source_limit
            → (0 < r) × (deadline ≤ now + r * second) × (now + r * second < deadline + second))
    bounds = retry_bounds l.source_limit now n deadline h o.within
