-- ===== src/Negotiation/Passwords/Cache.antt =====
-- The results of password changes: each key in the order has its result, and none is forgotten but
-- the oldest.
use Prim.Native.String.{◌++◌ as append}
use text.Mathlib.Text.{starts_with}
use crossdesk_server.Common.{
  ℕ, ◌≤◌, String, ◌≡◌, refl, sym, ap, ◌∙◌, Bool, true, false, ◌&&◌, ◌||◌, not, Option, none, some,
  List, [], ◌∷◌, ◌++◌, ◌==◌, if◌then◌else◌, is_some, length, ltb, contains, contains-append,
  AllDistinct, append-AllDistinct, string_key, nat_key, Assoc, find, set, erase, find-set,
  find-erase, Bool-cases, inl, inr, arith,
}
use crossdesk_server.Transmission.Connections.{get_user_id}
use crossdesk_server.Negotiation.Json.{Object}
use crossdesk_server.Negotiation.State.{Environment, Negotiation, send}
use crossdesk_server.Negotiation.Passwords.{
  Change, max_results, trim, remember, forget_keys, forget_password_change_results, committed,
  commit, commit_once, finish_change,
}

pub record AreResults (results : Assoc String (String × Object)) (order : List String)
    : Type 0 where
  pub distinct : AllDistinct order
  pub known : (key : String) → is_some (find key results) ≡ contains order key

pub record IsCache {D : Type 0} (s : Negotiation D) : Type 0 where
  pub kept : AreResults s.results s.result_order
  pub bounded : length s.result_order ≤ max_results

erase_first :
    (results : Assoc String (String × Object)) (key : String) (keys : List String)
    → AreResults results (key ∷ keys)
    → AreResults (erase key results) keys
unfolding contains
erase_first results key keys v = record {
  distinct = v.distinct.1;
  known = λ k.
      ground (arith, find-erase key k results, v.known k, v.distinct.0, string_key.beq_iff key k);
}

trim-AreResults :
    (results : Assoc String (String × Object)) (order : List String)
    → AreResults results order
    → AreResults (trim results order).0 (trim results order).1
      × (length (trim results order).1 ≤ max_results)
unfolding trim
trim-AreResults results [] v = (v, omega arith)
trim-AreResults results (key ∷ keys) v = elim (Bool-cases (ltb max_results (length (key ∷ keys)))) [
  | inl t ↦ rw t (trim-AreResults (erase key results) keys (erase_first results key keys v))
  | inr t ↦ rw t (v, ground arith)
]

added :
    (results : Assoc String (String × Object)) (order : List String) (key : String)
    (result : String × Object)
    → AreResults results order
    → find key results ≡ none
    → AreResults (set key result results) (order ++ key ∷ [])
added results order key result v h = record {
  distinct = append-AllDistinct order key v.distinct (sym (v.known key) ∙ rw h refl);
  known =
      λ k. ground (arith, find-set key k result results, v.known k, contains-append order key k);
}

remember-IsCache :
    {D : Type 0} (s : Negotiation D) (key fingerprint : String) (response : Object)
    → IsCache s
    → find key s.results ≡ none
    → IsCache (remember s key fingerprint response)
unfolding remember
remember-IsCache s key fingerprint response v h =
    let (kept, bounded) =
      trim-AreResults (set key (fingerprint, response) s.results) (s.result_order ++ key ∷ [])
        (added s.results s.result_order key (fingerprint, response) v.kept h) in
    record { kept = kept; bounded = bounded }

module _ (prefix : String) where
  same_prefix : (key k : String) → (key == k) ≡ true → starts_with key prefix ≡ starts_with k prefix
  same_prefix key k h = ap (λ s. starts_with s prefix) ((string_key.beq_iff key k).0 h)

  contains-forget_keys :
      (results : Assoc String (String × Object)) (keys : List String) (k : String)
      → contains (forget_keys prefix results keys).1 k
        ≡ (contains keys k && not (starts_with k prefix))
  unfolding forget_keys contains
  contains-forget_keys results [] k = refl
  contains-forget_keys results (key ∷ keys) k =
      let left = if starts_with key prefix then erase key results else results in
      ground (arith, contains-forget_keys left keys k, same_prefix key k)

  find-forget_keys :
      (results : Assoc String (String × Object)) (keys : List String) (k : String)
      → find k (forget_keys prefix results keys).0
        ≡ (if contains keys k && starts_with k prefix then none else find k results)
  unfolding forget_keys contains
  find-forget_keys results [] k = refl
  find-forget_keys results (key ∷ keys) k =
      let left = if starts_with key prefix then erase key results else results in
      ground (arith, find-forget_keys left keys k, same_prefix key k, find-erase key k results)

  AllDistinct-forget_keys :
      (results : Assoc String (String × Object)) (keys : List String)
      → AllDistinct keys
      → AllDistinct (forget_keys prefix results keys).1
  unfolding forget_keys contains
  AllDistinct-forget_keys results [] d = tt
  AllDistinct-forget_keys results (key ∷ keys) d =
      let left = if starts_with key prefix then erase key results else results in
      ground (arith, AllDistinct-forget_keys left keys d.1, contains-forget_keys left keys key)

  length-forget_keys-le :
      (results : Assoc String (String × Object)) (keys : List String)
      → length (forget_keys prefix results keys).1 ≤ length keys
  unfolding forget_keys
  length-forget_keys-le results [] = omega arith
  length-forget_keys-le results (key ∷ keys) =
      let left = if starts_with key prefix then erase key results else results in
      ground (arith, length-forget_keys-le left keys)

-- Forgetting the results of a device keeps the cache in order, removes every result whose key
-- starts with the device's id and a line break, and no other.
pub forget-IsCache :
    {D : Type 0} (s : Negotiation D) (device_id : String)
    → IsCache s
    → let t = forget_password_change_results s device_id in
      IsCache t
      × ((key : String)
          → find key t.results
            ≡ (if starts_with key (append device_id "\n") then none else find key s.results))
unfolding forget_password_change_results
forget-IsCache s device_id v =
    let prefix = append device_id "\n" in
    (
      record {
        kept = record {
          distinct = AllDistinct-forget_keys prefix s.results s.result_order v.kept.distinct;
          known = λ key. ground (
            arith,
            find-forget_keys prefix s.results s.result_order key,
            contains-forget_keys prefix s.results s.result_order key,
            v.kept.known key,
          );
        };
        bounded = omega (arith, length-forget_keys-le prefix s.results s.result_order, v.bounded);
      },
      λ key. ground (arith, find-forget_keys prefix s.results s.result_order key, v.kept.known key),
    )

module _ {D R : Type 0} (env : Environment D R) where
  sent-IsCache :
      (s : Negotiation D) (db : D) (hdl : ℕ) (message : Object)
      → IsCache s
      → IsCache (send (record s { db = db }) hdl message)
  sent-IsCache s db hdl message v = record { kept = v.kept; bounded = v.bounded }

  committed-IsCache :
      (s : Negotiation D) (c : Change R) (result : D × Bool)
      → IsCache s
      → find c.cache_key s.results ≡ none
      → IsCache (committed env s c result)
  unfolding committed
  committed-IsCache s c (db, false) v h = record { kept = v.kept; bounded = v.bounded }
  committed-IsCache s c (db, true) v h =
      let t =
        remember-IsCache (record s { db = db }) c.cache_key c.fingerprint _
          (record { kept = v.kept; bounded = v.bounded }) h in
      record { kept = t.kept; bounded = t.bounded }

  commit-IsCache :
      (s : Negotiation D) (c : Change R) (stored replacement : Option R)
      → IsCache s
      → find c.cache_key s.results ≡ none
      → IsCache (commit env s c stored replacement)
  unfolding commit
  commit-IsCache s c none replacement v h = record { kept = v.kept; bounded = v.bounded }
  commit-IsCache s c (some stored) none v h = record { kept = v.kept; bounded = v.bounded }
  commit-IsCache s c (some stored) (some replacement) v h =
      committed-IsCache s c (env.database.commit_password s.db c.user_id stored replacement) v h

  commit_once-IsCache :
      (s : Negotiation D) (c : Change R) (replacement : Option R)
      (cached : Option (String × Object))
      → IsCache s
      → find c.cache_key s.results ≡ cached
      → IsCache (commit_once env s c replacement cached)
  unfolding commit_once
  commit_once-IsCache s c replacement (some cached) v h = record {
    kept = v.kept;
    bounded = v.bounded;
  }
  commit_once-IsCache s c replacement none v h = commit-IsCache s c c.stored replacement v h

  -- A password change that finishes, in whatever way, keeps the cache in order: its keys are
  -- distinct, each has a result and no other key has one, and there are at most 4096.
  pub finish_change-IsCache :
      (s : Negotiation D) (c : Change R) (replacement : Option R)
      → IsCache s
      → IsCache (finish_change env s c replacement)
  unfolding finish_change
  finish_change-IsCache s c replacement v =
      elim (Bool-cases (env.expired c.hdl || not (get_user_id s.manager c.hdl == c.user_id))) [
        | inl e ↦ rw e v
        | inr e ↦ rw e (commit_once-IsCache s c replacement (find c.cache_key s.results) v refl)
      ]
