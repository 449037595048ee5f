-- ===== src/Transmission/Snapshots.antt =====
-- `GetTransmissionSnapshots`: the pages of rooms that the admin interface shows.
use text.Mathlib.Text.{find?}
use mathlib.Core.List.{append-nil, append_assoc}
use crossdesk_server.Common.{
  ℕ, zero, suc, ◌+◌, ◌-◌, ◌<◌, ◌^◌, String, Bool, true, false, ◌&&◌, ◌||◌, not, Option, List, [],
  ◌∷◌, ◌++◌, map, ◌==◌, ◌≡◌, refl, ap, ◌∙◌, arith, ltb, leb, if◌then◌else◌, or_else, is_empty,
  is_some, length, string_key, nat_key, Assoc, find, keep, length-append, Bool-cases, inl, inr,
}
use crossdesk_server.Transmission.State.{Manager}

pub record Snapshot : Type 0 where
  pub transmission_id : String
  pub host_id : String
  pub guest_ids : List String
  pub participant_count : ℕ
  pub is_active : Bool

contains_text : String → String → Bool
contains_text value search_text = is_some (find? value search_text)

any_contains : List String → String → Bool
unfolding contains_text
any_contains [] search_text = false
any_contains (guest_id ∷ rest) search_text =
    contains_text guest_id search_text || any_contains rest search_text

transmission_matches_search : String → String → Option (List String) → String → Bool
unfolding contains_text any_contains
transmission_matches_search transmission_id host_id guest_ids search_text =
    if search_text == ""
    then true
    else if contains_text transmission_id search_text || contains_text host_id search_text
    then true
    else any_contains (or_else guest_ids []) search_text

unfoldable pub is_shown : Assoc String (List String) → String → Bool → String × String → Bool
unfolding transmission_matches_search
is_shown guests search_text active_only host =
    let guest_ids = find host.0 guests in
    not (active_only && not (not (is_empty (or_else guest_ids []))))
    && transmission_matches_search host.0 host.1 guest_ids search_text

unfoldable pub snapshot_of : Assoc String (List String) → String × String → Snapshot
snapshot_of guests host =
    let guest_ids = or_else (find host.0 guests) [] in
    record {
      transmission_id = host.0;
      host_id = host.1;
      guest_ids = guest_ids;
      participant_count = 1 + length guest_ids;
      is_active = not (is_empty guest_ids);
    }

-- The loop over the hosts, with `matched_count` and `result` so far.
page_loop :
    ℕ
    → ℕ
    → (String × String → Bool)
    → (String × String → Snapshot)
    → Assoc String String
    → ℕ
    → List Snapshot
    → List Snapshot × ℕ
page_loop limit offset shown snapshot [] matched result = (result, matched)
page_loop limit offset shown snapshot (host ∷ rest) matched result =
    if not (shown host)
    then page_loop limit offset shown snapshot rest matched result
    else page_loop limit offset shown snapshot rest (suc matched) (
        if ltb matched offset || leb limit (length result)
        then result
        else result ++ snapshot host ∷ [])

-- The page and `*filtered_count`.
pub get_transmission_snapshots : Manager → ℕ → ℕ → String → Bool → List Snapshot × ℕ
unfolding page_loop is_shown snapshot_of
get_transmission_snapshots s limit offset search_text active_only =
    page_loop limit offset (is_shown s.guests search_text active_only) (snapshot_of s.guests)
      s.hosts 0 []

pub get_all_transmission_snapshots : Manager → List Snapshot × ℕ
unfolding get_transmission_snapshots
get_all_transmission_snapshots s = get_transmission_snapshots s (2 ^ 64 - 1) 0 "" false

abbrev pub take {ℓ} : {A : Type ℓ} → ℕ → List A → List A
take zero xs = []
take (suc n) [] = []
take (suc n) (x ∷ xs) = x ∷ take n xs

abbrev pub drop {ℓ} : {A : Type ℓ} → ℕ → List A → List A
drop zero xs = xs
drop (suc n) [] = []
drop (suc n) (x ∷ xs) = drop n xs

take-nil {ℓ} : {A : Type ℓ} (n : ℕ) → take {A = A} n [] ≡ []
take-nil zero = refl
take-nil (suc n) = refl

drop-nil {ℓ} : {A : Type ℓ} (n : ℕ) → drop {A = A} n [] ≡ []
drop-nil zero = refl
drop-nil (suc n) = refl

drop-suc {ℓ} :
    {A : Type ℓ} (offset matched : ℕ) (x : A) (xs : List A)
    → matched < offset
    → drop (offset - matched) (x ∷ xs) ≡ drop (offset - suc matched) xs
drop-suc offset matched x xs h =
    let e : offset - matched ≡ suc (offset - suc matched) = omega arith in rw e refl

module _ (limit offset : ℕ) (shown : String × String → Bool)
    (snapshot : String × String → Snapshot) where
  -- What the rest of the loop adds to the result.
  page : Assoc String String → ℕ → ℕ → List Snapshot
  page hosts matched count =
      map snapshot (take (limit - count) (drop (offset - matched) (keep shown hosts)))

  page-skip :
      (host : String × String) (rest : Assoc String String) (matched count : ℕ)
      → shown host ≡ true
      → (ltb matched offset || leb limit count) ≡ true
      → page (host ∷ rest) matched count ≡ page rest (suc matched) count
  unfolding page keep
  page-skip host rest matched count h t = elim (Bool-cases (ltb matched offset)) [
    | inl l ↦ rw (h, drop-suc offset matched host (keep shown rest) (ground arith)) refl
    | inr l ↦ let e : limit - count ≡ 0 = ground arith in rw e refl
  ]

  page-add :
      (host : String × String) (rest : Assoc String String) (matched count : ℕ)
      → shown host ≡ true
      → (ltb matched offset || leb limit count) ≡ false
      → page (host ∷ rest) matched count ≡ snapshot host ∷ page rest (suc matched) (suc count)
  unfolding page keep
  page-add host rest matched count h t =
      let e : limit - count ≡ suc (limit - suc count) = ground arith in
      let z : offset - matched ≡ 0 = ground arith in
      let y : offset - suc matched ≡ 0 = ground arith in rw (h, e, z, y) refl

  page-hidden :
      (host : String × String) (rest : Assoc String String) (matched count : ℕ)
      → shown host ≡ false
      → page (host ∷ rest) matched count ≡ page rest matched count
  unfolding page keep
  page-hidden host rest matched count h = rw h refl

  page-nil : (matched count : ℕ) → page [] matched count ≡ []
  unfolding page keep
  page-nil matched count =
      rw
        (
          drop-nil {A = String × String} (offset - matched),
          take-nil {A = String × String} (limit - count),
        )
        refl

  Looped : Assoc String String → Type 0
  Looped hosts =
      (matched : ℕ) (result : List Snapshot)
      → page_loop limit offset shown snapshot hosts matched result
        ≡ (result ++ page hosts matched (length result), matched + length (keep shown hosts))

  page_loop_shown :
      (host : String × String) (rest : Assoc String String) (matched : ℕ) (result : List Snapshot)
      (full : Bool)
      → Looped rest
      → shown host ≡ true
      → (ltb matched offset || leb limit (length result)) ≡ full
      → page_loop limit offset shown snapshot rest
          (suc matched)
          (if full then result else result ++ snapshot host ∷ [])
        ≡ (
          result ++ page (host ∷ rest) matched (length result),
          matched + suc (length (keep shown rest)),
        )
  unfolding Looped
  page_loop_shown host rest matched result true loop h t =
      loop (suc matched) result
      ∙ rw (page-skip host rest matched (length result) h t)
          (ap (λ n. (result ++ page rest (suc matched) (length result), n)) (omega arith))
  page_loop_shown host rest matched result false loop h t =
      let longer : length (result ++ snapshot host ∷ []) ≡ suc (length result) =
        omega (arith, length-append result (snapshot host ∷ [])) in
      loop (suc matched) (result ++ snapshot host ∷ [])
      ∙ rw
          (
            longer,
            append_assoc result (snapshot host ∷ [])
                (page rest (suc matched) (suc (length result))),
            page-add host rest matched (length result) h t,
          )
          (ap (λ n. (result ++ snapshot host ∷ page rest (suc matched) (suc (length result)), n))
            (omega arith))

  page_loop_lem : (hosts : Assoc String String) → Looped hosts
  unfolding Looped page_loop keep
  page_loop_lem [] matched result =
      rw (page-nil matched (length result), append-nil result) (ap (λ n. (result, n)) (omega arith))
  page_loop_lem (host ∷ rest) matched result = elim (Bool-cases (shown host)) [
    | inl h ↦ rw h (
        page_loop_shown host rest matched result (ltb matched offset || leb limit (length result))
          (page_loop_lem rest) h refl)
    | inr h ↦
        rw (page-hidden host rest matched (length result) h, h) (page_loop_lem rest matched result)
  ]

-- The rooms that match the search, of those in use when only these are asked for, in key order:
-- the page is the `limit` of them after the first `offset`, each with its host, its guests and the
-- number of its participants, and the count is that of all of them, whatever the page.
pub get_transmission_snapshots_lem :
    (s : Manager) (limit offset : ℕ) (search_text : String) (active_only : Bool)
    → let matching = keep (is_shown s.guests search_text active_only) s.hosts in
      get_transmission_snapshots s limit offset search_text active_only
      ≡ (map (snapshot_of s.guests) (take limit (drop offset matching)), length matching)
unfolding get_transmission_snapshots page Looped
get_transmission_snapshots_lem s limit offset search_text active_only =
    let l : limit - 0 ≡ limit = omega arith in
    let o : offset - 0 ≡ offset = omega arith in
    let n : 0 + length (keep (is_shown s.guests search_text active_only) s.hosts)
        ≡ length (keep (is_shown s.guests search_text active_only) s.hosts) =
      omega arith in
    page_loop_lem limit offset (is_shown s.guests search_text active_only) (snapshot_of s.guests)
      s.hosts 0 []
    ∙ rw (l, o, n) refl
