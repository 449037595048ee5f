-- ===== src/Negotiation/Passwords/Retry.antt =====
-- A password change that is requested again is answered from the cache.
use Prim.Native.String.{len, ◌++◌ as append}
use text.Mathlib.Text.{starts_with}
use crossdesk_server.Common.{
  ◌≤◌, String, ◌≡◌, refl, sym, ap, ◌∙◌, subst, Bool, true, false, ◌||◌, not, Option, none, some,
  List, [], ◌∷◌, ◌++◌, ◌==◌, length, length-append, ltb, contains, string_key, nat_key, Assoc, find,
  set, erase, find-set, find-erase, has_text, Bool-cases, inl, inr, ==_refl, arith,
}
use crossdesk_server.Identity.{is_temporary_controller_id}
use crossdesk_server.Transmission.State.{Handle}
use crossdesk_server.Transmission.Connections.{get_user_id}
use crossdesk_server.Negotiation.Json.{string, Object, get_string_field}
use crossdesk_server.Negotiation.State.{Environment, Negotiation, send}
use crossdesk_server.Negotiation.Passwords.{
  Change, max_results, replay, trim, remember, begin_fresh, begin_password, begin_named,
  begin_request, begin_change, committed, commit, commit_once, finish_change, valid_input,
}
use crossdesk_server.Negotiation.Passwords.Cache.{IsCache}

trim_short :
    (results : Assoc String (String × Object)) (order : List String)
    → length order ≤ max_results
    → trim results order ≡ (results, order)
unfolding trim
trim_short results [] h = refl
trim_short results (key ∷ keys) h = ground arith

-- The newest result stays.
find-trim :
    (results : Assoc String (String × Object)) (order : List String) (key : String)
    → length order ≤ max_results
    → contains order key ≡ false
    → find key (trim results (order ++ key ∷ [])).0 ≡ find key results
unfolding trim contains
find-trim results [] key h c = refl
find-trim results (first ∷ rest) key h c =
    let n : length (rest ++ key ∷ []) ≤ max_results =
      omega (arith, length-append rest (key ∷ [])) in
    ground (
      arith,
      trim_short (erase first results) (rest ++ key ∷ []) n,
      find-erase first key results,
      length-append rest (key ∷ []),
    )

module _ {D R : Type 0} (env : Environment D R) where
  -- The work `c` of a request is for the connection and its user, and where its result is known
  -- the same request is answered by it.
  record IsAnswered (s t : Negotiation D) (hdl : Handle) (c : Change R)
      (again : Negotiation D × Option (Change R)) : Type 0 where
    pub same_handle : c.hdl ≡ hdl
    pub same_user : c.user_id ≡ get_user_id s.manager hdl
    pub answered :
        (response : Object)
        → find c.cache_key t.results ≡ some (c.fingerprint, response)
        → again ≡ (send t hdl response, none)

  module _ (s t : Negotiation D) (hdl : Handle) (c : Change R) where
    fresh-IsAnswered :
        (new_password key : String) (message : Object) (o : Option (String × Object))
        → (begin_fresh env s hdl (get_user_id s.manager hdl) new_password key message o).1 ≡ some c
        → IsAnswered s t hdl c (
            begin_fresh env t hdl
              (get_user_id s.manager hdl)
              new_password
              key
              message
              (find key t.results))
    unfolding begin_fresh replay
    fresh-IsAnswered new_password key message (some cached) h = absurd (cc)
    fresh-IsAnswered new_password key message none h =
        let made : Change R = record {
          hdl = hdl;
          user_id = get_user_id s.manager hdl;
          new_password = new_password;
          stored = env.database.read_password s.db (get_user_id s.manager hdl);
          message = message;
          cache_key = key;
          fingerprint = env.fingerprint new_password;
        } in
        let same : made ≡ c = cc in
        subst
          (λ d. IsAnswered s t hdl d (
            begin_fresh env t hdl (get_user_id s.manager hdl) new_password key message
              (find key t.results)))
          same
          (record {
            same_handle = refl;
            same_user = refl;
            answered =
                λ response k. rw (k, begin_fresh, ==_refl (env.fingerprint new_password)) refl;
          })

    password-IsAnswered :
        (request_id : String) (message : Object) (o : Option String)
        → (begin_password env s hdl (get_user_id s.manager hdl) request_id message o).1 ≡ some c
        → IsAnswered s t hdl c
            (begin_password env t hdl (get_user_id s.manager hdl) request_id message o)
    unfolding begin_password
    password-IsAnswered request_id message none h = absurd (cc)
    password-IsAnswered request_id message (some new_password) h =
        elim (Bool-cases (not (len new_password == 6) || not (valid_input new_password))) [
          | inl e ↦ absurd (ground arith)
          | inr e ↦
              let key = append (get_user_id s.manager hdl) (append "\n" request_id) in
              rw e (fresh-IsAnswered new_password key message (find key s.results) (rw e at h))
        ]

    named-IsAnswered :
        (j : Object) (request_id : String) (message : Object)
        → get_user_id t.manager hdl ≡ get_user_id s.manager hdl
        → (begin_named env s hdl j request_id message).1 ≡ some c
        → IsAnswered s t hdl c (begin_named env t hdl j request_id message)
    unfolding begin_named
    named-IsAnswered j request_id message u h =
        let user = get_user_id s.manager hdl in
        elim (Bool-cases (user == "")) [
          | inl e ↦ absurd (ground arith)
          | inr e ↦ elim (Bool-cases (starts_with user "C-" || is_temporary_controller_id user)) [
            | inl f ↦ absurd (ground arith)
            | inr f ↦
                rw (u, e, f)
                  (password-IsAnswered request_id (set "user_id" (string user) message)
                    (get_string_field j "new_password") (rw (e, f) at h))
          ]
        ]

    request-IsAnswered :
        (j : Object) (o : Option String)
        → get_user_id t.manager hdl ≡ get_user_id s.manager hdl
        → (begin_request env s hdl j o).1 ≡ some c
        → IsAnswered s t hdl c (begin_request env t hdl j o)
    unfolding begin_request
    request-IsAnswered j none u h = absurd (cc)
    request-IsAnswered j (some request_id) u h =
        elim (Bool-cases
          (request_id == "" || ltb 128 (len request_id) || has_text request_id "\0")) [
            | inl e ↦ absurd (ground arith)
            | inr e ↦ rw e (named-IsAnswered j request_id _ u (rw e at h))
          ]

  abbrev success : Change R → Object
  success c = set "status" (string "success") c.message

  -- The new password is stored: the response is sent, and kept under the request's key.
  record IsStored (s t : Negotiation D) (c : Change R) : Type 0 where
    pub sent : t.sent ≡ s.sent ++ (c.hdl, success c) ∷ []
    pub kept : find c.cache_key t.results ≡ some (c.fingerprint, success c)
    pub manager : t.manager ≡ s.manager

  committed-IsStored :
      (s : Negotiation D) (c : Change R) (result : D × Bool)
      → IsCache s
      → find c.cache_key s.results ≡ none
      → result.1 ≡ true
      → IsStored s (committed env s c result) c
  unfolding committed remember
  committed-IsStored s c (db, false) v h y = absurd (cc)
  committed-IsStored s c (db, true) v h y = record {
    sent = refl;
    kept =
        find-trim (set c.cache_key (c.fingerprint, success c) s.results) s.result_order c.cache_key
          v.bounded (sym (v.kept.known c.cache_key) ∙ rw h refl)
        ∙ rw
            (
              find-set c.cache_key c.cache_key (c.fingerprint, success c) s.results,
              ==_refl c.cache_key,
            )
            refl;
    manager = refl;
  }

  finish_change-IsStored :
      (s : Negotiation D) (c : Change R) (old new : R)
      → IsCache s
      → env.expired c.hdl ≡ false
      → get_user_id s.manager c.hdl ≡ c.user_id
      → find c.cache_key s.results ≡ none
      → c.stored ≡ some old
      → (env.database.commit_password s.db c.user_id old new).1 ≡ true
      → IsStored s (finish_change env s c (some new)) c
  unfolding finish_change commit_once commit
  finish_change-IsStored s c old new v live bound absent stored done =
      rw (live, bound, ==_refl c.user_id, absent) (by_stored c.stored stored)
    where
      by_stored : (o : Option R) → o ≡ some old → IsStored s (commit env s c o (some new)) c
      by_stored none e = absurd (cc)
      by_stored (some r) e =
          committed-IsStored s c (env.database.commit_password s.db c.user_id r new) v absent
            (ground (arith))

  -- A password change that began on a live connection of its user, and whose new password is then
  -- stored: its response is sent; and when the same request comes again, that response is sent
  -- again and no work is left to be done, so the password is stored once.
  pub change-retry :
      (s s' : Negotiation D) (hdl : Handle) (j : Object) (c : Change R) (old new : R)
      → (begin_change env s hdl j).1 ≡ some c
      → IsCache s'
      → env.expired hdl ≡ false
      → get_user_id s'.manager hdl ≡ get_user_id s.manager hdl
      → find c.cache_key s'.results ≡ none
      → c.stored ≡ some old
      → (env.database.commit_password s'.db c.user_id old new).1 ≡ true
      → let t = finish_change env s' c (some new) in
        let response = set "status" (string "success") c.message in
        (t.sent ≡ s'.sent ++ (hdl, response) ∷ [])
        × (begin_change env t hdl j ≡ (send t hdl response, none))
  unfolding begin_change
  change-retry s s' hdl j c old new began v live bound absent stored done =
      let o = get_string_field j "request_id" in
      let first = request-IsAnswered s s' hdl c j o bound began in
      let t = finish_change env s' c (some new) in
      let done_t : IsStored s' t c =
        finish_change-IsStored s' c old new v (ap env.expired first.same_handle ∙ live)
          (ap (get_user_id s'.manager) first.same_handle ∙ bound ∙ sym first.same_user) absent
          stored done in
      let bound_t : get_user_id t.manager hdl ≡ get_user_id s.manager hdl =
        ap (λ m. get_user_id m hdl) done_t.manager ∙ bound in
      (
        subst (λ h. t.sent ≡ s'.sent ++ (h, success c) ∷ []) first.same_handle done_t.sent,
        (request-IsAnswered s t hdl c j o bound_t began).answered (success c) done_t.kept,
      )
