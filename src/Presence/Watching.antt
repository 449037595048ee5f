-- ===== src/Presence/Watching.antt =====
-- Who watches a device, and who is told when it comes or goes.
use Prim.Native.String.{◌++◌ as append}
use crossdesk_server.Common.{
  String, Bool, true, ◌&&◌, ◌||◌, not, Option, none, some, or_else, List, [], ◌∷◌, ◌++◌, map, ◌==◌,
  ◌≡◌, refl, ap, sym, subst, arith, ◌∙◌, if◌then◌else◌, is_empty, contains, remove, insert_set,
  contains-insert_set, contains-remove, string_key, Assoc, find, erase, find-set, find-erase,
  UniqueKeys, inl, inr, Bool-cases,
}
use mathlib.Core.List.{append-nil}
use crossdesk_server.Presence.{
  Database, Presence, insert_all, watchers_of, online_targets, targets_of, forget_in,
  notify_user_devices, update_user_devices, forget_offline_device_data,
}

-- Whether a user watches a device.
pub watches : {D : Type 0} → Presence D → String → String → Bool
watches p user device_id = contains (or_else (find user p.associations) []) device_id

contains-insert_all :
    (ids watched : List String) (x : String)
    → contains (insert_all ids watched) x ≡ (contains ids x || contains watched x)
unfolding insert_all contains
contains-insert_all [] watched x = refl
contains-insert_all (id ∷ ids) watched x =
    ground
      (arith, contains-insert_all ids (insert_set id watched) x, contains-insert_set id watched x)

module _ {D : Type 0} where
  -- An update of a user's watch list sets exactly that list when it replaces, adds to it when it
  -- does not, and leaves every other user's list as it was.
  pub watches-update :
      (p : Presence D) (user : String) (ids : List String) (replace : Bool)
      (other device_id : String)
      → watches (update_user_devices p user ids replace) other device_id ≡ (
          if user == other
          then contains ids device_id || (not replace && watches p user device_id)
          else watches p other device_id)
  unfolding watches update_user_devices contains
  watches-update p user ids replace other device_id =
      rw
        (find-set user other
          (insert_all ids (if replace then [] else or_else (find user p.associations) []))
          p.associations)
        (ground (
          arith,
          contains-insert_all ids (if replace then [] else or_else (find user p.associations) [])
              device_id,
        ))

find-forget_in :
    (device_id clone user x : String) (m : Assoc String (List String))
    → contains (or_else (find user (forget_in device_id clone m)) []) x
      ≡ (not (x == device_id) && (not (x == clone) && contains (or_else (find user m) []) x))
unfolding forget_in find contains
find-forget_in device_id clone user x [] = ground arith
find-forget_in device_id clone user x ((watcher, watched) ∷ rest) = ground (
  arith,
  find-forget_in device_id clone user x rest,
  contains-remove clone (remove device_id watched) x,
  contains-remove device_id watched x,
  string_key.beq_iff device_id x,
  string_key.beq_iff x device_id,
  string_key.beq_iff clone x,
  string_key.beq_iff x clone,
)

module _ {D : Type 0} where
  -- When a device is forgotten, it and its clone "C-" ++ id watch nobody and nobody watches them;
  -- who else watches whom stays as it was.
  pub watches-forget :
      (p : Presence D) (device_id user x : String)
      → let one : String → Bool = λ id. id == device_id || id == append "C-" device_id in
        watches (forget_offline_device_data p device_id) user x
        ≡ (not (one user) && (not (one x) && watches p user x))
  unfolding watches forget_offline_device_data contains
  watches-forget p device_id user x =
      let clone = append "C-" device_id in
      ground (
        arith,
        find-forget_in device_id clone user x (erase clone (erase device_id p.associations)),
        find-erase clone user (erase device_id p.associations),
        find-erase device_id user p.associations,
        string_key.beq_iff device_id user,
        string_key.beq_iff user device_id,
        string_key.beq_iff clone user,
        string_key.beq_iff user clone,
      )

contains-watchers_of :
    (x user : String) (m : Assoc String (List String))
    → UniqueKeys m
    → contains (watchers_of x m) user ≡ contains (or_else (find user m) []) x
unfolding watchers_of find contains
contains-watchers_of x user [] u = refl
contains-watchers_of x user ((watcher, watched) ∷ rest) u =
    let same : (watcher == user) ≡ true → find user rest ≡ none =
      λ h. subst (λ k. find k rest ≡ none) ((string_key.beq_iff watcher user).0 h) u.0 in
    ground (arith, same, contains-watchers_of x user rest u.1)

contains-online_targets :
    (status : String → Bool) (x user : String) (ids : List String)
    → contains (online_targets x (map (λ id. (id, status id)) ids)) user
      ≡ (contains ids user && (not (user == x) && status user))
unfolding online_targets contains
contains-online_targets status x user [] = refl
contains-online_targets status x user (id ∷ ids) =
    let same : (id == user) ≡ true → status id ≡ status user =
      λ h. ap status ((string_key.beq_iff id user).0 h) in
    ground (
      arith,
      same,
      contains-online_targets status x user ids,
      string_key.beq_iff id user,
      string_key.beq_iff id x,
      string_key.beq_iff user x,
    )

-- What the database answers for each id, in order.
abbrev pub Answers : {D : Type 0} → Database D → (D → String → Bool) → Type 0
Answers {D} database status =
    (d : D) (ids : List String)
    → database.batch_query_online d ids ≡ map (λ id. (id, status d id)) ids

-- Whether an update about `x` can reach a watcher: without a database always.
pub reachable : {D : Type 0} → (D → String → Bool) → Option D → String → String → Bool
reachable status none x user = true
reachable status (some d) x user = not (user == x) && status d user

module _ {D : Type 0} (database : Database D) (status : D → String → Bool) where
  contains-targets_of :
      (db : Option D) (x user : String) (ids : List String)
      → Answers database status
      → contains (targets_of database db x ids) user
        ≡ (contains ids user && reachable status db x user)
  unfolding targets_of reachable
  contains-targets_of none x user ids a = ground arith
  contains-targets_of (some d) x user ids a =
      rw (a d ids) (contains-online_targets (status d) x user ids)

  targets_of-watches :
      (p : Presence D) (x user : String)
      → Answers database status
      → UniqueKeys p.associations
      → contains (targets_of database p.db x (watchers_of x p.associations)) user
        ≡ (watches p user x && reachable status p.db x user)
  unfolding watches
  targets_of-watches p x user a u =
      contains-targets_of p.db x user (watchers_of x p.associations) a
      ∙ rw (contains-watchers_of x user p.associations u) refl

  targets_of_nobody :
      (db : Option D) (x : String) (ids : List String)
      → Answers database status
      → is_empty ids ≡ true
      → targets_of database db x ids ≡ []
  unfolding targets_of online_targets
  targets_of_nobody none x [] a h = refl
  targets_of_nobody (some d) x [] a h = rw (a d []) refl
  targets_of_nobody db x (id ∷ ids) a h = ground arith

  sent_if :
      (p : Presence D) (x : String) (online : Bool)
      → Answers database status
      → p.has_sender ≡ true
      → (notify_user_devices database p x online).sent
        ≡ p.sent
          ++ map
              (λ id. (id, record { id = x; online = online }))
              (targets_of database p.db x (watchers_of x p.associations))
  unfolding notify_user_devices
  sent_if p x online a h = elim (Bool-cases (is_empty (watchers_of x p.associations))) [
    | inl e ↦
        rw (h, e, targets_of_nobody p.db x (watchers_of x p.associations) a e)
          (sym (append-nil p.sent))
    | inr e ↦ rw (h, e) refl
  ]

  -- With a message callback set, and a database that answers each id it is asked for: a change of
  -- device `x` adds one message for each of a list of users, and a user is in the list exactly when
  -- it watches `x` and, if there is a database, is online and not `x` itself.
  pub notify_user_devices-told :
      (p : Presence D) (x : String) (online : Bool)
      → Answers database status
      → UniqueKeys p.associations
      → p.has_sender ≡ true
      → (told : List String) × (((notify_user_devices database p x online).sent
            ≡ p.sent ++ map (λ id. (id, record { id = x; online = online })) told)
          × ((user : String)
              → contains told user ≡ (watches p user x && reachable status p.db x user)))
  notify_user_devices-told p x online a u h = (
    targets_of database p.db x (watchers_of x p.associations),
    (sent_if p x online a h, λ user. targets_of-watches p x user a u),
  )
