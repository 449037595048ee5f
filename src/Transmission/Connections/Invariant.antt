-- ===== src/Transmission/Connections/Invariant.antt =====
-- The invariant of connections: routes, users, verified devices and the watchdog agree.
use text.Mathlib.Text.{starts_with}
use crossdesk_server.Common.{
  ℕ, ◌<◌, String, ◌≡◌, ◌⊎◌, ◌≢◌, refl, sym, true, false, ◌&&◌, Option, none, some, [], ◌∷◌, ◌==◌,
  is_some, or_else, string_key, nat_key, Assoc, find, set_ordered, find-set_ordered, Bool-cases,
  ==_refl, inl, inr, arith, AreIncreasing, find_below, set_ordered-AreIncreasing,
}
use crossdesk_server.Transmission.State.{Handle, Manager, same_connection, has_user_connection}
use crossdesk_server.Transmission.Connections.{new_route, bound_user, first_connection}

-- Every route leads to a live connection of its user, every user with a connection has a route, and
-- only connections with a user are watched or verified.
pub record AreSockets (routes : Assoc String Handle) (users : Assoc Handle String)
    (devices : Assoc Handle String) (last_active : Assoc Handle ℕ) : Type 0 where
  pub routed : (u : String) (h : Handle) → find u routes ≡ some h → find h users ≡ some u
  pub reachable : (u : String) (h : Handle) → find h users ≡ some u → is_some (find u routes) ≡ true
  pub owned : (u : String) (h : Handle) → find h users ≡ some u → 0 < h
  pub named : (u : String) (h : Handle) → find h users ≡ some u → (u == "") ≡ false
  pub watched : (h : Handle) → is_some (find h last_active) ≡ true → is_some (find h users) ≡ true
  pub verified : (h : Handle) → is_some (find h devices) ≡ true → is_some (find h users) ≡ true
  pub increasing : AreIncreasing users

abbrev pub HasSockets : Manager → Type 0
HasSockets s = AreSockets s.routes s.users s.devices s.last_active

pub same_connection_iff :
    (a b : Handle)
    → (same_connection a b ≡ true → (a ≡ b) × (0 < a)) × (0 < a → same_connection a a ≡ true)
unfolding same_connection
same_connection_iff a b = (λ h. ground arith, λ h. ground arith)

pub first_connection-some :
    (u : String) (users : Assoc Handle String) (h : Handle)
    → AreIncreasing users
    → first_connection u users ≡ some h
    → find h users ≡ some u
unfolding first_connection find
first_connection-some u [] h a e = cc
first_connection-some u ((i, w) ∷ users) h a e = ground (
  arith,
  first_connection-some u users h a.1,
  find_below i users i a.0 (omega arith),
  string_key.beq_iff w u,
)

pub first_connection-none :
    (u : String) (users : Assoc Handle String) (h : Handle)
    → first_connection u users ≡ none
    → find h users ≢ some u
unfolding first_connection find
first_connection-none u [] h e = λ p. cc
first_connection-none u ((i, w) ∷ users) h e =
    λ p. ground (arith, first_connection-none u users h, string_key.beq_iff w u)

pub has_user_connection-first_connection :
    (u : String) (users : Assoc Handle String)
    → has_user_connection users u ≡ is_some (first_connection u users)
unfolding has_user_connection first_connection
has_user_connection-first_connection u [] = refl
has_user_connection-first_connection u ((i, w) ∷ users) =
    ground (arith, has_user_connection-first_connection u users)

module _ (u : String) (hdl : Handle) (routes : Assoc String Handle) (k : String) where
  new_route_cases :
      (h : Handle)
      → find k (new_route u hdl routes) ≡ some h
      → (find k routes ≡ some h) ⊎ ((k ≡ u) × (h ≡ hdl))
  unfolding new_route
  new_route_cases h e = elim (Bool-cases (starts_with u "C-" && is_some (find u routes))) [
    | inl c ↦ inl (rw c at e)
    | inr c ↦ elim (Bool-cases (u == k)) [
      | inl q ↦ inr (
        sym ((string_key.beq_iff u k).0 q),
        injected (rw (c, find-set_ordered u k hdl routes, q) at e),
      )
      | inr o ↦ inl (rw (c, find-set_ordered u k hdl routes, o) at e)
    ]
  ]
    where
      injected : Path (Option Handle) (some hdl) (some h) → h ≡ hdl
      injected p = ground arith

  new_route_kept : is_some (find k routes) ≡ true → is_some (find k (new_route u hdl routes)) ≡ true
  unfolding new_route
  new_route_kept e = ground (arith, find-set_ordered u k hdl routes)

  new_route_self : u ≡ k → is_some (find k (new_route u hdl routes)) ≡ true
  unfolding new_route
  new_route_self q = rw (← q) (ground (arith, find-set_ordered u u hdl routes, ==_refl u))

module _ (s : Manager) (u : String) (hdl : Handle) (device : String) (v : HasSockets s)
    (free : (or_else (find hdl s.users) u == u) ≡ true) (named : (u == "") ≡ false)
    (own : 0 < hdl) where
  only : (x : String) → find hdl s.users ≡ some x → x ≡ u
  only x e = ground (arith, string_key.beq_iff x u)

  pub bound_user-HasSockets : HasSockets (bound_user s u hdl device)
  unfolding bound_user
  bound_user-HasSockets = record {
    routed = λ k h e.
        rw (find-set_ordered hdl h u s.users) (elim (new_route_cases u hdl s.routes k h e) [
          | inl old ↦ ground (arith, v.routed k h old, only k)
          | inr (q, o) ↦ rw (q, o, ==_refl hdl) refl
        ]);
    reachable = λ k h e. elim (Bool-cases (hdl == h)) [
      | inl q ↦ new_route_self u hdl s.routes k (new_user k h q e)
      | inr o ↦
          new_route_kept u hdl s.routes k
            (v.reachable k h (rw (find-set_ordered hdl h u s.users, o) at e))
    ];
    owned = λ k h e. ground (arith, find-set_ordered hdl h u s.users, v.owned k h);
    named = λ k h e. ground (arith, find-set_ordered hdl h u s.users, v.named k h);
    watched = λ h e. ground (arith, find-set_ordered hdl h u s.users, v.watched h);
    verified = λ h e. ground (
      arith,
      find-set_ordered hdl h u s.users,
      find-set_ordered hdl h device s.devices,
      v.verified h,
    );
    increasing = set_ordered-AreIncreasing hdl u s.users v.increasing;
  }
    where
      new_user :
          (k : String) (h : Handle)
          → (hdl == h) ≡ true
          → find h (set_ordered hdl u s.users) ≡ some k
          → u ≡ k
      new_user k h q e = ground (arith, find-set_ordered hdl h u s.users)
