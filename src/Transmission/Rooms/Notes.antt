-- ===== src/Transmission/Rooms/Notes.antt =====
-- What an observer of the notifications knows: replaying them gives who is a guest of which room.
use crossdesk_server.Common.{
  ℕ, String, ◌≡◌, refl, ap, ◌∙◌, Bool, true, false, ◌&&◌, not, List, [], ◌∷◌, ◌++◌, ◌==◌,
  if◌then◌else◌, contains, remove, contains-append, contains-remove, string_key, Assoc, set_ordered,
  erase, ==_refl, inl, inr, arith,
}
use mathlib.Core.List.{append-nil, append_assoc}
use crossdesk_server.Transmission.State.{Note, remote_control, session_timeout, Manager}
use crossdesk_server.Transmission.Rooms.Invariant.{
  guests_in, key_cases, guests_in-set, guests_in-erase,
}
use crossdesk_server.Transmission.Rooms.Removal.{left_in, guests_in-left_in}

abbrev pub View : Type 0
View = String → String → Bool

-- A start or an end of remote control, as the database records it.
abbrev pub observe : Note → View → View
observe (remote_control room host guest started) view r g =
    if room == r && guest == g then started else view r g
observe (session_timeout hdl user) view r g = view r g

abbrev pub replay : List Note → View → View
replay [] view = view
replay (note ∷ notes) view = replay notes (observe note view)

pub replay-append :
    (xs ys : List Note) (view : View) → replay (xs ++ ys) view ≡ replay ys (replay xs view)
replay-append [] ys view = refl
replay-append (x ∷ xs) ys view = replay-append xs ys (observe x view)

-- All notifications so far, run or waiting.
abbrev pub log : Manager → List Note
log s = s.delivered ++ s.pending

abbrev pub Mirrors : View → List Note → Assoc String (List String) → Type 0
Mirrors view notes guests =
    (room guest : String) → replay notes view room guest ≡ contains (guests_in room guests) guest

-- What a sequence of operations starts from: how deep the scopes are and whether the callback is
-- set, which both stay; the notifications so far, and who is a guest of which room.
pub record Start : Type 0 where
  pub depth : ℕ
  pub callback : Bool
  pub past : List Note
  pub view : View

-- The notifications since the start, replayed, give the guests.
abbrev pub Follows : Start → List Note → Assoc String (List String) → Type 0
Follows b notes guests =
    (since : List Note) × ((notes ≡ b.past ++ since) × Mirrors b.view since guests)

pub Follows-more :
    (b : Start) (notes more : List Note) (guests guests' : Assoc String (List String))
    → ((since : List Note) → Mirrors b.view since guests → Mirrors b.view (since ++ more) guests')
    → Follows b notes guests
    → Follows b (notes ++ more) guests'
Follows-more b notes more guests guests' k (since, (e, m)) =
    (since ++ more, (ap (λ l. l ++ more) e ∙ append_assoc b.past since more, k since m))

-- The log as it was before a scope opened, extended by what the scope notified.
pub log_deliver :
    (delivered pending : List Note) (all : Bool)
    → (delivered ++ (if all then pending else [])) ++ (if all then [] else pending)
      ≡ delivered ++ pending
log_deliver delivered pending true = append-nil (delivered ++ pending)
log_deliver delivered pending false = rw append-nil

pub Mirrors-started :
    (view : View) (notes : List Note) (guests : Assoc String (List String))
    (room host guest : String)
    → Mirrors view notes guests
    → Mirrors view
        (notes ++ remote_control room host guest true ∷ [])
        (set_ordered room (guests_in room guests ++ guest ∷ []) guests)
Mirrors-started view notes guests room host guest m r g =
    rw (replay-append notes (remote_control room host guest true ∷ []) view)
      (elim (key_cases room r) [
        | inl q ↦
            rw
              (
                ← q,
                guests_in-set room room (guests_in room guests ++ guest ∷ []) guests,
                ==_refl room,
              )
              (ground (arith, contains-append (guests_in room guests) guest g, m room g))
        | inr o ↦ rw (guests_in-set room r (guests_in room guests ++ guest ∷ []) guests, o) (m r g)
      ])

pub Mirrors-ended :
    (view : View) (notes : List Note) (guests : Assoc String (List String))
    (room host guest : String)
    → Mirrors view notes guests
    → Mirrors view
        (notes ++ remote_control room host guest false ∷ [])
        (left_in room (remove guest (guests_in room guests)) guests)
Mirrors-ended view notes guests room host guest m r g =
    rw (replay-append notes (remote_control room host guest false ∷ []) view)
      (elim (key_cases room r) [
        | inl q ↦
            rw
              (
                ← q,
                guests_in-left_in room room (remove guest (guests_in room guests)) guests,
                ==_refl room,
              )
              (ground (arith, contains-remove guest (guests_in room guests) g, m room g))
        | inr o ↦
            rw (guests_in-left_in room r (remove guest (guests_in room guests)) guests, o) (m r g)
      ])

-- The notifications of a released room.
abbrev pub ended_notes : String → String → List String → List Note
ended_notes room host [] = []
ended_notes room host (g ∷ gs) = remote_control room host g false ∷ ended_notes room host gs

replay-ended_notes_same :
    (room host : String) (gs : List String) (view : View) (g : String)
    → replay (ended_notes room host gs) view room g ≡ (not (contains gs g) && view room g)
unfolding contains
replay-ended_notes_same room host [] view g = refl
replay-ended_notes_same room host (x ∷ gs) view g = ground (
  arith,
  ==_refl room,
  replay-ended_notes_same room host gs (observe (remote_control room host x false) view) g,
)

replay-ended_notes_other :
    (room host : String) (gs : List String) (view : View) (r g : String)
    → (room == r) ≡ false
    → replay (ended_notes room host gs) view r g ≡ view r g
replay-ended_notes_other room host [] view r g o = refl
replay-ended_notes_other room host (x ∷ gs) view r g o =
    replay-ended_notes_other room host gs (observe (remote_control room host x false) view) r g o
    ∙ rw o

pub Mirrors-released :
    (view : View) (notes : List Note) (guests : Assoc String (List String)) (room host : String)
    → Mirrors view notes guests
    → Mirrors view (notes ++ ended_notes room host (guests_in room guests)) (erase room guests)
unfolding contains
Mirrors-released view notes guests room host m r g =
    rw (replay-append notes (ended_notes room host (guests_in room guests)) view)
      (elim (key_cases room r) [
        | inl q ↦
            rw
              (
                ← q,
                guests_in-erase room room guests,
                ==_refl room,
                replay-ended_notes_same room host (guests_in room guests) (replay notes view) g,
              )
              (ground (arith, m room g))
        | inr o ↦
            rw
              (
                guests_in-erase room r guests,
                o,
                replay-ended_notes_other room host (guests_in room guests) (replay notes view) r g
                    o,
              )
              (m r g)
      ])
