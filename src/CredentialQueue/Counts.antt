-- ===== src/CredentialQueue/Counts.antt =====
-- The counts of the credential queue.
use crossdesk_server.Common.{
  ℕ, zero, suc, ◌+◌, ◌≤◌, ◌<◌, ◌≡◌, refl, subst, String, Bool, false, Option, none, some, List, [],
  ◌∷◌, ◌++◌, ◌==◌, if◌then◌else◌, length, count_if, string_key, nat_key, Assoc, find, set_ordered,
  erase, find-set_ordered, find-erase, Bool-cases, inl, inr, arith,
}
use crossdesk_server.CredentialQueue.{
  Job, Source, Running, CredentialQueue, decrement, release, slot, set_slot,
}

runs_for : String → Option Running → Bool
runs_for key none = false
runs_for key (some r) = r.source == key

-- The number of workers with a job of the source.
unfoldable pub running_of : String → List (Option Running) → ℕ
unfolding count_if runs_for
running_of key [] = 0
running_of key (r ∷ running) = (if runs_for key r then 1 else 0) + running_of key running

unfoldable pub AllOf : String → List Job → Type 0
AllOf key [] = Unit
AllOf key (job ∷ jobs) = (job.source ≡ key) × AllOf key jobs

-- A source counts its jobs: those that wait and those that run, at least one and at most
-- `source_capacity`. Without a source no job of it runs.
pub data IsCountedIn (bound : ℕ) (running : List (Option Running)) (key : String)
    (o : Option Source) : Type 0 where
  absent : o ≡ none → running_of key running ≡ 0 → IsCountedIn bound running key o
  present :
      (s : Source)
      → o ≡ some s
      → s.outstanding ≡ length s.waiting + running_of key running
      → 0 < s.outstanding
      → s.outstanding ≤ bound
      → AllOf key s.waiting
      → IsCountedIn bound running key o

pub record IsCounted (q : CredentialQueue) : Type 0 where
  pub positive : 0 < q.source_capacity
  pub counted : (key : String) → IsCountedIn q.source_capacity q.running key (find key q.sources)
  pub bounded : length q.ids ≤ q.capacity

pub set-counted :
    (bound : ℕ) (running : List (Option Running)) (key : String) (s : Source)
    (m : Assoc String Source)
    → IsCountedIn bound running key (some s)
    → ((k : String) → (key == k) ≡ false → IsCountedIn bound running k (find k m))
    → (k : String) → IsCountedIn bound running k (find k (set_ordered key s m))
set-counted bound running key s m own others k = elim (Bool-cases (key == k)) [
  | inl e ↦
      let same : key ≡ k = (string_key.beq_iff key k).0 e in
      rw (find-set_ordered key k s m, e)
        (subst (λ i. IsCountedIn bound running i (some s)) same own)
  | inr e ↦ rw (find-set_ordered key k s m, e) (others k e)
]

pub erase-counted :
    (bound : ℕ) (running : List (Option Running)) (key : String) (m : Assoc String Source)
    → running_of key running ≡ 0
    → ((k : String) → (key == k) ≡ false → IsCountedIn bound running k (find k m))
    → (k : String) → IsCountedIn bound running k (find k (erase key m))
erase-counted bound running key m own others k = elim (Bool-cases (key == k)) [
  | inl e ↦
      let same : key ≡ k = (string_key.beq_iff key k).0 e in
      rw (find-erase key k m, e) (absent refl (subst (λ i. running_of i running ≡ 0) same own))
  | inr e ↦ rw (find-erase key k m, e) (others k e)
]

pub release-counted :
    (bound : ℕ) (running : List (Option Running)) (key : String) (s : Source)
    (m : Assoc String Source)
    → s.outstanding ≡ suc (length s.waiting + running_of key running)
    → s.outstanding ≤ bound
    → AllOf key s.waiting
    → ((k : String) → (key == k) ≡ false → IsCountedIn bound running k (find k m))
    → (k : String) → IsCountedIn bound running k (find k (release key s m))
unfolding release decrement
release-counted bound running key s m count most all others k =
    elim (Bool-cases (decrement s.outstanding == 0)) [
      | inl e ↦ rw e (erase-counted bound running key m (ground (arith, decrement)) others k)
      | inr e ↦ rw e (
          set-counted bound running key (record s { outstanding = decrement s.outstanding }) m
            (present _ refl (ground (arith, decrement)) (ground (arith, decrement))
              (ground (arith, decrement)) all)
            others k)
    ]

pub append-AllOf :
    (key : String) (jobs : List Job) (job : Job)
    → AllOf key jobs
    → job.source ≡ key
    → AllOf key (jobs ++ job ∷ [])
unfolding AllOf
append-AllOf key [] job a e = (e, tt)
append-AllOf key (j ∷ jobs) job a e = (a.0, append-AllOf key jobs job a.1 e)

slot-running_of :
    (key : String) (worker : ℕ) (old new : Option Running) (running : List (Option Running))
    → slot worker running ≡ some old
    → running_of key (set_slot worker new running) + (if runs_for key old then 1 else 0)
      ≡ running_of key running + (if runs_for key new then 1 else 0)
unfolding slot set_slot running_of
slot-running_of key worker old new [] h = absurd (cc)
slot-running_of key zero old new (r ∷ running) h = let same : r ≡ old = cc in rw same (omega arith)
slot-running_of key (suc worker) old new (r ∷ running) h =
    omega (arith, slot-running_of key worker old new running h)

-- One job more runs for its own source, and as many as before for the others.
pub taken-running_of :
    (key : String) (worker : ℕ) (r : Running) (running : List (Option Running))
    → slot worker running ≡ some none
    → running_of key (set_slot worker (some r) running)
      ≡ running_of key running + (if r.source == key then 1 else 0)
unfolding runs_for
taken-running_of key worker r running h =
    omega (arith, slot-running_of key worker none (some r) running h)

pub freed-running_of :
    (key : String) (worker : ℕ) (r : Running) (running : List (Option Running))
    → slot worker running ≡ some (some r)
    → running_of key (set_slot worker none running) + (if r.source == key then 1 else 0)
      ≡ running_of key running
unfolding runs_for
freed-running_of key worker r running h =
    omega (arith, slot-running_of key worker (some r) none running h)

pub moved-counted :
    (bound : ℕ) (running running' : List (Option Running)) (key : String) (o : Option Source)
    → running_of key running' ≡ running_of key running
    → IsCountedIn bound running key o
    → IsCountedIn bound running' key o
moved-counted bound running running' key o e (absent n h) = absent n (rw e h)
moved-counted bound running running' key o e (present s n c p m a) = present s n (rw e c) p m a

-- What the source of a lookup counts.
pub found-counted :
    (bound : ℕ) (running : List (Option Running)) (key : String) (o : Option Source) (s : Source)
    → IsCountedIn bound running key o
    → o ≡ some s
    → (s.outstanding ≡ length s.waiting + running_of key running)
      × ((0 < s.outstanding) × ((s.outstanding ≤ bound) × AllOf key s.waiting))
found-counted bound running key o s (absent n h) e = absurd (cc)
found-counted bound running key o s (present u n c p m a) e =
    let same : u ≡ s = cc in
    subst
      (λ v.
        (v.outstanding ≡ length v.waiting + running_of key running)
        × ((0 < v.outstanding) × ((v.outstanding ≤ bound) × AllOf key v.waiting)))
      same (c, (p, (m, a)))
