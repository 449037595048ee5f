-- ===== src/CredentialQueue/Calls.antt =====
-- Every call, and the start of a job, keeps the counts of the credential queue.
use crossdesk_server.Common.{
  ℕ, zero, suc, ◌+◌, ◌≡◌, refl, subst, String, ◌||◌, Option, none, some, List, [], ◌∷◌, ◌==◌,
  or_else, length, string_key, nat_key, find, Bool-cases, inl, inr, ==_refl, arith,
}
use crossdesk_server.CredentialQueue.{
  Job, Source, Running, CredentialQueue, idle, make, slot, set_slot, completed_of, complete_slot,
  complete, started_on, start_found, start_idle, start, Call, enqueuing, canceling, completing,
  perform, perform_all,
}
use crossdesk_server.CredentialQueue.Counts.{
  running_of, AllOf, absent, present, IsCounted, set-counted, release-counted, taken-running_of,
  freed-running_of, moved-counted, found-counted,
}
use crossdesk_server.CredentialQueue.Waiting.{enqueue-IsCounted, length-remove-le, cancel-IsCounted}

-- A job that ends on a worker.
completed-IsCounted :
    (q : CredentialQueue) (now worker : ℕ) (active : Running) (o : Option Source)
    → IsCounted q
    → slot worker q.running ≡ some (some active)
    → find active.source q.sources ≡ o
    → IsCounted (or_else (completed_of q now worker active o) q)
unfolding completed_of
completed-IsCounted q now worker active none v w f = v
completed-IsCounted q now worker active (some s) v w f =
    let (c, (least, (most, all))) =
      found-counted q.source_capacity q.running active.source _ s (v.counted active.source) f in
    let freed = freed-running_of active.source worker active q.running w in
    record {
      counted =
          release-counted q.source_capacity (set_slot worker none q.running) active.source s
            q.sources (ground (arith, c, freed, ==_refl active.source)) most all
            (λ k d.
              moved-counted q.source_capacity q.running (set_slot worker none q.running) k _
                (ground (arith, d, freed-running_of k worker active q.running w)) (v.counted k));
      positive = v.positive;
      bounded = omega (arith, length-remove-le active.id q.ids, v.bounded);
    }

complete-IsCounted :
    (q : CredentialQueue) (now worker : ℕ)
    → IsCounted q
    → IsCounted (or_else (complete q now worker) q)
unfolding complete complete_slot
complete-IsCounted q now worker v = at_slot (slot worker q.running) refl
  where
    at_slot :
        (o : Option (Option Running))
        → slot worker q.running ≡ o
        → IsCounted (or_else (complete_slot q now worker o) q)
    at_slot none w = v
    at_slot (some none) w = v
    at_slot (some (some active)) w =
        completed-IsCounted q now worker active (find active.source q.sources) v w refl

started-IsCounted :
    (q : CredentialQueue) (now worker : ℕ) (key : String) (s : Source) (waiting : List Job)
    → IsCounted q
    → slot worker q.running ≡ some none
    → find key q.sources ≡ some s
    → s.waiting ≡ waiting
    → IsCounted (started_on q now worker key s waiting)
unfolding started_on AllOf
started-IsCounted q now worker key s [] v w f e = v
started-IsCounted q now worker key s (job ∷ jobs) v w f e =
    let (c, (least, (most, all))) =
      found-counted q.source_capacity q.running key _ s (v.counted key) f in
    let (from, tail) = subst (AllOf key) e all in
    let r : Running = record { id = job.id; source = job.source; started_at = now } in
    let taken = taken-running_of key worker r q.running w in
    let counts : s.outstanding ≡ length (job ∷ jobs) + running_of key q.running =
      subst (λ l. s.outstanding ≡ length l + running_of key q.running) e c in
    record {
      counted =
          set-counted q.source_capacity (set_slot worker (some r) q.running) key
            (record s { waiting = jobs }) q.sources
            (present _ refl (ground (arith, counts, taken, from, ==_refl key)) least most tail)
            (λ k d.
              moved-counted q.source_capacity q.running (set_slot worker (some r) q.running) k _
                (ground (arith, d, from, taken-running_of k worker r q.running w)) (v.counted k));
      positive = v.positive;
      bounded = v.bounded;
    }

pub start-IsCounted :
    (q : CredentialQueue) (now worker : ℕ) (key : String)
    → IsCounted q
    → IsCounted (start q now worker key)
unfolding start start_idle start_found
start-IsCounted q now worker key v = at_slot (slot worker q.running) refl
  where
    with_source :
        (o : Option Source)
        → slot worker q.running ≡ some none
        → find key q.sources ≡ o
        → IsCounted (start_found q now worker key o)
    with_source none w f = v
    with_source (some s) w f = started-IsCounted q now worker key s s.waiting v w f refl

    at_slot :
        (o : Option (Option Running))
        → slot worker q.running ≡ o
        → IsCounted (start_idle q now worker key o)
    at_slot none w = v
    at_slot (some (some active)) w = v
    at_slot (some none) w = with_source (find key q.sources) w refl

pub perform-IsCounted :
    (q : CredentialQueue) (call : Call) → IsCounted q → IsCounted (perform q call)
unfolding perform
perform-IsCounted q (enqueuing now job) v = enqueue-IsCounted q now job v.positive v
perform-IsCounted q (canceling id) v = cancel-IsCounted q id v
perform-IsCounted q (completing now worker) v = complete-IsCounted q now worker v

idle-running_of : (key : String) (workers : ℕ) → running_of key (idle workers) ≡ 0
unfolding running_of idle
idle-running_of key zero = refl
idle-running_of key (suc workers) = omega (arith, idle-running_of key workers)

pub make-IsCounted :
    (workers capacity source_capacity : ℕ) (q : CredentialQueue)
    → make workers capacity source_capacity ≡ some q
    → IsCounted q
unfolding make find
make-IsCounted workers capacity source_capacity q h =
    elim (Bool-cases (workers == 0 || capacity == 0 || source_capacity == 0)) [
      | inl e ↦ absurd (failed refl (rw e at h))
      | inr e ↦ subst IsCounted (made refl (rw e at h)) (record {
        positive = ground arith;
        counted = λ key. absent refl (idle-running_of key workers);
        bounded = omega arith;
      })
    ]
  where
    failed : {o : Option CredentialQueue} → o ≡ none → o ≡ some q → ⊥
    failed p r = cc

    made : {o : Option CredentialQueue} {u : CredentialQueue} → o ≡ some u → o ≡ some q → u ≡ q
    made p r = cc

pub perform_all-IsCounted :
    (q : CredentialQueue) (calls : List Call) → IsCounted q → IsCounted (perform_all q calls)
unfolding perform_all
perform_all-IsCounted q [] v = v
perform_all-IsCounted q (call ∷ calls) v =
    perform_all-IsCounted (perform q call) calls (perform-IsCounted q call v)
