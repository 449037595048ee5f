-- ===== src/CredentialQueue/Waiting.antt =====
-- Jobs that begin and cease to wait keep the counts of the credential queue.
use crossdesk_server.Common.{
  ℕ, suc, ◌≤◌, ◌<◌, ◌≡◌, refl, ap, subst, String, false, Option, none, some, List, [], ◌∷◌, ◌==◌,
  leb, length, length-append, contains, remove, string_key, nat_key, find, Bool-cases, inl, inr,
  arith,
}
use crossdesk_server.CredentialQueue.{
  Job, Source, CredentialQueue, is_source_full, with_job, accept, enqueue, bump, kept, without_job,
  release, canceled_in, cancel_source, first_of, cancel_loop, keys_of, cancel,
}
use crossdesk_server.CredentialQueue.Counts.{
  AllOf, IsCountedIn, absent, present, IsCounted, set-counted, release-counted, append-AllOf,
  found-counted,
}

with_job-counted :
    (q : CredentialQueue) (job : Job) (o : Option Source)
    → 0 < q.source_capacity
    → is_source_full q o ≡ false
    → IsCountedIn q.source_capacity q.running job.source o
    → IsCountedIn q.source_capacity q.running job.source (some (with_job job o))
unfolding is_source_full with_job AllOf
with_job-counted q job none x f (absent n h) =
    present _ refl (omega (arith, h)) (omega arith) (omega (arith, x)) (refl, tt)
with_job-counted q job none x f (present s n c p m a) = absurd (cc)
with_job-counted q job (some s) x f v =
    let (c, (p, (m, a))) = found-counted q.source_capacity q.running job.source (some s) s v refl in
    present _ refl (ground (arith, length-append s.waiting (job ∷ []), c)) (omega arith)
      (ground (arith, f)) (append-AllOf job.source s.waiting job a refl)

accept-IsCounted :
    (q : CredentialQueue) (job : Job)
    → 0 < q.source_capacity
    → length q.ids < q.capacity
    → IsCounted q
    → IsCounted (accept q job (find job.source q.sources)).0
unfolding accept
accept-IsCounted q job x room v =
    let found = find job.source q.sources in
    elim (Bool-cases (is_source_full q found)) [
      | inl e ↦ rw e (record { positive = v.positive; counted = v.counted; bounded = v.bounded })
      | inr e ↦ rw e (record {
        counted =
            set-counted q.source_capacity q.running job.source (with_job job found) q.sources
              (with_job-counted q job found x e (v.counted job.source)) (λ k d. v.counted k);
        positive = v.positive;
        bounded = omega (arith, length-append q.ids (job.id ∷ []), room);
      })
    ]

pub enqueue-IsCounted :
    (q : CredentialQueue) (now : ℕ) (job : Job)
    → 0 < q.source_capacity
    → IsCounted q
    → IsCounted (enqueue q now job).0
unfolding enqueue
enqueue-IsCounted q now job x v = elim (Bool-cases (leb q.capacity (length q.ids))) [
  | inl e ↦ rw e (record { positive = v.positive; counted = v.counted; bounded = v.bounded })
  | inr e ↦ elim (Bool-cases (contains q.ids job.id)) [
    | inl f ↦ rw (e, f) v
    | inr f ↦ rw (e, f) (accept-IsCounted q _ x (ground arith) v)
  ]
]

pub length-remove-le : (id : ℕ) (ids : List ℕ) → length (remove id ids) ≤ length ids
unfolding remove
length-remove-le id [] = omega arith
length-remove-le id (x ∷ xs) = ground (arith, length-remove-le id xs)

without_job-counted :
    (id : ℕ) (key : String) (jobs rest : List Job)
    → without_job id jobs ≡ some rest
    → AllOf key jobs
    → (length jobs ≡ suc (length rest)) × AllOf key rest
unfolding without_job kept AllOf
without_job-counted id key [] rest h a = absurd (cc)
without_job-counted id key (job ∷ jobs) rest h a = elim (Bool-cases (job.id == id)) [
  | inl e ↦
      let same : some jobs ≡ some rest = rw e at h in
      let equal : jobs ≡ rest = cc in (ap (λ r. suc (length r)) equal, subst (AllOf key) equal a.1)
  | inr e ↦
      later (without_job id jobs) (λ tail f. without_job-counted id key jobs tail f a.1) (rw e at h)
]
  where
    later :
        (o : Option (List Job))
        → ((tail : List Job) → o ≡ some tail → (length jobs ≡ suc (length tail)) × AllOf key tail)
        → kept job o ≡ some rest
        → (length (job ∷ jobs) ≡ suc (length rest)) × AllOf key rest
    later none k h = absurd (cc)
    later (some tail) k h =
        let equal : job ∷ tail ≡ rest = cc in
        let (c, all) = k tail refl in
        subst (λ r. (length (job ∷ jobs) ≡ suc (length r)) × AllOf key r) equal
          (omega (arith, c), (a.0, all))

canceled_in-IsCounted :
    (q : CredentialQueue) (id : ℕ) (key : String) (s : Source) (o : Option (List Job))
    (p : CredentialQueue)
    → IsCounted q
    → find key q.sources ≡ some s
    → without_job id s.waiting ≡ o
    → canceled_in q id key s o ≡ some p
    → IsCounted p
unfolding canceled_in
canceled_in-IsCounted q id key s none p v f e h = absurd (cc)
canceled_in-IsCounted q id key s (some rest) p v f e h =
    let (c, (least, (most, all))) =
      found-counted q.source_capacity q.running key _ s (v.counted key) f in
    let (n, tail) = without_job-counted id key s.waiting rest e all in
    let r : CredentialQueue = record q {
      ids = remove id q.ids;
      sources = release key (record s { waiting = rest }) q.sources;
      stats = record q.stats { canceled = bump q.stats.canceled };
    } in
    let equal : r ≡ p = cc in
    subst IsCounted equal (record {
      counted =
          release-counted q.source_capacity q.running key (record s { waiting = rest }) q.sources
            (omega (arith, c, n)) most tail (λ k d. v.counted k);
      positive = v.positive;
      bounded = omega (arith, length-remove-le id q.ids, v.bounded);
    })

cancel_source-IsCounted :
    (q : CredentialQueue) (id : ℕ) (key : String) (o : Option Source) (p : CredentialQueue)
    → IsCounted q
    → find key q.sources ≡ o
    → cancel_source q id key o ≡ some p
    → IsCounted p
unfolding cancel_source
cancel_source-IsCounted q id key none p v f h = absurd (cc)
cancel_source-IsCounted q id key (some s) p v f h =
    canceled_in-IsCounted q id key s (without_job id s.waiting) p v f refl h

first-IsCounted :
    (o : Option CredentialQueue) (rest : CredentialQueue)
    → ((p : CredentialQueue) → o ≡ some p → IsCounted p)
    → IsCounted rest
    → IsCounted (first_of o rest)
unfolding first_of
first-IsCounted none rest k v = v
first-IsCounted (some p) rest k v = k p refl

cancel_loop-IsCounted :
    (q : CredentialQueue) (id : ℕ) (keys : List String)
    → IsCounted q
    → IsCounted (cancel_loop q id keys)
unfolding cancel_loop
cancel_loop-IsCounted q id [] v = v
cancel_loop-IsCounted q id (key ∷ keys) v =
    first-IsCounted (cancel_source q id key (find key q.sources)) _
      (λ p h. cancel_source-IsCounted q id key (find key q.sources) p v refl h)
      (cancel_loop-IsCounted q id keys v)

pub cancel-IsCounted : (q : CredentialQueue) (id : ℕ) → IsCounted q → IsCounted (cancel q id)
unfolding cancel
cancel-IsCounted q id v = cancel_loop-IsCounted q id (keys_of q.sources) v
