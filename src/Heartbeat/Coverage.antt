-- ===== src/Heartbeat/Coverage.antt =====
-- The worker's deadlines and the leases of the table (worker/src/heartbeat.rs,
-- persistence/src/postgres.rs).
use streaming_video_app.Prelude.{
  ℕ, zero, suc, ◌+◌, ◌*◌, ◌≤◌, ◌≡◌, refl, Text, Bool, Bool-cases, true, false, Option, none, some,
  List, [], ◌∷◌, get_elem?, set, ◌==◌, ==_iff, if◌then◌else◌, ok, err, inl, inr, ap, sym, ◌∙◌,
  subst, arith,
}
use streaming_video_app.Persistence.Port.{JobOperationOutcome, applied, not_owner}
use streaming_video_app.Persistence.Table.{Job}
use streaming_video_app.Persistence.Statements.{renew_row}
use streaming_video_app.Acquisition.Types.{AcquiredJob}
use streaming_video_app.Heartbeat.Deadlines.{OwnershipDeadlines, before_deadline}
use streaming_video_app.Heartbeat.Renewal.{
  Renewal, Extension, Pending, and_then, answer_renewal, with_lease, renew_active, renew_job,
  renew_jobs, extend_visibility, renew_tick, Rows, applied_row, rows_after, IsCovered, IsTimely,
}

get_elem?-set-same : (xs : List ℕ) (i v d : ℕ) → get_elem? (set xs i v) i ≡ some d → d ≡ v
get_elem?-set-same [] i v d h = absurd cc
get_elem?-set-same (x ∷ xs) zero v d h = cc
get_elem?-set-same (x ∷ xs) (suc i) v d h = get_elem?-set-same xs i v d h

get_elem?-set-other :
    (xs : List ℕ) (i j v : ℕ) → (i == j) ≡ false → get_elem? (set xs j v) i ≡ get_elem? xs i
get_elem?-set-other [] i j v h = refl
get_elem?-set-other (x ∷ xs) zero zero v h = absurd cc
get_elem?-set-other (x ∷ xs) zero (suc j) v h = refl
get_elem?-set-other (x ∷ xs) (suc i) zero v h = refl
get_elem?-set-other (x ∷ xs) (suc i) (suc j) v h = get_elem?-set-other xs i j v (ground arith)

accepted :
    (job_id : Text) (d d' : OwnershipDeadlines) (o : Pending JobOperationOutcome)
    → and_then o (answer_renewal job_id d) ≡ some (ok d')
    → d' ≡ d
accepted job_id d d' none e = absurd cc
accepted job_id d d' (some (err x)) e = absurd cc
accepted job_id d d' (some (ok applied)) e = cc
accepted job_id d d' (some (ok not_owner)) e = absurd cc

and_then_ok :
    {A B : Type 0} (o : Pending A) (f : A → Pending B) (b : B)
    → and_then o f ≡ some (ok b)
    → (a : A) × (o ≡ some (ok a)) × (f a ≡ some (ok b))
and_then_ok none f b e = absurd cc
and_then_ok (some (err x)) f b e = absurd cc
and_then_ok (some (ok a)) f b e = (a, refl, e)

kept :
    (d d' : OwnershipDeadlines)
    → ◌≡◌ {A = Pending OwnershipDeadlines} (some (ok d)) (some (ok d'))
    → d ≡ d'
kept d d' e = cc

lease_bound :
    (d started duration expiry now : ℕ)
    → started ≤ now * 1000
    → d ≡ started + duration * 1000
    → some expiry ≡ some (now + duration)
    → d ≤ expiry * 1000
lease_bound d started duration expiry now early deadline expires = ground arith

module _ (acquired : List AcquiredJob) (lease_duration : ℕ) where
  applied_row-expiry :
      (job : AcquiredJob) (renewed_at : Option ℕ) (o : Option Job) (row : Job)
      → applied_row acquired lease_duration job renewed_at o ≡ some row
      → (now : ℕ) × (renewed_at ≡ some now) × (row.lease_expires_at ≡ some (now + lease_duration))
  unfolding renew_row
  applied_row-expiry job none o row e = absurd cc
  applied_row-expiry job (some now) none row e = absurd cc
  applied_row-expiry job (some now) (some before) row e = (now, refl, ground (arith, e))

  kept-IsCovered :
      (index : ℕ) (rows : Rows acquired lease_duration) (deadlines : OwnershipDeadlines)
      → IsCovered acquired lease_duration rows deadlines
      → IsCovered acquired lease_duration (λ i. if i == index then rows index else rows i) deadlines
  kept-IsCovered index rows deadlines h i d expiry row hd hr he = elim (Bool-cases (i == index)) [
    | inl same ↦
        h i d expiry row hd
          (ap rows ((==_iff i index).0 same)
            ∙ (sym (ap (λ b. if b then rows index else rows i) same) ∙ hr))
          he
    | inr other ↦
        h i d expiry row hd (sym (ap (λ b. if b then rows index else rows i) other) ∙ hr) he
  ]

  renewed_lease :
      (index : ℕ) (job : AcquiredJob) (renewal : Renewal) (before : Option Job)
      (deadlines : OwnershipDeadlines)
      → ((now : ℕ) → renewal.renewed_at ≡ some now → renewal.started ≤ now * 1000)
      → (d expiry : ℕ) (row : Job)
      → get_elem? (set deadlines.leases index (renewal.started + lease_duration * 1000)) index
        ≡ some d
      → applied_row acquired lease_duration job renewal.renewed_at before ≡ some row
      → row.lease_expires_at ≡ some expiry
      → d ≤ expiry * 1000
  renewed_lease index job renewal before deadlines timely d expiry row hd hr he =
      let applied_at = applied_row-expiry job renewal.renewed_at before row hr in
      let early = timely applied_at.0 applied_at.1 in
      let deadline =
        get_elem?-set-same deadlines.leases index (renewal.started + lease_duration * 1000) d hd in
      let expires : some expiry ≡ some (applied_at.0 + lease_duration) = sym he ∙ applied_at.2 in
      lease_bound d renewal.started lease_duration expiry applied_at.0 early deadline expires

  renewed-IsCovered :
      (index : ℕ) (job : AcquiredJob) (renewal : Renewal) (rows : Rows acquired lease_duration)
      (deadlines : OwnershipDeadlines)
      → ((now : ℕ) → renewal.renewed_at ≡ some now → renewal.started ≤ now * 1000)
      → IsCovered acquired lease_duration rows deadlines
      → IsCovered acquired lease_duration
          (λ i.
            if i == index
            then applied_row acquired lease_duration job renewal.renewed_at (rows index)
            else rows i)
          (with_lease index (renewal.started + lease_duration * 1000) deadlines)
  renewed-IsCovered index job renewal rows deadlines timely h i d expiry row hd hr he =
      elim (Bool-cases (i == index)) [
        | inl same ↦
            renewed_lease index job renewal (rows index) deadlines timely d expiry row
              (ap (get_elem? (set deadlines.leases index (renewal.started + lease_duration * 1000)))
                  (sym ((==_iff i index).0 same))
                ∙ hd)
              (sym (
                  ap
                    (λ b.
                      if b
                      then applied_row acquired lease_duration job renewal.renewed_at (rows index)
                      else rows i)
                    same)
                ∙ hr)
              he
        | inr other ↦
            h i d expiry row
              (sym (
                  get_elem?-set-other deadlines.leases i index
                    (renewal.started + lease_duration * 1000) other)
                ∙ hd)
              (sym (
                  ap
                    (λ b.
                      if b
                      then applied_row acquired lease_duration job renewal.renewed_at (rows index)
                      else rows i)
                    other)
                ∙ hr)
              he
      ]

  renew_job-IsCovered :
      (index : ℕ) (job : AcquiredJob) (renewal : Renewal) (rows : Rows acquired lease_duration)
      (deadlines deadlines' : OwnershipDeadlines)
      → ((now : ℕ) → renewal.renewed_at ≡ some now → renewal.started ≤ now * 1000)
      → IsCovered acquired lease_duration rows deadlines
      → (b : Bool)
      → (if b
          then renew_active acquired lease_duration index job renewal deadlines
          else some (ok deadlines))
        ≡ some (ok deadlines')
      → IsCovered acquired lease_duration
          (λ i.
            if i == index
            then (if b
                then applied_row acquired lease_duration job renewal.renewed_at (rows index)
                else rows index)
            else rows i)
          deadlines'
  unfolding before_deadline
  renew_job-IsCovered index job renewal rows deadlines deadlines' timely h false e =
      subst (IsCovered acquired lease_duration (λ i. if i == index then rows index else rows i))
        (kept deadlines deadlines' e) (kept-IsCovered index rows deadlines h)
  renew_job-IsCovered index job renewal rows deadlines deadlines' timely h true e =
      subst
        (IsCovered acquired lease_duration (λ i.
          if i == index
          then applied_row acquired lease_duration job renewal.renewed_at (rows index)
          else rows i))
        (sym (
          accepted job.item.job_id _ deadlines' (before_deadline deadlines acquired renewal.turns)
            e))
        (renewed-IsCovered index job renewal rows deadlines timely h)

  renew_jobs-IsCovered :
      (jobs : List AcquiredJob) (index : ℕ) (renewals : ℕ → Renewal)
      (rows : Rows acquired lease_duration) (deadlines deadlines' : OwnershipDeadlines)
      → IsTimely acquired lease_duration renewals
      → IsCovered acquired lease_duration rows deadlines
      → renew_jobs acquired lease_duration jobs index renewals deadlines ≡ some (ok deadlines')
      → IsCovered acquired lease_duration
          (rows_after acquired lease_duration jobs index renewals rows)
          deadlines'
  unfolding renew_jobs renew_job
  renew_jobs-IsCovered [] index renewals rows deadlines deadlines' timely h e =
      subst (IsCovered acquired lease_duration rows) (kept deadlines deadlines' e) h
  renew_jobs-IsCovered (job ∷ jobs) index renewals rows deadlines deadlines' timely h e =
      let first =
        and_then_ok _ (renew_jobs acquired lease_duration jobs (suc index) renewals) deadlines' e in
      renew_jobs-IsCovered jobs (suc index) renewals _ first.0 deadlines' timely
        (renew_job-IsCovered index job (renewals index) rows deadlines first.0 (timely index) h
          (renewals index).active_before first.1)
        first.2

  extended :
      (visibility_extension : ℕ) (extension : Extension) (deadlines deadlines' : OwnershipDeadlines)
      → extend_visibility acquired lease_duration visibility_extension extension deadlines
        ≡ some (ok deadlines')
      → record deadlines { visibility = extension.started + visibility_extension * 1000 }
        ≡ deadlines'
  unfolding extend_visibility before_deadline
  extended visibility_extension extension deadlines deadlines' e =
      let answered =
        and_then_ok (before_deadline deadlines acquired extension.turns)
          (λ _. some (
            ok (record deadlines { visibility = extension.started + visibility_extension * 1000 })))
          deadlines' e in
      kept _ deadlines' answered.2

  -- Where a tick ends well, each request that the database applied was applied no earlier than the
  -- instant noted before it, and every deadline of a lease was covered by the expiry in its job's
  -- row, each deadline after the tick is covered by the expiry in the row that the tick leaves to
  -- its owner; and the deadline of the visibility is one extension after the instant noted before
  -- the request for it.
  pub renew_tick-IsCovered :
      (visibility_extension : ℕ) (renewals : ℕ → Renewal) (extension : Extension)
      (rows : Rows acquired lease_duration) (deadlines deadlines' : OwnershipDeadlines)
      → IsTimely acquired lease_duration renewals
      → IsCovered acquired lease_duration rows deadlines
      → renew_tick acquired lease_duration visibility_extension renewals extension deadlines
        ≡ some (ok deadlines')
      → IsCovered acquired lease_duration
          (rows_after acquired lease_duration acquired 0 renewals rows)
          deadlines'
        × (deadlines'.visibility ≡ extension.started + visibility_extension * 1000)
  unfolding renew_tick
  renew_tick-IsCovered visibility_extension renewals extension rows deadlines deadlines' timely h
        e =
      let jobs =
        and_then_ok _ (extend_visibility acquired lease_duration visibility_extension extension)
          deadlines' e in
      let last = extended visibility_extension extension jobs.0 deadlines' jobs.2 in
      (
        subst
            (IsCovered acquired lease_duration
              (rows_after acquired lease_duration acquired 0 renewals rows))
            last (renew_jobs-IsCovered acquired 0 renewals rows deadlines jobs.0 timely h jobs.1),
        sym (ap (λ d. d.visibility) last),
      )
