-- ===== src/Stdout/Retry.antt =====
-- When the dialog offers to retry the job.
use text.Mathlib.Text.{◌==◌}
use text.Mathlib.TextEquality.{eq_iff}
use hellogit.Common.{
  ◌≡◌, refl, ap, ◌≢◌, ◌↔◌, ◌⊎◌, inl, inr, String, Bool, true, false, arith, Option, none, some,
  Bool-cases,
}
use hellogit.Rest.{ok}
use hellogit.Stdout.{Console, reply_get, replied_job_get, handle}

-- A retry is offered after the job's status has come exactly when it is 'failed', or when it was
-- offered before and the status is neither missing, nor 'started', nor 'failed': so after a retry
-- it stays offered while the new run is queued.
pub retry_iff :
    (status : Option String) (s : Console)
    → ((handle (reply_get (ok (some status))) s).0.allow_retry ≡ some true) ↔ (
        (status ≡ some "failed")
        ⊎ ((s.allow_retry ≡ some true) × (status ≢ none) × (status ≢ some "started")))
unfolding handle replied_job_get
retry_iff none s = (λ h. cc, λ d. elim d [ inl e ↦ cc | inr t ↦ absurd (t.1 refl) ])
retry_iff (some status) s =
    (to (Bool-cases (status == "started")), from (Bool-cases (status == "started")))
  where
    after : Option Bool
    after = (handle (reply_get (ok (some (some status)))) s).0.allow_retry

    Before : Type 0
    Before =
        (some status ≡ some "failed")
        ⊎ ((s.allow_retry ≡ some true) × (some status ≢ none) × (some status ≢ some "started"))

    to :
        ((status == "started") ≡ true) ⊎ ((status == "started") ≡ false)
        → after ≡ some true
        → Before
    to (inl e) h = ground arith
    to (inr e) h = elim (Bool-cases (status == "failed")) [
      | inl f ↦ inl (ap some ((eq_iff _ _).0 f))
      | inr f ↦ inr (ground arith, λ q. cc, λ q. ground (arith, eq_iff status "started"))
    ]

    from :
        ((status == "started") ≡ true) ⊎ ((status == "started") ≡ false)
        → Before
        → after ≡ some true
    from (inl e) (inl f) = ground (arith, eq_iff status "started", eq_iff "failed" "started")
    from (inl e) (inr t) = absurd (t.2 (ap some ((eq_iff _ _).0 e)))
    from (inr e) (inl f) = ground (arith, eq_iff status "failed")
    from (inr e) (inr t) = ground arith
