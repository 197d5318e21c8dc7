-- ===== src/Progress/Clicking.antt =====
-- What one click on a job state does to its bar.
use text.Mathlib.Text.{◌==◌ as str_eq}
use text.Mathlib.TextEquality.{eq_iff}
use hellogit.Common.{
  ℕ, ◌≡◌, refl, sym, ap, ◌∙◌, ◌↔◌, ◌⊎◌, inl, inr, String, Bool, true, false, not, ◌||◌, Option,
  none, some, List, [], ◌∷◌, arith, update, if◌then◌else◌, Bool-cases,
}
use hellogit.Progress.{
  Job, get_status, get_icon, Bar, Bars, Circles, is_set, validate_drop_down_job, close_circles,
  close_all, close_drop_down, toggled, click_job_state,
}
use hellogit.Progress.OneOpen.{is_listed, closed_listed}

-- The bar holds no job, or this one.
abbrev pub IsFree : Job → Option String → Type 0
IsFree job none = Unit
IsFree job (some s) = (s ≡ "") ⊎ (s ≡ job.id)

is_free : Job → Option String → Bool
is_free job current =
    not (is_set current) || elim current [ none ↦ false | some s ↦ str_eq job.id s ]

is_free_iff :
    (job : Job) (current : Option String) → (is_free job current ≡ true) ↔ IsFree job current
unfolding is_free
is_free_iff job none = (λ _. tt, λ _. refl)
is_free_iff job (some s) = (
  λ h. elim (Bool-cases (str_eq s "")) [
    | inl e ↦ inl ((eq_iff s "").0 e)
    | inr e ↦ inr (sym ((eq_iff job.id s).0 (rw e at h)))
  ],
  λ f. elim f [
    | inl e ↦ rw ((eq_iff s "").1 e) refl
    | inr e ↦ elim (Bool-cases (str_eq s "")) [
      | inl n ↦ rw n refl
      | inr n ↦ rw (n, (eq_iff job.id s).1 (sym e)) refl
    ]
  ],
)

toggled_free :
    (job : Job) (bar : Bar)
    → bar.toggle_drop_down ≡ false
    → (toggled job bar).toggle_drop_down ≡ is_free job bar.current_toggle_job_
unfolding toggled validate_drop_down_job is_free
toggled_free job bar h =
    elim (Bool-cases (
      not (is_set bar.current_toggle_job_)
      || elim bar.current_toggle_job_ [ none ↦ false | some s ↦ str_eq job.id s ])) [
        | inl e ↦ rw (h, e) refl
        | inr e ↦ rw (h, e) refl
      ]

toggled_current :
    (job : Job) (bar : Bar)
    → (toggled job bar).current_toggle_job_
      ≡ some (if (toggled job bar).toggle_drop_down then job.id else "")
unfolding toggled
toggled_current job bar = refl

-- Closing drop-downs keeps the jobs that the bars hold.
close_all_current :
    (bs : List ℕ) (bars : Bars) (b : ℕ)
    → (close_all bs bars b).current_toggle_job_ ≡ (bars b).current_toggle_job_
unfolding close_all close_drop_down
close_all_current [] bars b = refl
close_all_current (a ∷ bs) bars b =
    close_all_current bs (update bars a (close_drop_down (bars a))) b ∙ ground arith

close_circles_current :
    (bs : Option (List ℕ)) (bars : Bars) (b : ℕ)
    → (close_circles bs bars b).current_toggle_job_ ≡ (bars b).current_toggle_job_
unfolding close_circles
close_circles_current none bars b = refl
close_circles_current (some bs) bars b = close_all_current bs bars b

clicked :
    (circles : Circles) (k : ℕ) (job : Job) (bars : Bars)
    → click_job_state circles k job bars k
      ≡ toggled job
          (close_circles circles.mip_management (close_circles circles.node_management bars) k)
unfolding click_job_state
clicked circles k job bars = ground arith

-- On a listed bar, whether its drop-down is open or not, a click on a job state opens it exactly
-- when the bar held no job or this one, and the bar then holds the job. Otherwise the bar is closed
-- and holds none.
pub click_job_state_iff :
    (circles : Circles) (k : ℕ) (job : Job) (bars : Bars)
    → is_listed circles k ≡ true
    → let after = click_job_state circles k job bars k in
      ((after.toggle_drop_down ≡ true) ↔ IsFree job (bars k).current_toggle_job_)
      × (after.current_toggle_job_ ≡ some (if after.toggle_drop_down then job.id else ""))
click_job_state_iff circles k job bars l =
    let closed =
      close_circles circles.mip_management (close_circles circles.node_management bars) k in
    let open_is =
      ap (λ (b : Bar). b.toggle_drop_down) (clicked circles k job bars)
      ∙ toggled_free job closed (closed_listed circles bars k l)
      ∙ ap (is_free job) (
          close_circles_current circles.mip_management (close_circles circles.node_management bars)
            k
          ∙ close_circles_current circles.node_management bars k) in
    let (to, from) = is_free_iff job (bars k).current_toggle_job_ in
    (
      (λ h. to (sym open_is ∙ h), λ f. open_is ∙ from f),
      rw (clicked circles k job bars) (toggled_current job closed),
    )

-- Two jobs have the same icon exactly when they have the same status.
pub get_icon-get_status : (i j : Job) → (get_icon i ≡ get_icon j) ↔ (get_status i ≡ get_status j)
unfolding get_icon get_status
get_icon-get_status i j = (λ h. ground arith, λ h. ground arith)
