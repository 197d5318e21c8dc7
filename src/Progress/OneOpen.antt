-- ===== src/Progress/OneOpen.antt =====
-- At most one drop-down of a page is open.
use hellogit.Common.{
  ℕ, ◌≡◌, sym, ◌∙◌, inl, inr, Bool, true, false, ◌||◌, Option, none, some, List, [], ◌∷◌, arith,
  ◌==◌, any, All, update, Bool-cases,
}
use hellogit.Progress.{
  Job, Bar, constructed, Bars, Circles, close_drop_down, close_all, close_circles, click_job_state,
  window_click, Event, click, window, handle, run,
}

abbrev pub is_in : ℕ → Option (List ℕ) → Bool
is_in b none = false
is_in b (some bs) = any (λ a. a == b) bs

-- The bar is among the page's circles.
abbrev pub is_listed : Circles → ℕ → Bool
is_listed circles b = is_in b circles.node_management || is_in b circles.mip_management

abbrev pub is_open : Bars → ℕ → Bool
is_open bars b = (bars b).toggle_drop_down

-- Closing leaves no bar open that was closed.
close_all_closed :
    (bs : List ℕ) (bars : Bars) (b : ℕ)
    → is_open bars b ≡ false
    → is_open (close_all bs bars) b ≡ false
unfolding close_all close_drop_down
close_all_closed [] bars b h = h
close_all_closed (a ∷ bs) bars b h =
    close_all_closed bs (update bars a (close_drop_down (bars a))) b (ground arith)

close_all_listed :
    (bs : List ℕ) (bars : Bars) (b : ℕ)
    → any (λ a. a == b) bs ≡ true
    → is_open (close_all bs bars) b ≡ false
unfolding close_all close_drop_down
close_all_listed [] bars b h = cc
close_all_listed (a ∷ bs) bars b h = elim (Bool-cases (a == b)) [
  | inl e ↦ close_all_closed bs (update bars a (close_drop_down (bars a))) b (ground arith)
  | inr ne ↦ close_all_listed bs (update bars a (close_drop_down (bars a))) b (ground arith)
]

close_circles_closed :
    (bs : Option (List ℕ)) (bars : Bars) (b : ℕ)
    → is_open bars b ≡ false
    → is_open (close_circles bs bars) b ≡ false
unfolding close_circles
close_circles_closed none bars b h = h
close_circles_closed (some bs) bars b h = close_all_closed bs bars b h

close_circles_listed :
    (bs : Option (List ℕ)) (bars : Bars) (b : ℕ)
    → is_in b bs ≡ true
    → is_open (close_circles bs bars) b ≡ false
unfolding close_circles
close_circles_listed none bars b h = cc
close_circles_listed (some bs) bars b h = close_all_listed bs bars b h

-- Every open bar is listed, and at most one is open.
pub record OneOpen (circles : Circles) (bars : Bars) : Type 0 where
  pub listed : (b : ℕ) → is_open bars b ≡ true → is_listed circles b ≡ true
  pub one : (a b : ℕ) → is_open bars a ≡ true → is_open bars b ≡ true → a ≡ b

module _ (circles : Circles) where
  -- After `click_job_state` has closed the drop-downs, no listed bar is open.
  pub closed_listed :
      (bars : Bars) (b : ℕ)
      → is_listed circles b ≡ true
      → is_open
          (close_circles circles.mip_management (close_circles circles.node_management bars))
          b
        ≡ false
  closed_listed bars b h = elim (Bool-cases (is_in b circles.node_management)) [
    | inl e ↦
        close_circles_closed circles.mip_management (close_circles circles.node_management bars) b
          (close_circles_listed circles.node_management bars b e)
    | inr e ↦
        close_circles_listed circles.mip_management (close_circles circles.node_management bars) b
          (rw e at h)
  ]

  all_closed :
      (bars : Bars) (b : ℕ)
      → OneOpen circles bars
      → is_open
          (close_circles circles.mip_management (close_circles circles.node_management bars))
          b
        ≡ false
  all_closed bars b h = elim (Bool-cases (is_open bars b)) [
    | inl e ↦ closed_listed bars b (h.listed b e)
    | inr e ↦
        close_circles_closed circles.mip_management (close_circles circles.node_management bars) b
          (close_circles_closed circles.node_management bars b e)
  ]

  click_only :
      (k : ℕ) (job : Job) (bars : Bars) (b : ℕ)
      → OneOpen circles bars
      → is_open (click_job_state circles k job bars) b ≡ true
      → b ≡ k
  unfolding click_job_state
  click_only k job bars b h e = ground (arith, all_closed bars b h)

  abbrev pub IsListedClick : Event → Type 0
  IsListedClick (click k job) = is_listed circles k ≡ true
  IsListedClick (window icon) = Unit

  window_open :
      (icon : Bool) (bar : Bar)
      → (window_click icon bar).toggle_drop_down ≡ true
      → bar.toggle_drop_down ≡ true
  unfolding window_click
  window_open icon bar h = ground arith

  handle-OneOpen :
      (e : Event) (bars : Bars)
      → IsListedClick e
      → OneOpen circles bars
      → OneOpen circles (handle circles e bars)
  unfolding handle
  handle-OneOpen (click k job) bars l h = record {
    listed = λ b o. rw (click_only k job bars b h o) l;
    one = λ a b p q. click_only k job bars a h p ∙ sym (click_only k job bars b h q);
  }
  handle-OneOpen (window icon) bars l h = record {
    listed = λ b o. h.listed b (window_open icon (bars b) o);
    one = λ a b p q. h.one a b (window_open icon (bars a) p) (window_open icon (bars b) q);
  }

  run_lem :
      (es : List Event) (bars : Bars)
      → All IsListedClick es
      → OneOpen circles bars
      → OneOpen circles (run circles es bars)
  unfolding run
  run_lem [] bars l h = h
  run_lem (e ∷ es) bars l h = run_lem es (handle circles e bars) l.1 (handle-OneOpen e bars l.0 h)

  -- Whatever is clicked, in whatever order, on bars that the page lists, at most one drop-down of
  -- the page is open, and it is that of a listed bar.
  pub run-OneOpen :
      (es : List Event) → All IsListedClick es → OneOpen circles (run circles es (λ _. constructed))
  run-OneOpen es l =
      run_lem es (λ _. constructed) l (record { listed = λ b o. cc; one = λ a b p q. cc })
