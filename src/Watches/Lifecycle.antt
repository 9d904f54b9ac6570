-- ===== src/Watches/Lifecycle.antt =====
-- No channel is closed twice, and none that is registered is closed.
use csm_operator.Prelude.{
  ℕ, ◌<◌, Bool, true, false, ◌||◌, ◌&&◌, not, none, some, List, [], ◌∷◌, ◌≡◌, refl, sym, subst,
  arith, if◌then◌else◌, ◌==◌, Option-cases, inl, inr,
}
use csm_operator.Prelude.Text.{Text, text_eq, text_eq_iff}
use csm_operator.Prelude.Dict.{lookup, lookup-insert, lookup-delete}
use csm_operator.Watches.{Watches, close_old, start_watch, stop_watch, no_watches}

abbrev pub has : ℕ → List ℕ → Bool
has c [] = false
has c (d ∷ ds) = d == c || has c ds

-- A closed channel is there once.
abbrev pub once : List ℕ → Bool
once [] = true
once (c ∷ cs) = not (has c cs) && once cs

pub record IsSound (s : Watches) : Type 0 where
  pub made : (k : Text) (c : ℕ) → lookup s.channels k ≡ some c → c < s.next_channel
  pub open_channels : (k : Text) (c : ℕ) → lookup s.channels k ≡ some c → has c s.closed ≡ false
  pub apart :
      (j k : Text) (c : ℕ) → lookup s.channels j ≡ some c → lookup s.channels k ≡ some c → j ≡ k
  pub closed_made : (c : ℕ) → has c s.closed ≡ true → c < s.next_channel
  pub closed_once : once s.closed ≡ true

no_watches-IsSound : IsSound no_watches
unfolding lookup
no_watches-IsSound = record {
  made = λ k c h. cc;
  open_channels = λ k c h. cc;
  apart = λ j k c h i. cc;
  closed_made = λ c h. cc;
  closed_once = refl;
}

-- The facts about the channel that is closed, if one is registered under the name.
module _ (name : Text) (s : Watches) (h : IsSound s) where
  closed-once : once (close_old (lookup s.channels name) s.closed) ≡ true
  closed-once = elim (Option-cases (lookup s.channels name)) [
    | inl e ↦ rw e h.closed_once
    | inr (d, e) ↦ rw e (ground (arith, h.closed_once, h.open_channels name d e))
  ]

  closed-made :
      (c : ℕ) → has c (close_old (lookup s.channels name) s.closed) ≡ true → c < s.next_channel
  closed-made c p = elim (Option-cases (lookup s.channels name)) [
    | inl e ↦ h.closed_made c (rw e at p)
    | inr (d, e) ↦
        let q : has c (d ∷ s.closed) ≡ true = rw e at p in
        ground (arith, h.closed_made c, h.made name d e)
  ]

  -- A channel that is registered under another name stays open.
  closed-others :
      (k : Text) (c : ℕ)
      → lookup s.channels k ≡ some c
      → text_eq name k ≡ false
      → has c (close_old (lookup s.channels name) s.closed) ≡ false
  closed-others k c l n = elim (Option-cases (lookup s.channels name)) [
    | inl e ↦ rw e (h.open_channels k c l)
    | inr (d, e) ↦ rw e (
        ground (
          arith,
          h.open_channels k c l,
          text_eq_iff name k,
          h.apart name k d e,
          λ (q : d ≡ c). subst (λ x. lookup s.channels k ≡ some x) (sym q) l,
        ))
  ]

  -- A number that no channel has yet is not closed.
  closed-next : has s.next_channel (close_old (lookup s.channels name) s.closed) ≡ false
  closed-next = ground (arith, closed-made s.next_channel)

pub start_watch-IsSound : (name : Text) (s : Watches) → IsSound s → IsSound (start_watch name s)
unfolding start_watch
start_watch-IsSound name s h =
    let found = λ (k : Text). lookup-insert s.channels name k s.next_channel in
    record {
      made = λ k c e. ground (arith, found k, h.made k c);
      open_channels =
          λ k c e. ground (arith, found k, closed-others name s h k c, closed-next name s h);
      apart = λ j k c e f. ground (
        arith,
        found j,
        found k,
        text_eq_iff name j,
        text_eq_iff name k,
        h.apart j k c,
        h.made j c,
        h.made k c,
      );
      closed_made = λ c e. omega (arith, closed-made name s h c e);
      closed_once = closed-once name s h;
    }

-- The entries that are left.
pub stop_watch-lookup :
    (name k : Text) (s : Watches)
    → lookup (stop_watch name s).channels k ≡ (if text_eq name k then none else lookup s.channels k)
unfolding stop_watch
stop_watch-lookup name k s = ground (arith, lookup-delete s.channels name k, text_eq_iff name k)

pub stop_watch-IsSound : (name : Text) (s : Watches) → IsSound s → IsSound (stop_watch name s)
unfolding stop_watch
stop_watch-IsSound name s h =
    let found = λ (k : Text). stop_watch-lookup name k s in
    record {
      made = λ k c e. ground (arith, found k, h.made k c);
      open_channels = λ k c e. ground (arith, found k, closed-others name s h k c);
      apart = λ j k c e f. ground (arith, found j, found k, h.apart j k c);
      closed_made = λ c e. closed-made name s h c e;
      closed_once = closed-once name s h;
    }

-- What reconciles do to the channels, in whatever order.
pub data Step : Watches → Watches → Type 0 where
  started : (name : Text) (s : Watches) → Step s (start_watch name s)
  stopped : (name : Text) (s : Watches) → Step s (stop_watch name s)

pub data Reach : Watches → Type 0 where
  none_yet : Reach no_watches
  next_step : {s t : Watches} → Reach s → Step s t → Reach t

Step-IsSound : {s t : Watches} → Step s t → IsSound s → IsSound t
Step-IsSound (started name s) h = start_watch-IsSound name s h
Step-IsSound (stopped name s) h = stop_watch-IsSound name s h

-- Whatever reconciles start and stop watches, in whatever order: no channel is closed twice, the
-- channels that are registered are open, and no two names share one.
pub Reach-IsSound : {s : Watches} → Reach s → IsSound s
Reach-IsSound none_yet = no_watches-IsSound
Reach-IsSound (next_step r st) = Step-IsSound st (Reach-IsSound r)
