-- ===== src/Watches.antt =====
-- The informers' stop channels: the field `ContentWatchChannels` of the reconciler of
-- controllers/csm_controller.go, and the two places that write it. A channel is its number in the
-- order in which `ContentWatch` makes them; Go's `close` panics at a channel that is closed.
pub mod Lifecycle
use csm_operator.Prelude.{
  ℕ, ◌+◌, Bool, true, false, ◌||◌, Option, none, some, List, [], ◌∷◌, if◌then◌else◌, ◌==◌,
}
use csm_operator.Prelude.Text.{Text}
use csm_operator.Prelude.Dict.{Dict, lookup, insert, delete}

pub record Watches : Type 0 where
  pub channels : Dict ℕ
  pub closed : List ℕ
  pub next_channel : ℕ

abbrev pub close_old : Option ℕ → List ℕ → List ℕ
close_old none closed = closed
close_old (some c) closed = c ∷ closed

-- The new channel takes the place of the one that is there under the name, which is closed.
unfoldable pub start_watch : Text → Watches → Watches
start_watch name s = record {
  channels = insert s.channels name s.next_channel;
  closed = close_old (lookup s.channels name) s.closed;
  next_channel = s.next_channel + 1;
}

unfoldable pub stop_watch : Text → Watches → Watches
stop_watch name s = record s {
  channels = elim (lookup s.channels name) [ none ↦ s.channels | some _ ↦ delete s.channels name ];
  closed = close_old (lookup s.channels name) s.closed;
}

abbrev pub no_watches : Watches
no_watches = record { channels = []; closed = []; next_channel = 0 }
