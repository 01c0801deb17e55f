-- ===== src/Message/Cursor/Complete.antt =====
-- A loop over `pb_cursor_next` of src/message/cursor.c, on a cursor of any tag, leaves out no value.
use protobluff.Common.{ℕ, zero, suc, ◌≡◌, true, false, List, [], ◌∷◌}
use protobluff.Core.Types.{no_error}
use protobluff.Message.Journal.{Journal}
use protobluff.Message.Run.{Run, done, fault, out_of_fuel, on_done}
use protobluff.Message.Cursor.{Message, message_aligned, Cursor}
use protobluff.Message.Cursor.Next.{Moved, cursor_next}
use protobluff.Message.Cursor.Progress.{Holds, Same}
use protobluff.Message.Cursor.Moves.{AtValue, Moves}
use protobluff.Message.Cursor.Lands.{landed-Movable, step-Moves}
use protobluff.Message.Cursor.Comes.{Comes, Stops, Goes, cursor_next-Goes}
use protobluff.Message.Cursor.Walk.{Walk, behind_first, walk_on, walk}

-- Each of the cursors is at the first value behind the one before it, and behind the last one there is none.
abbrev pub Complete : Journal → Message → Cursor → List Cursor → Type 0
Complete j w c₀ [] = Stops j w c₀
Complete j w c₀ (c ∷ cs) = Comes j w c₀ c × Complete j w c cs

abbrev pub Completes : Journal → Message → Cursor → Run Walk → Type 0
Completes j w c₀ (done (cs, e)) = Complete j w c₀ cs
Completes j w c₀ fault = Unit
Completes j w c₀ out_of_fuel = Unit

module _ (j : Journal) (w : Message) where
  first-Completes :
      (c₀ c : Cursor) (r : Run Walk)
      → Comes j w c₀ c
      → Completes j w c r
      → Completes j w c₀ (on_done r (λ x. done (behind_first c x)))
  first-Completes c₀ c (done (cs, e)) f h = (f, h)
  first-Completes c₀ c fault f h = tt
  first-Completes c₀ c out_of_fuel f h = tt

  moved-Completes :
      (again : Cursor → Run Walk) (c₀ c : Cursor) (r : Run Moved)
      → Comes j w c₀ c
      → Goes j w c r
      → Moves w 0 c.offset.end r
      → ((c' : Cursor)
          → Same w 0 c'
          → c'.error ≡ no_error
          → AtValue w c'
          → Comes j w c c'
          → Completes j w c (again c'))
      → Completes j w c₀ (on_done r (walk_on again c))
  moved-Completes again c₀ c (done (true, c')) f g (s, e, v, l, p) k =
      first-Completes c₀ c (again c') f (k c' s e v g)
  moved-Completes again c₀ c (done (false, e)) f g m k = (f, g)
  moved-Completes again c₀ c fault f g m k = tt
  moved-Completes again c₀ c out_of_fuel f g m k = tt

module _ (j : Journal) (w : Message) (h : Holds j w) (aligned : message_aligned j w ≡ true) where
  pub walk-Completes :
      (fuel : ℕ) (c₀ c : Cursor)
      → Same w 0 c
      → c.error ≡ no_error
      → AtValue w c
      → Comes j w c₀ c
      → Completes j w c₀ (walk fuel j c)
  unfolding walk
  walk-Completes zero c₀ c s e v f = tt
  walk-Completes (suc fuel) c₀ c s e v f =
      moved-Completes j w (walk fuel j) c₀ c (cursor_next j c) f
        (cursor_next-Goes j w h aligned c s e (landed-Movable w c v))
        (step-Moves j w h aligned 0 c s e (landed-Movable w c v))
        (λ c' s' e' v' g. walk-Completes fuel c c' s' e' v' g)
