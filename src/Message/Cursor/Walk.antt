-- ===== src/Message/Cursor/Walk.antt =====
-- The cursors that a loop over `pb_cursor_next` of src/message/cursor.c goes through.
use protobluff.Common.{ℕ, zero, suc, ◌+◌, ◌≤◌, ◌<◌, ◌≡◌, arith, true, false, List, [], ◌∷◌}
use protobluff.Core.Types.{no_error}
use protobluff.Message.Journal.{Journal}
use protobluff.Message.Run.{Run, done, fault, out_of_fuel, on_done}
use protobluff.Message.Cursor.{Message, message_aligned, Cursor, is_none}
use protobluff.Message.Cursor.Next.{Moved, cursor_next}
use protobluff.Message.Cursor.Progress.{Holds, Same}
use protobluff.Message.Cursor.Moves.{AtValue, Moves}
use protobluff.Message.Cursor.Lands.{landed-Movable, landed-inside, step-Moves}

-- The cursors from the first on, and where the last move ends.
abbrev pub Walk : Type 0
Walk = List Cursor × Cursor

abbrev pub behind_first : Cursor → Walk → Walk
behind_first c (cs, e) = (c ∷ cs, e)

abbrev pub walk_on : (Cursor → Run Walk) → Cursor → Moved → Run Walk
walk_on again c (true, c') = on_done (again c') (λ x. done (behind_first c x))
walk_on again c (false, e) = done (c ∷ [], e)

unfoldable pub walk : ℕ → Journal → Cursor → Run Walk
walk zero j c = out_of_fuel
walk (suc fuel) j c = on_done (cursor_next j c) (walk_on (walk fuel j) c)

-- Values of the message, each of which begins at or behind the end of the one before it.
abbrev pub Ordered : Message → ℕ → List Cursor → Type 0
Ordered w position [] = Unit
Ordered w position (c ∷ cs) =
    AtValue w c
    × (position ≤ c.offset.start)
    × (position < c.offset.end)
    × Ordered w c.offset.end cs

-- They are walked, and the last move fails.
abbrev pub Walks : Message → ℕ → Run Walk → Type 0
Walks w position (done (cs, e)) = Ordered w position cs × (is_none e.error ≡ false)
Walks w position fault = Unit
Walks w position out_of_fuel = ⊥

-- In front of a walk.
first-Walks :
    (w : Message) (position : ℕ) (c : Cursor) (r : Run Walk)
    → AtValue w c
    → position ≤ c.offset.start
    → position < c.offset.end
    → Walks w c.offset.end r
    → Walks w position (on_done r (λ x. done (behind_first c x)))
first-Walks w position c (done (cs, e)) v l p (o, x) = ((v, l, p, o), x)
first-Walks w position c fault v l p h = tt
first-Walks w position c out_of_fuel v l p h = h

module _ (j : Journal) (w : Message) (h : Holds j w) (aligned : message_aligned j w ≡ true)
    (tag : ℕ) where
  moved-Walks :
      (again : Cursor → Run Walk) (position : ℕ) (c : Cursor) (r : Run Moved)
      → Moves w tag c.offset.end r
      → AtValue w c
      → position ≤ c.offset.start
      → position < c.offset.end
      → ((c' : Cursor)
          → Same w tag c'
          → c'.error ≡ no_error
          → AtValue w c'
          → c.offset.end ≤ c'.offset.start
          → c.offset.end < c'.offset.end
          → Walks w c.offset.end (again c'))
      → Walks w position (on_done r (walk_on again c))
  moved-Walks again position c (done (true, c')) (s, e, v, l, p) v₀ l₀ p₀ f =
      first-Walks w position c (again c') v₀ l₀ p₀ (f c' s e v l p)
  moved-Walks again position c (done (false, e)) (s, x) v l p f = ((v, l, p, tt), x)
  moved-Walks again position c fault m v l p f = tt
  moved-Walks again position c out_of_fuel m v l p f = m

  -- From a value on, as many moves as there are bytes behind its end, and one more, are enough.
  pub walk-Walks :
      (fuel position : ℕ) (c : Cursor)
      → Same w tag c
      → c.error ≡ no_error
      → AtValue w c
      → position ≤ c.offset.start
      → position < c.offset.end
      → w.part.offset.end < c.offset.end + fuel
      → Walks w position (walk fuel j c)
  unfolding walk
  walk-Walks zero position c s e v l p enough = absurd (omega (arith, landed-inside w c v))
  walk-Walks (suc fuel) position c s e v l p enough =
      moved-Walks (walk fuel j) position c (cursor_next j c)
        (step-Moves j w h aligned tag c s e (landed-Movable w c v)) v l p
        (λ c' s' e' v' l' p'. walk-Walks fuel c.offset.end c' s' e' v' l' p' (omega arith))
