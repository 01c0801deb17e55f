-- ===== src/Message/Oneof.antt =====
-- src/message/oneof.c and include/protobluff/message/oneof.h: the active member of a oneof. A oneof's
-- descriptor is known by its address.
pub mod Case
use protobluff.Common.{ℕ, zero, suc, Bool, true, false, ◌==◌, if◌then◌else◌}
use protobluff.Core.Types.{Error, no_error}
use protobluff.Core.Memory.{Allocator}
use protobluff.Core.Descriptor.{Descriptor}
use protobluff.Message.Journal.{Journal}
use protobluff.Message.Run.{Run, done, out_of_fuel, Act, pure, ◌>>=◌, on_done}
use protobluff.Message.Cursor.{Message, Cursor, is_none, cursor_tag, cursor_destroy}
use protobluff.Message.Cursor.Next.{Moved, cursor_next}
use protobluff.Message.Cursor.Create.{create_without_tag, oneof_at, most_moves, rewind}
use protobluff.Message.Cursor.Access.{look, cursor_erase}
use protobluff.Message.Create.{is_eom}

-- `pb_oneof_t`.
pub record Oneof : Type 0 where
  pub descriptor : ℕ
  pub cursor : Cursor

unfoldable pub oneof_create : Journal → ℕ → Message → Run (Oneof × Message)
oneof_create j d w =
    on_done (create_without_tag j w) (λ r. done (record { descriptor = d; cursor = r.0 }, r.1))

unfoldable pub oneof_destroy : Oneof → Oneof
oneof_destroy o = record o { cursor = cursor_destroy o.cursor }

-- At the end of the message a oneof is still valid.
unfoldable pub oneof_error : Oneof → Error
oneof_error o = if is_eom o.cursor.error then no_error else o.cursor.error

unfoldable pub oneof_valid : Oneof → Bool
unfolding oneof_error
oneof_valid o = is_none (oneof_error o)

-- The loop of `pb_oneof_case`, with the tag so far.
unfoldable pub case_moved : (ℕ → Cursor → Run (ℕ × Cursor)) → ℕ → Moved → Run (ℕ × Cursor)
case_moved again tag (true, c) = again tag c
case_moved again tag (false, c) = done (tag, c)

unfoldable pub case_rounds : ℕ → Journal → ℕ → ℕ → Cursor → Run (ℕ × Cursor)
unfolding case_moved
case_rounds zero j d tag c = out_of_fuel
case_rounds (suc fuel) j d tag c =
    on_done (cursor_next j c)
      (case_moved (case_rounds fuel j d) (if oneof_at c.descriptor == d then cursor_tag c else tag))

unfoldable pub case_rewound : Journal → ℕ → Moved → Run (ℕ × Cursor)
unfolding case_rounds
case_rewound j d (true, c) = case_rounds (most_moves c) j d 0 c
case_rewound j d (false, c) = done (0, c)

unfoldable pub oneof_case : Journal → Oneof → Run (ℕ × Oneof)
unfolding case_rewound
oneof_case j o =
    on_done (rewind j o.cursor)
      (λ r. on_done (case_rewound j o.descriptor r) (λ x. done (x.0, record o { cursor = x.1 })))

module _ {M : Type 0} (a : Allocator M) (schema : ℕ → Descriptor) where
  -- The loop of `pb_oneof_clear`.
  unfoldable pub clear_moved : (Cursor → Act M (Error × Cursor)) → Moved → Act M (Error × Cursor)
  clear_moved again (true, c) = again c
  clear_moved again (false, c) = pure (no_error, c)

  unfoldable pub clear_erased :
      (Cursor → Act M (Error × Cursor)) → Error × Cursor → Act M (Error × Cursor)
  unfolding clear_moved
  clear_erased again (no_error, c) = look (λ j. cursor_next j c) >>= clear_moved again
  clear_erased again (e, c) = pure (e, c)

  unfoldable pub clear_rounds : ℕ → ℕ → Cursor → Act M (Error × Cursor)
  unfolding clear_erased
  clear_rounds zero d c = λ s. out_of_fuel
  clear_rounds (suc fuel) d c =
      let again = clear_rounds fuel d in
      if oneof_at c.descriptor == d
      then (cursor_erase a schema c >>= clear_erased again)
      else clear_erased again (no_error, c)

  unfoldable pub clear_rewound : ℕ → Moved → Act M (Error × Cursor)
  unfolding clear_rounds
  clear_rewound d (true, c) = clear_rounds (most_moves c) d c
  clear_rewound d (false, c) = pure (no_error, c)

  unfoldable pub oneof_clear : Oneof → Act M (Error × Oneof)
  unfolding clear_rewound
  oneof_clear o = look (λ j. rewind j o.cursor) >>= clear_rewound o.descriptor >>= λ r.
      pure (r.0, record o { cursor = r.1 })
