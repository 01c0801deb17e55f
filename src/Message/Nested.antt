-- ===== src/Message/Nested.antt =====
-- src/message/nested.c, and the functions of cursor.c and field.c that take a branch of tags. A branch is its
-- tags before the last one, and the last one.
use protobluff.Common.{ℕ, Bool, false, List, [], ◌∷◌, if◌then◌else◌}
use protobluff.Core.Types.{Error, invalid, absent}
use protobluff.Core.Memory.{Allocator}
use protobluff.Core.Descriptor.{Descriptor}
use protobluff.Core.Encoder.{Input}
use protobluff.Message.Journal.{Journal}
use protobluff.Message.Run.{Run, done, Act, pure, ◌>>=◌, on_done}
use protobluff.Message.Cursor.{Message, message_valid, Cursor, cursor_create_invalid, is_none}
use protobluff.Message.Cursor.Create.{cursor_create}
use protobluff.Message.Cursor.Access.{look, message_create_from_cursor, Source}
use protobluff.Message.Field.{Field}
use protobluff.Message.Create.{create_branch, field_create, is_eom}
use protobluff.Message.Message.{
  Answer, nothing_read, message_has, message_match, message_get, message_put, message_erase,
}

module _ (schema : ℕ → Descriptor) where
  -- The loop of `resolve`: the cursor at the last message of the branch, or the one that failed.
  unfoldable pub resolve_from : Journal → Message → List ℕ → Cursor → Run Cursor
  resolve_from j w [] c = done c
  resolve_from j w (tag ∷ tags) c = on_done (cursor_create j w tag) (λ r.
      if is_none r.0.error
      then on_done (message_create_from_cursor schema j r.0) (λ x. resolve_from j x.0 tags x.1)
      else done r.0)

  unfoldable pub resolve : Journal → Message → List ℕ → Run Cursor
  unfolding resolve_from
  resolve j w tags =
      if message_valid w
      then resolve_from j w tags cursor_create_invalid
      else done cursor_create_invalid

  -- What follows at the message of a valid cursor; `other` is the answer without one.
  unfoldable pub at_branch :
      {A : Type 0} → Journal → (Error → A) → (Message → Run A) → Cursor → Run A
  at_branch j other inner c =
      if is_none c.error
      then on_done (message_create_from_cursor schema j c) (λ x. inner x.0)
      else done (other c.error)

  unfoldable pub nested_has : Journal → Message → List ℕ → ℕ → Run Bool
  unfolding resolve at_branch
  nested_has j w tags tag =
      on_done (resolve j w tags)
        (at_branch j (λ e. false) (λ x. on_done (message_has j x tag) (λ r. done r.0)))

  unfoldable pub nested_match : Journal → Message → List ℕ → ℕ → Input → Run Bool
  unfolding resolve at_branch
  nested_match j w tags tag v =
      on_done (resolve j w tags)
        (at_branch j (λ e. false) (λ x. on_done (message_match j x tag v) (λ r. done r.0)))

  unfoldable pub nested_get : Journal → Message → List ℕ → ℕ → Run (Error × Answer)
  unfolding resolve at_branch
  nested_get j w tags tag = on_done (resolve j w tags) (
      at_branch j (λ e. (if is_eom e then absent else e, nothing_read))
        (λ x. on_done (message_get j x tag) (λ r. done r.0)))

module _ {M : Type 0} (a : Allocator M) (schema : ℕ → Descriptor) where
  unfoldable pub nested_put : Message → List ℕ → ℕ → Source → Act M Error
  nested_put w tags tag v =
      create_branch a schema w tags >>= λ x. message_put a schema x tag v >>= λ r. pure r.0

  unfoldable pub nested_erase_at : ℕ → Cursor → Act M Error
  nested_erase_at tag c =
      if is_none c.error
      then (look (λ j. message_create_from_cursor schema j c) >>= λ x.
          message_erase a schema x.0 tag >>= λ r. pure r.0)
      else pure invalid

  unfoldable pub nested_erase : Message → List ℕ → ℕ → Act M Error
  unfolding nested_erase_at resolve
  nested_erase w tags tag = look (λ j. resolve schema j w tags) >>= nested_erase_at tag

  -- `pb_cursor_create_nested` and `pb_field_create_nested`.
  unfoldable pub cursor_create_nested : Message → List ℕ → ℕ → Act M Cursor
  cursor_create_nested w tags tag =
      create_branch a schema w tags >>= λ x. look (λ j. cursor_create j x tag) >>= λ r. pure r.0

  unfoldable pub field_create_nested : Message → List ℕ → ℕ → Act M Field
  field_create_nested w tags tag =
      create_branch a schema w tags >>= λ x. field_create a schema x tag >>= λ r. pure r.0
