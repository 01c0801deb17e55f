-- ===== src/Message/Cursor/Masked.antt =====
-- `pb_cursor_create` of src/message/cursor.c on a member of a oneof.
use protobluff.Common.{ℕ, suc, ◌≡◌, refl, ap, ◌∙◌, arith, true, false, some, ◌==◌}
use protobluff.Core.Types.{no_error, oneof, eom}
use protobluff.Core.Descriptor.{FieldDescriptor, is_oneof, is_repeated, oneof_of}
use protobluff.Message.Journal.{Journal}
use protobluff.Message.Run.{done}
use protobluff.Message.Cursor.{Message, Cursor, is_none, cursor_valid}
use protobluff.Message.Cursor.Next.{cursor_next}
use protobluff.Message.Cursor.Create.{
  create_unsafe, last_occurrence, mask_member, mask_inactive, most_moves, check_oneof,
  active_occurrence, cursor_active, cursor_create,
}
use protobluff.Message.Message.{message_has}

-- The loop that looks for a later member stops at whatever field comes next.
check_oneof-eom :
    (j : Journal) (d : FieldDescriptor) (c temp : Cursor)
    → d.label ≡ oneof
    → c.descriptor ≡ some d
    → cursor_next j (record c { tag = 0 }) ≡ done (true, temp)
    → check_oneof j d c ≡ done (record c { error = eom })
unfolding check_oneof mask_inactive mask_member
check_oneof-eom j d c temp l e n =
    let labelled : is_oneof d.label ≡ true = rw l refl in
    let rounds : most_moves c ≡ suc (c.message.part.offset.end) = omega arith in
    let same : (oneof_of d == oneof_of d) ≡ true = ground arith in
    rw (labelled, rounds, n, e, same) refl

active_occurrence-eom :
    (j : Journal) (tag : ℕ) (d : FieldDescriptor) (c c' temp : Cursor)
    → d.label ≡ oneof
    → last_occurrence (most_moves c) j tag c c ≡ done c'
    → c'.descriptor ≡ some d
    → cursor_next j (record c' { tag = 0 }) ≡ done (true, temp)
    → active_occurrence j tag c (some d) ≡ done (record c' { error = eom })
unfolding active_occurrence
active_occurrence-eom j tag d c c' temp l k g n =
    let once : is_repeated d.label ≡ false = rw l refl in
    rw (once, k) (check_oneof-eom j d c' temp l g n)

-- For a member of a oneof whose last occurrence has been found, `pb_cursor_create` answers a cursor at
-- PB_ERROR_EOM as soon as any field comes behind it, be it a member of the oneof or not; then
-- `pb_message_has` says that the tag is absent.
pub message_has-masked :
    (j : Journal) (w w' : Message) (tag : ℕ) (d : FieldDescriptor) (c c' temp : Cursor)
    → create_unsafe j w tag ≡ done (c, w')
    → c.error ≡ no_error
    → c.descriptor ≡ some d
    → d.label ≡ oneof
    → last_occurrence (most_moves c) j tag c c ≡ done c'
    → c'.descriptor ≡ some d
    → cursor_next j (record c' { tag = 0 }) ≡ done (true, temp)
    → (cursor_create j w tag ≡ done (record c' { error = eom }, w'))
      × (message_has j w tag ≡ done (false, w'))
unfolding cursor_create cursor_active message_has cursor_valid
message_has-masked j w w' tag d c c' temp u e f l k g n =
    let valid : is_none c.error ≡ true = ap is_none e in
    let active : active_occurrence j tag c c.descriptor ≡ done (record c' { error = eom }) =
      ap (active_occurrence j tag c) f ∙ active_occurrence-eom j tag d c c' temp l k g n in
    rw (u, valid, active) (refl, refl)
