-- ===== src/Worker/Context/Steps.antt =====
-- The step of a task lies within the messages, and the prefix that a context asks for is never used.
use s2afl.Prelude.{
  ℕ, suc, ◌+◌, ◌-◌, ◌<◌, Bool, false, Option, some, List, [], ◌∷◌, ◌≡◌, Text, length, ◌==◌,
  Bool-cases, Option-cases, inl, inr, arith, ℤ, pos, negsuc, clamp,
}
use s2afl.Text.{upper, member}
use s2afl.Seed.{message_method}
use s2afl.Worker.Context.{
  nonnegative, required_success_prefix_from_context, find_command, resolve_task_step_index,
}

-- The prefix is the target, whatever the context asks for.
pub required_success_prefix_lem :
    (target step_index : ℤ) (stateful : Option ℤ)
    → required_success_prefix_from_context (some target) step_index stateful ≡ nonnegative target
unfolding required_success_prefix_from_context
required_success_prefix_lem target step_index stateful = ground arith

find_command-bound :
    (commands : List Text) (index : ℕ) (messages : List Text) (i : ℕ)
    → find_command commands index messages ≡ some i
    → i < index + length messages
unfolding find_command
find_command-bound commands index [] i h = absurd (cc h)
find_command-bound commands index (m ∷ messages) i h =
    elim (Bool-cases (member (upper (message_method m)) commands)) [
      | inl e ↦ ground (arith, e)
      | inr e ↦
          let later = find_command-bound commands (suc index) messages i (ground (arith, e)) in
          omega (arith, later)
    ]

clamp-bound : (n : ℕ) (i : ℤ) → 0 < n → clamp 0 (n - 1) i < n
clamp-bound n (pos i) h = omega (arith, h)
clamp-bound n (negsuc i) h = h

-- The step that a task is resolved to is that of a message, if there is one.
pub resolve_task_step_index-bound :
    (is_boundary : Bool) (step_index : ℤ) (commands messages : List Text)
    → 0 < length messages
    → resolve_task_step_index is_boundary step_index commands messages < length messages
unfolding resolve_task_step_index
resolve_task_step_index-bound is_boundary step_index commands messages h =
    let inside = clamp-bound (length messages) step_index h in
    let some_messages : (length messages == 0) ≡ false = ground (arith, h) in
    elim (Option-cases (find_command commands 0 messages)) [
      | inl e ↦ ground (arith, e, inside)
      | inr (i, e) ↦
          let found = find_command-bound commands 0 messages i e in ground (arith, e, inside, found)
    ]
