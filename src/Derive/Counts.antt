-- ===== src/Derive/Counts.antt =====
-- How many turns, calls and invocations a derivation yields.
use agentprof.Base.{
  ℕ, ◌+◌, ◌≡◌, Bool, true, false, Option, none, some, List, [], ◌∷◌, arith, length, length-append,
  length-modify_at,
}
use agentprof.Order.{Text, text_ord}
use agentprof.Map.{BTreeMap, sum_values, sum_values-upsert, sum_values-adjust, upsert}
use agentprof.Event.{EventKind}
use agentprof.Model.ToolSource.{ToolSource}
use agentprof.Episode.{
  DeriveWarning, synthesized_start, Turn, ToolCall, ToolEpisode, new_tool_episode, HookCall,
  HookEpisode, new_hook_episode, SkillEpisode, new_skill_episode, SkillInvocation, CallRef,
}
use agentprof.Derive.{
  OpenSkill, add_tool_call, add_hook_call, add_invocation, note_tool, attribute_to_skills,
  push_tool_ref, push_hook_ref, push_skill_ref, push_at,
}

-- The warnings of an end that had no start, by the kind of the start.
abbrev pub turn_orphan : DeriveWarning → Bool
turn_orphan (synthesized_start EventKind.turn_start id) = true
turn_orphan _ = false

abbrev pub tool_orphan : DeriveWarning → Bool
tool_orphan (synthesized_start EventKind.tool_exec_start id) = true
tool_orphan _ = false

abbrev pub hook_orphan : DeriveWarning → Bool
hook_orphan (synthesized_start EventKind.hook_start id) = true
hook_orphan _ = false

abbrev pub tool_call_count : {J : Type 0} → BTreeMap Text (ToolEpisode J) → ℕ
tool_call_count = sum_values (λ ep. length ep.calls)

abbrev pub hook_call_count : BTreeMap Text HookEpisode → ℕ
hook_call_count = sum_values (λ ep. length ep.calls)

abbrev pub invocation_count : BTreeMap Text SkillEpisode → ℕ
invocation_count = sum_values (λ ep. length ep.invocations)

pub tool_call_count-upsert :
    {J : Type 0} (name : Text) (source : ToolSource) (call : ToolCall J)
    (m : BTreeMap Text (ToolEpisode J))
    → tool_call_count (upsert name (new_tool_episode name source) (add_tool_call call) m)
      ≡ tool_call_count m + 1
tool_call_count-upsert name source call m =
    sum_values-upsert (λ ep. length ep.calls) 1 name (new_tool_episode name source)
      (add_tool_call call) m (omega arith) (λ ep. length-append ep.calls (call ∷ []))

pub hook_call_count-upsert :
    (name : Text) (call : HookCall) (m : BTreeMap Text HookEpisode)
    → hook_call_count (upsert name (new_hook_episode name) (add_hook_call call) m)
      ≡ hook_call_count m + 1
hook_call_count-upsert name call m =
    sum_values-upsert (λ ep. length ep.calls) 1 name (new_hook_episode name) (add_hook_call call) m
      (omega arith) (λ ep. length-append ep.calls (call ∷ []))

pub invocation_count-upsert :
    (name : Text) (inv : SkillInvocation) (m : BTreeMap Text SkillEpisode)
    → invocation_count (upsert name (new_skill_episode name) (add_invocation inv) m)
      ≡ invocation_count m + 1
invocation_count-upsert name inv m =
    sum_values-upsert (λ ep. length ep.invocations) 1 name (new_skill_episode name)
      (add_invocation inv) m (omega arith) (λ ep. length-append ep.invocations (inv ∷ []))

pub invocation_count-attribute :
    (tool_ref : CallRef) (os : List OpenSkill) (m : BTreeMap Text SkillEpisode)
    → invocation_count (attribute_to_skills tool_ref os m) ≡ invocation_count m
unfolding attribute_to_skills
invocation_count-attribute tool_ref [] m = omega arith
invocation_count-attribute tool_ref (o ∷ os) m = omega (
  arith,
  invocation_count-attribute tool_ref os _,
  sum_values-adjust (λ ep. length ep.invocations) o.name (note_tool tool_ref o.invocation_idx) m
      (λ ep. length-modify_at o.invocation_idx _ ep.invocations),
)

pub length-push_at :
    (i : Option ℕ) (f : Turn → Turn) (turns : List Turn) → length (push_at i f turns) ≡ length turns
length-push_at none f turns = omega arith
length-push_at (some i) f turns = length-modify_at i f turns

pub length-push_tool_ref :
    (id : Option Text) (r : CallRef) (turns : List Turn)
    → length (push_tool_ref id r turns) ≡ length turns
length-push_tool_ref none r turns = omega arith
length-push_tool_ref (some id) r turns = length-push_at _ _ turns

pub length-push_hook_ref :
    (id : Option Text) (r : CallRef) (turns : List Turn)
    → length (push_hook_ref id r turns) ≡ length turns
length-push_hook_ref none r turns = omega arith
length-push_hook_ref (some id) r turns = length-push_at _ _ turns

pub length-push_skill_ref :
    (i : Option ℕ) (r : CallRef) (turns : List Turn)
    → length (push_skill_ref i r turns) ≡ length turns
length-push_skill_ref none r turns = omega arith
length-push_skill_ref (some i) r turns = length-modify_at i _ turns
