-- ===== src/Analyzer/Ranking.antt =====
-- The rank of the tools and of the hooks: its order, its counts and its durations.
use mathlib.Core.List.{Perm}
use agentprof.Base.{
  ◌+◌, ◌≤◌, ◌<◌, ◌≡◌, Bool, not, List, [], ◌∷◌, count, length, ltb, arith, All, refl, Bool-cases,
  inl, inr, ◌∙◌, count-le-length,
}
use agentprof.Base.Int.{◌≤ℤ◌}
use agentprof.Base.Sort.{
  IsSortedBy, IsPreorder, sort_by-IsSortedBy, sort_by-perm, All-sort_by, sum_by, sum_by-sort_by,
}
use agentprof.Order.{Text}
use agentprof.Map.{BTreeMap}
use agentprof.Episode.{ToolCall, ToolEpisode, HookEpisode, Episodes}
use agentprof.Derive.Counts.{tool_call_count, hook_call_count}
use agentprof.Analyzer.Rank.{
  succeeded, failed, unpaired, ToolRankRow, HookRankRow, longer_tool, longer_hook, tool_row,
  tool_rows, tool_rank, hook_row, hook_rows, hook_rank,
}
use agentprof.Analyzer.Percentiles.{sorted_durations-IsSortedBy, percentile_nearest_rank_mono}

longer_tool-IsPreorder : IsPreorder longer_tool
longer_tool-IsPreorder = record { total = λ a b. ground arith; trans = λ a b c h k. ground arith }

longer_hook-IsPreorder : IsPreorder longer_hook
longer_hook-IsPreorder = record { total = λ a b. ground arith; trans = λ a b c h k. ground arith }

-- A row of a tool with calls: every call has one outcome, and the durations are in order.
pub record IsToolRow (r : ToolRankRow) : Type 0 where
  pub called : 0 < r.call_count
  pub outcomes : r.success_count + r.failure_count + r.orphan_count ≡ r.call_count
  pub requested : r.user_requested_count ≤ r.call_count
  pub median : r.p50_duration ≤ℤ r.p95_duration
  pub top : r.p95_duration ≤ℤ r.max_duration

pub record IsHookRow (r : HookRankRow) : Type 0 where
  pub called : 0 < r.call_count
  pub outcomes : r.success_count + r.failure_count ≡ r.call_count
  pub synthesized : r.synthesized_start_count ≤ r.call_count
  pub median : r.p50_duration ≤ℤ r.p95_duration

count-outcomes :
    {J : Type 0} (calls : List (ToolCall J))
    → count (λ c. succeeded c.status) calls
        + count (λ c. failed c.status) calls
        + count (λ c. unpaired c.status) calls
      ≡ length calls
count-outcomes [] = omega arith
count-outcomes (c ∷ calls) = ground (arith, count-outcomes calls)

count-not :
    {A : Type 0} (p : A → Bool) (xs : List A) → count p xs + count (λ x. not (p x)) xs ≡ length xs
count-not p [] = omega arith
count-not p (x ∷ xs) = ground (arith, count-not p xs)

tool_row-IsToolRow :
    {J : Type 0} (name : Text) (ep : ToolEpisode J)
    → 0 < length ep.calls
    → IsToolRow (tool_row name ep)
unfolding tool_row
tool_row-IsToolRow name ep h =
    let order =
      percentile_nearest_rank_mono _ 50 95 (sorted_durations-IsSortedBy _) (omega arith) in
    record {
      called = h;
      outcomes = count-outcomes ep.calls;
      requested = count-le-length _ ep.calls;
      median = order.0;
      top = order.1;
    }

tool_rows-AreToolRows :
    {J : Type 0} (tools : BTreeMap Text (ToolEpisode J)) → All IsToolRow (tool_rows tools)
unfolding tool_rows
tool_rows-AreToolRows [] = tt
tool_rows-AreToolRows ((name, ep) ∷ tools) = elim (Bool-cases (ltb 0 (length ep.calls))) [
  | inl e ↦ rw e (tool_row-IsToolRow name ep (ground arith), tool_rows-AreToolRows tools)
  | inr e ↦ rw e (tool_rows-AreToolRows tools)
]

sum_by-tool_rows :
    {J : Type 0} (tools : BTreeMap Text (ToolEpisode J))
    → sum_by (λ r. r.call_count) (tool_rows tools) ≡ tool_call_count tools
unfolding tool_rows tool_row
sum_by-tool_rows [] = refl
sum_by-tool_rows ((name, ep) ∷ tools) = ground (arith, sum_by-tool_rows tools)

hook_row-IsHookRow :
    (name : Text) (ep : HookEpisode) → 0 < length ep.calls → IsHookRow (hook_row name ep)
unfolding hook_row
hook_row-IsHookRow name ep h =
    let order =
      percentile_nearest_rank_mono _ 50 95 (sorted_durations-IsSortedBy _) (omega arith) in
    record {
      called = h;
      outcomes = count-not (λ c. c.success) ep.calls;
      synthesized = count-le-length _ ep.calls;
      median = order.0;
    }

hook_rows-AreHookRows : (hooks : BTreeMap Text HookEpisode) → All IsHookRow (hook_rows hooks)
unfolding hook_rows
hook_rows-AreHookRows [] = tt
hook_rows-AreHookRows ((name, ep) ∷ hooks) = elim (Bool-cases (ltb 0 (length ep.calls))) [
  | inl e ↦ rw e (hook_row-IsHookRow name ep (ground arith), hook_rows-AreHookRows hooks)
  | inr e ↦ rw e (hook_rows-AreHookRows hooks)
]

sum_by-hook_rows :
    (hooks : BTreeMap Text HookEpisode)
    → sum_by (λ r. r.call_count) (hook_rows hooks) ≡ hook_call_count hooks
unfolding hook_rows hook_row
sum_by-hook_rows [] = refl
sum_by-hook_rows ((name, ep) ∷ hooks) = ground (arith, sum_by-hook_rows hooks)

-- The rank of the tools has the longest total duration first, leaves out no call, and its rows
-- are consistent.
pub record RanksTools {J : Type 0} (e : Episodes J) (rows : List ToolRankRow) : Type 0 where
  pub permuted : Perm rows (tool_rows e.tools)
  pub sorted : IsSortedBy longer_tool rows
  pub complete : sum_by (λ r. r.call_count) rows ≡ tool_call_count e.tools
  pub consistent : All IsToolRow rows

-- For any episodes the rank of the tools is a permutation of the rows, one for each tool with
-- calls, and has the longest total duration first. Its call counts add up to all tool calls, and
-- in each row there is a call, successes, failures and orphans add up to the calls, and the
-- median, the 95th percentile and the maximum are in order.
pub tool_rank-Ranks : {J : Type 0} (e : Episodes J) → RanksTools e (tool_rank e)
unfolding tool_rank
tool_rank-Ranks e = record {
  permuted = sort_by-perm longer_tool (tool_rows e.tools);
  sorted = sort_by-IsSortedBy longer_tool longer_tool-IsPreorder (tool_rows e.tools);
  complete =
      sum_by-sort_by longer_tool (λ r. r.call_count) (tool_rows e.tools) ∙ sum_by-tool_rows e.tools;
  consistent = All-sort_by longer_tool IsToolRow _ (tool_rows-AreToolRows e.tools);
}

-- The same of the rank of the hooks.
pub record RanksHooks {J : Type 0} (e : Episodes J) (rows : List HookRankRow) : Type 0 where
  pub permuted : Perm rows (hook_rows e.hooks)
  pub sorted : IsSortedBy longer_hook rows
  pub complete : sum_by (λ r. r.call_count) rows ≡ hook_call_count e.hooks
  pub consistent : All IsHookRow rows

-- For any episodes the rank of the hooks is a permutation of the rows, one for each hook with
-- calls, and has the longest total duration first, its call counts
-- add up to all hook calls, and in each row there is a call, successes and failures add up to the
-- calls, and the median is at most the 95th percentile.
pub hook_rank-Ranks : {J : Type 0} (e : Episodes J) → RanksHooks e (hook_rank e)
unfolding hook_rank
hook_rank-Ranks e = record {
  permuted = sort_by-perm longer_hook (hook_rows e.hooks);
  sorted = sort_by-IsSortedBy longer_hook longer_hook-IsPreorder (hook_rows e.hooks);
  complete =
      sum_by-sort_by longer_hook (λ r. r.call_count) (hook_rows e.hooks) ∙ sum_by-hook_rows e.hooks;
  consistent = All-sort_by longer_hook IsHookRow _ (hook_rows-AreHookRows e.hooks);
}
