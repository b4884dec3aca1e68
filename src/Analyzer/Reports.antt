-- ===== src/Analyzer/Reports.antt =====
-- `analyze` behind `derive_episodes`: what a report says of the events it was made of.
use agentprof.Base.{◌+◌, ◌≡◌, List, count, length, length-map, ◌∙◌}
use agentprof.Base.Sort.{sum_by}
use agentprof.Event.{Event, Instant}
use agentprof.Episode.{Episodes}
use agentprof.Derive.{derive_episodes}
use agentprof.Derive.Counts.{turn_orphan, tool_orphan, hook_orphan}
use agentprof.Derive.Balance.{is_turn_start, is_tool_start, is_hook_start}
use agentprof.Derive.Totals.{IsAccounted, derive_episodes-IsAccounted, count_kind}
use agentprof.Analyzer.Summary.{
  SessionMeta, ParseWarning, AnalysisReport, turn_summary, turn_row, analyze,
}
use agentprof.Analyzer.Ranking.{tool_rank-Ranks, hook_rank-Ranks}

module _ {J : Type 0} where
  length-turn_summary : (e : Episodes J) → length (turn_summary e) ≡ length e.turns
  unfolding turn_summary
  length-turn_summary e = length-map turn_row e.turns

  -- A report shows all the starts of the events, and the ends without a start as its own warnings
  -- count them.
  pub record ShowsAll (events : List (Event J)) (r : AnalysisReport) : Type 0 where
    pub turns :
        length r.turn_summary ≡ count_kind is_turn_start events + count turn_orphan r.warnings
    pub tools :
        sum_by (λ row. row.call_count) r.tool_rank
        ≡ count_kind is_tool_start events + count tool_orphan r.warnings
    pub hooks :
        sum_by (λ row. row.call_count) r.hook_rank
        ≡ count_kind is_hook_start events + count hook_orphan r.warnings

  -- In the report of a derivation the rows of the turns, and the call counts of the tools and of
  -- the hooks, add up to the starts among the events plus the ends that the report's warnings
  -- name as without a start, whatever the order of the events.
  pub analyze-ShowsAll :
      (events : List (Event J)) (started_at : Instant) (meta : SessionMeta)
      (parse_warnings : List ParseWarning)
      → ShowsAll events (analyze (derive_episodes events started_at) meta parse_warnings)
  unfolding analyze
  analyze-ShowsAll events started_at meta parse_warnings =
      let e = derive_episodes events started_at in
      let accounted : IsAccounted events e = derive_episodes-IsAccounted events started_at in
      record {
        turns = length-turn_summary e ∙ accounted.turns;
        tools = (tool_rank-Ranks e).complete ∙ accounted.tools;
        hooks = (hook_rank-Ranks e).complete ∙ accounted.hooks;
      }
