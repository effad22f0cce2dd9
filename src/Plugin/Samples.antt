-- ===== src/Plugin/Samples.antt =====
-- Ticks of the parts together: over a transport that answers, and over one whose reply is misread.
use herdr_tokens.Prelude.{String, true, false, List, [], ◌∷◌, ◌≡◌, refl}
use herdr_tokens.Prelude.Int.{pos, sub_time}
use herdr_tokens.Prelude.Result.{ok}
use herdr_tokens.Dict.{lookup, insert, retain}
use herdr_tokens.Config.{default, second, milliseconds, heartbeat_age}
use herdr_tokens.Wire.{Snapshot}
use herdr_tokens.Order.{before}
use herdr_tokens.Regexp.{matches}
use herdr_tokens.Json.Print.{print, put_body, put_raw, escape_of}
use herdr_tokens.Json.Parse.{
  parse, read_value, read_body, read_key, skip_ws, start_of, ahead, expect, piece, number_span,
}
use herdr_tokens.Json.Marshal.{insert_field, marshal}
use herdr_tokens.Wire.Decode.{
  is_field, into_fields, into_items, into_entries, workspace_field, decode_workspace, agent_field,
  decode_agent, snapshot_field, into_snapshot, result_field, decode_snapshot,
}
use herdr_tokens.Decimal.{itoa}
use herdr_tokens.Derive.{desired, put_count, count_agents, clear_all, status_token, token_value}
use herdr_tokens.Controller.{reconcile, visit, visit_all, skips, observed_matches_desired}
use herdr_tokens.Client.{
  Client, new_client, snapshot, call, request, request_id, report_metadata, report_params,
  response_field, decode_response,
}
use herdr_tokens.Client.Samples.{obliging, misread}
use herdr_tokens.Client.Replies.{Delivered, snapshot_iff}
use herdr_tokens.Controller.Samples.{remembering, both, two_ids-Distinct}
use herdr_tokens.Daemon.{Loop, start, default_base_backoff, default_max_backoff}
use herdr_tokens.Plugin.Server.{Herdr, held, herdr_socket, answer, serve, stored}
use herdr_tokens.Plugin.{Tick, tick}
use herdr_tokens.Plugin.Herdr.{IsTrue, IsAccepted, AllShown, round_controller, tick-AllShown}
use herdr_tokens.Plugin.Server.Law.{sample-IsHerdr}
use herdr_tokens.Plugin.Ticks.{tick-undelivered}

abbrev later : Tick
later = record { now = pos second; stopped = false }

abbrev after_some_rounds : Loop (Client × List String)
after_some_rounds = record {
  ctrl = remembering;
  backoff = default_base_backoff;
  saw_failure = false;
  world = (record { seq = 4 }, []);
}

computing : Unit {0}
unfolding tick snapshot call request request_id report_metadata report_params itoa reconcile visit
    visit_all skips observed_matches_desired desired put_count count_agents clear_all status_token
    token_value lookup insert retain sub_time heartbeat_age milliseconds marshal insert_field before
    print put_body put_raw escape_of parse read_value read_body read_key skip_ws start_of ahead
    expect piece number_span matches decode_response response_field decode_snapshot result_field
    into_snapshot snapshot_field into_items decode_workspace workspace_field decode_agent
    agent_field into_entries into_fields is_field answer serve stored
computing = tt

-- One snapshot request and two reports, with the ids that follow.
three_requests :
    (tick obliging default_base_backoff default_max_backoff later after_some_rounds).1.world.1
    ≡ "{\"id\":\"herdr-tokens-5\",\"method\":\"session.snapshot\",\"params\":{}}\n"
      ∷ "{\"id\":\"herdr-tokens-6\",\"method\":\"workspace.report_metadata\",\"params\":{\"source\":\"herdr-tokens\",\"tokens\":{\"att_blocked\":\"1\",\"n_agents\":\"2\",\"st_blocked\":\"space-a\",\"st_done\":null,\"st_idle\":null,\"st_none\":null,\"st_unknown\":null,\"st_working\":null},\"ttl_ms\":90000,\"workspace_id\":\"w1\"}}\n"
      ∷ "{\"id\":\"herdr-tokens-7\",\"method\":\"workspace.report_metadata\",\"params\":{\"source\":\"herdr-tokens\",\"tokens\":{\"att_blocked\":null,\"n_agents\":null,\"st_blocked\":null,\"st_done\":null,\"st_idle\":null,\"st_none\":\"space-b\",\"st_unknown\":null,\"st_working\":null},\"ttl_ms\":90000,\"workspace_id\":\"w2\"}}\n"
      ∷ []
unfolding computing
three_requests = refl

misread_is_undelivered : (snap : Snapshot) → Delivered misread (record { seq = 4 }) [] snap → ⊥
unfolding computing
misread_is_undelivered snap d =
    let e = (snapshot_iff misread (record { seq = 4 }) [] snap).1 d in cc

tick-undelivered_example :
    ((tick misread default_base_backoff default_max_backoff later after_some_rounds).1.ctrl
      ≡ remembering)
    × ((tick misread default_base_backoff default_max_backoff later after_some_rounds).1.world ≡ (
      (snapshot misread (record { seq = 4 }) []).1,
      (snapshot misread (record { seq = 4 }) []).2,
    ))
    × ((tick misread default_base_backoff default_max_backoff later after_some_rounds).1.saw_failure
        ≡ true)
tick-undelivered_example =
    tick-undelivered misread default_base_backoff default_max_backoff later after_some_rounds
      misread_is_undelivered

-- A server with two workspaces whose tokens are out of date.
abbrev stale : Herdr
stale = record { session = both; reply = "" }

abbrev started : Loop (Client × Herdr)
started = start default default_base_backoff (new_client, stale)

first_snapshot : (snapshot herdr_socket new_client stale).0 ≡ ok both
unfolding computing
first_snapshot = refl

both-IsTrue : IsTrue herdr_socket held both (snapshot herdr_socket new_client stale).2
unfolding computing
both-IsTrue = ((λ k owned. refl), ((λ k owned. refl), tt))

first-IsAccepted :
    IsAccepted herdr_socket
      (round_controller started)
      both
      (pos second)
      ((snapshot herdr_socket new_client stale).1, (snapshot herdr_socket new_client stale).2)
unfolding computing
first-IsAccepted = refl

tick-AllShown_example :
    AllShown herdr_socket held both "label"
      (tick herdr_socket default_base_backoff default_max_backoff later started).1.world.1
tick-AllShown_example =
    tick-AllShown herdr_socket held default_base_backoff default_max_backoff later started both
      sample-IsHerdr first_snapshot two_ids-Distinct both-IsTrue first-IsAccepted
