-- ===== src/Fail2ban/Requests/ReadOnly.antt =====
-- The commands that a request runs.
use mathlib.Core.List.{append-nil, append_assoc}
use mcp_log_server.Prelude.{
  All, All-append, Bool-cases, List, Option, String, [], ap, arith, bool_eq, inl, inr, length,
  list_eq, nat_eq, none, option_eq, refl, some, string_eq, sym, ◌++◌, ◌==◌, ◌∙◌, ◌∷◌, ◌≡◌, ◌≤◌,
}
use mcp_log_server.Prelude.Int.{int_eq}
use mcp_log_server.Prelude.Json.{
  Fields, Json, arr, bool, end, float, get, get_or_null, int, null, obj, str,
}
use mcp_log_server.Prelude.Result.{Result, err, ok}
use mcp_log_server.Prelude.Utf8.{Text, codes}
use mcp_log_server.Fail2ban.Client.{
  Command, Failure, Run, Subprocess, and_run, bans_of_jails, blocked_ips_summary, command,
  get_jail_bans, list_jails, parse_currently_banned, parse_jail_count, parse_jail_list, returned,
  run,
}
use mcp_log_server.Fail2ban.Requests.{
  bans_of, blocked_ips, build_response, checked, dispatch, dispatch_request, jail_bans, jail_list,
  listed, reject_params, required_string, summarized, with_operation, with_params,
}
use mcp_log_server.Filtering.Extract.{Python}
use mcp_log_server.SocketApp.Server.{Decoded, bad_json, bad_utf8, value}

-- `fail2ban-client -s <socket> status`, and at most one argument after it.
abbrev pub IsStatus : Text → Command → Type 0
IsStatus socket_path c =
    (args : List Text) × (c
      ≡ codes "fail2ban-client" ∷ codes "-s" ∷ socket_path ∷ codes "status" ∷ args)
    × (length args ≤ 1)

-- The commands before are kept, and those after them only ask for a status.
pub record IsReadOnly {A : Type 0} (socket_path : Text) (history : List Command)
    (out : Result Failure A × List Command) : Type 0 where
  pub commands : List Command
  pub are_kept : out.1 ≡ history ++ commands
  pub are_status : All (IsStatus socket_path) commands

module _ (py : Python) (process : Subprocess) (socket_path : Text) where
  nothing_run :
      {A : Type 0} (r : Result Failure A) (history : List Command)
      → IsReadOnly socket_path history (r, history)
  nothing_run r history = record {
    commands = [];
    are_kept = sym (append-nil history);
    are_status = tt;
  }

  and_run-IsReadOnly :
      {A B : Type 0} (history : List Command) (first : Result Failure A × List Command)
      (next : A → Run B)
      → IsReadOnly socket_path history first
      → ((a : A) (after : List Command) → IsReadOnly socket_path after (next a after))
      → IsReadOnly socket_path history (and_run first next)
  unfolding and_run
  and_run-IsReadOnly history (err e, after) next done each = record {
    commands = done.commands;
    are_kept = done.are_kept;
    are_status = done.are_status;
  }
  and_run-IsReadOnly history (ok a, after) next done each =
      let more = each a after in
      record {
        commands = done.commands ++ more.commands;
        are_kept =
            more.are_kept
            ∙ ap (λ (h : List Command). h ++ more.commands) done.are_kept
            ∙ append_assoc history done.commands more.commands;
        are_status =
            All-append (IsStatus socket_path) done.commands more.commands done.are_status
              more.are_status;
      }

  run-IsReadOnly :
      (args : List Text) (history : List Command)
      → length args ≤ 1
      → IsReadOnly socket_path history
          (run process (command py process socket_path (codes "status" ∷ args)) history)
  unfolding run command
  run-IsReadOnly args history few = record {
    commands = (codes "fail2ban-client" ∷ codes "-s" ∷ socket_path ∷ codes "status" ∷ args) ∷ [];
    are_kept = refl;
    are_status = ((args, refl, few), tt);
  }

  returned-IsReadOnly :
      {A B : Type 0} (r : Result Failure A) (make : A → B) (history : List Command)
      → IsReadOnly socket_path history (returned r make history)
  unfolding returned
  returned-IsReadOnly (ok a) make history = nothing_run (ok (make a)) history
  returned-IsReadOnly (err e) make history = nothing_run (err e) history

  list_jails-IsReadOnly :
      (history : List Command)
      → IsReadOnly socket_path history (list_jails py process socket_path history)
  unfolding list_jails
  list_jails-IsReadOnly history =
      and_run-IsReadOnly history
        (run process (command py process socket_path (codes "status" ∷ [])) history) _
        (run-IsReadOnly [] history (omega arith))
        (λ output after.
          returned-IsReadOnly (parse_jail_count py output (length (parse_jail_list output))) _
            after)

  get_jail_bans-IsReadOnly :
      (name : Text) (history : List Command)
      → IsReadOnly socket_path history (get_jail_bans py process socket_path name history)
  unfolding get_jail_bans
  get_jail_bans-IsReadOnly name history =
      and_run-IsReadOnly history
        (run process (command py process socket_path (codes "status" ∷ name ∷ [])) history) _
        (run-IsReadOnly (name ∷ []) history (omega arith))
        (λ output after. returned-IsReadOnly (parse_currently_banned py output) _ after)

  bans_of_jails-IsReadOnly :
      (names : List Text) (history : List Command)
      → IsReadOnly socket_path history (bans_of_jails py process socket_path names history)
  unfolding bans_of_jails
  bans_of_jails-IsReadOnly [] history = nothing_run (ok []) history
  bans_of_jails-IsReadOnly (name ∷ names) history =
      and_run-IsReadOnly history (get_jail_bans py process socket_path name history) _
        (get_jail_bans-IsReadOnly name history)
        (λ row after.
          and_run-IsReadOnly after (bans_of_jails py process socket_path names after) _
            (bans_of_jails-IsReadOnly names after)
            (λ rows last. nothing_run (ok (row ∷ rows)) last))

  blocked_ips_summary-IsReadOnly :
      (history : List Command)
      → IsReadOnly socket_path history (blocked_ips_summary py process socket_path history)
  unfolding blocked_ips_summary
  blocked_ips_summary-IsReadOnly history =
      and_run-IsReadOnly history (list_jails py process socket_path history) _
        (list_jails-IsReadOnly history) (λ found after. bans_of_jails-IsReadOnly found.jails after)

  checked-IsReadOnly :
      {A B : Type 0} (r : Result Failure A) (next : A → Run B) (history : List Command)
      → ((a : A) → IsReadOnly socket_path history (next a history))
      → IsReadOnly socket_path history (checked r next history)
  unfolding checked
  checked-IsReadOnly (ok a) next history each = each a
  checked-IsReadOnly (err e) next history each = nothing_run (err e) history

  dispatch-IsReadOnly :
      (operation : String) (params : Fields) (history : List Command)
      → IsReadOnly socket_path history (dispatch py process socket_path operation params history)
  unfolding dispatch listed bans_of summarized
  dispatch-IsReadOnly operation params history = elim (Bool-cases (operation == "list_jails")) [
    | inl lists ↦ rw lists (
        checked-IsReadOnly (reject_params params) _ history (λ _.
          and_run-IsReadOnly history (list_jails py process socket_path history) _
            (list_jails-IsReadOnly history)
            (λ found after. nothing_run (ok (jail_list found)) after)))
    | inr no_list ↦ rw no_list (elim (Bool-cases (operation == "get_jail_bans")) [
      | inl bans ↦ rw bans (
          checked-IsReadOnly (required_string params "jail_name") _ history (λ name.
            and_run-IsReadOnly history (get_jail_bans py process socket_path (codes name) history) _
              (get_jail_bans-IsReadOnly (codes name) history)
              (λ found after. nothing_run (ok (jail_bans found)) after)))
      | inr no_bans ↦ rw no_bans (elim (Bool-cases (operation == "blocked_ips_summary")) [
        | inl sums ↦ rw sums (
            checked-IsReadOnly (reject_params params) _ history (λ _.
              and_run-IsReadOnly history (blocked_ips_summary py process socket_path history) _
                (blocked_ips_summary-IsReadOnly history)
                (λ found after. nothing_run (ok (blocked_ips found)) after)))
        | inr other ↦ rw other (nothing_run _ history)
      ])
    ])
  ]

  with_params-IsReadOnly :
      (operation : String) (params : Option Json) (history : List Command)
      → IsReadOnly socket_path history (with_params py process socket_path operation params history)
  unfolding with_params
  with_params-IsReadOnly operation none history = dispatch-IsReadOnly operation end history
  with_params-IsReadOnly operation (some (obj params)) history =
      dispatch-IsReadOnly operation params history
  with_params-IsReadOnly operation (some null) history = nothing_run _ history
  with_params-IsReadOnly operation (some (bool b)) history = nothing_run _ history
  with_params-IsReadOnly operation (some (int z)) history = nothing_run _ history
  with_params-IsReadOnly operation (some (float z whole t)) history = nothing_run _ history
  with_params-IsReadOnly operation (some (str s)) history = nothing_run _ history
  with_params-IsReadOnly operation (some (arr js)) history = nothing_run _ history

  with_operation-IsReadOnly :
      (operation : Json) (params : Option Json) (history : List Command)
      → IsReadOnly socket_path history
          (with_operation py process socket_path operation params history)
  unfolding with_operation
  with_operation-IsReadOnly (str operation) params history = elim (Bool-cases (operation == "")) [
    | inl empty ↦ rw empty (nothing_run _ history)
    | inr named ↦ rw named (with_params-IsReadOnly operation params history)
  ]
  with_operation-IsReadOnly null params history = nothing_run _ history
  with_operation-IsReadOnly (bool b) params history = nothing_run _ history
  with_operation-IsReadOnly (int z) params history = nothing_run _ history
  with_operation-IsReadOnly (float z whole t) params history = nothing_run _ history
  with_operation-IsReadOnly (arr js) params history = nothing_run _ history
  with_operation-IsReadOnly (obj f) params history = nothing_run _ history

  -- Whatever request line the fail2ban socket app answers, and whatever the client prints, each
  -- command it runs is fail2ban-client on the configured socket with the word status and at most
  -- one argument after it.
  pub build_response-IsReadOnly :
      (line : Decoded) (history : List Command)
      → IsReadOnly socket_path history (build_response py process socket_path line history)
  unfolding build_response dispatch_request
  build_response-IsReadOnly bad_utf8 history = nothing_run _ history
  build_response-IsReadOnly bad_json history = nothing_run _ history
  build_response-IsReadOnly (value (obj request)) history =
      with_operation-IsReadOnly (get_or_null request "operation") (get request "params") history
  build_response-IsReadOnly (value null) history = nothing_run _ history
  build_response-IsReadOnly (value (bool b)) history = nothing_run _ history
  build_response-IsReadOnly (value (int z)) history = nothing_run _ history
  build_response-IsReadOnly (value (float z whole t)) history = nothing_run _ history
  build_response-IsReadOnly (value (str s)) history = nothing_run _ history
  build_response-IsReadOnly (value (arr js)) history = nothing_run _ history
