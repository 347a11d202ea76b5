-- ===== src/Tests/Fail2ban.antt =====
-- The theorems on the fail2ban socket app, with a client that knows two jails.
use mcp_log_server.Prelude.{
  List, Option, [], bool_eq, false, if◌then◌else◌, leb, length, list_eq, nat_eq, none, option_eq,
  refl, some, string_eq, ◌&&◌, ◌==◌, ◌∷◌, ◌≡◌,
}
use mcp_log_server.Prelude.Int.{int_eq, pos, ℤ}
use mcp_log_server.Prelude.Json.{end, field, obj, str}
use mcp_log_server.Prelude.Matcher.{
  grouped, line_end, literal, plus, search_match, star, nothing, one, match_after,
}
use mcp_log_server.Prelude.Result.{ok}
use mcp_log_server.Prelude.Strings.{
  is_space, strip_end, strip_start, reverse_onto, split_words, strip,
}
use mcp_log_server.Prelude.Utf8.{Text, codes}
use mcp_log_server.Fail2ban.Client.{
  Command, JailBans, JailList, Subprocess, and_run, blocked_ips_summary, command, completed,
  list_jails, parse_jail_count, returned, run, parse_jail_list, parse_currently_banned,
  get_jail_bans, parse_banned_ips, bans_of_jails,
}
use mcp_log_server.Fail2ban.Requests.{blocked_ips, build_response, dispatch_request, dispatch}
use mcp_log_server.Fail2ban.Requests.ReadOnly.{IsReadOnly, build_response-IsReadOnly}
use mcp_log_server.Fail2ban.Requests.Summary.{
  IsRows, blocked_ips_summary-IsRows, status_of, status_of_all,
}
use mcp_log_server.Filtering.Extract.{Python}
use mcp_log_server.Snapshots.{splitlines, add_char, starts_newline, is_line_break}
use mcp_log_server.SocketApp.Server.{Decoded, value}

-- `1` is read as one, `2` as two.
abbrev digit_of : Text → Option ℤ
digit_of t = if t == codes "1" then some (pos 1) else if t == codes "2" then some (pos 2) else none

abbrev sample_python : Python
sample_python = record {
  is_word = λ c. false;
  is_decimal = λ c. leb 48 c && leb c 57;
  lower = λ t. t;
  is_digit = λ t. false;
  int_of = digit_of;
  json_loads = λ t. none;
}

abbrev sample_client : Subprocess
sample_client history command =
    if length command == 4
    then completed (pos 0) (codes "Status\n|- Number of jail:\t2\n`- Jail list:\tsshd, web\n") []
    else completed (pos 0) (codes "|- Currently banned:\t1\n`- Banned IP list:\t10.0.0.7 ::1\n") []

abbrev sample_socket : Text
sample_socket = codes "/run/f2b"

abbrev sample_rows : List JailBans
sample_rows =
    record {
      jail_name = codes "sshd";
      currently_banned = pos 1;
      banned_ips = codes "10.0.0.7" ∷ codes "::1" ∷ [];
    }
    ∷ record {
      jail_name = codes "web";
      currently_banned = pos 1;
      banned_ips = codes "10.0.0.7" ∷ codes "::1" ∷ [];
    }
    ∷ []

abbrev sample_commands : List Command
sample_commands =
    status_of_all sample_python sample_client sample_socket
    ∷ status_of sample_python sample_client sample_socket (codes "sshd")
    ∷ status_of sample_python sample_client sample_socket (codes "web")
    ∷ []

summary_runs :
    blocked_ips_summary sample_python sample_client sample_socket []
    ≡ (ok sample_rows, sample_commands)
unfolding add_char and_run bans_of_jails blocked_ips_summary build_response command dispatch
    dispatch_request get_jail_bans grouped is_line_break is_space line_end list_jails literal
    match_after nothing one parse_banned_ips parse_currently_banned parse_jail_count parse_jail_list
    plus returned reverse_onto run search_match split_words splitlines star starts_newline strip
    strip_end strip_start
summary_runs = refl

blocked_ips_summary-IsRows_example :
    (found : JailList) × (mid : List Command) × (list_jails sample_python sample_client
        sample_socket []
      ≡ (ok found, mid))
    × IsRows sample_python sample_client sample_socket found.jails mid sample_rows sample_commands
blocked_ips_summary-IsRows_example =
    blocked_ips_summary-IsRows sample_python sample_client sample_socket [] sample_commands
      sample_rows summary_runs

abbrev sample_request : Decoded
sample_request = value (obj (field "operation" (str "blocked_ips_summary") end))

build_response-IsReadOnly_example :
    IsReadOnly sample_socket []
      (build_response sample_python sample_client sample_socket sample_request [])
build_response-IsReadOnly_example =
    build_response-IsReadOnly sample_python sample_client sample_socket sample_request []

request_runs :
    build_response sample_python sample_client sample_socket sample_request []
    ≡ (ok (blocked_ips sample_rows), sample_commands)
unfolding add_char and_run bans_of_jails blocked_ips_summary build_response command dispatch
    dispatch_request get_jail_bans grouped is_line_break is_space line_end list_jails literal
    match_after nothing one parse_banned_ips parse_currently_banned parse_jail_count parse_jail_list
    plus returned reverse_onto run search_match split_words splitlines star starts_newline strip
    strip_end strip_start
request_runs = refl
