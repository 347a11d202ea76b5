-- ===== src/Fail2ban/Client.antt =====
-- `Fail2banClientAdapter` of fail2ban-socket-app/src/fail2ban_socket_app/adapters.py. What
-- `subprocess.run` does may depend on the commands that were run before.
use mcp_log_server.Prelude.{
  Bool, List, Option, String, [], bool_eq, if◌then◌else◌, length, list_eq, nat_eq, none, not,
  option_eq, some, string_eq, ℕ, ◌++◌, ◌==◌, ◌∷◌,
}
use mcp_log_server.Prelude.Int.{int_eq, pos, ℤ}
use mcp_log_server.Prelude.Json.{items}
use mcp_log_server.Prelude.Matcher.{
  End, Matcher, grouped, line_end, literal, plus, search_match, star, ◌then_match◌,
}
use mcp_log_server.Prelude.Result.{Result, err, ok}
use mcp_log_server.Prelude.Strings.{is_space, split_words, strip}
use mcp_log_server.Prelude.Utf8.{Text, codes}
use mcp_log_server.Filtering.Extract.{Python}
use mcp_log_server.Snapshots.{output_lines}

abbrev pub Command : Type 0
Command = List Text

-- `CompletedProcess`, or what `subprocess.run` raised.
pub data Completed : Type 0 where
  completed : ℤ → Text → Text → Completed
  timeout_expired : Completed
  os_error : Completed
  unicode_error : Completed

abbrev pub Subprocess : Type 0
Subprocess = List Command → Command → Completed

-- The ProtocolExceptions of the app.
pub data ProtocolError : Type 0 where
  operation_missing : ProtocolError
  params_not_object : ProtocolError
  unsupported_operation : String → ProtocolError
  not_non_empty_string : String → ProtocolError
  no_parameters : ProtocolError
  request_not_object : ProtocolError

-- What a request can raise. `invalid_int` is the ValueError of `int` on too many digits.
pub data Failure : Type 0 where
  protocol_error : ProtocolError → Failure
  json_decode_error : Failure
  unicode_decode_error : Failure
  timed_out : Failure
  client_missing : Failure
  operation_failed : Text → Failure
  invalid_int : Failure

-- A computation that runs commands: the commands so far are its state.
abbrev pub Run : Type 0 → Type 0
Run A = List Command → Result Failure A × List Command

unfoldable pub and_run :
    {A B : Type 0} → Result Failure A × List Command → (A → Run B) → Result Failure B × List Command
and_run (ok a, history) next = next a history
and_run (err e, history) next = (err e, history)

unfoldable pub returned : {A B : Type 0} → Result Failure A → (A → B) → Run B
returned (ok a) make history = (ok (make a), history)
returned (err e) make history = (err e, history)

-- `_run_command`, without the call itself.
failure_text : Text → Text → Text
failure_text stdout stderr =
    if strip (stdout ++ 10 ∷ stderr) == []
    then codes "fail2ban-client operation failed."
    else strip (stdout ++ 10 ∷ stderr)

run_command : Completed → Result Failure Text
unfolding failure_text
run_command timeout_expired = err timed_out
run_command os_error = err client_missing
run_command unicode_error = err unicode_decode_error
run_command (completed returncode stdout stderr) =
    if returncode == pos 0 then ok stdout else err (operation_failed (failure_text stdout stderr))

unfoldable pub run : Subprocess → Command → Run Text
unfolding run_command
run process command history = (run_command (process history command), history ++ command ∷ [])

-- The group of the first line in which a pattern is found.
first_or : Option End → Option Text → Option Text
first_or none later = later
first_or (some e) later = some e.group

first_group : Matcher → List Text → Option Text
unfolding first_or
first_group pattern [] = none
first_group pattern (line ∷ lines) =
    first_or (search_match pattern line) (first_group pattern lines)

any_char : ℕ → Bool
any_char c = not (c == 10)

jail_list_pattern : Matcher
unfolding any_char
jail_list_pattern =
    literal (codes "Jail list:")
    then_match star is_space
    then_match grouped (plus any_char)
    then_match line_end

banned_ip_list_pattern : Matcher
unfolding any_char
banned_ip_list_pattern =
    literal (codes "Banned IP list:")
    then_match star is_space
    then_match grouped (star any_char)
    then_match line_end

count_pattern : Python → String → Matcher
count_pattern py label =
    literal (codes label)
    then_match star is_space
    then_match grouped (plus py.is_decimal)
    then_match line_end

-- `text.split(",")`
add_to_first : ℕ → List Text → List Text
add_to_first c [] = (c ∷ []) ∷ []
add_to_first c (part ∷ parts) = (c ∷ part) ∷ parts

split_commas : Text → List Text
unfolding add_to_first
split_commas [] = [] ∷ []
split_commas (c ∷ t) =
    let rest = split_commas t in if c == 44 then [] ∷ rest else add_to_first c rest

stripped_items : List Text → List Text
stripped_items [] = []
stripped_items (item ∷ items) =
    let rest = stripped_items items in if strip item == [] then rest else strip item ∷ rest

items_of : (Text → List Text) → Option Text → List Text
unfolding stripped_items
items_of split none = []
items_of split (some t) = stripped_items (split t)

unfoldable pub parse_jail_list : Text → List Text
unfolding items_of first_group jail_list_pattern output_lines split_commas
parse_jail_list output = items_of split_commas (first_group jail_list_pattern (output_lines output))

unfoldable pub parse_banned_ips : Text → List Text
unfolding items_of first_group banned_ip_list_pattern output_lines
parse_banned_ips output =
    items_of split_words (first_group banned_ip_list_pattern (output_lines output))

-- `int(match.group("count"))`
as_count : Option ℤ → Result Failure ℤ
as_count none = err invalid_int
as_count (some n) = ok n

count_or : Python → ℤ → Option Text → Result Failure ℤ
unfolding as_count
count_or py fallback none = ok fallback
count_or py fallback (some t) = as_count (py.int_of t)

unfoldable pub parse_jail_count : Python → Text → ℕ → Result Failure ℤ
unfolding count_or first_group count_pattern output_lines
parse_jail_count py output fallback =
    count_or py (pos fallback)
      (first_group (count_pattern py "Number of jail:") (output_lines output))

unfoldable pub parse_currently_banned : Python → Text → Result Failure ℤ
unfolding count_or first_group count_pattern output_lines
parse_currently_banned py output =
    count_or py (pos 0) (first_group (count_pattern py "Currently banned:") (output_lines output))

pub record JailList : Type 0 where
  pub jails : List Text
  pub jail_count : ℤ

pub record JailBans : Type 0 where
  pub jail_name : Text
  pub currently_banned : ℤ
  pub banned_ips : List Text

module _ (py : Python) (process : Subprocess) (socket_path : Text) where
  -- `_command`
  unfoldable pub command : List Text → Command
  command args = codes "fail2ban-client" ∷ codes "-s" ∷ socket_path ∷ args

  unfoldable pub list_jails : Run JailList
  list_jails history = and_run (run process (command (codes "status" ∷ [])) history) (λ output.
      returned (parse_jail_count py output (length (parse_jail_list output)))
        (λ n. record { jails = parse_jail_list output; jail_count = n }))

  unfoldable pub get_jail_bans : Text → Run JailBans
  get_jail_bans name history =
      and_run (run process (command (codes "status" ∷ name ∷ [])) history) (λ output.
        returned (parse_currently_banned py output) (λ n. record {
          jail_name = name;
          currently_banned = n;
          banned_ips = parse_banned_ips output;
        }))

  -- The loop of `blocked_ips_summary`.
  unfoldable pub bans_of_jails : List Text → Run (List JailBans)
  bans_of_jails [] history = (ok [], history)
  bans_of_jails (name ∷ names) history =
      and_run (get_jail_bans name history)
        (λ row after. and_run (bans_of_jails names after) (λ rows last. (ok (row ∷ rows), last)))

  unfoldable pub blocked_ips_summary : Run (List JailBans)
  blocked_ips_summary history = and_run (list_jails history) (λ found. bans_of_jails found.jails)
