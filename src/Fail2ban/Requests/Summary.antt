-- ===== src/Fail2ban/Requests/Summary.antt =====
-- The summary of all jails: its rows and the commands that are run for them.
use mathlib.Core.List.{append-nil, append_assoc}
use mcp_log_server.Prelude.{List, [], ap, map, refl, sym, ◌++◌, ◌∙◌, ◌∷◌, ◌≡◌}
use mcp_log_server.Prelude.Result.{Result, err, err-ne-ok, ok, ok_inj}
use mcp_log_server.Prelude.Utf8.{Text, codes}
use mcp_log_server.Fail2ban.Client.{
  Command, Failure, JailBans, JailList, Run, Subprocess, and_run, bans_of_jails,
  blocked_ips_summary, command, get_jail_bans, list_jails, parse_currently_banned, returned, run,
}
use mcp_log_server.Fail2ban.Requests.{listed}
use mcp_log_server.Filtering.Extract.{Python}

and_run-ok :
    {A B : Type 0} (first : Result Failure A × List Command) (next : A → Run B) {b : B}
    {last : List Command}
    → and_run first next ≡ (ok b, last)
    → (a : A) × (mid : List Command) × (first ≡ (ok a, mid)) × (next a mid ≡ (ok b, last))
unfolding and_run
and_run-ok (ok a, mid) next h = (a, mid, refl, h)
and_run-ok (err e, mid) next h = err-ne-ok (ap (λ x. x.0) h)

returned-ok :
    {A B : Type 0} (r : Result Failure A) (make : A → B) (mid : List Command) {b : B}
    {last : List Command}
    → returned r make mid ≡ (ok b, last)
    → (a : A) × (b ≡ make a) × (last ≡ mid)
unfolding returned
returned-ok (ok a) make mid h = (a, sym (ok_inj (ap (λ x. x.0) h)), sym (ap (λ x. x.1) h))
returned-ok (err e) make mid h = err-ne-ok (ap (λ x. x.0) h)

module _ (py : Python) (process : Subprocess) (socket_path : Text) where
  abbrev pub status_of : Text → Command
  status_of name = codes "fail2ban-client" ∷ codes "-s" ∷ socket_path ∷ codes "status" ∷ name ∷ []

  abbrev pub status_of_all : Command
  status_of_all = codes "fail2ban-client" ∷ codes "-s" ∷ socket_path ∷ codes "status" ∷ []

  -- The rows are those of the jails in their order, and each jail is asked for once.
  pub record IsRows (names : List Text) (history : List Command) (rows : List JailBans)
      (last : List Command) : Type 0 where
    pub rows_named : map (λ (row : JailBans). row.jail_name) rows ≡ names
    pub commands_run : last ≡ history ++ map status_of names

  get_jail_bans-ok :
      (name : Text) (history last : List Command) (row : JailBans)
      → get_jail_bans py process socket_path name history ≡ (ok row, last)
      → (row.jail_name ≡ name) × (last ≡ history ++ status_of name ∷ [])
  unfolding get_jail_bans run command
  get_jail_bans-ok name history last row h =
      let (output, mid, ran, made) =
        and_run-ok
          (run process (command py process socket_path (codes "status" ∷ name ∷ [])) history) _ h in
      let (n, same, stayed) = returned-ok (parse_currently_banned py output) _ mid made in
      (ap (λ (r : JailBans). r.jail_name) same, stayed ∙ sym (ap (λ x. x.1) ran))

  bans_of_jails-IsRows :
      (names : List Text) (history last : List Command) (rows : List JailBans)
      → bans_of_jails py process socket_path names history ≡ (ok rows, last)
      → IsRows names history rows last
  unfolding bans_of_jails
  bans_of_jails-IsRows [] history last rows h = record {
    rows_named = ap (map (λ (row : JailBans). row.jail_name)) (sym (ok_inj (ap (λ x. x.0) h)));
    commands_run = sym (ap (λ x. x.1) h) ∙ sym (append-nil history);
  }
  bans_of_jails-IsRows (name ∷ names) history last rows h =
      let (row, mid, ran, rest) =
        and_run-ok (get_jail_bans py process socket_path name history) _ h in
      let (others, after, looped, made) =
        and_run-ok (bans_of_jails py process socket_path names mid) _ rest in
      let (named, first) = get_jail_bans-ok name history mid row ran in
      let more = bans_of_jails-IsRows names mid after others looped in
      record {
        rows_named =
            ap (map (λ (r : JailBans). r.jail_name)) (sym (ok_inj (ap (λ x. x.0) made)))
            ∙ ap (λ (t : Text). t ∷ map (λ (r : JailBans). r.jail_name) others) named
            ∙ ap (λ (ts : List Text). name ∷ ts) more.rows_named;
        commands_run =
            sym (ap (λ x. x.1) made)
            ∙ more.commands_run
            ∙ ap (λ (c : List Command). c ++ map status_of names) first
            ∙ append_assoc history (status_of name ∷ []) (map status_of names);
      }

  -- A summary that is returned has one row for each listed jail, in their order and under their
  -- names, and after the command that lists them it has asked for the status of each jail once, in
  -- that order.
  pub blocked_ips_summary-IsRows :
      (history last : List Command) (rows : List JailBans)
      → blocked_ips_summary py process socket_path history ≡ (ok rows, last)
      → (found : JailList) × (mid : List Command) × (list_jails py process socket_path history
          ≡ (ok found, mid))
        × IsRows found.jails mid rows last
  unfolding blocked_ips_summary
  blocked_ips_summary-IsRows history last rows h =
      let (found, mid, listed, looped) =
        and_run-ok (list_jails py process socket_path history) _ h in
      (found, mid, listed, bans_of_jails-IsRows found.jails mid last rows looped)
