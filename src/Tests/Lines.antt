-- ===== src/Tests/Lines.antt =====
-- Runs of the normalizers and the classifier on single lines.
use mcp_log_server.Prelude.Matcher.{
  boundary, maybe, star, ahead, substitute, times, search_match, line_end, literal_any_case,
  grouped, plus, either, literal,
}
use mcp_log_server.Prelude.Strings.{is_space, strip}
use mcp_log_server.Prelude.{
  bool_eq, leb, list_eq, nat_eq, option_eq, refl, some, string_eq, ◌&&◌, ◌==◌, ◌||◌, ◌≡◌,
}
use mcp_log_server.Prelude.Int.{int_eq}
use mcp_log_server.Prelude.Json.{end, field, str}
use mcp_log_server.Prelude.Utf8.{codes}
use mcp_log_server.Analysis.Normalize.{extract_plain_text_message, normalize_text, one_space}
use mcp_log_server.Analysis.Requests.{extract_proxy_method_path, matched_group}
use mcp_log_server.Analysis.Routes.{key_eq}
use mcp_log_server.Analysis.Values.{Runtime}
use mcp_log_server.Tests.Probes.{sample_runtime}

abbrev word_runtime : Runtime
word_runtime = record sample_runtime {
  python = record sample_runtime.python {
    is_word =
        λ c. (leb 48 c && leb c 57) || (leb 97 c && leb c 122) || (leb 65 c && leb c 90) || c == 95;
  };
  sha256 = λ t. codes "0123456789abcdef";
}

-- Labeled codes stay, or become their digest if they are long; other long numbers do not.
normalized :
    normalize_text word_runtime
      (codes " of deadbeefcafe12\tn 1234567 error code: 123456 code=1234567890123 ab123456 ")
    ≡ codes "of <id> n <n> error code: 123456 code=<code:0123456789ab> ab123456"
unfolding ahead boundary either extract_plain_text_message extract_proxy_method_path grouped
    is_space line_end literal literal_any_case matched_group maybe normalize_text one_space plus
    search_match star strip substitute times
normalized = refl

prefix_taken :
    extract_plain_text_message word_runtime
      (codes "2026-04-30T19:12:38.123Z stderr F connection failed")
    ≡ (codes "connection failed", some (codes "2026-04-30T19:12:38.123Z"))
unfolding either extract_plain_text_message extract_proxy_method_path grouped is_space line_end
    literal matched_group maybe plus strip times
prefix_taken = refl

request_read :
    extract_proxy_method_path word_runtime (field "request" (str "GET /a/b?x=1 HTTP/1.1") end)
    ≡ (some (codes "GET"), some (codes "/a/b?x=1"))
unfolding extract_proxy_method_path grouped is_space plus strip
request_read = refl
