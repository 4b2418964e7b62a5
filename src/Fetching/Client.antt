-- ===== src/Fetching/Client.antt =====
-- db_collector_os/fetching/client.py and fetching/robots.py: one fetch of a page. What `requests`,
-- `urllib`, `ipaddress` and the codecs answer is the parameter `Net`; a parser of robots.txt is the
-- lines that it has parsed. Times are microseconds, and a delay that a server asks for is not negative.
pub mod Guard
pub mod Requests
pub mod Verdicts
use Prim.Native.String.{◌++◌ as ◌⧺◌}
use db_collector_os.Prelude.{
  ℕ, ◌-◌, String, Option, none, some, Bool, true, false, not, ◌&&◌, ◌||◌, List, [], ◌∷◌, ◌++◌, ltb,
  leb, ◌=?◌, ◌==◌, if◌then◌else◌, length,
}
use db_collector_os.Prelude.Text.{contains, contains_any, starts_with_any, take_text, before}
use db_collector_os.JobRegistry.Schedule.{strip}

pub record FetchResult : Type 0 where
  pub url : String
  pub ok : Bool
  pub http_status : Option ℕ
  pub final_url : Option String
  pub content : Option String
  pub content_type : Option String
  pub content_hash : Option String
  pub etag : Option String
  pub last_modified : Option String
  pub error : Option String
  pub retry_after : Option ℕ
  pub blocked : Bool

-- What ipaddress says of a literal address.
pub record Ip : Type 0 where
  pub is_private : Bool
  pub is_loopback : Bool
  pub is_link_local : Bool
  pub is_reserved : Bool
  pub is_multicast : Bool

-- A response of `requests`. `history` is the URLs of the requests that followed a redirect, one for
-- each response of resp.history. `meta_charset` is what the regular expression finds in the first 4096
-- bytes, `decode` is `content.decode`, or none where it raises.
pub record Response : Type 0 where
  pub status_code : ℕ
  pub url : String
  pub history : List String
  pub content_type : Option String
  pub etag : Option String
  pub last_modified : Option String
  pub retry_after : Option String
  pub text : String
  pub meta_charset : Option String
  pub apparent_encoding : Option String
  pub decode : String → Option String
  pub decode_utf8 : String

-- How a request ends, with the URLs of the redirects that were followed.
pub data Sent : Type 0 where
  response : Response → Sent
  timed_out : List String → Sent
  request_error : List String → String → Sent

abbrev pub followed : Sent → List String
followed (response r) = r.history
followed (timed_out urls) = urls
followed (request_error urls e) = urls

pub record Net : Type 0 where
  pub scheme : String → String
  pub netloc : String → String
  pub hostname : String → Option String
  pub lower : String → String
  pub ip_address : String → Option Ip
  pub get : (url : String) (etag last_modified : Option String) → Sent
  -- the redirects that were followed, the status and the lines
  pub get_robots : String → List String × Option (ℕ × List String)
  pub may_fetch : (lines : List String) (url : String) → Option Bool
  pub to_float : String → Option ℕ
  pub parse_date : String → Option ℕ
  pub sha256 : String → String

pub record FetchEngine : Type 0 where
  pub respect_robots : Bool
  pub allow_private_networks : Bool
  pub max_redirects : ℕ

-- A request that leaves the machine; `requests` follows redirects by itself.
pub data Request : Type 0 where
  robots_request page_request redirect_request : String → Request

abbrev pub redirects : List String → List Request
redirects [] = []
redirects (u ∷ us) = redirect_request u ∷ redirects us

abbrev pub Cache : Type 0
Cache = List (String × List String)

abbrev or_empty : Option String → String
or_empty none = ""
or_empty (some s) = s

-- `if text`
abbrev is_given : Option String → Bool
is_given none = false
is_given (some s) = not (s == "")

abbrev pub allowed_content_types : List String
allowed_content_types =
    "text/html" ∷ "application/xhtml+xml" ∷ "application/xml" ∷ "text/xml" ∷ "application/json" ∷ []

abbrev pub captcha_markers : List String
captcha_markers = "captcha" ∷ "are you a human" ∷ "unusual traffic" ∷ "access denied" ∷ []

abbrev is_blocked_host : String → Bool
is_blocked_host h = h == "localhost" || h == "metadata.google.internal" || h == "169.254.169.254"

abbrev is_unsafe_ip : Option Ip → Bool
is_unsafe_ip none = false
is_unsafe_ip (some a) =
    a.is_private || a.is_loopback || a.is_link_local || a.is_reserved || a.is_multicast

module _ (net : Net) where
  abbrev is_unsafe_host : String → Bool
  is_unsafe_host host = host == "" || is_blocked_host host || is_unsafe_ip (net.ip_address host)

  unfoldable pub is_ssrf_risk : String → Bool → Bool
  is_ssrf_risk url true = false
  is_ssrf_risk url false =
      not (net.scheme url == "http" || net.scheme url == "https")
      || is_unsafe_host (net.lower (or_empty (net.hostname url)))

  abbrev pub robots_url : String → String
  robots_url url = net.scheme url ⧺ ("://" ⧺ (net.netloc url ⧺ "/robots.txt"))

  abbrev find_lines : String → Cache → Option (List String)
  find_lines key [] = none
  find_lines key ((k, lines) ∷ rest) = if k == key then some lines else find_lines key rest

  -- A robots.txt that is absent or out of reach allows all.
  abbrev parsed : Option (ℕ × List String) → List String
  parsed none = []
  parsed (some (status, lines)) = if leb 400 status then [] else lines

  abbrev parser_at : String → Option (List String) → Cache → List String × (Cache × List Request)
  parser_at key (some lines) cache = (lines, (cache, []))
  parser_at key none cache =
      let answer = net.get_robots key in
      let lines = parsed answer.1 in
      (lines, ((key, lines) ∷ cache, robots_request key ∷ redirects answer.0))

  -- The lines, the new cache, and the requests that were sent.
  unfoldable pub get_parser : String → Cache → List String × (Cache × List Request)
  get_parser url cache = parser_at (robots_url url) (find_lines (robots_url url) cache) cache

  abbrev or_true : Option Bool → Bool
  or_true none = true
  or_true (some b) = b

  unfoldable pub can_fetch : String → Cache → Bool × (Cache × List Request)
  unfolding get_parser
  can_fetch url cache = let p = get_parser url cache in (or_true (net.may_fetch p.0 url), p.1)

  abbrev until_date : ℕ → Option ℕ → Option ℕ
  until_date now none = none
  until_date now (some t) = some (t - now)

  abbrev retry_at : ℕ → String → Option ℕ → Option ℕ
  retry_at now value none = until_date now (net.parse_date value)
  retry_at now value (some seconds) = some seconds

  unfoldable pub parse_retry_after : ℕ → Option String → Option ℕ
  parse_retry_after now none = none
  parse_retry_after now (some value) =
      if value == "" then none else retry_at now value (net.to_float value)

  abbrev or_utf8 : Response → Option String → String
  or_utf8 r none = r.decode_utf8
  or_utf8 r (some s) = s

  abbrev or_utf8_name : Option String → String
  or_utf8_name none = "utf-8"
  or_utf8_name (some e) = if e == "" then "utf-8" else e

  abbrev decode_guess : Response → String
  decode_guess r = or_utf8 r (r.decode (or_utf8_name r.apparent_encoding))

  abbrev or_guess : Response → Option String → String
  or_guess r none = decode_guess r
  or_guess r (some s) = s

  abbrev decode_meta : Response → Option String → String
  decode_meta r none = decode_guess r
  decode_meta r (some charset) = or_guess r (r.decode charset)

  unfoldable pub decode_body : Response → String
  unfolding contains
  decode_body r =
      if contains "charset=" (net.lower (or_empty r.content_type))
      then r.text
      else decode_meta r r.meta_charset

  abbrev pub content_type_of : Response → String
  unfolding before strip
  content_type_of r = net.lower (strip (before 59 (or_empty r.content_type)))

  abbrev pub failure : String → String → FetchResult
  failure url error = record {
    url = url;
    ok = false;
    http_status = none;
    final_url = none;
    content = none;
    content_type = none;
    content_hash = none;
    etag = none;
    last_modified = none;
    error = some error;
    retry_after = none;
    blocked = false;
  }

  abbrev pub refused : String → ℕ → String → FetchResult
  refused url status error = record (failure url error) { http_status = some status }

  abbrev pub is_captcha : String → Bool
  unfolding contains_any take_text
  is_captcha text = contains_any captcha_markers (net.lower (take_text 5000 text))

  -- The result for a body, after the tests of the status and of the content type.
  abbrev pub body_result : String → Response → String → String → FetchResult
  unfolding contains_any take_text
  body_result url r content_type text =
      if is_captcha text
      then record (refused url r.status_code "captcha/block page detected") {
        final_url = some r.url;
        blocked = true;
      }
      else record {
        url = url;
        ok = true;
        http_status = some r.status_code;
        final_url = some r.url;
        content = some text;
        content_type = some content_type;
        content_hash = some (net.sha256 text);
        etag = r.etag;
        last_modified = r.last_modified;
        error = none;
        retry_after = none;
        blocked = false;
      }

  abbrev typed_result : String → Response → String → FetchResult
  unfolding starts_with_any contains_any take_text decode_body
  typed_result url r content_type =
      if not (content_type == "") && not (starts_with_any allowed_content_types content_type)
      then record (refused url r.status_code ("unsupported content-type: " ⧺ content_type)) {
        content_type = some content_type;
      }
      else body_result url r content_type (decode_body r)

  -- The ladder of tests on a response.
  unfoldable pub read_response : FetchEngine → ℕ → String → Response → FetchResult
  unfolding starts_with_any contains_any take_text decode_body before strip parse_retry_after
  read_response engine now url r =
      if ltb engine.max_redirects (length r.history)
      then refused url r.status_code "too many redirects"
      else if r.status_code =? 304
      then record (failure url "") {
        ok = true;
        http_status = some 304;
        final_url = some r.url;
        error = none;
      }
      else if r.status_code =? 429
      then record (refused url 429 "rate limited") {
        retry_after = parse_retry_after now r.retry_after;
      }
      else if r.status_code =? 403
      then record (refused url 403 "forbidden") { blocked = true }
      else if r.status_code =? 404
      then refused url 404 "not found"
      else if leb 500 r.status_code
      then refused url r.status_code "server error"
      else typed_result url r (content_type_of r)

  abbrev read_sent : FetchEngine → ℕ → String → Sent → FetchResult
  unfolding read_response
  read_sent engine now url (response r) = read_response engine now url r
  read_sent engine now url (timed_out urls) = failure url "timeout"
  read_sent engine now url (request_error urls e) = failure url ("request error: " ⧺ e)

  -- The header is sent if the validator is not empty.
  abbrev pub header : Option String → Option String
  header h = if is_given h then h else none

  abbrev send :
      FetchEngine
      → ℕ
      → String
      → Option String
      → Option String
      → Cache × List Request
      → FetchResult × (Cache × List Request)
  unfolding read_response
  send engine now url etag last_modified (cache, sent) =
      let answer = net.get url (header etag) (header last_modified) in
      (
        read_sent engine now url answer,
        (cache, sent ++ page_request url ∷ redirects (followed answer)),
      )

  abbrev robots_verdict :
      FetchEngine
      → ℕ
      → String
      → Option String
      → Option String
      → Bool × (Cache × List Request)
      → FetchResult × (Cache × List Request)
  unfolding read_response
  robots_verdict engine now url etag last_modified (false, rest) =
      (failure url "blocked by robots.txt", rest)
  robots_verdict engine now url etag last_modified (true, rest) =
      send engine now url etag last_modified rest

  -- The result, the new cache of robots.txt files, and the requests that were sent, in order.
  unfoldable pub fetch :
      FetchEngine
      → ℕ
      → (url : String) (etag last_modified : Option String) → Cache
      → FetchResult × (Cache × List Request)
  unfolding is_ssrf_risk can_fetch read_response
  fetch engine now url etag last_modified cache =
      if is_ssrf_risk url engine.allow_private_networks
      then (failure url "blocked: unsafe target (SSRF guard)", (cache, []))
      else robots_verdict engine now url etag last_modified
          (if engine.respect_robots then can_fetch url cache else (true, (cache, [])))
