-- ===== src/Fetching/Client/Requests.antt =====
-- Which requests a fetch of db_collector_os/fetching/client.py sends.
use db_collector_os.Prelude.{
  ℕ, ◌≡◌, ◌≢◌, refl, String, Option, none, some, Bool, true, false, List, [], ◌∷◌, ◌++◌, if-intro,
}
use db_collector_os.Fetching.Client.{
  Net, FetchEngine, FetchResult, Cache, Request, robots_request, page_request, redirects, followed,
  header, is_ssrf_risk, robots_url, find_lines, parsed, parser_at, get_parser, or_true, can_fetch,
  send, robots_verdict, fetch,
}
use db_collector_os.Fetching.Client.Guard.{
  IsSafe, RobotsLines, RobotsLines-parsed, IsSafe-target, unsafe_target,
}

module _ (net : Net) (engine : FetchEngine) (url : String) (etag last_modified : Option String)
    (cache : Cache) where
  -- The page, and then the redirects that were followed from it.
  abbrev page : List Request
  page =
      page_request url
      ∷ redirects (followed (net.get url (header net etag) (header net last_modified)))

  abbrev robots : List Request
  robots = robots_request (robots_url net url) ∷ redirects (net.get_robots (robots_url net url)).0

  -- The requests of a fetch, in their order.
  pub data Sends : List Request → Type 0 where
    guarded : ¬ IsSafe net engine url → Sends []
    unasked : IsSafe net engine url → engine.respect_robots ≡ false → Sends page
    cached :
        (lines : List String)
        → IsSafe net engine url
        → engine.respect_robots ≡ true
        → find_lines net (robots_url net url) cache ≡ some lines
        → net.may_fetch lines url ≢ some false
        → Sends page
    cached_refusal :
        (lines : List String)
        → IsSafe net engine url
        → engine.respect_robots ≡ true
        → find_lines net (robots_url net url) cache ≡ some lines
        → net.may_fetch lines url ≡ some false
        → Sends []
    asked :
        (lines : List String)
        → IsSafe net engine url
        → engine.respect_robots ≡ true
        → find_lines net (robots_url net url) cache ≡ none
        → RobotsLines (net.get_robots (robots_url net url)).1 lines
        → net.may_fetch lines url ≢ some false
        → Sends (robots ++ page)
    asked_refusal :
        (lines : List String)
        → IsSafe net engine url
        → engine.respect_robots ≡ true
        → find_lines net (robots_url net url) cache ≡ none
        → RobotsLines (net.get_robots (robots_url net url)).1 lines
        → net.may_fetch lines url ≡ some false
        → Sends robots

  abbrev asks : ℕ → Bool × (Cache × List Request) → List Request
  asks now r = (robots_verdict net engine now url etag last_modified r).1.1

  -- By what the parser says: the requests so far are `before`.
  verdict-Sends :
      (now : ℕ) (lines : List String) (c : Cache) (before : List Request)
      → (net.may_fetch lines url ≢ some false → Sends (before ++ page))
      → (net.may_fetch lines url ≡ some false → Sends before)
      → Sends (asks now (or_true net (net.may_fetch lines url), (c, before)))
  unfolding robots_verdict send
  verdict-Sends now lines c before allowed refused = go (net.may_fetch lines url) refl
    where
      go :
          (o : Option Bool)
          → net.may_fetch lines url ≡ o
          → Sends (asks now (or_true net o, (c, before)))
      go none e = allowed (λ h. cc (h, e))
      go (some true) e = allowed (λ h. cc (h, e))
      go (some false) e = refused e

  parser-Sends :
      (now : ℕ) (o : Option (List String))
      → IsSafe net engine url
      → engine.respect_robots ≡ true
      → find_lines net (robots_url net url) cache ≡ o
      → Sends (
          let p = parser_at net (robots_url net url) o cache in
          asks now (or_true net (net.may_fetch p.0 url), p.1))
  parser-Sends now (some lines) safe r e =
      verdict-Sends now lines cache [] (cached lines safe r e) (cached_refusal lines safe r e)
  parser-Sends now none safe r e =
      let answer = net.get_robots (robots_url net url) in
      let lines = parsed net answer.1 in
      let read = RobotsLines-parsed net answer.1 in
      verdict-Sends now lines ((robots_url net url, lines) ∷ cache) robots
        (asked lines safe r e read) (asked_refusal lines safe r e read)

  -- A target that is not safe for the guard gets no request. For another, where robots.txt is to be
  -- respected and is not in the cache, the first request is for robots.txt; a page that robots.txt
  -- disallows gets no request, and otherwise one request is sent for the page. Each of the two is
  -- followed by the requests of its redirects, which the guard is not asked about, and no other
  -- request is sent.
  pub fetch-Sends : (now : ℕ) → Sends (fetch net engine now url etag last_modified cache).1.1
  unfolding fetch can_fetch get_parser robots_verdict send
  fetch-Sends now =
      if-intro (λ (r : FetchResult × (Cache × List Request)). Sends r.1.1)
        (is_ssrf_risk net url engine.allow_private_networks) _ _
        (λ h. guarded (unsafe_target net engine url h))
        (λ h.
          let safe = IsSafe-target net engine url h in
          if-intro (λ (r : Bool × (Cache × List Request)). Sends (asks now r)) engine.respect_robots
            (can_fetch net url cache) (true, (cache, []))
            (λ r. parser-Sends now (find_lines net (robots_url net url) cache) safe r refl)
            (λ r. unasked safe r))
