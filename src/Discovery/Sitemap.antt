-- ===== src/Discovery/Sitemap.antt =====
-- db_collector_os/discovery/sitemap.py and robots_sitemap.py. What a fetch and the XML parser make of a
-- sitemap's URL is a parameter.
pub mod Bounds
use db_collector_os.Prelude.{
  ℕ, zero, suc, ◌-◌, String, Option, none, some, Bool, List, [], ◌∷◌, ◌++◌, leb, if◌then◌else◌,
  length, limit, ◌==◌,
}
use db_collector_os.JobRegistry.Schedule.{strip}
use db_collector_os.Discovery.Urls.{DiscoveredUrl, discovered}

-- A parsed sitemap: the `loc` of each entry, and of a page its `lastmod`.
pub data Document : Type 0 where
  sitemap_index : List (Option String) → Document
  url_set : List (Option String × Option String) → Document

-- `if loc`, with the text stripped
abbrev given : Option String → Option String
unfolding strip
given none = none
given (some s) = if s == "" then none else some (strip s)

abbrev page : Option String → Option String → List DiscoveredUrl
page none lastmod = []
page (some url) lastmod = record (discovered "sitemap" 500 url) { lastmod = lastmod } ∷ []

-- The loop over a urlset; `found` are those found so far.
unfoldable pub collect_pages :
    ℕ → List DiscoveredUrl → List (Option String × Option String) → List DiscoveredUrl
unfolding strip
collect_pages max found [] = found
collect_pages max found ((loc, lastmod) ∷ entries) =
    let found' = found ++ page (given loc) lastmod in
    let rest = collect_pages max found' entries in if leb max (length found') then found' else rest

module _ (fetch_document : String → Option Document) where
  -- The loop over a sitemap index, where `visit` reads one of its sitemaps.
  unfoldable pub visit_each :
      (visit : String → ℕ → List DiscoveredUrl)
      → ℕ
      → List DiscoveredUrl
      → List (Option String)
      → List DiscoveredUrl
  unfolding strip
  visit_each visit max found [] = found
  visit_each visit max found (loc ∷ locs) =
      let found' =
        found ++ elim (given loc) [ none ↦ [] | some url ↦ visit url (max - length found) ] in
      let rest = visit_each visit max found' locs in
      if leb max (length found') then found' else rest

  abbrev read_document :
      (visit : String → ℕ → List DiscoveredUrl) → ℕ → Option Document → List DiscoveredUrl
  unfolding collect_pages visit_each
  read_document visit max none = []
  read_document visit max (some (sitemap_index locs)) = limit max (visit_each visit max [] locs)
  read_document visit max (some (url_set entries)) = collect_pages max [] entries

  -- `levels` is 4 - _depth: at depth 4 nothing is fetched.
  unfoldable pub sitemap_at : (levels : ℕ) → String → ℕ → List DiscoveredUrl
  unfolding collect_pages visit_each
  sitemap_at zero url max = []
  sitemap_at (suc levels) url max =
      read_document (λ u m. sitemap_at levels u m) max (fetch_document url)

  unfoldable pub discover_from_sitemap : String → ℕ → List DiscoveredUrl
  unfolding sitemap_at
  discover_from_sitemap url max = sitemap_at 4 url max

  -- The loop of discover_from_robots over the sitemaps that robots.txt names.
  unfoldable pub sitemaps_each : ℕ → List DiscoveredUrl → List String → List DiscoveredUrl
  unfolding discover_from_sitemap
  sitemaps_each max found [] = found
  sitemaps_each max found (url ∷ urls) =
      let found' = found ++ discover_from_sitemap url (max - length found) in
      let rest = sitemaps_each max found' urls in if leb max (length found') then found' else rest

  unfoldable pub discover_from_robots : ℕ → List String → List DiscoveredUrl
  unfolding sitemaps_each
  discover_from_robots max urls = limit max (sitemaps_each max [] urls)
