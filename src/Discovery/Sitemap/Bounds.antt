-- ===== src/Discovery/Sitemap/Bounds.antt =====
-- How many URLs db_collector_os/discovery/sitemap.py and robots_sitemap.py return at most.
use db_collector_os.Prelude.{
  ℕ, zero, suc, ◌≤◌, ◌<◌, String, Option, none, some, List, [], ◌∷◌, ◌++◌, arith, leb, if-intro,
  length, length-append, length-limit,
}
use db_collector_os.Discovery.Urls.{DiscoveredUrl}
use db_collector_os.Discovery.Sitemap.{
  Document, sitemap_index, url_set, given, page, collect_pages, read_document, sitemap_at,
  discover_from_sitemap, discover_from_robots,
}

length-page : (o lastmod : Option String) → length (page o lastmod) ≤ 1
length-page none lastmod = ground arith
length-page (some url) lastmod = ground arith

length-collect_pages :
    (max : ℕ) (found : List DiscoveredUrl) (entries : List (Option String × Option String))
    → length found < max
    → length (collect_pages max found entries) ≤ max
unfolding collect_pages
length-collect_pages max found [] h = ground arith
length-collect_pages max found ((loc, lastmod) ∷ entries) h =
    let one = length-page (given loc) lastmod in
    let sum = length-append found (page (given loc) lastmod) in
    let found' = found ++ page (given loc) lastmod in
    if-intro (λ (ds : List DiscoveredUrl). length ds ≤ max) (leb max (length found')) _ _
      (λ _. omega arith) (λ e. length-collect_pages max found' entries (ground arith))

module _ (fetch_document : String → Option Document) where
  length-read_document :
      (visit : String → ℕ → List DiscoveredUrl) (max : ℕ) (o : Option Document)
      → 0 < max
      → length (read_document fetch_document visit max o) ≤ max
  unfolding read_document
  length-read_document visit max none h = ground arith
  length-read_document visit max (some (sitemap_index locs)) h = length-limit max _
  length-read_document visit max (some (url_set entries)) h = length-collect_pages max [] entries h

  length-sitemap_at :
      (levels : ℕ) (url : String) (max : ℕ)
      → 0 < max
      → length (sitemap_at fetch_document levels url max) ≤ max
  unfolding sitemap_at
  length-sitemap_at zero url max h = ground arith
  length-sitemap_at (suc levels) url max h =
      length-read_document (sitemap_at fetch_document levels) max (fetch_document url) h

  -- Whatever sitemaps a site serves, nested or in a circle, their discovery ends, with at most the
  -- number of URLs that was asked for, which is not 0; so does the discovery by the sitemaps that
  -- robots.txt names.
  pub sitemaps_bounded :
      (url : String) (urls : List String) (max : ℕ)
      → 0 < max
      → (length (discover_from_sitemap fetch_document url max) ≤ max)
        × (length (discover_from_robots fetch_document max urls) ≤ max)
  unfolding discover_from_sitemap discover_from_robots
  sitemaps_bounded url urls max h = (length-sitemap_at 4 url max h, length-limit max _)
