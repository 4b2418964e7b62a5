-- ===== src/Discovery/Engine.antt =====
-- db_collector_os/discovery/engine.py. The methods that ask the network are given by what they have
-- found; `normalize_url` is a parameter, and so is `new_id`, which draws the candidate_ids one after
-- another.
pub mod Fresh
use Prim.Native.String.{◌++◌ as ◌⧺◌}
use db_collector_os.Prelude.{
  ℕ, suc, ◌+◌, String, Option, none, some, Bool, true, false, List, [], ◌∷◌, ◌++◌, ◌==◌,
  if◌then◌else◌,
}
use db_collector_os.Models.Json.{
  Value, null, bool, str, list, dict, Items, nil, cons, Fields, end, field, get_field,
}
use db_collector_os.JobRegistry.{Job}
use db_collector_os.Candidates.{Candidate, CandidateSpec, add}
use db_collector_os.Discovery.Urls.{
  DiscoveredUrl, Search, discover_from_search, discover_internal_links, discover_related_entities,
}
use db_collector_os.Validation.{truth}

-- `_safe`: a method that raises has found nothing.
abbrev pub safe : Option (List DiscoveredUrl) → List DiscoveredUrl
safe none = []
safe (some ds) = ds

abbrev dict_of : Option Value → Fields
dict_of (some (dict d)) = d
dict_of _ = end

abbrev fields_of : Value → Fields
fields_of (dict d) = d
fields_of _ = end

-- cfg.get("discovery", {}) or {}
abbrev pub discovery_config : Job → Fields
discovery_config j = dict_of (get_field "discovery" (fields_of j.config_json))

-- The texts of a list.
abbrev texts : Items → List String
texts nil = []
texts (cons (str s) vs) = s ∷ texts vs
texts (cons v vs) = texts vs

abbrev texts_of : Option Value → List String
texts_of (some (list vs)) = texts vs
texts_of _ = []

abbrev truth_of : Option Value → Bool
truth_of none = false
truth_of (some v) = truth v

abbrev or_true : Option Value → Bool
or_true none = true
or_true (some v) = truth v

-- What the methods of run_seed_discovery find; each is none where it raises.
pub record Sources : Type 0 where
  pub sitemap : String → Option (List DiscoveredUrl)
  pub robots : String → Option (List DiscoveredUrl)
  pub search : String → Option (List String)
  pub prefecture : Value → Bool → Option (List DiscoveredUrl)
  pub url_pattern : Value → Option (List DiscoveredUrl)

abbrev pub each : (String → Option (List DiscoveredUrl)) → List String → List DiscoveredUrl
each method [] = []
each method (u ∷ us) = safe (method u) ++ each method us

-- `if value: found.extend(_safe(…))`
abbrev if_given : (Value → Option (List DiscoveredUrl)) → Option Value → List DiscoveredUrl
if_given method none = []
if_given method (some v) = if truth v then safe (method v) else []

-- What run_seed_discovery has found before `_save_candidates`.
unfoldable pub seed_found : Sources → Job → List DiscoveredUrl
unfolding discover_from_search
seed_found sources j =
    let cfg = discovery_config j in
    each sources.sitemap (texts_of (get_field "sitemap_urls" cfg))
    ++ (each sources.robots (texts_of (get_field "robots_seed_urls" cfg))
        ++ (discover_from_search sources.search (texts_of (get_field "search_queries" cfg))
            ++ (if_given
                  (λ v. sources.prefecture v (truth_of (get_field "prefecture_use_slug" cfg)))
                  (get_field "prefecture_url_template" cfg)
                ++ if_given sources.url_pattern (get_field "url_pattern" cfg))))

-- What discover_from_page has found on a page: its links and its JSON-LD blocks are given, and
-- `compile` is re.compile, or none where it raises.
abbrev or_page_domain : List String → String → List String
or_page_domain [] d = d ∷ []
or_page_domain (a ∷ as_) d = a ∷ as_

abbrev compiled :
    (Value → Option (String → Search)) → Option Value → Option (Option (String → Search))
compiled compile none = some none
compiled compile (some v) =
    if truth v then elim (compile v) [ none ↦ none | some s ↦ some (some s) ] else some none

abbrev links_found :
    (String → String)
    → Option (Option (String → Search))
    → List String
    → List String
    → List DiscoveredUrl
unfolding discover_internal_links
links_found domain_of none allowed links = []
links_found domain_of (some pattern) allowed links =
    discover_internal_links domain_of pattern allowed links

unfoldable pub page_found :
    (domain_of : String → String) (compile : Value → Option (String → Search))
    → Job
    → (links : List String) (json_ld : List Fields) (page_domain : String) → List DiscoveredUrl
unfolding discover_internal_links discover_related_entities
page_found domain_of compile j links json_ld page_domain =
    let cfg = discovery_config j in
    (if or_true (get_field "internal_links" cfg)
      then links_found domain_of (compiled compile (get_field "product_url_pattern" cfg))
          (or_page_domain (texts_of (get_field "allowed_domains" cfg)) page_domain) links
      else [])
    ++ (if or_true (get_field "related_entities" cfg)
        then safe (discover_related_entities truth json_ld)
        else [])

-- job.get("category") or job.get("collector_type", "entity")
abbrev pub entity_type_of : Job → String
entity_type_of j = if j.category == "" then j.collector_type else j.category

abbrev pub fingerprint_of : String → String → Option String → String
fingerprint_of entity_type url none = url
fingerprint_of entity_type url (some id) = if id == "" then url else entity_type ⧺ (":" ⧺ id)

abbrev pub found_spec : Job → String → DiscoveredUrl → CandidateSpec
found_spec j url d = record {
  job_id = j.job_id;
  entity_type = entity_type_of j;
  name = none;
  normalized_name = none;
  url = some url;
  source_url = some url;
  discovery_method = d.method;
  fingerprint = some (fingerprint_of (entity_type_of j) url d.stable_id);
  confidence = d.confidence;
}

-- The table of candidates, and the number of ids that have been drawn.
pub record Pool : Type 0 where
  pub candidates : List Candidate
  pub drawn : ℕ

abbrev pub keep_created : DiscoveredUrl → Bool → List DiscoveredUrl → List DiscoveredUrl
keep_created d created ds = if created then d ∷ ds else ds

module _ (normalize_url : String → String) (new_id : ℕ → String) where
  -- One item of the loop, by its normalized URL.
  abbrev pub save_one : ℕ → Job → String → DiscoveredUrl → Pool → Pool × Bool
  unfolding add
  save_one now j url d p =
      let r = add now (new_id p.drawn) (found_spec j url d) p.candidates in
      (record { candidates = r.0; drawn = if r.1.1 then suc p.drawn else p.drawn }, r.1.1)

  -- `_save_candidates`: the new table, and the items that became rows of it.
  unfoldable pub save_candidates : ℕ → Job → List DiscoveredUrl → Pool → Pool × List DiscoveredUrl
  unfolding add
  save_candidates now j [] p = (p, [])
  save_candidates now j (d ∷ ds) p =
      let url = normalize_url d.url in
      let skipped = save_candidates now j ds p in
      let one = save_one now j url d p in
      let rest = save_candidates now j ds one.0 in
      if url == "" then skipped else (rest.0, keep_created d one.1 rest.1)
