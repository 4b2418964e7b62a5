-- ===== src/Discovery/Urls.antt =====
-- The methods of db_collector_os/discovery that make URLs from what the job or a page gives: base.py,
-- url_pattern.py, prefecture.py, related_entity.py, internal_links.py and search_discovery.py. A method
-- that raises returns none; a confidence is in thousandths.
use db_collector_os.Prelude.{
  ℕ, zero, suc, ◌+◌, ◌-◌, String, Option, none, some, Bool, true, false, List, [], ◌∷◌, ◌++◌, map,
  ltb, ◌=?◌, ◌==◌, if◌then◌else◌,
}
use db_collector_os.Prelude.Text.{starts_with, contains, decimal}
use db_collector_os.Models.Json.{
  Value, str, list, dict, Items, nil, cons, Fields, end, field, get_field,
}

pub record DiscoveredUrl : Type 0 where
  pub url : String
  pub method : String
  pub lastmod : Option String
  pub confidence : ℕ
  pub stable_id : Option String

abbrev pub discovered : String → ℕ → String → DiscoveredUrl
discovered method confidence url = record {
  url = url;
  method = method;
  lastmod = none;
  confidence = confidence;
  stable_id = none;
}

-- The numbers n, n + step, … while they are at most `last`; the fuel bounds their number.
range_from : ℕ → ℕ → ℕ → ℕ → List ℕ
range_from zero n last step = []
range_from (suc fuel) n last step =
    let rest = range_from fuel (n + step) last step in if ltb last n then [] else n ∷ rest

-- range(start, end + 1, step) for a step that is not 0
unfoldable pub range : ℕ → ℕ → ℕ → List ℕ
unfolding range_from
range start last step = range_from (suc last - start) start last step

-- `replace` is str.replace. A step of 0 makes `range` raise.
unfoldable pub discover_by_url_pattern :
    (replace : String → String → String → String)
    → (template : String) (start last step : ℕ) (placeholder : String) → Option (List DiscoveredUrl)
unfolding range contains
discover_by_url_pattern replace template start last step placeholder =
    if contains placeholder template
    then if step =? 0
      then none
      else some (
          map (λ n. discovered "url_pattern" 400 (replace template placeholder (decimal n)))
            (range start last step))
    else some []

abbrev pub prefectures : List String
prefectures =
    "北海道" ∷ "青森県" ∷ "岩手県" ∷ "宮城県" ∷ "秋田県" ∷ "山形県" ∷ "福島県" ∷ "茨城県" ∷ "栃木県" ∷ "群馬県" ∷ "埼玉県" ∷ "千葉県"
    ∷ "東京都" ∷ "神奈川県" ∷ "新潟県" ∷ "富山県" ∷ "石川県" ∷ "福井県" ∷ "山梨県" ∷ "長野県" ∷ "岐阜県" ∷ "静岡県" ∷ "愛知県" ∷ "三重県"
    ∷ "滋賀県" ∷ "京都府" ∷ "大阪府" ∷ "兵庫県" ∷ "奈良県" ∷ "和歌山県" ∷ "鳥取県" ∷ "島根県" ∷ "岡山県" ∷ "広島県" ∷ "山口県" ∷ "徳島県"
    ∷ "香川県" ∷ "愛媛県" ∷ "高知県" ∷ "福岡県" ∷ "佐賀県" ∷ "長崎県" ∷ "熊本県" ∷ "大分県" ∷ "宮崎県" ∷ "鹿児島県" ∷ "沖縄県" ∷ []

abbrev pub prefecture_slugs : List String
prefecture_slugs =
    "hokkaido" ∷ "aomori" ∷ "iwate" ∷ "miyagi" ∷ "akita" ∷ "yamagata" ∷ "fukushima" ∷ "ibaraki"
    ∷ "tochigi" ∷ "gunma" ∷ "saitama" ∷ "chiba" ∷ "tokyo" ∷ "kanagawa" ∷ "niigata" ∷ "toyama"
    ∷ "ishikawa" ∷ "fukui" ∷ "yamanashi" ∷ "nagano" ∷ "gifu" ∷ "shizuoka" ∷ "aichi" ∷ "mie"
    ∷ "shiga" ∷ "kyoto" ∷ "osaka" ∷ "hyogo" ∷ "nara" ∷ "wakayama" ∷ "tottori" ∷ "shimane"
    ∷ "okayama" ∷ "hiroshima" ∷ "yamaguchi" ∷ "tokushima" ∷ "kagawa" ∷ "ehime" ∷ "kochi" ∷ "fukuoka"
    ∷ "saga" ∷ "nagasaki" ∷ "kumamoto" ∷ "oita" ∷ "miyazaki" ∷ "kagoshima" ∷ "okinawa" ∷ []

abbrev cons_found : Option DiscoveredUrl → Option (List DiscoveredUrl) → Option (List DiscoveredUrl)
cons_found none rest = none
cons_found (some d) none = none
cons_found (some d) (some ds) = some (d ∷ ds)

abbrev found_at : Option String → Option DiscoveredUrl
found_at none = none
found_at (some url) = some (discovered "prefecture" 600 url)

-- `format template value` is template.format(pref=value), or none where it raises.
format_each : (String → String → Option String) → String → List String → Option (List DiscoveredUrl)
format_each format template [] = some []
format_each format template (v ∷ vs) =
    cons_found (found_at (format template v)) (format_each format template vs)

unfoldable pub discover_by_prefecture :
    (format : String → String → Option String) → String → Bool → Option (List DiscoveredUrl)
unfolding format_each contains
discover_by_prefecture format template use_slug =
    if contains "{pref}" template
    then format_each format template (if use_slug then prefecture_slugs else prefectures)
    else some []

abbrev http_text : Value → List DiscoveredUrl
unfolding starts_with
http_text (str s) = if starts_with "http" s then discovered "related_entity" 450 s ∷ [] else []
http_text _ = []

abbrev http_items : Items → List DiscoveredUrl
unfolding starts_with
http_items nil = []
http_items (cons v vs) = http_text v ++ http_items vs

-- Over a dict Python iterates on the keys.
abbrev http_keys : Fields → List DiscoveredUrl
unfolding starts_with
http_keys end = []
http_keys (field k v rest) = http_text (str k) ++ http_keys rest

-- `same_as or []`, of which a number that is not 0, True or an object is not iterable.
abbrev related_of : (truth : Value → Bool) → Option Value → Option (List DiscoveredUrl)
unfolding starts_with
related_of truth none = some []
related_of truth (some (str s)) = some (http_text (str s))
related_of truth (some (list vs)) = some (http_items vs)
related_of truth (some (dict d)) = some (http_keys d)
related_of truth (some v) = if truth v then none else some []

abbrev append_found :
    Option (List DiscoveredUrl) → Option (List DiscoveredUrl) → Option (List DiscoveredUrl)
append_found none rest = none
append_found (some ds) none = none
append_found (some ds) (some es) = some (ds ++ es)

-- The blocks are the JSON-LD objects of a page.
unfoldable pub discover_related_entities :
    (truth : Value → Bool) → List Fields → Option (List DiscoveredUrl)
unfolding starts_with
discover_related_entities truth [] = some []
discover_related_entities truth (b ∷ bs) =
    append_found (related_of truth (get_field "sameAs" b)) (discover_related_entities truth bs)

-- What a regular expression answers: no match, or a match with its first group, if it has one.
pub data Search : Type 0 where
  no_match : Search
  match : Option String → Search

abbrev is_member : String → List String → Bool
is_member s [] = false
is_member s (t ∷ ts) = if s == t then true else is_member s ts

abbrev internal : String → Option String → DiscoveredUrl
internal url stable_id = record (discovered "internal_link" 400 url) { stable_id = stable_id }

abbrev link_of : String → Search → List DiscoveredUrl
link_of url no_match = []
link_of url (match id) = internal url id ∷ []

-- With no pattern each link of an allowed domain counts.
abbrev searched : Option (String → Search) → String → List DiscoveredUrl
searched none url = internal url none ∷ []
searched (some search) url = link_of url (search url)

-- `domain_of` is urlsplit(link).netloc.lower().
unfoldable pub discover_internal_links :
    (domain_of : String → String)
    → Option (String → Search)
    → List String
    → List String
    → List DiscoveredUrl
discover_internal_links domain_of pattern allowed [] = []
discover_internal_links domain_of pattern allowed (link ∷ links) =
    (if is_member (domain_of link) allowed then searched pattern link else [])
    ++ discover_internal_links domain_of pattern allowed links

abbrev or_nothing : Option (List String) → List String
or_nothing none = []
or_nothing (some urls) = urls

-- `search` is provider.search, or none where it raises.
unfoldable pub discover_from_search :
    (String → Option (List String)) → List String → List DiscoveredUrl
discover_from_search search [] = []
discover_from_search search (q ∷ qs) =
    map (discovered "search_query" 500) (or_nothing (search q)) ++ discover_from_search search qs
