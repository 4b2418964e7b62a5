-- ===== src/Fetching/Client/Guard.antt =====
-- What the guard of db_collector_os/fetching/client.py lets through, and what robots.txt says.
use db_collector_os.Prelude.{
  ℕ, ◌≤◌, ◌<◌, ◌≡◌, ◌≢◌, ◌⊎◌, inl, inr, String, Option, none, some, true, false, List, [], arith,
  if-intro, Bool-cases, eq_iff, ◌==◌, leb,
}
use db_collector_os.Fetching.Client.{
  Net, Ip, FetchEngine, or_empty, is_unsafe_ip, is_unsafe_host, is_ssrf_risk, parsed,
}

-- A literal address, if the host is one, that is public.
pub data IsPublicIp : Option Ip → Type 0 where
  no_ip : IsPublicIp none
  public_ip :
      (a : Ip)
      → a.is_private ≡ false
      → a.is_loopback ≡ false
      → a.is_link_local ≡ false
      → a.is_reserved ≡ false
      → a.is_multicast ≡ false
      → IsPublicIp (some a)

pub record IsPublicHost (net : Net) (host : String) : Type 0 where
  pub given : host ≢ ""
  pub no_localhost : host ≢ "localhost"
  pub no_metadata : host ≢ "metadata.google.internal"
  pub no_link_local : host ≢ "169.254.169.254"
  pub ip : IsPublicIp (net.ip_address host)

-- What the guard lets through.
pub data IsSafe (net : Net) (engine : FetchEngine) (url : String) : Type 0 where
  all_networks : engine.allow_private_networks ≡ true → IsSafe net engine url
  public_host :
      (net.scheme url ≡ "http") ⊎ (net.scheme url ≡ "https")
      → IsPublicHost net (net.lower (or_empty (net.hostname url)))
      → IsSafe net engine url

-- The lines that are parsed: none of them for a robots.txt that is out of reach or absent.
pub data RobotsLines : Option (ℕ × List String) → List String → Type 0 where
  unreachable : RobotsLines none []
  absent : (status : ℕ) (lines : List String) → 400 ≤ status → RobotsLines (some (status, lines)) []
  served :
      (status : ℕ) (lines : List String) → status < 400 → RobotsLines (some (status, lines)) lines

module _ (net : Net) where
  pub RobotsLines-parsed : (a : Option (ℕ × List String)) → RobotsLines a (parsed net a)
  RobotsLines-parsed none = unreachable
  RobotsLines-parsed (some (status, lines)) =
      if-intro (RobotsLines (some (status, lines))) (leb 400 status) _ _
        (λ h. absent status lines (ground arith)) (λ h. served status lines (ground arith))

  public_test : (o : Option Ip) → is_unsafe_ip o ≡ false → IsPublicIp o
  public_test none h = no_ip
  public_test (some a) h =
      public_ip a (ground arith) (ground arith) (ground arith) (ground arith) (ground arith)

  unsafe_test : (o : Option Ip) → is_unsafe_ip o ≡ true → ¬ IsPublicIp o
  unsafe_test _ h no_ip = cc h
  unsafe_test _ h (public_ip a p l k r m) = ground (arith, h, p, l, k, r, m)

  host_test : (host : String) → is_unsafe_host net host ≡ false → IsPublicHost net host
  host_test host h = record {
    given = λ e. ground (arith, h, (eq_iff host "").1 e);
    no_localhost = λ e. ground (arith, h, (eq_iff host "localhost").1 e);
    no_metadata = λ e. ground (arith, h, (eq_iff host "metadata.google.internal").1 e);
    no_link_local = λ e. ground (arith, h, (eq_iff host "169.254.169.254").1 e);
    ip = public_test (net.ip_address host) (ground (arith, h));
  }

  unsafe_host_test : (host : String) → is_unsafe_host net host ≡ true → ¬ IsPublicHost net host
  unsafe_host_test host h p = elim (Bool-cases (is_unsafe_ip (net.ip_address host))) [
    | inl u ↦ unsafe_test (net.ip_address host) u p.ip
    | inr u ↦ elim (Bool-cases (host == "")) [
      | inl e ↦ p.given ((eq_iff host "").0 e)
      | inr e ↦ elim (Bool-cases (host == "localhost")) [
        | inl f ↦ p.no_localhost ((eq_iff host "localhost").0 f)
        | inr f ↦ elim (Bool-cases (host == "metadata.google.internal")) [
          | inl g ↦ p.no_metadata ((eq_iff host "metadata.google.internal").0 g)
          | inr g ↦
              p.no_link_local ((eq_iff host "169.254.169.254").0 (ground (arith, h, u, e, f, g)))
        ]
      ]
    ]
  ]

  -- The guard refuses exactly what is not safe.
  pub IsSafe-target :
      (engine : FetchEngine) (url : String)
      → is_ssrf_risk net url engine.allow_private_networks ≡ false
      → IsSafe net engine url
  unfolding is_ssrf_risk
  IsSafe-target engine url h = elim (Bool-cases engine.allow_private_networks) [
    | inl a ↦ all_networks a
    | inr a ↦
        let k = rw a at h in
        public_host
          (elim (Bool-cases (net.scheme url == "http")) [
            | inl s ↦ inl ((eq_iff (net.scheme url) "http").0 s)
            | inr s ↦ inr ((eq_iff (net.scheme url) "https").0 (ground (arith, k, s)))
          ])
          (host_test (net.lower (or_empty (net.hostname url))) (ground (arith, k)))
  ]

  pub unsafe_target :
      (engine : FetchEngine) (url : String)
      → is_ssrf_risk net url engine.allow_private_networks ≡ true
      → ¬ IsSafe net engine url
  unfolding is_ssrf_risk
  unsafe_target engine url h (all_networks a) = cc (rw a at h)
  unsafe_target engine url h (public_host s p) = elim (Bool-cases engine.allow_private_networks) [
    | inl a ↦ cc (rw a at h)
    | inr a ↦
        let k = rw a at h in
        unsafe_host_test (net.lower (or_empty (net.hostname url)))
          (elim s [
            | inl e ↦ ground (arith, k, (eq_iff (net.scheme url) "http").1 e)
            | inr e ↦ ground (arith, k, (eq_iff (net.scheme url) "https").1 e)
          ])
          p
  ]
