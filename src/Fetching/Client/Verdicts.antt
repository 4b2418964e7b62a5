-- ===== src/Fetching/Client/Verdicts.antt =====
-- What a fetch of db_collector_os/fetching/client.py makes of the answer that it gets.
use db_collector_os.Prelude.{
  ℕ, ◌≤◌, ◌<◌, ◌≡◌, ◌≢◌, ◌⊎◌, refl, inl, inr, String, Option, none, some, Bool, true, false, not,
  ◌&&◌, List, [], ◌∷◌, arith, if-intro, ltb, leb, ◌=?◌, ◌==◌, eq_iff, Has, Bool-cases, length,
}
use db_collector_os.Prelude.Text.{contains, contains_any, starts_with, starts_with_any, take_text}
use db_collector_os.Fetching.Client.{
  Net, FetchEngine, FetchResult, Response, Sent, response, timed_out, request_error, Cache, Request,
  header, captcha_markers, is_captcha, body_result, typed_result, content_type_of, decode_body,
  read_response, read_sent, send, robots_verdict, can_fetch, fetch, is_ssrf_risk,
  allowed_content_types,
}
use db_collector_os.Fetching.Client.Guard.{IsSafe, unsafe_target}

-- A status that is given to the extraction: not one that the code names, and no server error.
pub record IsPlain (status : ℕ) : Type 0 where
  pub not_modified : status ≢ 304
  pub limited : status ≢ 429
  pub forbidden : status ≢ 403
  pub missing : status ≢ 404
  pub server : status < 500

contains_any-Has :
    (ps : List String) (s : String)
    → contains_any ps s ≡ true
    → (p : String) × Has p ps × (contains p s ≡ true)
unfolding contains_any
contains_any-Has [] s h = absurd (cc h)
contains_any-Has (p ∷ ps) s h = elim (Bool-cases (contains p s)) [
  | inl e ↦ (p, inl refl, e)
  | inr e ↦ let (q, m, c) = contains_any-Has ps s (rw e at h) in (q, inr m, c)
]

contains_any-none :
    (ps : List String) (s : String)
    → contains_any ps s ≡ false
    → (p : String) → Has p ps
    → contains p s ≡ false
unfolding contains_any
contains_any-none [] s h p m = absurd m
contains_any-none (q ∷ ps) s h p m = elim (Bool-cases (contains q s)) [
  | inl e ↦ absurd (cc (rw e at h))
  | inr e ↦ elim m [ inl f ↦ rw f e | inr k ↦ contains_any-none ps s (rw e at h) p k ]
]

starts_with_any-none :
    (ps : List String) (s : String)
    → starts_with_any ps s ≡ false
    → (p : String) → Has p ps
    → starts_with p s ≡ false
unfolding starts_with_any
starts_with_any-none [] s h p m = absurd m
starts_with_any-none (q ∷ ps) s h p m = elim (Bool-cases (starts_with q s)) [
  | inl e ↦ absurd (cc (rw e at h))
  | inr e ↦ elim m [ inl f ↦ rw f e | inr k ↦ starts_with_any-none ps s (rw e at h) p k ]
]

module _ (net : Net) where
  -- A mark of a block page is in the first 5000 characters.
  abbrev pub HasMark : String → Type 0
  HasMark text =
      (m : String) × Has m captcha_markers × (contains m (net.lower (take_text 5000 text)) ≡ true)

  -- Why a fetch failed.
  pub data Failure (engine : FetchEngine) (url : String) (allowed : Bool) (answer : Sent)
      : Type 0 where
    unsafe : ¬ IsSafe net engine url → Failure engine url allowed answer
    disallowed : engine.respect_robots ≡ true → allowed ≡ false → Failure engine url allowed answer
    timeout : (urls : List String) → answer ≡ timed_out urls → Failure engine url allowed answer
    no_response :
        (urls : List String) (e : String)
        → answer ≡ request_error urls e
        → Failure engine url allowed answer
    redirected :
        (r : Response)
        → answer ≡ response r
        → engine.max_redirects < length r.history
        → Failure engine url allowed answer
    status :
        (r : Response)
        → answer ≡ response r
        → ((r.status_code ≡ 429) ⊎ (r.status_code ≡ 404)) ⊎ (500 ≤ r.status_code)
        → Failure engine url allowed answer
    wrong_type :
        (r : Response)
        → answer ≡ response r
        → content_type_of net r ≢ ""
        → ((t : String)
            → Has t allowed_content_types
            → starts_with t (content_type_of net r) ≡ false)
        → Failure engine url allowed answer

  -- What the result may be for the answer to the request, where `allowed` is what robots.txt says.
  pub data Verdict (engine : FetchEngine) (url : String) (allowed : Bool) (answer : Sent)
      (f : FetchResult) : Type 0 where
    fresh :
        (r : Response)
        → answer ≡ response r
        → IsPlain r.status_code
        → ¬ HasMark (decode_body net r)
        → f.ok ≡ true
        → f.blocked ≡ false
        → f.http_status ≡ some r.status_code
        → f.content ≡ some (decode_body net r)
        → f.content_hash ≡ some (net.sha256 (decode_body net r))
        → Verdict engine url allowed answer f
    unchanged :
        (r : Response)
        → answer ≡ response r
        → r.status_code ≡ 304
        → f.ok ≡ true
        → f.blocked ≡ false
        → f.http_status ≡ some 304
        → f.content ≡ none
        → Verdict engine url allowed answer f
    blocked_page :
        (r : Response)
        → answer ≡ response r
        → (r.status_code ≡ 403) ⊎ (IsPlain r.status_code × HasMark (decode_body net r))
        → f.ok ≡ false
        → f.blocked ≡ true
        → f.http_status ≡ some r.status_code
        → Verdict engine url allowed answer f
    failed :
        (message : String)
        → Failure engine url allowed answer
        → f.ok ≡ false
        → f.blocked ≡ false
        → f.content ≡ none
        → f.error ≡ some message
        → Verdict engine url allowed answer f

  marked : (text : String) → is_captcha net text ≡ true → HasMark text
  unfolding is_captcha
  marked text h = contains_any-Has captcha_markers (net.lower (take_text 5000 text)) h

  unmarked : (text : String) → is_captcha net text ≡ false → ¬ HasMark text
  unfolding is_captcha
  unmarked text h (m, k, c) =
      cc (c, contains_any-none captcha_markers (net.lower (take_text 5000 text)) h m k)

  module _ (engine : FetchEngine) (url : String) (allowed : Bool) where
    body-Verdict :
        (content_type : String) (r : Response)
        → IsPlain r.status_code
        → Verdict engine url allowed
            (response r)
            (body_result net url r content_type (decode_body net r))
    unfolding body_result
    body-Verdict content_type r plain =
        if-intro (Verdict engine url allowed (response r)) (is_captcha net (decode_body net r)) _ _
          (λ c. blocked_page r refl (inr (plain, marked (decode_body net r) c)) refl refl refl)
          (λ c. fresh r refl plain (unmarked (decode_body net r) c) refl refl refl refl refl)

    typed-Verdict :
        (r : Response)
        → IsPlain r.status_code
        → Verdict engine url allowed (response r) (typed_result net url r (content_type_of net r))
    unfolding typed_result
    typed-Verdict r plain =
        let t = content_type_of net r in
        if-intro (Verdict engine url allowed (response r))
          (not (t == "") && not (starts_with_any allowed_content_types t)) _ _
          (λ h.
            failed _
              (wrong_type r refl (λ e. ground (arith, h, (eq_iff t "").1 e))
                (starts_with_any-none allowed_content_types t (ground (arith, h))))
              refl refl refl refl)
          (λ _. body-Verdict t r plain)

    response-Verdict :
        (now : ℕ) (r : Response)
        → Verdict engine url allowed (response r) (read_response net engine now url r)
    unfolding read_response
    response-Verdict now r =
        let V = Verdict engine url allowed (response r) in
        let gone : ((r.status_code ≡ 429) ⊎ (r.status_code ≡ 404)) ⊎ (500 ≤ r.status_code)
            → Failure engine url allowed (response r) =
          status r refl in
        if-intro V (ltb engine.max_redirects (length r.history)) _ _
          (λ h. failed _ (redirected r refl (ground arith)) refl refl refl refl)
          (λ _.
            if-intro V (r.status_code =? 304) _ _
              (λ h. unchanged r refl (ground arith) refl refl refl refl)
              (λ h304.
                if-intro V (r.status_code =? 429) _ _
                  (λ h. failed _ (gone (inl (inl (ground arith)))) refl refl refl refl)
                  (λ h429.
                    if-intro V (r.status_code =? 403) _ _
                      (λ h.
                        let e : r.status_code ≡ 403 = ground arith in
                        blocked_page r refl (inl e) refl refl (rw e refl))
                      (λ h403.
                        if-intro V (r.status_code =? 404) _ _
                          (λ h. failed _ (gone (inl (inr (ground arith)))) refl refl refl refl)
                          (λ h404.
                            if-intro V (leb 500 r.status_code) _ _
                              (λ h. failed _ (gone (inr (ground arith))) refl refl refl refl)
                              (λ h500. typed-Verdict r (record {
                                not_modified = λ e. ground arith;
                                limited = λ e. ground arith;
                                forbidden = λ e. ground arith;
                                missing = λ e. ground arith;
                                server = ground arith;
                              })))))))

    sent-Verdict :
        (now : ℕ) (s : Sent) → Verdict engine url allowed s (read_sent net engine now url s)
    unfolding read_sent
    sent-Verdict now (response r) = response-Verdict now r
    sent-Verdict now (timed_out urls) = failed _ (timeout urls refl) refl refl refl refl
    sent-Verdict now (request_error urls e) = failed _ (no_response urls e refl) refl refl refl refl

    robots_answer :
        (now : ℕ) (etag last_modified : Option String) (r : Bool × (Cache × List Request))
        → (r.0 ≡ false → (engine.respect_robots ≡ true) × (allowed ≡ false))
        → Verdict engine url allowed
            (net.get url (header net etag) (header net last_modified))
            (robots_verdict net engine now url etag last_modified r).0
    unfolding robots_verdict send
    robots_answer now etag last_modified (false, rest) h =
        let (on, refusal) = h refl in failed _ (disallowed on refusal) refl refl refl refl
    robots_answer now etag last_modified (true, (cache, sent)) h =
        sent-Verdict now (net.get url (header net etag) (header net last_modified))

  -- Every fetch ends in one of four ways. The page of the answer is handed on with its text and the
  -- text's hash only if its status is none of 304, 403, 404, 429 and below 500 and the text shows no
  -- mark of a block page; an answer of status 304 is a success with no text; the result is blocked
  -- only for an answer of status 403 or a text with such a mark; any other result is a failure with
  -- an error message and no text, for a target that the guard refuses or robots.txt disallows, no
  -- answer, too many redirects, status 404, 429 or from 500 on, or a content type that is not
  -- allowed.
  pub fetch-Verdict :
      (engine : FetchEngine) (now : ℕ) (url : String) (etag last_modified : Option String)
      (cache : Cache)
      → Verdict engine url
          (can_fetch net url cache).0
          (net.get url (header net etag) (header net last_modified))
          (fetch net engine now url etag last_modified cache).0
  unfolding fetch
  fetch-Verdict engine now url etag last_modified cache =
      let allowed = (can_fetch net url cache).0 in
      let V =
        Verdict engine url allowed (net.get url (header net etag) (header net last_modified)) in
      if-intro (λ (r : FetchResult × (Cache × List Request)). V r.0)
        (is_ssrf_risk net url engine.allow_private_networks) _ _
        (λ h. failed _ (unsafe (unsafe_target net engine url h)) refl refl refl refl)
        (λ _.
          if-intro
            (λ (r : Bool × (Cache × List Request)).
              V (robots_verdict net engine now url etag last_modified r).0)
            engine.respect_robots (can_fetch net url cache) (true, (cache, []))
            (λ on.
              robots_answer engine url allowed now etag last_modified (can_fetch net url cache)
                (λ refusal. (on, refusal)))
            (λ _.
              robots_answer engine url allowed now etag last_modified (true, (cache, []))
                (λ refusal. cc refusal)))
