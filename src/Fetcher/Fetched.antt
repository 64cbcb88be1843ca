-- ===== src/Fetcher/Fetched.antt =====
-- What `Fetch` returns.
use oafse.Common.{
  ℕ, arith, ◌≡◌, ◌≢◌, ◌⊎◌, String, true, false, eq_iff, Option, none, some, refl, Bool-cases,
  Option-cases, inl, inr, subst, sym, ap, ◌∙◌, not, ◌||◌, str_eq,
}
use oafse.Common.Go.{GoResult, ok, err, panic, Error}
use oafse.Domain.Url.{Url, NetUrl, new_url_from_parsed}
use oafse.Port.Fetch.{FetchStatus, FetchData, classify_status}
use oafse.Fetcher.{
  Response, Tools, is_text, is_spa, on_response, with_final, fetch, read_body, if_text, sniffed,
  on_class,
}

-- The codes of each status, as lists of numbers.
abbrev pub IsCodeOf : FetchStatus → ℕ → Type 0
IsCodeOf FetchStatus.fetch_ok code = code ≡ 200
IsCodeOf FetchStatus.fetch_retry code =
    (code ≡ 408) ⊎ (code ≡ 429) ⊎ (code ≡ 500) ⊎ (code ≡ 502) ⊎ (code ≡ 503) ⊎ (code ≡ 504)
IsCodeOf FetchStatus.fetch_manual code = (code ≡ 400) ⊎ (code ≡ 401) ⊎ (code ≡ 411)
IsCodeOf FetchStatus.fetch_impossible code =
    (code ≢ 200)
    × (code ≢ 400)
    × (code ≢ 401)
    × (code ≢ 408)
    × (code ≢ 411)
    × (code ≢ 429)
    × (code ≢ 500)
    × (code ≢ 502)
    × (code ≢ 503)
    × (code ≢ 504)

classify_status-IsCodeOf : (code : ℕ) → IsCodeOf (classify_status code) code
unfolding classify_status
classify_status-IsCodeOf code = ground arith

module _ (net : NetUrl) (tools : Tools) (u : Url) where
  -- The content type names one of the three texts.
  abbrev pub IsTextType : String → Type 0
  IsTextType content_type =
      (tools.contains content_type "text/plain" ≡ true)
      ⊎ (tools.contains content_type "text/html" ≡ true)
      ⊎ (tools.contains content_type "text/markdown" ≡ true)

  is_text-IsTextType :
      (content_type : String) → is_text net tools content_type ≡ true → IsTextType content_type
  is_text-IsTextType content_type h = ground (arith, h)

  -- The content type is the header's, which is set and forbids sniffing, or the sniffed one.
  abbrev pub IsTypeOf : Response → String → Type 0
  IsTypeOf resp content_type =
      ((resp.content_type ≢ "")
        × (resp.content_type_options ≡ "nosniff")
        × (content_type ≡ resp.content_type))
      ⊎ (((resp.content_type ≡ "") ⊎ (resp.content_type_options ≢ "nosniff"))
          × ((bytes : String) × (resp.preview ≡ some bytes)
              × (content_type ≡ tools.detect_media_type bytes)))

  -- The text is the body, or what the browser shows where the body looks like an SPA.
  abbrev pub IsRawOf : Response → String → Type 0
  IsRawOf resp raw =
      (body : String) × (resp.body ≡ some body)
      × (((is_spa net tools body ≡ false) × (raw ≡ body))
          ⊎ ((is_spa net tools body ≡ true) × (tools.outer_html (net.string u.url) ≡ some raw)))

  -- The fields of a result, by its status.
  abbrev pub Fetched : Response → FetchData → FetchStatus → Type 0
  Fetched resp fd FetchStatus.fetch_ok =
      (fd.url ≡ some u)
      × ((final : Url) × (fd.final_url ≡ some final)
          × (new_url_from_parsed net resp.request_url ≡ some final))
      × IsTextType fd.content_type
      × IsTypeOf resp fd.content_type
      × IsRawOf resp fd.raw
  Fetched resp fd _ =
      (fd.url ≡ none) × (fd.final_url ≡ none) × (fd.content_type ≡ "") × (fd.raw ≡ "")

  -- A result for this status, or an error.
  abbrev Sound : Response → FetchStatus → GoResult FetchData → Type 0
  Sound resp status (ok fd) = (fd.status ≡ status) × Fetched resp fd status
  Sound resp status (err e) = Unit
  Sound resp status panic = Unit

  module _ (resp : Response) (final : Url)
      (h : new_url_from_parsed net resp.request_url ≡ some final) where
    read_body-Sound :
        (content_type : String) (body : Option String)
        → is_text net tools content_type ≡ true
        → IsTypeOf resp content_type
        → resp.body ≡ body
        → Sound resp FetchStatus.fetch_ok (read_body net tools u (some final) content_type body)
    unfolding fetch is_spa
    read_body-Sound content_type none k typed e = tt
    read_body-Sound content_type (some page) k typed e = elim (Bool-cases (is_spa net tools page)) [
      | inr plain ↦ rw plain (
        refl,
        (
          refl,
          (final, refl, h),
          is_text-IsTextType content_type k,
          typed,
          (page, e, inl (plain, refl)),
        ),
      )
      | inl spa ↦ rw spa (elim (Option-cases (tools.outer_html (net.string u.url))) [
        | inl gone ↦ rw gone tt
        | inr (html, shown) ↦ rw shown (
          refl,
          (
            refl,
            (final, refl, h),
            is_text-IsTextType content_type k,
            typed,
            (page, e, inr (spa, shown)),
          ),
        )
      ])
    ]

    if_text-Sound :
        (content_type : String) (body : Option String)
        → IsTypeOf resp content_type
        → resp.body ≡ body
        → Sound resp FetchStatus.fetch_ok (if_text net tools u (some final) content_type body)
    if_text-Sound content_type body typed e = elim (Bool-cases (is_text net tools content_type)) [
      | inl text ↦ rw text (read_body-Sound content_type body text typed e)
      | inr binary ↦ rw binary tt
    ]

    trusted :
        (str_eq resp.content_type "" || not (str_eq resp.content_type_options "nosniff")) ≡ false
        → IsTypeOf resp resp.content_type
    trusted e =
        ground (arith, e, eq_iff resp.content_type "", eq_iff resp.content_type_options "nosniff")

    detected :
        (bytes : String)
        → resp.preview ≡ some bytes
        → (str_eq resp.content_type "" || not (str_eq resp.content_type_options "nosniff")) ≡ true
        → IsTypeOf resp (tools.detect_media_type bytes)
    detected bytes peeked e = inr (
      ground (arith, e, eq_iff resp.content_type "", eq_iff resp.content_type_options "nosniff"),
      (bytes, peeked, refl),
    )

    sniffed-Sound :
        (preview : Option String)
        → resp.preview ≡ preview
        → Sound resp FetchStatus.fetch_ok (sniffed net tools u (some final) resp preview)
    sniffed-Sound preview e =
        elim (Bool-cases
          (str_eq resp.content_type "" || not (str_eq resp.content_type_options "nosniff"))) [
            | inr trust ↦ rw trust (if_text-Sound resp.content_type resp.body (trusted trust) refl)
            | inl sniff ↦ rw sniff (sniffed_preview sniff preview e)
          ]
      where
        sniffed_preview :
            (str_eq resp.content_type "" || not (str_eq resp.content_type_options "nosniff")) ≡ true
            → (preview : Option String) → resp.preview ≡ preview
            → Sound resp FetchStatus.fetch_ok (elim preview [
              | none ↦ err Error.transport
              | some bytes ↦
                  if_text net tools u (some final) (tools.detect_media_type bytes) resp.body
            ])
        sniffed_preview sniff none e = tt
        sniffed_preview sniff (some bytes) e =
            if_text-Sound (tools.detect_media_type bytes) resp.body (detected bytes e sniff) refl

    on_class-Sound :
        (status : FetchStatus) → Sound resp status (on_class net tools u (some final) resp status)
    on_class-Sound FetchStatus.fetch_ok = sniffed-Sound resp.preview refl
    on_class-Sound FetchStatus.fetch_impossible = (refl, (refl, refl, refl, refl))
    on_class-Sound FetchStatus.fetch_retry = (refl, (refl, refl, refl, refl))
    on_class-Sound FetchStatus.fetch_manual = (refl, (refl, refl, refl, refl))

  response-Fetched :
      (o : Option Response) (fd : FetchData)
      → on_response net tools u o ≡ ok fd
      → (resp : Response) × (o ≡ some resp)
        × (fd.status ≡ classify_status resp.status_code)
        × Fetched resp fd (classify_status resp.status_code)
  response-Fetched none fd e = absurd (cc)
  response-Fetched (some resp) fd e =
      elim (Option-cases (new_url_from_parsed net resp.request_url)) [
        | inl bad ↦ absurd (cc)
        | inr (final, good) ↦
            let status = classify_status resp.status_code in
            let same : on_class net tools u (some final) resp status ≡ ok fd =
              sym (ap (λ o. with_final net tools u resp o) good) ∙ e in
            let sound =
              subst (λ g. Sound resp status g) same (on_class-Sound resp final good status) in
            (resp, refl, sound.0, sound.1)
      ]

  -- Where `Fetch` returns no error, there was a response, and the status of the result is ok for the
  -- code 200 only, retry for 408, 429, 500, 502, 503 and 504, manual for 400, 401 and 411, and
  -- impossible for any other code. If it is ok, the result has the URL that was asked for and the
  -- URL that answered, not nil; a content type that contains text/plain, text/html or
  -- text/markdown, which is the header's where that is set and sniffing is forbidden, and else the
  -- one detected in the preview; and the body, or the browser's HTML for a body that looks like an
  -- SPA. Otherwise both URLs are nil, and both texts empty.
  pub fetch-ok :
      (fd : FetchData)
      → fetch net tools u ≡ ok fd
      → (resp : Response) × (tools.send (net.string u.url) ≡ some resp)
        × IsCodeOf fd.status resp.status_code
        × Fetched resp fd fd.status
  unfolding fetch
  fetch-ok fd e =
      let (resp, answered, status, sound) = response-Fetched (tools.send (net.string u.url)) fd e in
      (
        resp,
        answered,
        subst (λ c. IsCodeOf c resp.status_code) (sym status)
            (classify_status-IsCodeOf resp.status_code),
        subst (λ c. Fetched resp fd c) (sym status) sound,
      )
