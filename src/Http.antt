-- ===== src/Http.antt =====
-- Which addresses of artifacts may be published: src/http.rs. URLs are those of the url library.
use conda_ship.Prelude.{
  ℕ, zero, suc, ◌+◌, ◌/◌, ◌%◌, ◌<◌, Bool, true, false, not, ◌&&◌, ◌||◌, Option, none, some, List,
  [], ◌∷◌, ◌++◌, Text, Bytes, codes, length, is_empty, is_some, nat_eq, ltb, split_on, ◌==◌,
  list_eq, number_eq, if◌then◌else◌, ◌≡◌, ◌↔◌, ◌⊎◌, inl, inr, refl, sym, ◌∙◌, ap, arith, Bool-cases,
  ==-refl, ==-eq,
}
use conda_ship.Fs.Failure.{unparsable, has_credentials, has_query}
use conda_ship.Fs.Checked.{Checked, accepted, rejected, ◌>>=◌, ◌>>◌, require, need}

pub record Url : Type 0 where
  pub scheme : Text
  pub username : Text
  pub password : Option Text
  pub query : Option Text
  pub fragment : Option Text

-- `url` and `percent_encoding`: decoding replaces three bytes by one, or changes nothing.
pub record UrlLibrary : Type 0 where
  pub parse_channel : Text → Option Url
  pub percent_decode : Bytes → Bytes
  pub length-percent_decode :
      (b : Bytes) → (percent_decode b ≡ b) ⊎ (length (percent_decode b) < length b)

-- `str::as_bytes`, the UTF-8 form.
utf8_char : ℕ → Bytes
utf8_char c =
    if ltb c 0x80
    then c ∷ []
    else if ltb c 0x800
    then (0xC0 + c / 64) ∷ (0x80 + c % 64) ∷ []
    else if ltb c 0x10000
    then (0xE0 + c / 4096) ∷ (0x80 + c / 64 % 64) ∷ (0x80 + c % 64) ∷ []
    else (0xF0 + c / 262144) ∷ (0x80 + c / 4096 % 64) ∷ (0x80 + c / 64 % 64) ∷ (0x80 + c % 64) ∷ []

unfoldable pub as_bytes : Text → Bytes
unfolding utf8_char
as_bytes [] = []
as_bytes (c ∷ s) = utf8_char c ++ as_bytes s

is_separator : ℕ → Bool
is_separator b = nat_eq b b'/' || nat_eq b b'\\'

-- A segment that follows a segment `t`: what some channels take for a token.
unfoldable pub shows_token : Bytes → List Bytes → Bool
shows_token previous [] = false
shows_token previous (segment ∷ rest) =
    ((previous == codes "t") && not (is_empty segment)) || shows_token segment rest

unfoldable pub has_token : Bytes → Bool
unfolding is_separator shows_token
has_token path = shows_token [] (split_on is_separator path)

unfoldable pub is_https_downgrade : Url → Url → Bool
is_https_downgrade previous next =
    (previous.scheme == codes "https") && not (next.scheme == codes "https")

module _ (urls : UrlLibrary) where
  -- The loop over the decodings of the path; `none` where the fuel ends.
  unfoldable pub check_path : ℕ → Bytes → Option (Checked (Unit {0}))
  unfolding has_token
  check_path zero path = none
  check_path (suc fuel) path =
      let decoded = urls.percent_decode path in
      let rest = check_path fuel decoded in
      if has_token path
      then some (rejected has_credentials)
      else if decoded == path
      then some (accepted tt)
      else rest

  check_url : Option Url → Checked (Unit {0})
  check_url parsed = do
    url ← need parsed unparsable
    require (is_empty url.username && not (is_some url.password)) has_credentials
    require (not (is_some url.query) && not (is_some url.fragment)) has_query

  after_url : Checked (Unit {0}) → Option (Checked (Unit {0})) → Option (Checked (Unit {0}))
  after_url (rejected e) rest = some (rejected e)
  after_url (accepted _) rest = rest

  unfoldable pub validate_artifact_url : Text → Option (Checked (Unit {0}))
  unfolding check_url after_url check_path as_bytes
  validate_artifact_url value =
      after_url (check_url (urls.parse_channel value))
        (check_path (suc (length (as_bytes value))) (as_bytes value))

  -- The path after `n` decodings.
  unfoldable pub decoded_times : ℕ → Bytes → Bytes
  decoded_times zero path = path
  decoded_times (suc n) path = decoded_times n (urls.percent_decode path)

  -- An address that shows no token however often its text is decoded.
  pub record IsPublishable (value : Text) : Type 0 where
    pub url : Url
    pub parsed : urls.parse_channel value ≡ some url
    pub no_username : is_empty url.username ≡ true
    pub no_password : is_some url.password ≡ false
    pub no_query : is_some url.query ≡ false
    pub no_fragment : is_some url.fragment ≡ false
    pub no_token : (n : ℕ) → has_token (decoded_times n (as_bytes value)) ≡ false

  fixed : (n : ℕ) (path : Bytes) → urls.percent_decode path ≡ path → decoded_times n path ≡ path
  unfolding decoded_times
  fixed zero path h = refl
  fixed (suc n) path h = rw h (fixed n path h)

  Clean : Bytes → Option (Checked (Unit {0})) → Type 0
  Clean path r =
      ((r ≡ some (accepted tt)) × ((n : ℕ) → has_token (decoded_times n path) ≡ false))
      ⊎ ((r ≡ some (rejected has_credentials))
          × ((n : ℕ) × (has_token (decoded_times n path) ≡ true)))

  check_path-Clean :
      (fuel : ℕ) (path : Bytes) → length path < fuel → Clean path (check_path fuel path)
  unfolding Clean check_path decoded_times
  check_path-Clean zero path h = absurd (omega arith)
  check_path-Clean (suc fuel) path h = elim (Bool-cases (has_token path)) [
    | inl e ↦ inr (rw e refl, (0, e))
    | inr e ↦ rw e (elim (Bool-cases (urls.percent_decode path == path)) [
      | inl same ↦ rw same (inl (refl, λ n. ap has_token (fixed n path (==-eq _ path same)) ∙ e))
      | inr differs ↦ rw differs (elim (urls.length-percent_decode path) [
        | inl same ↦ absurd (cc (differs, ap (λ x. x == path) same, ==-refl path))
        | inr shorter ↦ elim (check_path-Clean fuel (urls.percent_decode path) (omega arith)) [
          | inl (r, clean) ↦ inl (r, later path e clean)
          | inr (r, (n, token)) ↦ inr (r, (suc n, token))
        ]
      ])
    ])
  ]
    where
      later :
          (path : Bytes)
          → has_token path ≡ false
          → ((n : ℕ) → has_token (decoded_times n (urls.percent_decode path)) ≡ false)
          → (n : ℕ) → has_token (decoded_times n path) ≡ false
      later path e clean zero = e
      later path e clean (suc n) = clean n

  module _ (value : Text) (url : Url) (e : urls.parse_channel value ≡ some url) where
    -- What is published has the parts of the parsed address.
    parts :
        IsPublishable value
        → (is_empty url.username ≡ true)
          × (is_some url.password ≡ false)
          × (is_some url.query ≡ false)
          × (is_some url.fragment ≡ false)
    parts k =
        let same : k.url ≡ url = cc (e, k.parsed) in
        rw (sym same) (k.no_username, k.no_password, k.no_query, k.no_fragment)

    judge :
        (p : Option (Checked (Unit {0})))
        → Clean (as_bytes value) p
        → (a : Bool) → is_empty url.username ≡ a
        → (b : Bool) → is_some url.password ≡ b
        → (c : Bool) → is_some url.query ≡ c
        → (d : Bool) → is_some url.fragment ≡ d
        → (r : Checked (Unit {0})) × (after_url
              (require (a && not b) has_credentials >> require (not c && not d) has_query)
              p
            ≡ some r)
          × ((r ≡ accepted tt) ↔ IsPublishable value)
    unfolding after_url Clean
    judge p h false ea b eb c ec d ed =
        (rejected has_credentials, refl, (λ x. absurd (cc x), λ k. absurd (cc (ea, (parts k).0))))
    judge p h true ea true eb c ec d ed =
        (rejected has_credentials, refl, (λ x. absurd (cc x), λ k. absurd (cc (eb, (parts k).1))))
    judge p h true ea false eb true ec d ed =
        (rejected has_query, refl, (λ x. absurd (cc x), λ k. absurd (cc (ec, (parts k).2))))
    judge p h true ea false eb false ec true ed =
        (rejected has_query, refl, (λ x. absurd (cc x), λ k. absurd (cc (ed, (parts k).3))))
    judge p (inl (r, clean)) true ea false eb false ec false ed = (
      accepted tt,
      r,
      (
        λ _. record {
          url = url;
          parsed = e;
          no_username = ea;
          no_password = eb;
          no_query = ec;
          no_fragment = ed;
          no_token = clean;
        },
        λ _. refl,
      ),
    )
    judge p (inr (r, (n, token))) true ea false eb false ec false ed =
        (rejected has_credentials, r, (λ x. absurd (cc x), λ k. absurd (cc (token, k.no_token n))))

  -- The check of an address always ends, and it accepts exactly the addresses that parse, that have
  -- no user, password, query or fragment, and whose text shows no token segment however many times
  -- it is decoded.
  pub validate_artifact_url-IsPublishable :
      (value : Text)
      → (r : Checked (Unit {0})) × (validate_artifact_url value ≡ some r)
        × ((r ≡ accepted tt) ↔ IsPublishable value)
  unfolding validate_artifact_url check_url Clean
  validate_artifact_url-IsPublishable value =
      sort (urls.parse_channel value) refl
        (check_path (suc (length (as_bytes value))) (as_bytes value))
        (check_path-Clean (suc (length (as_bytes value))) (as_bytes value) (omega arith))
    where
      sort :
          (o : Option Url)
          → urls.parse_channel value ≡ o
          → (p : Option (Checked (Unit {0}))) → Clean (as_bytes value) p
          → (r : Checked (Unit {0})) × (after_url (check_url o) p ≡ some r)
            × ((r ≡ accepted tt) ↔ IsPublishable value)
      sort none e p h =
          (rejected unparsable, refl, (λ x. absurd (cc x), λ k. absurd (cc (e, k.parsed))))
      sort (some url) e p h =
          judge value url e p h (is_empty url.username) refl (is_some url.password) refl
            (is_some url.query) refl (is_some url.fragment) refl
