-- ===== src/Http/Repro/Alike.antt =====
-- The command for requests that differ in secrets only.
use datazoo_oauth.Base.{◌≡◌, refl, subst, Bool, [], ◌∷◌, ◌++◌, Bytes, codes, if◌then◌else◌}
use datazoo_oauth.Http.Headers.{HeaderMap}
use datazoo_oauth.Http.Headers.Credentials.{AlikeHeaders, redact_header_value-alike}
use datazoo_oauth.Http.Message.{HttpRequest}
use datazoo_oauth.Http.Repro.{
  quoted, map_entry, map_entries, headers_map, sql_repro, takes_body, positional_args,
}

map_entry-alike : (hs ks : HeaderMap) → AlikeHeaders hs ks → map_entries hs ≡ map_entries ks
unfolding map_entries map_entry
map_entry-alike [] [] h = refl
map_entry-alike [] (k ∷ ks) h = elim h [ ]
map_entry-alike (k ∷ hs) [] h = elim h [ ]
map_entry-alike ((n, v) ∷ hs) ((m, w) ∷ ks) (same, value, h) =
    subst (λ m. map_entries ((n, v) ∷ hs) ≡ map_entries ((m, w) ∷ ks)) same
      (λ i.
        codes ", "
        ++ ((quoted n ++ (codes ": " ++ quoted (redact_header_value-alike n v w value i)))
            ++ map_entry-alike hs ks h i))

headers_map-alike : (hs ks : HeaderMap) → AlikeHeaders hs ks → headers_map hs ≡ headers_map ks
unfolding headers_map map_entry
headers_map-alike [] [] h = refl
headers_map-alike [] (k ∷ ks) h = elim h [ ]
headers_map-alike (k ∷ hs) [] h = elim h [ ]
headers_map-alike ((n, v) ∷ hs) ((m, w) ∷ ks) (same, value, h) =
    subst (λ m. headers_map ((n, v) ∷ hs) ≡ headers_map ((m, w) ∷ ks)) same
      (λ i.
        codes "MAP{"
        ++ ((quoted n ++ (codes ": " ++ quoted (redact_header_value-alike n v w value i)))
            ++ (map_entry-alike hs ks h i ++ codes "}")))

positional_args-alike :
    (redact_body : Bytes → Bytes) (r : HttpRequest) (content url : Bytes)
    → redact_body r.content ≡ redact_body content
    → positional_args redact_body r url
      ≡ positional_args redact_body (record r { content = content }) url
unfolding positional_args
positional_args-alike redact_body r content url e = λ i.
    if takes_body r.method
    then quoted url ++ (codes ", " ++ (quoted (e i) ++ (codes ", " ++ quoted r.content_type)))
    else quoted url

-- The command is the same where the headers are alike and the redacted bodies are equal.
pub sql_repro-alike :
    (redact_body : Bytes → Bytes) (r : HttpRequest) (hs ks : HeaderMap) (content : Bytes)
    (url_encode : Bool)
    → AlikeHeaders hs ks
    → redact_body r.content ≡ redact_body content
    → sql_repro redact_body r hs url_encode
      ≡ sql_repro redact_body (record r { headers = ks; content = content }) ks url_encode
unfolding sql_repro
sql_repro-alike redact_body r hs ks content url_encode h e =
    rw (headers_map-alike hs ks h) (rw (positional_args-alike redact_body r content _ e) refl)
