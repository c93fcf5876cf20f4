-- ===== src/Http/Repro.antt =====
-- HttpRequest::Execute in src/http_client.cpp: the SQL command of DuckDB that it writes into the
-- trace to reproduce a request. The redaction of the body is an argument.
pub mod Literal
pub mod Alike
use datazoo_oauth.Base.{
  ℕ, Bool, true, false, List, [], ◌∷◌, ◌++◌, Bytes, codes, ◌==◌, if◌then◌else◌,
}
use datazoo_oauth.Http.Url.{to_scheme_host_and_port, to_path_query}
use datazoo_oauth.Http.Headers.{HeaderMap, redact_header_value}
use datazoo_oauth.Http.Message.{
  HttpMethod, get, post, put, patch, delete, head, to_string, HttpRequest,
}

-- The single quote.
abbrev pub quote : ℕ
quote = 39

unfoldable pub escape_sql : Bytes → Bytes
escape_sql [] = []
escape_sql (c ∷ s) = (if c == quote then quote ∷ quote ∷ [] else c ∷ []) ++ escape_sql s

-- A literal with its quotes.
unfoldable pub quoted : Bytes → Bytes
unfolding escape_sql
quoted s = quote ∷ (escape_sql s ++ (quote ∷ []))

map_entry : Bytes × Bytes → Bytes
map_entry (name, value) = quoted name ++ (codes ": " ++ quoted (redact_header_value name value))

map_entries : HeaderMap → Bytes
unfolding map_entry
map_entries [] = []
map_entries (h ∷ hs) = codes ", " ++ (map_entry h ++ map_entries hs)

headers_map : HeaderMap → Bytes
unfolding map_entry map_entries
headers_map [] = codes "MAP{}"
headers_map (h ∷ hs) = codes "MAP{" ++ (map_entry h ++ (map_entries hs ++ codes "}"))

func_name : HttpMethod → Bytes
func_name get = codes "http_get"
func_name head = codes "http_head"
func_name post = codes "http_post"
func_name put = codes "http_put"
func_name patch = codes "http_patch"
func_name delete = codes "http_delete"
func_name method = to_string method

-- Whether the function takes the body and its type.
takes_body : HttpMethod → Bool
takes_body post = true
takes_body put = true
takes_body patch = true
takes_body delete = true
takes_body method = false

positional_args : (Bytes → Bytes) → HttpRequest → Bytes → Bytes
unfolding takes_body
positional_args redact_body r absolute_url =
    if takes_body r.method
    then quoted absolute_url
      ++ (codes ", " ++ (quoted (redact_body r.content) ++ (codes ", " ++ quoted r.content_type)))
    else quoted absolute_url

-- `httplib_headers` are the request's headers as httplib's multimap.
unfoldable pub sql_repro : (Bytes → Bytes) → HttpRequest → HeaderMap → Bool → Bytes
unfolding headers_map func_name positional_args
sql_repro redact_body r httplib_headers url_encode =
    codes "SELECT * FROM "
    ++ (func_name r.method
        ++ (codes "("
            ++ (positional_args redact_body r (to_scheme_host_and_port r.url ++ to_path_query r.url)
                ++ (codes ", headers := "
                    ++ (headers_map httplib_headers
                        ++ (codes ", url_encode := "
                            ++ ((if url_encode then codes "true" else codes "false")
                                ++ codes ");")))))))
