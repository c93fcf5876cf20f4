-- ===== src/Tests/Paths.antt =====
-- Merged paths, secrets and rows at concrete inputs.
use datazoo_oauth.Base.{
  All, contains, starts_with, arith, err, runtime_error, to_lower, ℕ, Result, ◌≡◌, refl, true,
  false, Option, none, some, List, [], ◌∷◌, ◌++◌, Bytes, codes, eqb, io_exception, ok,
}
use datazoo_oauth.Http.Url.{is_same_origin, is_wire_safe_target, merge_with_base_url_if_relative}
use datazoo_oauth.Http.Url.Origin.{origin}
use datazoo_oauth.Http.Client.{
  default_params, Network, responded, send_request, round, is_redirect_status, redirected,
}
use datazoo_oauth.Http.Client.Relative.{IsRelative, send_request_relative}
use datazoo_oauth.Http.Paths.{
  is_absolute, parts, names_of, append_all, lexically_normal, overlap, merge_paths, parent_path,
}
use datazoo_oauth.Http.Paths.Overlap.{SharesMost, merge_paths_lem}
use datazoo_oauth.Http.Message.{same_method, HttpRequest, HttpResponse, HttpAuthParams, get}
use datazoo_oauth.Http.Secrets.{Secret, SecretManager}
use datazoo_oauth.Http.Url
use datazoo_oauth.Http.Message
use datazoo_oauth.Http.Rows.{
  Values, no_values, more, varchar, integer, struct, Members, content_to_return, new_varchar,
  create_header_map, duckdb_response_type, duckdb_response_names, to_value, to_row,
}
use datazoo_oauth.Http.Rows.Typing.{
  HasType, Shows, names_of as member_names, values_of, header_map, to_value-HasType,
}
use datazoo_oauth.Tests.Network.{here, with_token}

-- A base and a relative path that overlap in one name.
merge_paths-runs : merge_paths (codes "/a/b") (codes "b/./c") ≡ codes "/a/b/c"
unfolding merge_paths lexically_normal append_all overlap parts eqb
merge_paths-runs = refl

merge_paths-runs_up : merge_paths (codes "/a/b/") (codes "../c/") ≡ codes "/a/c/"
unfolding merge_paths lexically_normal append_all overlap parts eqb
merge_paths-runs_up = refl

-- The last name of the base stays.
merge_paths-runs_file : merge_paths (codes "/a/b") (codes "c") ≡ codes "/a/b/c"
unfolding merge_paths lexically_normal append_all overlap parts eqb
merge_paths-runs_file = refl

pop_path-runs : parent_path (codes "/a//b") ≡ codes "/a"
unfolding parent_path names_of
pop_path-runs = refl

merge_paths_example :
    (is_absolute (codes "b/c") ≡ true
      → merge_paths (codes "/a/b") (codes "b/c") ≡ lexically_normal (codes "b/c"))
    × (is_absolute (codes "b/c") ≡ false
        → (shared : List Bytes) × (rest : List Bytes) × SharesMost
            (parts (codes "/a/b"))
            (parts (codes "b/c"))
            shared
          × (parts (codes "b/c") ≡ shared ++ rest)
          × (merge_paths (codes "/a/b") (codes "b/c")
              ≡ lexically_normal (append_all (append_all [] (parts (codes "/a/b"))) rest)))
merge_paths_example = merge_paths_lem (codes "/a/b") (codes "b/c")

-- A basic and a bearer secret for every URL.
abbrev lookup : Bytes → Bytes → Option Secret
lookup url kind = some (λ name. some (codes "x"))

abbrev manager : SecretManager
manager = record { lookup_secret = lookup; missing = λ name. io_exception name }

abbrev basic : HttpAuthParams
basic = record { basic_credentials = some (codes "x", codes "x"); bearer_token = none }

abbrev answer : HttpResponse
answer = record {
  method = get;
  url = here;
  code = 200;
  headers = (codes "Server", codes "s") ∷ [];
  content_type = codes "text/plain";
  content = codes "ok";
}

abbrev row_of_answer : Values
row_of_answer = more (varchar (codes "GET")) (
    more (integer 200) (
      more (varchar (Url.to_string here)) (
        more (header_map answer)
          (more (varchar (codes "text/plain")) (more (varchar (codes "ok")) no_values)))))

to_value-HasType_example :
    (shown : Bytes) × (members : Members) × (content_to_return
        (λ s. s)
        (λ kind s. ok s)
        (codes "text/plain")
        (codes "ok")
      ≡ ok shown)
    × Shows answer shown row_of_answer
    × (to_value (λ s. ok tt) (record answer { content = shown }) ≡ ok (struct members))
    × (member_names members ≡ duckdb_response_names)
    × (values_of members ≡ row_of_answer)
    × HasType duckdb_response_type (struct members)
unfolding to_row create_header_map new_varchar content_to_return contains starts_with
    Message.to_string
to_value-HasType_example =
    to_value-HasType (λ s. ok tt) (λ s. s) (λ kind s. ok s) answer row_of_answer refl

-- The first answer redirects to a path beside the request's, the second is final.
abbrev redirecting_beside : Network
redirecting_beside ℕ.zero r = responded (record {
  status = 302;
  headers = [];
  content_type = [];
  body = [];
  location = some (codes "c");
})
redirecting_beside (ℕ.suc n) r =
    responded
      (record { status = 200; headers = []; content_type = []; body = codes "ok"; location = none })

redirecting_beside-IsRelative : IsRelative redirecting_beside
unfolding contains starts_with
redirecting_beside-IsRelative ℕ.zero r res l e there =
    let location : res.location ≡ some (codes "c") = ground arith in
    let same : l ≡ codes "c" = ground arith in rw same refl
redirecting_beside-IsRelative (ℕ.suc n) r res l e there = absurd (ground arith)

abbrev beside : Option (List HttpRequest × Result HttpResponse)
beside = send_request default_params merge_paths redirecting_beside with_token

abbrev sent_of :
    Option (List HttpRequest × Result HttpResponse) → List HttpRequest × Result HttpResponse
sent_of none = ([], err (runtime_error []))
sent_of (some out) = out

beside-some : beside ≡ some ((sent_of beside).0, (sent_of beside).1)
unfolding send_request round is_redirect_status redirected merge_with_base_url_if_relative
    is_wire_safe_target contains starts_with same_method is_same_origin eqb to_lower merge_paths
    lexically_normal append_all overlap parts
beside-some = refl

send_request_relative_example :
    All (λ x. (origin x.url ≡ origin here) × (x.headers ≡ with_token.headers)) (sent_of beside).0
send_request_relative_example =
    send_request_relative merge_paths redirecting_beside redirecting_beside-IsRelative
      default_params with_token (sent_of beside).0 (sent_of beside).1 beside-some
