-- ===== src/Http/Url/Origin.antt =====
-- The origin of a URL, and what may be put on a request line.
use datazoo_oauth.Base.{
  ℕ, ◌<◌, ◌≡◌, ◌≢◌, ◌↔◌, true, [], ◌∷◌, ◌++◌, Bytes, All, all, eqb_iff, &&_iff, to_lower, arith,
}
use datazoo_oauth.Http.Url.{
  HttpUrl, is_same_origin, effective_port, is_wire_safe_target, to_scheme_host_and_port,
  to_path_query, wire_safe,
}

-- Scheme and host in lower case, and the port with the scheme's default.
abbrev pub origin : HttpUrl → Bytes × Bytes × Bytes
origin u = (to_lower u.scheme, to_lower u.host, effective_port u.scheme u.port)

-- Two URLs pass `IsSameOrigin` exactly when they have one origin.
pub is_same_origin_iff : (u v : HttpUrl) → (is_same_origin u v ≡ true) ↔ (origin u ≡ origin v)
unfolding is_same_origin
is_same_origin_iff u v = ground (
  arith,
  eqb_iff (to_lower u.scheme) (to_lower v.scheme),
  eqb_iff (to_lower u.host) (to_lower v.host),
  eqb_iff (effective_port u.scheme u.port) (effective_port v.scheme v.port),
)

-- No control character and no space.
abbrev pub IsWireSafe : ℕ → Type 0
IsWireSafe c = (0x20 < c) × (c ≢ 0x7f)

all-All : (s : Bytes) → all wire_safe s ≡ true → All IsWireSafe s
all-All [] h = tt
all-All (c ∷ s) h =
    let (hc, hs) = (&&_iff (wire_safe c) (all wire_safe s)).0 h in (ground arith, all-All s hs)

-- A URL that passes `IsWireSafeTarget` puts no control character and no space on the request line
-- or into the Host header.
pub is_wire_safe_target-All :
    (u : HttpUrl)
    → is_wire_safe_target u ≡ true
    → All IsWireSafe (to_scheme_host_and_port u ++ to_path_query u)
unfolding is_wire_safe_target
is_wire_safe_target-All u h = all-All (to_scheme_host_and_port u ++ to_path_query u) h
