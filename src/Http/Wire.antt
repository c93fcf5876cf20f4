-- ===== src/Http/Wire.antt =====
-- The request line on the wire in src/http_client.cpp: MakeVerbatimTargetHeaderWriter, which puts
-- the composed line back after httplib has rewritten its query, and ToHexDump. httplib's buffer is an
-- argument; the headers that it writes afterwards are not touched.
pub mod Verbatim
use datazoo_oauth.Base.{
  ℕ, ◌+◌, ◌-◌, ◌/◌, ◌%◌, Bool, ◌&&◌, ◌||◌, List, [], ◌∷◌, ◌++◌, Bytes, codes, length, take, drop,
  get_or, take_until, starts_with, eqb, ltb, ◌==◌, if◌then◌else◌,
}
use datazoo_oauth.Base.Decimal.{to_string}

-- " HTTP/1.1\r\n"
abbrev pub http_version_suffix : Bytes
http_version_suffix = codes " HTTP/1.1" ++ (13 ∷ 10 ∷ [])

unfoldable pub request_line : Bytes → Bytes → Bytes
request_line method target = method ++ (b' ' ∷ (target ++ http_version_suffix))

unfoldable pub expected_prefix : Bytes → Bytes → Bytes
expected_prefix method target = method ++ (b' ' ∷ take_until (λ c. c == b'?') target)

-- `compare(size() - suffix.size(), suffix.size(), suffix) == 0`
ends_with : Bytes → Bytes → Bool
ends_with suffix s = eqb (drop (length s - length suffix) s) suffix

is_untouched_request_line : Bytes → Bytes → Bool
unfolding ends_with
is_untouched_request_line prefix buffer =
    ltb (length prefix + length http_version_suffix) (length buffer)
    && (starts_with prefix buffer
        && ((get_or buffer (length prefix) 0 == b'?' || get_or buffer (length prefix) 0 == b' ')
            && ends_with http_version_suffix buffer))

-- The buffer after the header writer has run.
unfoldable pub write_verbatim_target : Bytes → Bytes → Bytes → Bytes
unfolding is_untouched_request_line request_line expected_prefix
write_verbatim_target method target buffer =
    if is_untouched_request_line (expected_prefix method target) buffer
    then request_line method target
    else buffer

abbrev hex_digit : ℕ → ℕ
hex_digit n = if ltb n 10 then b'0' + n else b'a' + (n - 10)

hex_bytes : Bytes → Bytes
hex_bytes [] = []
hex_bytes (c ∷ s) = hex_digit (c / 16) ∷ hex_digit (c % 16) ∷ b' ' ∷ hex_bytes s

-- At most `max_bytes` bytes are shown.
unfoldable pub to_hex_dump : Bytes → ℕ → Bytes
unfolding hex_bytes
to_hex_dump s max_bytes =
    hex_bytes (take max_bytes s)
    ++ (if ltb max_bytes (length s)
        then codes "... (" ++ (to_string (length s - max_bytes) ++ codes " more bytes)")
        else [])
