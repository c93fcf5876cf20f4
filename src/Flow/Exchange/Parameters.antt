-- ===== src/Flow/Exchange/Parameters.antt =====
-- The encoded parameters of a body as a form in the sense of the redaction.
use datazoo_oauth.Base.{◌≡◌, refl, ap, List, [], ◌∷◌, ◌++◌, map, Bytes, All}
use datazoo_oauth.Encoding.{url_encode}
use datazoo_oauth.Encoding.Form.{url_encode-HasNoMark}
use datazoo_oauth.Encoding.Query.{encode_tail, encode_pairs, IsPair}
use datazoo_oauth.Http.Redaction.Form.{form_tail, form, IsParameter}

abbrev pub encoded_pair : Bytes × Bytes → Bytes × Bytes
encoded_pair (k, v) = (url_encode k, url_encode v)

pub encoded_pair-IsParameter : (p : Bytes × Bytes) → IsPair p → IsParameter (encoded_pair p)
encoded_pair-IsParameter (k, v) (hk, hv) = (url_encode-HasNoMark k hk, url_encode-HasNoMark v hv)

pub encoded_pairs-IsParameter :
    (ps : List (Bytes × Bytes)) → All IsPair ps → All IsParameter (map encoded_pair ps)
encoded_pairs-IsParameter [] h = tt
encoded_pairs-IsParameter (p ∷ ps) (hp, hps) =
    (encoded_pair-IsParameter p hp, encoded_pairs-IsParameter ps hps)

encode_tail-form : (ps : List (Bytes × Bytes)) → encode_tail ps ≡ form_tail [] (map encoded_pair ps)
unfolding encode_tail
encode_tail-form [] = refl
encode_tail-form ((k, v) ∷ ps) =
    ap (λ t. b'&' ∷ (url_encode k ++ (b'=' ∷ (url_encode v ++ t)))) (encode_tail-form ps)

pub encode_pairs-form :
    (p : Bytes × Bytes) (ps : List (Bytes × Bytes))
    → encode_pairs p ps ≡ form (encoded_pair p) (map encoded_pair ps)
unfolding encode_pairs
encode_pairs-form (k, v) ps =
    ap (λ t. url_encode k ++ (b'=' ∷ (url_encode v ++ t))) (encode_tail-form ps)
