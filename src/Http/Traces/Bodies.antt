-- ===== src/Http/Traces/Bodies.antt =====
-- Bodies that the traces show alike.
use datazoo_oauth.Base.{ℕ, ◌≡◌, ap, subst, sym, ◌⊎◌, inl, inr, List, Bytes, length, take, All}
use datazoo_oauth.Http.Redaction.{redact_body}
use datazoo_oauth.Http.Redaction.Members.{Member, plain, json, IsMember, IsStart}
use datazoo_oauth.Http.Redaction.Json.{done}
use datazoo_oauth.Http.Redaction.Members.Alike.{
  AlikeMembers, length-json-alike, redact_body-json-alike, redact_body-take-json,
}

-- Two bodies of one length that are shown alike, whole and cut.
pub record ShownAlike (c d : Bytes) : Type 0 where
  pub size : length c ≡ length d
  pub whole : redact_body c ≡ redact_body d
  pub cuts : (k : ℕ) → redact_body (take k c) ≡ redact_body (take k d)

-- Two JSON bodies that differ in the values of sensitive members only.
pub record AlikeJson (c d : Bytes) : Type 0 where
  pub start : Bytes
  pub left : List Member
  pub right : List Member
  pub is_left : c ≡ json start left (plain done)
  pub is_right : d ≡ json start right (plain done)
  pub start_IsStart : IsStart start
  pub left_IsMember : All IsMember left
  pub right_IsMember : All IsMember right
  pub alike : AlikeMembers left right

abbrev pub AlikeBodies : Bytes → Bytes → Type 0
AlikeBodies c d = (c ≡ d) ⊎ AlikeJson c d

pub AlikeBodies-shown : (c d : Bytes) → AlikeBodies c d → ShownAlike c d
AlikeBodies-shown c d (inl e) = record {
  size = ap length e;
  whole = ap redact_body e;
  cuts = λ k. ap (λ s. redact_body (take k s)) e;
}
AlikeBodies-shown c d (inr h) =
    subst (λ s. ShownAlike s d) (sym h.is_left)
      (subst (λ s. ShownAlike (json h.start h.left (plain done)) s) (sym h.is_right)
        (record {
          size =
              length-json-alike h.start h.left h.right h.start_IsStart h.left_IsMember
                h.right_IsMember h.alike;
          whole =
              redact_body-json-alike h.start h.left h.right h.start_IsStart h.left_IsMember
                h.right_IsMember h.alike;
          cuts =
              redact_body-take-json h.start h.left h.right h.start_IsStart h.left_IsMember
                h.right_IsMember h.alike;
        }))
