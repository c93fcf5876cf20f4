-- ===== src/SecretManager/Json.antt =====
-- yyjson as the code uses it. A value is only looked at through these functions.
use datazoo_oauth.Base.{Bool, Option, Bytes}
use datazoo_oauth.Base.Int.{ℤ}

pub record Yyjson : Type 1 where
  pub Value : Type 0
  -- The root of the document, if the text parses and is not empty.
  pub read : Bytes → Option Value
  pub is_obj : Value → Bool
  -- The first value of a key, if the value is an object that has it.
  pub obj_get : Value → Bytes → Option Value
  -- The text, if the value is a string.
  pub get_str : Value → Option Bytes
  pub is_int : Value → Bool
  pub is_num : Value → Bool
  pub get_int : Value → ℤ
