-- ===== src/Mcp/Encoding/Injective.antt =====
-- No two header values are encoded alike.

use text.Mathlib.TextLemmas.{
  append_assoc, append_cancel_left, append_cancel_right, nil-append, cons-append,
}
use text.Mathlib.TextPositions.{eq_refl}
use agent_verification_proto.Base.{
  String, true, false, ◌≡◌, refl, sym, ap, subst, some, ◌∙◌, inl, inr, Bool-cases, arith,
}
use agent_verification_proto.Base.Text.{◌<>◌, strip_prefix}
use agent_verification_proto.Mcp.Encoding.{
  ends_with, matches_sentinel, is_plain, encode_mcp_header_value, sentinel_prefix, sentinel_suffix,
}

ends_with_self : (suffix : String) → ends_with suffix suffix ≡ true
unfolding ends_with
ends_with_self String.[] = eq_refl String.[]
ends_with_self (String.◌∷◌ c s) = ground (arith, eq_refl (String.◌∷◌ c s))

ends_with-append : (s suffix : String) → ends_with suffix (s <> suffix) ≡ true
unfolding ends_with
ends_with-append String.[] suffix = rw (nil-append suffix) (ends_with_self suffix)
ends_with-append (String.◌∷◌ c s) suffix =
    rw (cons-append c s suffix) (ground (arith, ends_with-append s suffix))

strip_prefix-append : (p s : String) → strip_prefix p (p <> s) ≡ some s
strip_prefix-append String.[] s = ap some (nil-append s)
strip_prefix-append (String.◌∷◌ c p) s =
    rw (cons-append c p s) (ground (arith, strip_prefix-append p s))

refused : (s : String) → matches_sentinel s ≡ true → is_plain s ≡ false
refused s h = ground (arith, h)

-- What is encoded matches the sentinel, so it is no plain value.
is_plain-sentinel : (s : String) → is_plain (sentinel_prefix <> (s <> sentinel_suffix)) ≡ false
is_plain-sentinel s =
    let text = sentinel_prefix <> (s <> sentinel_suffix) in
    let starts : strip_prefix sentinel_prefix text ≡ some (s <> sentinel_suffix) =
      strip_prefix-append sentinel_prefix (s <> sentinel_suffix) in
    let ends : ends_with sentinel_suffix text ≡ true =
      subst (λ u. ends_with sentinel_suffix u ≡ true)
        (append_assoc sentinel_prefix s sentinel_suffix)
        (ends_with-append (sentinel_prefix <> s) sentinel_suffix) in
    refused text (rw starts ends)

module _ (base64_utf8 : String → String) where
  encode_plain : (s : String) → is_plain s ≡ true → encode_mcp_header_value base64_utf8 s ≡ s
  unfolding encode_mcp_header_value
  encode_plain s p = rw p refl

  encode_other :
      (s : String)
      → is_plain s ≡ false
      → encode_mcp_header_value base64_utf8 s
        ≡ sentinel_prefix <> (base64_utf8 s <> sentinel_suffix)
  unfolding encode_mcp_header_value
  encode_other s p = rw p refl

  apart :
      (s t : String)
      → is_plain s ≡ true
      → is_plain t ≡ false
      → encode_mcp_header_value base64_utf8 s ≡ encode_mcp_header_value base64_utf8 t
      → s ≡ t
  apart s t p q e =
      let same : s ≡ sentinel_prefix <> (base64_utf8 t <> sentinel_suffix) =
        sym (encode_plain s p) ∙ e ∙ encode_other t q in
      let wrong : true ≡ false = sym p ∙ ap is_plain same ∙ is_plain-sentinel (base64_utf8 t) in
      absurd (ground (arith, wrong))

-- If Base64 gives different texts for different values, so do the encoded header values: a plain value
-- is never taken for an encoded one.
pub encode_mcp_header_value-injective :
    (base64_utf8 : String → String)
    → ((s t : String) → base64_utf8 s ≡ base64_utf8 t → s ≡ t)
    → (s t : String) → encode_mcp_header_value base64_utf8 s ≡ encode_mcp_header_value base64_utf8 t
    → s ≡ t
encode_mcp_header_value-injective base64_utf8 inj s t e =
    elim (Bool-cases (is_plain s)) as (λ _. s ≡ t) [
      | inl p ↦ elim (Bool-cases (is_plain t)) [
        | inl q ↦ sym (encode_plain base64_utf8 s p) ∙ e ∙ encode_plain base64_utf8 t q
        | inr q ↦ apart base64_utf8 s t p q e
      ]
      | inr p ↦ elim (Bool-cases (is_plain t)) [
        | inl q ↦ sym (apart base64_utf8 t s q p (sym e))
        | inr q ↦ inj s t (
            append_cancel_right (base64_utf8 s) (base64_utf8 t) sentinel_suffix (
              append_cancel_left sentinel_prefix (base64_utf8 s <> sentinel_suffix)
                (base64_utf8 t <> sentinel_suffix)
                (sym (encode_other base64_utf8 s p) ∙ e ∙ encode_other base64_utf8 t q)))
      ]
    ]
